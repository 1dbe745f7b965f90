-- ===== src/Safety.antt =====
-- packages/core/src/safety/safety-manager.ts: the preconditions of a write, the permit, its check
-- and the audit log. Times are in ms; a voltage is what a JavaScript number can be in a comparison
-- with the minimum: not a number, below zero, or a number of millivolts. A reason is the data that
-- its text is built from. A field that may be missing at run time is an Option, also where its type
-- does not say so, as the source's own tests for `undefined` do.
pub mod Preconditions
pub mod Permits
use yes_you_can.Prelude.{
  ℕ, zero, suc, ◌+◌, ◌-◌, ◌*◌, ◌/◌, ◌%◌, ◌^◌, ◌≤◌, ◌<◌, min, max, ◌≡◌, refl, sym, ap, ◌∙◌, ◌≢◌, ◌↔◌,
  ◌⊎◌, inl, inr, Bool, true, false, not, ◌&&◌, ◌||◌, Option, none, some, List, [], ◌∷◌, ◌++◌, map,
  append_assoc, append-nil, arith, ltb, leb, ◌==◌, if◌then◌else◌, if_cases, ==_iff, ==_refl, leb→le,
  ltb→lt, Bool-cases, Option-cases, get_some_or, is_none, length, get_or, take, drop, replicate,
  flatten, length-append, take-append-drop, length-take, length-drop, length-replicate, take-append,
  drop-append, take_all, drop_all, includes, All, All-append,
}
use yes_you_can.Text.{Text, eq_text}

pub data Reading : Type 0 where
  not_a_number : Reading
  below_zero : Reading
  millivolts : ℕ → Reading

pub record VehicleState : Type 0 where
  pub stationary : Option Bool
  pub battery_voltage : Option Reading
  pub ignition_on : Option Bool
  pub parking_brake : Option Bool

pub record NetworkPreconditions : Type 0 where
  pub tls_active : Option Bool
  pub routing_activation_ok : Option Bool
  pub unauthorized_devices_in_segment : Option Bool

pub data RiskLevel : Type 0 where
  low medium high : RiskLevel

pub record WriteRequestContext : Type 0 where
  pub ecu_id : Text
  pub ecu_name : Text
  pub expected_ecu_type : Option Text
  pub actual_ecu_type : Option Text
  pub expected_software_variant : Option Text
  pub actual_software_variant : Option Text
  pub definition_version : Option Text
  pub risk : RiskLevel
  pub user_confirmed : Bool
  pub backup_available : Bool
  pub active_session_type : Option ℕ
  pub network : Option NetworkPreconditions

-- What a reason is about.
pub data Reason : Type 0 where
  stationary : Reason
  voltage : Reason
  ignition : Reason
  brake : Reason
  ecu_type : Reason
  software_variant : Reason
  no_definition_version : Reason
  no_backup : Reason
  not_confirmed : Reason
  session : Reason
  tls : Reason
  routing : Reason
  unauthorized_devices : Reason

-- One entry of `failed`: a violated precondition, or one that is not proven.
pub data Finding : Type 0 where
  violated : Reason → Finding
  not_proven : Reason → Finding

pub data Warning : Type 0 where
  high_risk : Warning

pub record SafetyCheckResult : Type 0 where
  pub ok : Bool
  pub failed : List Finding
  pub unproven : List Finding
  pub warnings : List Warning

pub record SafetyManager : Type 0 where
  pub min_battery_millivolts : ℕ
  pub permit_ttl_ms : ℕ

abbrev pub default_min_battery_millivolts : ℕ
default_min_battery_millivolts = 12000

abbrev pub default_permit_ttl_ms : ℕ
default_permit_ttl_ms = 60000

-- A flag that has to be reported and true.
unfoldable pub check_flag : Reason → Option Bool → List Finding
check_flag reason none = not_proven reason ∷ []
check_flag reason (some true) = []
check_flag reason (some false) = violated reason ∷ []

-- `batteryVoltage < min`: false for a number that is none.
unfoldable pub is_below : Reading → ℕ → Bool
is_below not_a_number least = false
is_below below_zero least = true
is_below (millivolts v) least = ltb v least

unfoldable pub check_voltage : ℕ → Option Reading → List Finding
unfolding is_below
check_voltage least none = not_proven voltage ∷ []
check_voltage least (some reading) = if is_below reading least then violated voltage ∷ [] else []

unfoldable pub needs_brake : RiskLevel → Bool
needs_brake low = false
needs_brake medium = true
needs_brake high = true

unfoldable pub check_brake : RiskLevel → Option Bool → List Finding
unfolding needs_brake check_flag
check_brake risk flag = if needs_brake risk then check_flag brake flag else []

-- The ECU type and the software variant: what the definition expects, and what was read.
unfoldable pub check_match : Reason → Option Text → Option Text → List Finding
check_match reason none actual = []
check_match reason (some expected) none = not_proven reason ∷ []
check_match reason (some expected) (some actual) =
    if eq_text expected actual then [] else violated reason ∷ []

-- `!context.definitionVersion`: the empty text counts as none.
unfoldable pub check_version : Option Text → List Finding
check_version none = violated no_definition_version ∷ []
check_version (some []) = violated no_definition_version ∷ []
check_version (some (c ∷ cs)) = []

unfoldable pub check_set : Reason → Bool → List Finding
check_set reason true = []
check_set reason false = violated reason ∷ []

unfoldable pub check_session : Option ℕ → List Finding
check_session none = not_proven session ∷ []
check_session (some type) = if type == 0x01 then violated session ∷ [] else []

unfoldable pub check_devices : Option Bool → List Finding
check_devices none = []
check_devices (some false) = []
check_devices (some true) = violated unauthorized_devices ∷ []

unfoldable pub check_network : Option NetworkPreconditions → List Finding
unfolding check_flag check_devices
check_network none = []
check_network (some network) =
    check_flag tls network.tls_active
    ++ check_flag routing network.routing_activation_ok
    ++ check_devices network.unauthorized_devices_in_segment

-- `failed`, in the order of the source.
unfoldable pub findings : SafetyManager → WriteRequestContext → VehicleState → List Finding
unfolding check_flag check_voltage check_brake check_match check_version check_set check_session
    check_network
findings manager context state =
    check_flag stationary state.stationary
    ++ check_voltage manager.min_battery_millivolts state.battery_voltage
    ++ check_flag ignition state.ignition_on
    ++ check_brake context.risk state.parking_brake
    ++ check_match ecu_type context.expected_ecu_type context.actual_ecu_type
    ++ check_match software_variant context.expected_software_variant
        context.actual_software_variant
    ++ check_version context.definition_version
    ++ check_set no_backup context.backup_available
    ++ check_set not_confirmed context.user_confirmed
    ++ check_session context.active_session_type
    ++ check_network context.network

-- The entries that `notProven` makes are in both lists.
unfoldable pub unproven_of : List Finding → List Finding
unproven_of [] = []
unproven_of (violated reason ∷ fs) = unproven_of fs
unproven_of (not_proven reason ∷ fs) = not_proven reason ∷ unproven_of fs

abbrev pub no_findings : List Finding → Bool
no_findings [] = true
no_findings (f ∷ fs) = false

unfoldable pub warnings_of : RiskLevel → List Warning
warnings_of low = []
warnings_of medium = []
warnings_of high = high_risk ∷ []

unfoldable pub evaluate : SafetyManager → WriteRequestContext → VehicleState → SafetyCheckResult
unfolding findings unproven_of warnings_of
evaluate manager context state =
    let failed = findings manager context state in
    record {
      ok = no_findings failed;
      failed = failed;
      unproven = unproven_of failed;
      warnings = warnings_of context.risk;
    }

pub record WritePermit : Type 0 where
  pub id : Text
  pub issued_at : ℕ
  pub ecu_id : Text
  pub risk : RiskLevel
  pub checks : SafetyCheckResult
  pub expires_at : ℕ

pub data WriteResult : Type 0 where
  success write_failed rolled_back : WriteResult

-- `action` and `detail` of an audit entry.
pub data AuditAction : Type 0 where
  permit_denied : List Finding → List Finding → AuditAction
  permit_issued : RiskLevel → Text → AuditAction
  write_result : WriteResult → Text → AuditAction

pub record AuditEntry : Type 0 where
  pub timestamp : ℕ
  pub action : AuditAction
  pub ecu_id : Text

pub data SafetyViolation : Type 0 where
  refused : Text → List Finding → SafetyViolation
  different_ecu : SafetyViolation
  permit_expired : SafetyViolation

-- `recordAudit` at the time `now`, on the audit log.
unfoldable pub record_audit : ℕ → AuditAction → Text → List AuditEntry → List AuditEntry
record_audit now action ecu_id log =
    log ++ (record { timestamp = now; action = action; ecu_id = ecu_id } ∷ [])

-- `requestPermit` at the time `now`; `id` is what `createId` returns.
unfoldable pub request_permit :
    SafetyManager
    → ℕ
    → Text
    → WriteRequestContext
    → VehicleState
    → List AuditEntry
    → (SafetyViolation ⊎ WritePermit) × List AuditEntry
unfolding evaluate record_audit
request_permit manager now id context state log =
    let checks = evaluate manager context state in
    if checks.ok
    then (
      inr (record {
        id = id;
        issued_at = now;
        ecu_id = context.ecu_id;
        risk = context.risk;
        checks = checks;
        expires_at = now + manager.permit_ttl_ms;
      }),
      record_audit now (permit_issued context.risk id) context.ecu_id log,
    )
    else (
      inl (refused context.ecu_name checks.failed),
      record_audit now (permit_denied checks.failed checks.unproven) context.ecu_id log,
    )

-- `verifyPermit` at the time `now`: what it throws.
unfoldable pub verify_permit : ℕ → WritePermit → Text → Option SafetyViolation
verify_permit now permit ecu_id =
    if not (eq_text permit.ecu_id ecu_id)
    then some different_ecu
    else if ltb permit.expires_at now
    then some permit_expired
    else none

unfoldable pub record_result :
    ℕ → WritePermit → WriteResult → Option Text → List AuditEntry → List AuditEntry
unfolding record_audit
record_result now permit result detail log =
    record_audit now (write_result result (get_some_or detail permit.id)) permit.ecu_id log
