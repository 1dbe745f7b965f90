-- ===== src/Session.antt =====
-- packages/protocols/uds/src/session-state.ts, with the constants of services.ts and nrc.ts: the
-- session state machine of an ECU. A call takes its time `at` as an argument, which is `at ?? now()`
-- of the source; times are in ms. The text of a refusal is the data that it is built from.
pub mod Shipped
pub mod Services
pub mod Trace
use yes_you_can.Prelude.{
  ℕ, zero, suc, ◌+◌, ◌-◌, ◌*◌, ◌/◌, ◌%◌, ◌^◌, ◌≤◌, ◌<◌, min, max, ◌≡◌, refl, sym, ap, ◌∙◌, ◌≢◌, ◌↔◌,
  ◌⊎◌, inl, inr, Bool, true, false, not, ◌&&◌, ◌||◌, Option, none, some, List, [], ◌∷◌, ◌++◌, map,
  append_assoc, append-nil, arith, ltb, leb, ◌==◌, if◌then◌else◌, if_cases, ==_iff, ==_refl, leb→le,
  ltb→lt, Bool-cases, Option-cases, get_some_or, is_none, length, get_or, take, drop, replicate,
  flatten, length-append, take-append-drop, length-take, length-drop, length-replicate, take-append,
  drop-append, take_all, drop_all, includes, All, All-append,
}
use yes_you_can.Text.{Text, codes}

pub record UdsTiming : Type 0 where
  pub p2_ms : ℕ
  pub p2_star_ms : ℕ
  pub s3_ms : ℕ

abbrev pub default_uds_timing : UdsTiming
default_uds_timing = record { p2_ms = 50; p2_star_ms = 5000; s3_ms = 5000 }

pub record SessionDefinition : Type 0 where
  pub type : ℕ
  pub name : Text
  pub from : List ℕ
  pub services : Option (List ℕ)
  pub p2 : Option ℕ
  pub p2_star : Option ℕ
  pub s3 : Option ℕ

-- `SESSION`
abbrev pub session_default : ℕ
session_default = 0x01

abbrev pub session_programming : ℕ
session_programming = 0x02

abbrev pub session_extended : ℕ
session_extended = 0x03

abbrev pub sub_function_not_supported : ℕ
sub_function_not_supported = 0x12

abbrev pub conditions_not_correct : ℕ
conditions_not_correct = 0x22

abbrev pub service_not_supported_in_active_session : ℕ
service_not_supported_in_active_session = 0x7f

-- DiagnosticSessionControl, ECUReset, TesterPresent
abbrev pub always_available_services : List ℕ
always_available_services = 0x10 ∷ 0x11 ∷ 0x3e ∷ []

-- ReadDataByIdentifier, ReadDTCInformation
abbrev pub read_services : List ℕ
read_services = 0x22 ∷ 0x19 ∷ []

-- ClearDiagnosticInformation, SecurityAccess, WriteDataByIdentifier,
-- InputOutputControlByIdentifier, RoutineControl, ControlDTCSetting
abbrev pub write_services : List ℕ
write_services = 0x14 ∷ 0x27 ∷ 0x2e ∷ 0x2f ∷ 0x31 ∷ 0x85 ∷ []

abbrev pub known_session_types : List ℕ
known_session_types = session_default ∷ session_extended ∷ session_programming ∷ []

-- `Map.set`: a key that is there keeps its place.
unfoldable pub put : SessionDefinition → List SessionDefinition → List SessionDefinition
put d [] = d ∷ []
put d (e ∷ es) = let rest = put d es in if e.type == d.type then d ∷ es else e ∷ rest

-- `new Map(options.sessions.map(…))`
unfoldable pub put_all : List SessionDefinition → List SessionDefinition → List SessionDefinition
unfolding put
put_all [] table = table
put_all (d ∷ ds) table = put_all ds (put d table)

-- `Map.get`
unfoldable pub find : ℕ → List SessionDefinition → Option SessionDefinition
find type [] = none
find type (e ∷ es) = let rest = find type es in if e.type == type then some e else rest

-- The fields of the machine that never change.
pub record Policy : Type 0 where
  pub definitions : List SessionDefinition
  pub default_type : ℕ
  pub default_definition : SessionDefinition
  pub implemented : List ℕ
  pub fallback_timing : UdsTiming

-- The fields that change.
pub record Machine : Type 0 where
  pub current : SessionDefinition
  pub last_activity_at : ℕ
  pub unlocked_level : ℕ

-- What the constructor throws.
pub data SessionError : Type 0 where
  no_sessions : SessionError
  default_not_defined : ℕ → SessionError

abbrev types_of : List SessionDefinition → List ℕ
types_of table = map (λ (d : SessionDefinition). d.type) table

unfoldable pub types : Policy → List ℕ
types policy = types_of policy.definitions

-- The constructor behind the lookup of the default session.
unfoldable pub construct_with :
    List SessionDefinition
    → ℕ
    → List ℕ
    → UdsTiming
    → ℕ
    → Option SessionDefinition
    → SessionError ⊎ (Policy × Machine)
construct_with table default_type implemented timing at none =
    inl (default_not_defined default_type)
construct_with table default_type implemented timing at (some d) = inr (
  record {
    definitions = table;
    default_type = default_type;
    default_definition = d;
    implemented = implemented;
    fallback_timing = timing;
  },
  record { current = d; last_activity_at = at; unlocked_level = 0 },
)

-- The constructor; `timing` is the merged record.
unfoldable pub construct :
    List SessionDefinition
    → Option ℕ
    → Option (List ℕ)
    → UdsTiming
    → ℕ
    → SessionError ⊎ (Policy × Machine)
unfolding put_all find construct_with
construct [] default_session services timing at = inl no_sessions
construct (d ∷ ds) default_session services timing at =
    let table = put_all (d ∷ ds) [] in
    let default_type = get_some_or default_session session_default in
    construct_with table default_type (get_some_or services []) timing at (find default_type table)

unfoldable pub p2_ms_of : Policy → Machine → ℕ
p2_ms_of policy m = get_some_or m.current.p2 policy.fallback_timing.p2_ms

unfoldable pub p2_star_ms_of : Policy → Machine → ℕ
p2_star_ms_of policy m = get_some_or m.current.p2_star policy.fallback_timing.p2_star_ms

unfoldable pub s3_ms_of : Policy → Machine → ℕ
s3_ms_of policy m = get_some_or m.current.s3 policy.fallback_timing.s3_ms

unfoldable pub is_unlocked : Machine → Bool
is_unlocked m = not (m.unlocked_level == 0)

unfoldable pub unlock : ℕ → Machine → Machine
unlock level m = record m { unlocked_level = level }

unfoldable pub lock : Machine → Machine
lock m = record m { unlocked_level = 0 }

-- `SessionTransition`; the reason and the NRC of a refusal go together.
pub data Reason : Type 0 where
  not_defined : ℕ → List ℕ → Reason
  not_from : ℕ → List ℕ → ℕ → Reason

pub record Transition : Type 0 where
  pub ok : Bool
  pub session_type : ℕ
  pub switched : Bool
  pub reason : Option Reason
  pub nrc : Option ℕ

abbrev pub refused : ℕ → Reason → ℕ → Transition
refused type reason nrc = record {
  ok = false;
  session_type = type;
  switched = false;
  reason = some reason;
  nrc = some nrc;
}

-- `request` behind the lookup of the session that is asked for
unfoldable pub enter : Policy → ℕ → ℕ → Option SessionDefinition → Machine → Machine × Transition
unfolding types
enter policy type at none m =
    (m, refused m.current.type (not_defined type (types policy)) sub_function_not_supported)
enter policy type at (some d) m =
    let switched = not (type == m.current.type) in
    if switched && not (includes d.from m.current.type)
    then (m, refused m.current.type (not_from type d.from m.current.type) conditions_not_correct)
    else (
      record {
        current = d;
        last_activity_at = at;
        unlocked_level = if switched then 0 else m.unlocked_level;
      },
      record { ok = true; session_type = type; switched = switched; reason = none; nrc = none },
    )

unfoldable pub request : Policy → ℕ → ℕ → Machine → Machine × Transition
unfolding find enter
request policy type at m = enter policy type at (find type policy.definitions) m

-- The second component is the session that was left. The lookup of `require` cannot fail: the
-- constructor has made it.
unfoldable pub reset : Policy → ℕ → Machine → Machine × ℕ
reset policy at m = (
  record { current = policy.default_definition; last_activity_at = at; unlocked_level = 0 },
  m.current.type,
)

unfoldable pub activity : ℕ → Machine → Machine
activity at m = record m { last_activity_at = at }

pub record Expiry : Type 0 where
  pub expired : Bool
  pub left : ℕ
  pub entered : ℕ

-- `now - lastActivityAt < s3Ms`, without the subtraction.
unfoldable pub tick : Policy → ℕ → Machine → Machine × Expiry
unfolding reset s3_ms_of
tick policy now m =
    let type = m.current.type in
    if type == policy.default_type || ltb now (m.last_activity_at + s3_ms_of policy m)
    then (m, record { expired = false; left = type; entered = type })
    else (
      (reset policy now m).0,
      record { expired = true; left = type; entered = policy.default_type },
    )

-- `serviceRefusal`, by the services of the active session
unfoldable pub refusal_in : Option (List ℕ) → ℕ → Option ℕ
refusal_in none service = none
refusal_in (some allowed) service =
    if includes allowed service then none else some service_not_supported_in_active_session

unfoldable pub service_refusal : Policy → ℕ → Machine → Option ℕ
unfolding refusal_in
service_refusal policy service m =
    if not (includes policy.implemented service)
    then none
    else if includes always_available_services service
    then none
    else refusal_in m.current.services service

unfoldable pub is_service_allowed : Policy → ℕ → Machine → Bool
unfolding service_refusal
is_service_allowed policy service m =
    includes policy.implemented service && is_none (service_refusal policy service m)
