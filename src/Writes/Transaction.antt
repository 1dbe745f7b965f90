-- ===== src/Writes/Transaction.antt =====
-- packages/core/src/writes/transaction.ts: the state machine of one write. A call takes its time
-- as an argument, in ms, and a stage reads the clock of the environment behind its body. The type V
-- is `unknown`, what the stages produce; an absent list of reasons or warnings is the empty one, as
-- the source's `?? []` reads it. Logging is left out.
pub mod Order
pub mod Logged
pub mod Interrupted
pub mod Reports
pub mod Sound
pub mod Stages
pub mod Reach
pub mod Journal
use yes_you_can.Prelude.{
  ℕ, zero, suc, ◌+◌, ◌-◌, ◌*◌, ◌/◌, ◌%◌, ◌^◌, ◌≤◌, ◌<◌, min, max, ◌≡◌, refl, sym, ap, ◌∙◌, ◌≢◌, ◌↔◌,
  ◌⊎◌, inl, inr, Bool, true, false, not, ◌&&◌, ◌||◌, Option, none, some, List, [], ◌∷◌, ◌++◌, map,
  append_assoc, append-nil, arith, ltb, leb, ◌==◌, if◌then◌else◌, if_cases, ==_iff, ==_refl, leb→le,
  ltb→lt, Bool-cases, Option-cases, get_some_or, is_none, some_injective, &&_iff, length, get_or,
  take, drop, replicate, flatten, length-append, take-append-drop, length-take, length-drop,
  length-replicate, take-append, drop-append, take_all, drop_all, includes, All, All-append,
}
use yes_you_can.Text.{Text, codes}
use yes_you_can.Safety.{RiskLevel, WritePermit}

pub data StageName : Type 0 where
  prepare confirm execute verify rollback : StageName

pub data TransactionState : Type 0 where
  open_state prepared confirmed executed verified suspended aborted rolled_back : TransactionState

-- The place in the union of the source: equality of two names is equality of the places.
abbrev pub stage_index : StageName → ℕ
stage_index prepare = 0
stage_index confirm = 1
stage_index execute = 2
stage_index verify = 3
stage_index rollback = 4

abbrev pub state_index : TransactionState → ℕ
state_index open_state = 0
state_index prepared = 1
state_index confirmed = 2
state_index executed = 3
state_index verified = 4
state_index suspended = 5
state_index aborted = 6
state_index rolled_back = 7

-- `states.includes(state)`
abbrev pub has_state : List TransactionState → TransactionState → Bool
has_state [] state = false
has_state (s ∷ ss) state = state_index s == state_index state || has_state ss state

abbrev pub terminal : List TransactionState
terminal = verified ∷ aborted ∷ rolled_back ∷ []

abbrev pub next_state : StageName → TransactionState
next_state prepare = prepared
next_state confirm = confirmed
next_state execute = executed
next_state verify = verified
next_state rollback = rolled_back

abbrev pub allowed_from : StageName → List TransactionState
allowed_from prepare = open_state ∷ []
allowed_from confirm = prepared ∷ []
allowed_from execute = confirmed ∷ suspended ∷ []
allowed_from verify = executed ∷ suspended ∷ []
allowed_from rollback = confirmed ∷ executed ∷ suspended ∷ []

pub data ReportState : Type 0 where
  ok failed skipped : ReportState

pub record StageReport : Type 0 where
  pub stage : StageName
  pub state : ReportState
  pub reasons : List Text
  pub warnings : List Text
  pub at : ℕ
  pub detail : Option Text

pub record JournalEntry : Type 0 where
  pub at : ℕ
  pub state : TransactionState
  pub reason : Option Text

pub record StageOutcome (V : Type 0) : Type 0 where
  pub ok : Bool
  pub value : Option V
  pub reasons : List Text
  pub warnings : List Text
  pub detail : Option Text

-- How a stage body ends: it throws an error with a message, or it returns.
pub data BodyResult (V : Type 0) : Type 0 where
  thrown : Text → BodyResult V
  returned : StageOutcome V → BodyResult V

pub record PreconditionSnapshot : Type 0 where
  pub ok : Bool
  pub failed : List Text
  pub warnings : List Text
  pub at : ℕ

pub record TransactionBinding : Type 0 where
  pub kind : Text
  pub risk : RiskLevel
  pub ecu_id : Text
  pub ecu_name : Text
  pub session_id : Option Text
  pub session_type : Option ℕ
  pub definition_version : Option Text

-- The fields of `DiagnosticTransaction`; a snapshot is a copy of them.
pub record Transaction (V : Type 0) : Type 0 where
  pub id : Text
  pub binding : TransactionBinding
  pub current_state : TransactionState
  pub stage_reports : List StageReport
  pub journal_entries : List JournalEntry
  pub preconditions : Option PreconditionSnapshot
  pub permit : Option WritePermit
  pub started_at : ℕ
  pub ended_at : Option ℕ
  pub reason : Option Text
  pub values : StageName → Option V

abbrev pub stage_name : StageName → Text
stage_name prepare = codes "prepare"
stage_name confirm = codes "confirm"
stage_name execute = codes "execute"
stage_name verify = codes "verify"
stage_name rollback = codes "rollback"

abbrev pub state_name : TransactionState → Text
state_name open_state = codes "open"
state_name prepared = codes "prepared"
state_name confirmed = codes "confirmed"
state_name executed = codes "executed"
state_name verified = codes "verified"
state_name suspended = codes "suspended"
state_name aborted = codes "aborted"
state_name rolled_back = codes "rolled-back"

-- `texts.join(separator)`
unfoldable pub join : Text → List Text → Text
join separator [] = []
join separator (t ∷ []) = t
join separator (t ∷ u ∷ us) = t ++ (separator ++ join separator (u ∷ us))

unfoldable pub not_allowed_text : StageName → TransactionState → Text
unfolding join
not_allowed_text name state =
    codes "stage \""
    ++ (stage_name name
        ++ (codes "\" is not allowed in state \""
            ++ (state_name state
                ++ (codes "\" (allowed from: "
                    ++ (join (codes ", ") (map state_name (allowed_from name)) ++ codes ")")))))

abbrev pub no_permit_text : Text
no_permit_text = codes "stage \"execute\" requires a valid confirmed permit (AGENTS 26)"

module _ {V : Type 0} where
  abbrev pub is_finished : Transaction V → Bool
  is_finished t = has_state terminal t.current_state

  -- The private `journal`.
  unfoldable pub note : ℕ → TransactionState → Option Text → Transaction V → Transaction V
  note now state reason t = record t {
    journal_entries =
        t.journal_entries ++ (record { at = now; state = state; reason = reason } ∷ []);
  }

  unfoldable pub transition : ℕ → TransactionState → Option Text → Transaction V → Transaction V
  unfolding note
  transition now next reason t = note now next reason (record t {
    current_state = next;
    ended_at = if has_state terminal next then some now else t.ended_at;
  })

  unfoldable pub report :
      ℕ
      → StageName
      → ReportState
      → List Text
      → List Text
      → Option Text
      → Transaction V
      → Transaction V × StageReport
  report now name state reasons warnings detail t =
      let entry : StageReport = record {
        stage = name;
        state = state;
        reasons = reasons;
        warnings = warnings;
        at = now;
        detail = detail;
      } in
      (record t { stage_reports = t.stage_reports ++ (entry ∷ []) }, entry)

  -- The constructor.
  unfoldable pub begin_transaction : Text → TransactionBinding → ℕ → Transaction V
  unfolding note
  begin_transaction id binding now = note now open_state none (record {
    id = id;
    binding = binding;
    current_state = open_state;
    stage_reports = [];
    journal_entries = [];
    preconditions = none;
    permit = none;
    started_at = now;
    ended_at = none;
    reason = none;
    values = λ (s : StageName). none;
  })

  unfoldable pub abort : ℕ → Text → Transaction V → Transaction V
  unfolding transition
  abort now reason t =
      if is_finished t
      then t
      else transition now aborted (some reason) (record t { reason = some reason })

  unfoldable pub rolled_back_as : ℕ → Text → Transaction V → Transaction V
  unfolding transition
  rolled_back_as now reason t =
      transition now rolled_back (some reason) (record t { reason = some reason })

  unfoldable pub suspend : ℕ → Text → Transaction V → Transaction V
  unfolding transition
  suspend now reason t =
      if is_finished t
      then t
      else transition now suspended (some reason) (record t { reason = some reason })

  unfoldable pub skip : ℕ → StageName → Text → Transaction V → Transaction V × StageReport
  unfolding report
  skip now name reason t = report now name skipped (reason ∷ []) [] none t

  -- `confirm(permit, preconditions)`
  unfoldable pub attach : WritePermit → PreconditionSnapshot → Transaction V → Transaction V
  attach permit preconditions t = record t {
    permit = some permit;
    preconditions = some preconditions;
  }

-- `report.stage === stage && report.state === "ok"`
abbrev pub is_ok : ReportState → Bool
is_ok ok = true
is_ok failed = false
is_ok skipped = false

unfoldable pub succeeded : StageName → List StageReport → Bool
succeeded name [] = false
succeeded name (r ∷ rs) =
    (stage_index r.stage == stage_index name && is_ok r.state) || succeeded name rs

-- The loop of `rewindToLastStage`.
unfoldable pub last_stage_state :
    List StageName → List StageReport → TransactionState → TransactionState
unfolding succeeded
last_stage_state [] reports state = state
last_stage_state (s ∷ ss) reports state =
    last_stage_state ss reports (if succeeded s reports then next_state s else state)

module _ {V : Type 0} where
  unfoldable pub rewind_to_last_stage : Transaction V → Transaction V
  unfolding last_stage_state
  rewind_to_last_stage t = record t {
    current_state =
        last_stage_state (prepare ∷ confirm ∷ execute ∷ verify ∷ []) t.stage_reports open_state;
  }

  unfoldable pub resume : Transaction V → Transaction V × Bool
  unfolding rewind_to_last_stage
  resume t =
      if state_index t.current_state == state_index suspended
      then (rewind_to_last_stage (record t { reason = none }), true)
      else (t, false)

  -- The two early returns of `stage`, in front of the body.
  unfoldable pub refuse_stage : ℕ → StageName → Text → Transaction V → Transaction V × StageReport
  unfolding report abort
  refuse_stage now name reason t =
      let (t', entry) = report now name failed (reason ∷ []) [] none t in
      (abort now reason t', entry)

  abbrev pub set_value : StageName → Option V → Transaction V → Transaction V
  set_value name none t = t
  set_value name (some v) t = record t {
    values = λ (s : StageName). if stage_index s == stage_index name then some v else t.values s;
  }

  -- What `stage` does with the result of the body.
  unfoldable pub settle : ℕ → StageName → BodyResult V → Transaction V → Transaction V × StageReport
  unfolding report transition
  settle now name (thrown message) t = report now name failed (message ∷ []) [] none t
  settle now name (returned outcome) t =
      if not outcome.ok
      then report now name failed outcome.reasons outcome.warnings outcome.detail t
      else (let (t', entry) =
            report now name ok outcome.reasons outcome.warnings outcome.detail
              (set_value name outcome.value t) in
          (transition now (next_state name) none t', entry))

  -- The guard in front of the body: the reason of an early return.
  unfoldable pub stage_refusal : StageName → Transaction V → Option Text
  unfolding not_allowed_text
  stage_refusal name t =
      if not (has_state (allowed_from name) t.current_state)
      then some (not_allowed_text name t.current_state)
      else if stage_index name == stage_index execute && is_none t.permit
      then some no_permit_text
      else none

-- `stage` behind its guard. The body runs in the environment E, whose clock is `now`.
module _ {V E : Type 0} (now : E → ℕ) where
  unfoldable pub run_stage :
      StageName
      → (E → BodyResult V × E)
      → Transaction V
      → E
      → Option Text
      → Transaction V × StageReport × E
  unfolding settle refuse_stage
  run_stage name body t e (some reason) =
      let (t', entry) = refuse_stage (now e) name reason t in (t', entry, e)
  run_stage name body t e none =
      let (result, e') = body e in
      let (t', entry) = settle (now e') name result t in (t', entry, e')

  unfoldable pub stage :
      StageName → (E → BodyResult V × E) → Transaction V → E → Transaction V × StageReport × E
  unfolding run_stage stage_refusal
  stage name body t e = run_stage name body t e (stage_refusal name t)
