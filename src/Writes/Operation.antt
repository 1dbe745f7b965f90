-- ===== src/Writes/Operation.antt =====
-- packages/core/src/writes/port.ts: what a write operation is, and the port with its registry. A hook
-- acts on the environment E, which is the vehicle, the clock and what else the process keeps; it reads
-- the transaction. I is the type of the inputs, V is `unknown`, the type of what the stages produce.
use yes_you_can.Prelude.{
  ℕ, ◌⊎◌, Bool, false, ◌||◌, Option, none, some, List, [], ◌∷◌, ◌++◌, map, ltb, if◌then◌else◌,
  is_none, length, drop,
}
use yes_you_can.Text.{Text, eq_text}
use yes_you_can.Safety.{
  RiskLevel, SafetyManager, VehicleState, WritePermit, WriteRequestContext, Finding, Warning,
  SafetyViolation, AuditEntry,
}
use yes_you_can.Writes.Transaction.{StageReport, BodyResult, Transaction}

pub record WriteBinding : Type 0 where
  pub ecu_id : Text
  pub ecu_name : Text
  pub session_id : Option Text
  pub session_type : Option ℕ
  pub definition_version : Option Text
  pub vehicle_state : VehicleState

-- `describe` may throw, a text here; `outcome_of` and `on_abort` do not throw, and a hook does not call the methods of the
-- transaction that it reads. `session_of` reads the field `sessionType` of what `prepare` produced, where it has one.
pub record WriteOperation (I V E : Type 0) : Type 0 where
  pub kind : Text
  pub title : Text
  pub risk : RiskLevel
  pub prepare : Transaction V → I → E → BodyResult V × E
  pub describe : Transaction V → I → Option V → ℕ → Text ⊎ (WriteRequestContext × List Text)
  pub execute : Transaction V → I → Option V → WritePermit → E → BodyResult V × E
  pub verify : Option (Transaction V → I → Option V → Option V → E → BodyResult V × E)
  pub rollback : Option (Transaction V → I → Text → E → BodyResult V × E)
  pub outcome_of : Option (Option V → Bool)
  pub rollback_unavailable : Option Text
  pub on_abort : Option (Transaction V → I → Text → E → E)
  pub session_of : V → Option ℕ

-- The options of the port. `elapse` is what happens elsewhere while the port awaits a stage, and the
-- texts are those that the safety layer builds.
pub record WritePort (E : Type 0) : Type 0 where
  pub safety : SafetyManager
  pub history_size : ℕ
  pub now : E → ℕ
  pub elapse : E → E
  pub finding_text : Finding → Text
  pub warning_text : Warning → Text
  pub violation_text : SafetyViolation → Text

-- The state: the environment, the audit log of the safety layer, and the history of the port.
pub record World (V E : Type 0) : Type 0 where
  pub environment : E
  pub audit : List AuditEntry
  pub transactions : List (Transaction V)

pub record WritePrecheckResult : Type 0 where
  pub ok : Bool
  pub failed : List Text
  pub unproven : List Text
  pub warnings : List Text
  pub transaction_id : Text

pub record WriteOperationResult (V : Type 0) : Type 0 where
  pub ok : Bool
  pub kind : Text
  pub risk : RiskLevel
  pub value : Option V
  pub reasons : List Text
  pub unproven : Option (List Text)
  pub warnings : List Text
  pub stages : List StageReport
  pub transaction : Transaction V

-- `Array.from(new Set(texts))`
unfoldable pub has_text : List Text → Text → Bool
has_text [] text = false
has_text (t ∷ ts) text = eq_text t text || has_text ts text

unfoldable pub unique_from : List Text → List Text → List Text
unfolding has_text
unique_from seen [] = seen
unique_from seen (t ∷ ts) = unique_from (if has_text seen t then seen else seen ++ (t ∷ [])) ts

unfoldable pub unique : List Text → List Text
unfolding unique_from
unique texts = unique_from [] texts

-- `texts[0]`
abbrev pub first_text : List Text → Option Text
first_text [] = none
first_text (t ∷ ts) = some t

-- A text that a snapshot shows: `...(this.reason ? { reason } : {})`.
abbrev pub shown : Option Text → Option Text
shown none = none
shown (some []) = none
shown (some (c ∷ cs)) = some (c ∷ cs)

module _ {I V E : Type 0} where
  -- `operations.get(kind)`; `none` is what `require` throws.
  unfoldable pub require : List (WriteOperation I V E) → Text → Option (WriteOperation I V E)
  require [] kind = none
  require (op ∷ ops) kind =
      let rest = require ops kind in if eq_text op.kind kind then some op else rest

  -- `register`: `none` is what it throws for a kind that is there.
  unfoldable pub register :
      WriteOperation I V E → List (WriteOperation I V E) → Option (List (WriteOperation I V E))
  unfolding require
  register op ops = if is_none (require ops op.kind) then some (ops ++ (op ∷ [])) else none

  abbrev pub kinds : List (WriteOperation I V E) → List Text
  kinds ops = map (λ (op : WriteOperation I V E). op.kind) ops

module _ {V E : Type 0} where
  unfoldable pub remember : WritePort E → Transaction V → World V E → World V E
  remember port t w =
      let grown = w.transactions ++ (t ∷ []) in
      record w {
        transactions = if ltb port.history_size (length grown) then drop 1 grown else grown;
      }

  abbrev pub at : WritePort E → World V E → ℕ
  at port w = port.now w.environment

  -- What others do while a stage is awaited.
  abbrev pub await : WritePort E → World V E → World V E
  await port w = record w { environment = port.elapse w.environment }

  abbrev pub on_environment : (E → BodyResult V × E) → World V E → BodyResult V × World V E
  on_environment hook w =
      let (result, e) = hook w.environment in (result, record w { environment = e })
