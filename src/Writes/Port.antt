-- ===== src/Writes/Port.antt =====
-- packages/core/src/writes/port.ts: the staged flow of a write. The ids that `createId` makes are
-- arguments. Logging is left out.
pub mod Bodies
pub mod Flow
pub mod Guard
pub mod Kept
pub mod Conclude
pub mod Account
pub mod Stale
pub mod Ended
use yes_you_can.Prelude.{
  ℕ, zero, suc, ◌+◌, ◌-◌, ◌*◌, ◌/◌, ◌%◌, ◌^◌, ◌≤◌, ◌<◌, min, max, ◌≡◌, refl, sym, ap, ◌∙◌, ◌≢◌, ◌↔◌,
  ◌⊎◌, inl, inr, Bool, true, false, not, ◌&&◌, ◌||◌, Option, none, some, List, [], ◌∷◌, ◌++◌, map,
  append_assoc, append-nil, arith, ltb, leb, ◌==◌, if◌then◌else◌, if_cases, ==_iff, ==_refl, leb→le,
  ltb→lt, Bool-cases, Option-cases, get_some_or, is_none, some_injective, &&_iff, length, get_or,
  take, drop, replicate, flatten, length-append, take-append-drop, length-take, length-drop,
  length-replicate, take-append, drop-append, take_all, drop_all, includes, All, All-append,
}
use yes_you_can.Text.{Text, codes}
use yes_you_can.Safety.{
  WritePermit, WriteRequestContext, SafetyViolation, success, write_failed, evaluate,
  request_permit, verify_permit, record_result,
}
use yes_you_can.Writes.Transaction.{
  prepare, confirm, execute, verify, rollback, executed, verified, StageReport, failed, ok, is_ok,
  StageOutcome, BodyResult, returned, PreconditionSnapshot, Transaction, begin_transaction, abort,
  rolled_back_as, skip, attach, stage, stage_refusal, refuse_stage, settle, join, ReportState,
  TransactionBinding, has_state,
}
use yes_you_can.Writes.Operation.{
  WriteBinding, WriteOperation, WritePort, World, WritePrecheckResult, WriteOperationResult, unique,
  first_text, shown, require, remember, at, await, on_environment,
}

module _ {V : Type 0} where
  abbrev pub stored_session : (V → Option ℕ) → Option V → Option ℕ
  stored_session read none = none
  stored_session read (some v) = read v

module _ {V E : Type 0} where
  unfoldable pub record_permit_outcome :
      WritePort E → Transaction V → Bool → Option WritePermit → World V E → World V E
  record_permit_outcome port t good none w = w
  record_permit_outcome port t good (some permit) w = record w {
    audit =
        record_result (at port w) permit (if good then success else write_failed)
          (some
            (if good then permit.id ++ codes " verified" else permit.id ++ codes " not confirmed"))
          w.audit;
  }

module _ {V E : Type 0} where
  -- `precheck` behind the registry, by what `describe` states; what that throws, `precheck` throws.
  unfoldable pub prechecked :
      WritePort E
      → WriteBinding
      → Bool
      → Transaction V
      → World V E
      → Text ⊎ (WriteRequestContext × List Text)
      → (Text ⊎ WritePrecheckResult) × World V E
  unfolding remember
  prechecked port binding user_confirmed t w (inl error) = (inl error, w)
  prechecked port binding user_confirmed t w (inr (context, warnings)) =
      let checks =
        evaluate port.safety (record context { user_confirmed = user_confirmed })
          binding.vehicle_state in
      (
        inr (record {
          ok = checks.ok;
          failed = map port.finding_text checks.failed;
          unproven = map port.finding_text checks.unproven;
          warnings = unique (map port.warning_text checks.warnings ++ warnings);
          transaction_id = t.id;
        }),
        remember port (abort (at port w) (codes "pre-check only — nothing was written") t) w,
      )

module _ {I V E : Type 0} where
  unfoldable pub binding_of : WriteOperation I V E → WriteBinding → TransactionBinding
  binding_of op binding = record {
    kind = op.kind;
    risk = op.risk;
    ecu_id = binding.ecu_id;
    ecu_name = binding.ecu_name;
    session_id = binding.session_id;
    session_type = binding.session_type;
    definition_version = binding.definition_version;
  }

  -- The private `begin`.
  unfoldable pub begin_write :
      WritePort E → WriteOperation I V E → WriteBinding → Text → World V E → Transaction V
  unfolding binding_of
  begin_write port op binding id w = begin_transaction id (binding_of op binding) (at port w)

  unfoldable pub precheck :
      WritePort E
      → WriteOperation I V E
      → I
      → WriteBinding
      → Bool
      → Text
      → World V E
      → (Text ⊎ WritePrecheckResult) × World V E
  unfolding begin_write prechecked
  precheck port op input binding user_confirmed id w =
      let t = begin_write port op binding id w in
      prechecked port binding user_confirmed t w
        (op.describe t input none (get_some_or binding.session_type 0x01))

  -- The private `result`.
  unfoldable pub result :
      WritePort E
      → WriteOperation I V E
      → Bool
      → List Text
      → List Text
      → Transaction V
      → World V E
      → WriteOperationResult V × World V E
  unfolding remember
  result port op good reasons warnings t w = (
    record {
      ok = good;
      kind = op.kind;
      risk = op.risk;
      value = none;
      reasons = reasons;
      unproven = none;
      warnings = warnings;
      stages = t.stage_reports;
      transaction = t;
    },
    remember port t w,
  )

  -- `operation.onAbort?.(…)`
  unfoldable pub notify_abort :
      Option (Transaction V → I → Text → E → E) → Transaction V → I → Text → World V E → World V E
  notify_abort none t input reason w = w
  notify_abort (some hook) t input reason w = record w {
    environment = hook t input reason w.environment;
  }

  unfoldable pub session_type_of : WriteOperation I V E → Transaction V → WriteBinding → ℕ
  session_type_of op t binding =
      get_some_or (stored_session op.session_of (t.values prepare))
        (get_some_or binding.session_type 0x01)

module _ {V : Type 0} where
  abbrev pub failed_outcome : List Text → List Text → BodyResult V
  failed_outcome reasons warnings =
      returned
        (record { ok = false; value = none; reasons = reasons; warnings = warnings; detail = none })

  abbrev pub plain_outcome : List Text → BodyResult V
  plain_outcome warnings =
      returned
        (record { ok = true; value = none; reasons = []; warnings = warnings; detail = none })
