-- ===== src/Writes/Port/Flow.antt =====
-- packages/core/src/writes/port.ts: `run`, one step behind the other, in the order of the source.
use yes_you_can.Prelude.{
  Bool, true, false, ◌&&◌, ◌||◌, Option, none, some, List, [], ◌∷◌, ◌++◌, map, ◌==◌, if◌then◌else◌,
  get_some_or, flatten,
}
use yes_you_can.Text.{Text, codes}
use yes_you_can.Safety.{WritePermit, verify_permit}
use yes_you_can.Writes.Transaction.{
  prepare, execute, verify, rollback, executed, verified, state_index, StageReport, ReportState, ok,
  failed, skipped, is_ok, BodyResult, Transaction, abort, rolled_back_as, skip, stage,
  stage_refusal, join, confirm,
}
use yes_you_can.Writes.Operation.{
  WriteBinding, WriteOperation, WritePort, World, WriteOperationResult, unique, first_text, shown,
  require, remember, at, await, on_environment,
}
use yes_you_can.Writes.Port.{begin_write, result, notify_abort, record_permit_outcome}
use yes_you_can.Writes.Port.Bodies.{confirm_stage, execute_body}

-- What `verifyStage` returns.
pub record Verification (V : Type 0) : Type 0 where
  pub ok : Bool
  pub reasons : List Text
  pub warnings : List Text
  pub value : Option V

-- `stage.state === "failed"`
abbrev pub is_failed : ReportState → Bool
is_failed ok = false
is_failed failed = true
is_failed skipped = false

unfoldable pub failed_reasons : List StageReport → List Text
failed_reasons [] = []
failed_reasons (r ∷ rs) =
    if is_failed r.state then r.reasons ++ failed_reasons rs else failed_reasons rs

abbrev pub no_texts : List Text → Bool
no_texts [] = true
no_texts (t ∷ ts) = false

abbrev pub warnings_in : List StageReport → List Text
warnings_in reports = flatten (map (λ (r : StageReport). r.warnings) reports)

module _ {V : Type 0} where
  -- `a ?? b`
  abbrev pub or_value : Option V → Option V → Option V
  or_value none b = b
  or_value (some v) b = some v

  -- `operation.outcomeOf?.(value) ?? true`
  abbrev pub goal_reached : Option (Option V → Bool) → Option V → Bool
  goal_reached none value = true
  goal_reached (some reached) value = reached value

  unfoldable pub verification_of : Transaction V → StageReport → Verification V
  verification_of t r = record {
    ok = is_ok r.state;
    reasons = r.reasons;
    warnings = r.warnings;
    value = if is_ok r.state then t.values verify else none;
  }

module _ {I V E : Type 0} (port : WritePort E) (op : WriteOperation I V E) (input : I) where
  -- `verifyStage`
  unfoldable pub verify_stage :
      Option (Transaction V → I → Option V → Option V → E → BodyResult V × E)
      → Option V
      → Transaction V
      → World V E
      → Verification V × Transaction V × World V E
  unfolding verification_of skip stage
  verify_stage none value t w = (
    record { ok = true; reasons = []; warnings = []; value = none },
    (skip (at port w) verify (op.title ++ codes " has no read-back verification") t).0,
    w,
  )
  verify_stage (some hook) value t w =
      let (t', r, w') =
        stage (λ (u : World V E). at port u) verify
          (λ (u : World V E). on_environment (hook t input (t.values prepare) value) u) t w in
      (verification_of t' r, t', await port w')

  unfoldable pub finish :
      Verification V → Option V → Transaction V → World V E → WriteOperationResult V × World V E
  unfolding failed_reasons remember
  finish v value t w =
      let reasons = unique (failed_reasons t.stage_reports ++ v.reasons) in
      (
        record {
          ok =
              no_texts reasons
              && (state_index t.current_state == state_index verified
                  || state_index t.current_state == state_index executed);
          kind = op.kind;
          risk = op.risk;
          value = value;
          reasons = reasons;
          unproven = none;
          warnings = unique (warnings_in t.stage_reports ++ v.warnings);
          stages = t.stage_reports;
          transaction = t;
        },
        remember port t w,
      )

  -- `run` behind `verifyStage`.
  unfoldable pub run_verified :
      Option V → Verification V × Transaction V × World V E → WriteOperationResult V × World V E
  unfolding finish record_permit_outcome
  run_verified value (v, t, w) =
      let value' = or_value v.value value in
      finish v value' t
        (record_permit_outcome port t (v.ok && goal_reached op.outcome_of value') t.permit w)

  -- The rollback of `rollbackAndFinish`.
  unfoldable pub undo :
      Option (Transaction V → I → Text → E → BodyResult V × E)
      → Text
      → Transaction V
      → World V E
      → Transaction V × World V E
  unfolding skip abort rolled_back_as stage join
  undo none reason t w = (
    abort (at port w) reason
        (skip (at port w) rollback
          (get_some_or op.rollback_unavailable
            (op.kind ++ codes " provides no rollback — the backup is the recovery path"))
          t).0,
    w,
  )
  undo (some hook) reason t w =
      let (t', r, w') =
        stage (λ (u : World V E). at port u) rollback
          (λ (u : World V E). on_environment (hook t input reason) u) t w in
      let w'' = await port w' in
      (
        if is_ok r.state
            then rolled_back_as (at port w'') reason t'
            else abort (at port w'')
                (reason
                  ++ (codes " (rollback failed: " ++ (join (codes "; ") r.reasons ++ codes ")")))
                t',
        w'',
      )

  -- `rollbackAndFinish` behind the rollback.
  unfoldable pub rollback_finished :
      Text → StageReport → Transaction V × World V E → WriteOperationResult V × World V E
  unfolding notify_abort record_permit_outcome result
  rollback_finished reason r (t, w) =
      let told = notify_abort op.on_abort t input (get_some_or (shown t.reason) reason) w in
      result port op false (unique (r.reasons ++ r.reasons)) r.warnings t
        (record_permit_outcome port t false t.permit told)

  unfoldable pub rollback_and_finish :
      StageReport → Transaction V → World V E → WriteOperationResult V × World V E
  unfolding undo rollback_finished
  rollback_and_finish r t w =
      let reason = get_some_or (first_text r.reasons) (op.kind ++ codes " failed") in
      rollback_finished reason r (undo op.rollback reason t w)

  -- `run` behind the stage `execute`.
  unfoldable pub run_executed :
      Transaction V × StageReport × World V E → WriteOperationResult V × World V E
  unfolding run_verified verify_stage rollback_and_finish
  run_executed (t, r, w) =
      let value = t.values execute in
      let w' = await port w in
      if is_ok r.state
      then run_verified value (verify_stage op.verify value t w')
      else rollback_and_finish r t w'

  -- `run` behind the stage `confirm`, by the permit that the transaction holds.
  unfoldable pub run_permitted :
      WriteBinding
      → Transaction V
      → World V E
      → Option WritePermit
      → WriteOperationResult V × World V E
  unfolding run_executed execute_body stage result abort
  run_permitted binding t w none =
      result port op false (codes "no write permit was issued" ∷ []) []
        (abort (at port w) (codes "no permit recorded — write refused (AGENTS 26)") t) w
  run_permitted binding t w (some permit) = run_executed (
      stage (λ (u : World V E). at port u) execute
        (λ (u : World V E).
          execute_body port op input permit t u (verify_permit (at port u) permit binding.ecu_id))
        t w)

  unfoldable pub run_refused :
      Text
      → (Transaction V → Text)
      → StageReport
      → Transaction V
      → World V E
      → WriteOperationResult V × World V E
  unfolding notify_abort result abort
  run_refused reason told r t w =
      let t' = abort (at port w) reason t in
      result port op false r.reasons r.warnings t' (notify_abort op.on_abort t' input (told t') w)

  unfoldable pub run_confirmed :
      WriteBinding → Transaction V × StageReport × World V E → WriteOperationResult V × World V E
  unfolding run_permitted run_refused
  run_confirmed binding (t, r, w) =
      let w' = await port w in
      if is_ok r.state
      then run_permitted binding t w' t.permit
      else run_refused (get_some_or (first_text r.reasons) (codes "preconditions not met"))
          (λ (u : Transaction V). get_some_or (shown u.reason) (codes "preconditions not met")) r t
          w'

  unfoldable pub run_prepared :
      WriteBinding
      → Text
      → Transaction V × StageReport × World V E
      → WriteOperationResult V × World V E
  unfolding run_confirmed confirm_stage run_refused stage_refusal
  run_prepared binding permit_id (t, r, w) =
      let w' = await port w in
      let reason =
        get_some_or (first_text r.reasons) (codes "prepare did not capture the previous state") in
      if is_ok r.state
      then run_confirmed binding
          (confirm_stage port op input binding permit_id t w' (stage_refusal confirm t))
      else run_refused reason (λ (u : Transaction V). reason) r t w'

  -- `run` behind the lookup of the operation.
  unfoldable pub run_operation :
      WriteBinding → Text → Text → World V E → WriteOperationResult V × World V E
  unfolding run_prepared begin_write stage
  run_operation binding id permit_id w =
      let t = begin_write port op binding id w in
      run_prepared binding permit_id (
        stage (λ (u : World V E). at port u) prepare
          (λ (u : World V E). on_environment (op.prepare t input) u) t w)

module _ {I V E : Type 0} (port : WritePort E) where
  -- `run`: `none` is what it throws for an unknown kind.
  unfoldable pub run :
      List (WriteOperation I V E)
      → Text
      → I
      → WriteBinding
      → Text
      → Text
      → World V E
      → Option (WriteOperationResult V × World V E)
  unfolding run_operation require
  run ops kind input binding id permit_id w = elim (require ops kind) [
    | none ↦ none
    | some op ↦ some (run_operation port op input binding id permit_id w)
  ]
