-- ===== src/Writes/Port/Bodies.antt =====
-- packages/core/src/writes/port.ts: the bodies of the stages that `run` passes to the transaction.
use yes_you_can.Prelude.{
  ◌⊎◌, inl, inr, true, not, Option, none, some, List, [], ◌∷◌, ◌++◌, map, if◌then◌else◌,
}
use yes_you_can.Text.{Text}
use yes_you_can.Safety.{
  WritePermit, WriteRequestContext, SafetyViolation, evaluate, request_permit, AuditEntry,
}
use yes_you_can.Writes.Transaction.{
  prepare, confirm, StageReport, BodyResult, thrown, Transaction, attach, refuse_stage, settle,
}
use yes_you_can.Writes.Operation.{
  WriteBinding, WriteOperation, WritePort, World, unique, at, on_environment,
}
use yes_you_can.Writes.Port.{session_type_of, failed_outcome, plain_outcome}

module _ {I V E : Type 0} where
  -- The write as `describe` states it to the safety layer, behind `prepare`.
  unfoldable pub described :
      WriteOperation I V E
      → I
      → WriteBinding
      → Transaction V
      → Text ⊎ (WriteRequestContext × List Text)
  unfolding session_type_of
  described op input binding t =
      op.describe t input (t.values prepare) (session_type_of op t binding)

module _ {V E : Type 0} where
  -- The end of the body of `confirm`: the permit is attached, or the body reports what
  -- `requestPermit` throws.
  unfoldable pub issue :
      WritePort E
      → List Text
      → Transaction V
      → World V E
      → (SafetyViolation ⊎ WritePermit) × List AuditEntry
      → Transaction V × BodyResult V × World V E
  unfolding attach
  issue port warnings t w (inl violation, audit) =
      (t, failed_outcome (port.violation_text violation ∷ []) warnings, record w { audit = audit })
  issue port warnings t w (inr permit, audit) = (
    attach permit (record { ok = true; failed = []; warnings = warnings; at = at port w }) t,
    plain_outcome warnings,
    record w { audit = audit },
  )

  -- The body of `confirm`, by what `describe` states or throws.
  unfoldable pub confirm_described :
      WritePort E
      → WriteBinding
      → Text
      → Transaction V
      → World V E
      → Text ⊎ (WriteRequestContext × List Text)
      → Transaction V × BodyResult V × World V E
  unfolding issue
  confirm_described port binding permit_id t w (inl error) = (t, thrown error, w)
  confirm_described port binding permit_id t w (inr (context, told)) =
      let checks = evaluate port.safety context binding.vehicle_state in
      let warnings = unique (map port.warning_text checks.warnings ++ told) in
      if not checks.ok
      then (t, failed_outcome (map port.finding_text checks.failed) warnings, w)
      else issue port warnings t w
          (request_permit port.safety (at port w) permit_id context binding.vehicle_state w.audit)

module _ {I V E : Type 0} where
  unfoldable pub confirm_body :
      WritePort E
      → WriteOperation I V E
      → I
      → WriteBinding
      → Text
      → Transaction V
      → World V E
      → Transaction V × BodyResult V × World V E
  unfolding described confirm_described
  confirm_body port op input binding permit_id t w =
      confirm_described port binding permit_id t w (described op input binding t)

  -- `stage("confirm", …)`, whose body attaches the permit to the transaction; the last argument is
  -- the refusal of the guard.
  unfoldable pub confirm_stage :
      WritePort E
      → WriteOperation I V E
      → I
      → WriteBinding
      → Text
      → Transaction V
      → World V E
      → Option Text
      → Transaction V × StageReport × World V E
  unfolding confirm_body refuse_stage settle
  confirm_stage port op input binding permit_id t w (some reason) =
      let (t', entry) = refuse_stage (at port w) confirm reason t in (t', entry, w)
  confirm_stage port op input binding permit_id t w none =
      let (t1, outcome, w') = confirm_body port op input binding permit_id t w in
      let (t', entry) = settle (at port w') confirm outcome t1 in (t', entry, w')

  -- The body of `execute`: what `verifyPermit` throws, or the hook of the operation.
  unfoldable pub execute_body :
      WritePort E
      → WriteOperation I V E
      → I
      → WritePermit
      → Transaction V
      → World V E
      → Option SafetyViolation
      → BodyResult V × World V E
  execute_body port op input permit t w (some violation) =
      (failed_outcome (port.violation_text violation ∷ []) [], w)
  execute_body port op input permit t w none =
      on_environment (op.execute t input (t.values prepare) permit) w
