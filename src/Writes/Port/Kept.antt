-- ===== src/Writes/Port/Kept.antt =====
-- packages/core/src/writes/port.ts: the steps of a write that leave the permit of the transaction and
-- the audit log alone.
use yes_you_can.Prelude.{
  ℕ, ◌≡◌, refl, ◌∙◌, inl, inr, Bool, true, false, Option, none, some, [], ◌∷◌, ◌++◌, if◌then◌else◌,
  if_cases, Bool-cases, Option-cases, get_some_or,
}
use yes_you_can.Text.{Text, codes}
use yes_you_can.Safety.{WritePermit, SafetyViolation}
use yes_you_can.Writes.Transaction.{
  StageName, prepare, verify, rollback, failed, is_ok, BodyResult, thrown, returned, Transaction,
  is_finished, abort, transition, note, report, skip, rolled_back_as, stage, run_stage,
  stage_refusal, refuse_stage, settle, join,
}
use yes_you_can.Writes.Transaction.Order.{settled}
use yes_you_can.Writes.Port.Guard.{stage_world}
use yes_you_can.Writes.Operation.{WriteOperation, WritePort, World, at, await, on_environment}
use yes_you_can.Writes.Port.Bodies.{execute_body}
use yes_you_can.Writes.Port.Flow.{verify_stage, undo}

module _ {V : Type 0} where
  pub abort_permit :
      (now : ℕ) (reason : Text) (t : Transaction V) → (abort now reason t).permit ≡ t.permit
  unfolding abort transition note
  abort_permit now reason t =
      if_cases (λ (u : Transaction V). u.permit ≡ t.permit) (is_finished t) _ _ refl refl

  settle_permit :
      (now : ℕ) (name : StageName) (outcome : BodyResult V) (t : Transaction V)
      → (settle now name outcome t).0.permit ≡ t.permit
  settle_permit now name (thrown message) t = unfold settle report in refl
  settle_permit now name (returned outcome) t = elim (Bool-cases outcome.ok) [
    | inl good ↦ (settled now name outcome t good).4
    | inr bad ↦ unfold settle report in rw bad refl
  ]

  ended_permit :
      (b : Bool) (now : ℕ) (reason text : Text) (t : Transaction V)
      → (if b then rolled_back_as now reason t else abort now text t).permit ≡ t.permit
  unfolding rolled_back_as transition note
  ended_permit true now reason text t = refl
  ended_permit false now reason text t = abort_permit now text t

  -- A stage leaves the permit.
  pub stage_permit :
      {E : Type 0} (now : E → ℕ) (name : StageName) (body : E → BodyResult V × E)
      (t : Transaction V) (e : E)
      → (stage now name body t e).0.permit ≡ t.permit
  unfolding stage
  stage_permit now name body t e = elim (Option-cases (stage_refusal name t)) [
    | inl free ↦ rw free (unfold run_stage in settle_permit (now (body e).1) name (body e).0 t)
    | inr (reason, refusal) ↦ rw refusal (
        unfold run_stage refuse_stage report in
        abort_permit (now e) reason (report (now e) name failed (reason ∷ []) [] none t).0)
  ]

module _ {I V E : Type 0} (port : WritePort E) (op : WriteOperation I V E) (input : I) where
  -- The permit of the transaction and the audit log are those from before.
  pub record Kept (t : Transaction V) (w : World V E) (t' : Transaction V) (w' : World V E)
      : Type 0 where
    pub permit : t'.permit ≡ t.permit
    pub audit : w'.audit ≡ w.audit

  pub stage-Kept :
      (name : StageName) (body : World V E → BodyResult V × World V E) (t : Transaction V)
      (w : World V E)
      → (body w).1.audit ≡ w.audit
      → let (t', r, w') = stage (λ (u : World V E). at port u) name body t w in Kept t w t' w'
  stage-Kept name body t w h = record {
    permit = stage_permit (λ (u : World V E). at port u) name body t w;
    audit =
        stage_world (λ (u : World V E). u.audit ≡ w.audit) (λ (u : World V E). at port u) name body
          t w refl h;
  }

  pub execute_body_audit :
      (permit : WritePermit) (t : Transaction V) (w : World V E)
      (violation : Option SafetyViolation)
      → (execute_body port op input permit t w violation).1.audit ≡ w.audit
  unfolding execute_body
  execute_body_audit permit t w none = refl
  execute_body_audit permit t w (some violation) = refl

  pub verify_stage-Kept :
      (hook : Option (Transaction V → I → Option V → Option V → E → BodyResult V × E))
      (value : Option V) (t : Transaction V) (w : World V E)
      → let (v, t', w') = verify_stage port op input hook value t w in Kept t w t' w'
  unfolding verify_stage skip report
  verify_stage-Kept none value t w = record { permit = refl; audit = refl }
  verify_stage-Kept (some hook) value t w =
      let k =
        stage-Kept verify
          (λ (u : World V E). on_environment (hook t input (t.values prepare) value) u) t w refl in
      record { permit = k.permit; audit = k.audit }

  pub undo-Kept :
      (hook : Option (Transaction V → I → Text → E → BodyResult V × E)) (reason : Text)
      (t : Transaction V) (w : World V E)
      → let (t', w') = undo port op input hook reason t w in Kept t w t' w'
  unfolding undo
  undo-Kept none reason t w = record {
    permit =
        unfold skip report in
        abort_permit (at port w) reason
          (skip (at port w) rollback
            (get_some_or op.rollback_unavailable
              (op.kind ++ codes " provides no rollback — the backup is the recovery path"))
            t).0;
    audit = refl;
  }
  undo-Kept (some hook) reason t w =
      let body = λ (u : World V E). on_environment (hook t input reason) u in
      let (t', r, w') = stage (λ (u : World V E). at port u) rollback body t w in
      let k = stage-Kept rollback body t w refl in
      record {
        permit =
            ended_permit (is_ok r.state) (at port (await port w')) reason
              (reason
                ++ (codes " (rollback failed: " ++ (join (codes "; ") r.reasons ++ codes ")")))
              t'
            ∙ k.permit;
        audit = k.audit;
      }
