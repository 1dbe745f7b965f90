-- ===== src/Writes/Port/Conclude.antt =====
-- packages/core/src/writes/port.ts: the outcome of a write under a permit is recorded.
use yes_you_can.Prelude.{
  ℕ, true, ◌==◌, ◌≡◌, refl, ap, ◌∙◌, inl, inr, Bool, false, ◌&&◌, Option, none, some, List, [], ◌∷◌,
  ◌++◌, if◌then◌else◌, Bool-cases, get_some_or,
}
use yes_you_can.Text.{Text, codes}
use yes_you_can.Safety.{
  WritePermit, success, write_failed, write_result, AuditAction, AuditEntry, record_result,
  record_audit,
}
use mathlib.Core.Path.{ap₂}
use yes_you_can.Writes.Transaction.{
  execute, verify, rollback, prepare, StageReport, is_ok, Transaction, stage_index, BodyResult,
  skip, report, rolled_back_as, transition, note, abort,
}
use yes_you_can.Writes.Transaction.Logged.{not_failed, abort_reports, stage-Logged}
use yes_you_can.Writes.Operation.{
  WriteOperation, WritePort, World, WriteOperationResult, at, await, on_environment, first_text,
  shown, remember,
}
use yes_you_can.Writes.Port.{notify_abort, record_permit_outcome, result}
use yes_you_can.Writes.Port.Flow.{
  Verification, verification_of, or_value, goal_reached, finish, run_verified, verify_stage, undo,
  rollback_finished, rollback_and_finish, run_executed,
}
use yes_you_can.Writes.Port.Kept.{verify_stage-Kept, undo-Kept}

-- Whether the write is reported as a success: the last stage that was reported is a verification that
-- has not failed, and the operation says of the value that its goal is reached, if it says anything.
pub last_report : List StageReport → Option StageReport
last_report [] = none
last_report (r ∷ []) = some r
last_report (r ∷ q ∷ rs) = last_report (q ∷ rs)

pub verification_passed : Option StageReport → Bool
verification_passed none = false
verification_passed (some r) = stage_index r.stage == stage_index verify && not_failed r.state

last_report-append :
    (rs : List StageReport) (r : StageReport) → last_report (rs ++ (r ∷ [])) ≡ some r
unfolding last_report
last_report-append [] r = refl
last_report-append (q ∷ []) r = refl
last_report-append (q ∷ x ∷ rs) r = last_report-append (x ∷ rs) r

module _ {V : Type 0} where
  pub is_reached : Option (Option V → Bool) → Option V → Bool
  is_reached none value = true
  is_reached (some outcome_of) value = outcome_of value

  goal_reached_lem :
      (outcome_of : Option (Option V → Bool)) (value : Option V)
      → goal_reached outcome_of value ≡ is_reached outcome_of value
  unfolding is_reached
  goal_reached_lem none value = refl
  goal_reached_lem (some f) value = refl

module _ {I V E : Type 0} (port : WritePort E) (op : WriteOperation I V E) (input : I) where
  pub is_success : WriteOperationResult V → Bool
  is_success answer =
      verification_passed (last_report answer.transaction.stage_reports)
      && is_reached op.outcome_of answer.value

  -- The entry that the outcome has to leave in the log.
  abbrev pub outcome_action : Bool → WritePermit → AuditAction
  outcome_action good permit =
      write_result (if good then success else write_failed)
        (if good then permit.id ++ codes " verified" else permit.id ++ codes " not confirmed")

  -- The outcome of a write under a permit is one more entry of the log, and the transaction of the
  -- result holds the permit.
  pub record Concluded (permit : WritePermit) (before : List AuditEntry)
      (answer : WriteOperationResult V) (w : World V E) : Type 0 where
    pub written : AuditEntry
    pub logged : w.audit ≡ before ++ (written ∷ [])
    pub about : written.action ≡ outcome_action (is_success answer) permit
    pub on_ecu : written.ecu_id ≡ permit.ecu_id
    pub held : answer.transaction.permit ≡ some permit

  abbrev outcome_entry : Bool → WritePermit → World V E → AuditEntry
  outcome_entry good permit w = record {
    timestamp = at port w;
    action = outcome_action good permit;
    ecu_id = permit.ecu_id;
  }

  recorded :
      (good : Bool) (t : Transaction V) (w : World V E) (held : Option WritePermit)
      (permit : WritePermit)
      → held ≡ some permit
      → (record_permit_outcome port t good held w).audit
        ≡ w.audit ++ (outcome_entry good permit w ∷ [])
  unfolding record_permit_outcome record_result record_audit
  recorded good t w held permit h = rw h refl

  pub notified :
      (hook : Option (Transaction V → I → Text → E → E)) (t : Transaction V) (reason : Text)
      (w : World V E)
      → (notify_abort hook t input reason w).audit ≡ w.audit
  unfolding notify_abort
  notified none t reason w = refl
  notified (some hook) t reason w = refl

  verified-Concluded :
      (permit : WritePermit) (value : Option V) (v : Verification V) (t : Transaction V)
      (w : World V E)
      → t.permit ≡ some permit
      → v.ok ≡ verification_passed (last_report t.stage_reports)
      → let (answer, w') = run_verified port op input value (v, t, w) in
        Concluded permit w.audit answer w'
  unfolding run_verified finish remember is_success
  verified-Concluded permit value v t w h passed =
      let good = v.ok && goal_reached op.outcome_of (or_value v.value value) in
      record {
        written = outcome_entry good permit w;
        logged = recorded good t w t.permit permit h;
        about =
            ap₂ (λ (a b : Bool). outcome_action (a && b) permit) passed
              (goal_reached_lem op.outcome_of (or_value v.value value));
        on_ecu = refl;
        held = h;
      }

  rolled_back-Concluded :
      (permit : WritePermit) (reason : Text) (r : StageReport) (t : Transaction V) (w : World V E)
      → t.permit ≡ some permit
      → verification_passed (last_report t.stage_reports) ≡ false
      → let (answer, w') = rollback_finished port op input reason r (t, w) in
        Concluded permit w.audit answer w'
  unfolding rollback_finished result remember is_success
  rolled_back-Concluded permit reason r t w h over =
      let why = get_some_or (shown t.reason) reason in
      let told = notify_abort op.on_abort t input why w in
      record {
        written = outcome_entry false permit told;
        logged =
            recorded false t told t.permit permit h
            ∙ ap (λ (log : List AuditEntry). log ++ (outcome_entry false permit told ∷ []))
                (notified op.on_abort t why w);
        about = rw over refl;
        on_ecu = refl;
        held = h;
      }

  -- A log that is the same as before serves as well.
  pub Concluded-from :
      (permit : WritePermit) (before before' : List AuditEntry) (answer : WriteOperationResult V)
      (w : World V E)
      → before ≡ before'
      → Concluded permit before answer w
      → Concluded permit before' answer w
  Concluded-from permit before before' answer w e c = rw (← e) c

  -- What the verification and the rollback report last.
  verify_stage-passed :
      (hook : Option (Transaction V → I → Option V → Option V → E → BodyResult V × E))
      (value : Option V) (t : Transaction V) (w : World V E)
      → let (v, t', w') = verify_stage port op input hook value t w in
        v.ok ≡ verification_passed (last_report t'.stage_reports)
  unfolding verify_stage
  verify_stage-passed none value t w =
      unfold skip report in
      rw (last_report-append t.stage_reports) (unfold verification_passed in refl)
  verify_stage-passed (some hook) value t w =
      let body = λ (u : World V E). on_environment (hook t input (t.values prepare) value) u in
      let l = stage-Logged (λ (u : World V E). at port u) verify body t w in
      unfold verification_of verification_passed in
      rw (l.added, last_report-append, l.named) l.decided

  ended_reports :
      (b : Bool) (now : ℕ) (reason text : Text) (t : Transaction V)
      → (if b then rolled_back_as now reason t else abort now text t).stage_reports
        ≡ t.stage_reports
  unfolding rolled_back_as transition note
  ended_reports true now reason text t = refl
  ended_reports false now reason text t = abort_reports now text t

  rollback_last :
      (rs : List StageReport) (r : StageReport)
      → r.stage ≡ rollback
      → verification_passed (last_report (rs ++ (r ∷ []))) ≡ false
  unfolding verification_passed
  rollback_last rs r h = rw (last_report-append rs r, h) refl

  undo-passed :
      (hook : Option (Transaction V → I → Text → E → BodyResult V × E)) (reason : Text)
      (t : Transaction V) (w : World V E)
      → let (t', w') = undo port op input hook reason t w in
        verification_passed (last_report t'.stage_reports) ≡ false
  unfolding undo
  undo-passed none reason t w =
      let skipped =
        skip (at port w) rollback
          (get_some_or op.rollback_unavailable
            (op.kind ++ codes " provides no rollback — the backup is the recovery path"))
          t in
      rw (abort_reports (at port w) reason skipped.0)
        (unfold skip report in rollback_last t.stage_reports _ refl)
  undo-passed (some hook) reason t w =
      let body = λ (u : World V E). on_environment (hook t input reason) u in
      let l = stage-Logged (λ (u : World V E). at port u) rollback body t w in
      rw (ended_reports _ _ _ _ _, l.added) (rollback_last t.stage_reports _ l.named)

  pub executed-Concluded :
      (permit : WritePermit) (t : Transaction V) (r : StageReport) (w : World V E)
      → t.permit ≡ some permit
      → let (answer, w') = run_executed port op input (t, r, w) in
        Concluded permit w.audit answer w'
  unfolding run_executed rollback_and_finish
  executed-Concluded permit t r w h = elim (Bool-cases (is_ok r.state)) [
    | inl good ↦
        let value = t.values execute in
        let (v, t', w') = verify_stage port op input op.verify value t (await port w) in
        let k = verify_stage-Kept port op input op.verify value t (await port w) in
        rw good (
          Concluded-from permit w'.audit w.audit _ _ k.audit (
            verified-Concluded permit value v t' w' (k.permit ∙ h)
              (verify_stage-passed op.verify value t (await port w))))
    | inr bad ↦
        let reason = get_some_or (first_text r.reasons) (op.kind ++ codes " failed") in
        let (t', w') = undo port op input op.rollback reason t (await port w) in
        let k = undo-Kept port op input op.rollback reason t (await port w) in
        rw bad (
          Concluded-from permit w'.audit w.audit _ _ k.audit (
            rolled_back-Concluded permit reason r t' w' (k.permit ∙ h)
              (undo-passed op.rollback reason t (await port w))))
  ]
