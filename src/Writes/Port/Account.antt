-- ===== src/Writes/Port/Account.antt =====
-- packages/core/src/writes/port.ts: every permit of a write is accounted for in the audit log.
use yes_you_can.Prelude.{
  ◌+◌, ◌≡◌, refl, ap, ◌∙◌, ◌⊎◌, inl, inr, true, false, Option, none, some, List, [], ◌∷◌, ◌++◌,
  append_assoc, Bool-cases, get_some_or,
}
use yes_you_can.Text.{Text, codes}
use yes_you_can.Safety.{
  WritePermit, WriteRequestContext, permit_issued, AuditEntry, verify_permit, record_audit,
  evaluate, request_permit,
}
use yes_you_can.Safety.Preconditions.{evaluate_iff}
use yes_you_can.Writes.Transaction.{
  prepare, execute, confirm, StageReport, failed, ok, is_ok, Transaction, abort, stage,
  stage_refusal, refuse_stage, settle, report, begin_transaction, attach, note,
}
use yes_you_can.Writes.Operation.{
  WriteBinding, WriteOperation, WritePort, World, WriteOperationResult, at, await, on_environment,
  first_text, shown, remember,
}
use yes_you_can.Writes.Port.{begin_write, result}
use yes_you_can.Writes.Port.Bodies.{
  confirm_stage, confirm_body, confirm_described, execute_body, described, issue,
}
use yes_you_can.Writes.Port.Flow.{
  run_permitted, run_refused, run_confirmed, run_prepared, run_operation,
}
use yes_you_can.Writes.Port.Guard.{Safe, Stated, confirmed_failed, prepare_stage, prepare_audit}
use yes_you_can.Writes.Port.Kept.{stage_permit, stage-Kept, execute_body_audit, abort_permit}
use yes_you_can.Writes.Port.Conclude.{
  is_success, outcome_action, Concluded, Concluded-from, notified, executed-Concluded,
}

-- The ECU of the write that `describe` states.
abbrev pub stated_ecu : Text ⊎ (WriteRequestContext × List Text) → Option Text
stated_ecu (inl error) = none
stated_ecu (inr (context, told)) = some context.ecu_id

module _ {V E : Type 0} (port : WritePort E) (binding : WriteBinding) where
  -- A permit was issued for the write that is stated, and the log has an entry for it.
  pub record Permitted (stated : Text ⊎ (WriteRequestContext × List Text)) (w : World V E)
      (t' : Transaction V) (w' : World V E) (permit : WritePermit) : Type 0 where
    pub safe : Stated port.safety binding.vehicle_state stated
    pub held : t'.permit ≡ some permit
    pub for_ecu : some permit.ecu_id ≡ stated_ecu stated
    pub until : permit.expires_at ≡ at port w + port.safety.permit_ttl_ms
    pub issued : AuditEntry
    pub logged : w'.audit ≡ w.audit ++ (issued ∷ [])
    pub about : issued.action ≡ permit_issued permit.risk permit.id

  described_cases :
      (permit_id : Text) (t : Transaction V) (w : World V E)
      (stated : Text ⊎ (WriteRequestContext × List Text))
      → let (t1, outcome, w') = confirm_described port binding permit_id t w stated in
        let (t', r) = settle (at port w') confirm outcome t1 in
        ((r.state ≡ failed) × (w'.audit ≡ w.audit) × (t'.permit ≡ t.permit))
        ⊎ ((r.state ≡ ok) × ((permit : WritePermit) × Permitted stated w t' w' permit))
  unfolding confirm_described settle report
  described_cases permit_id t w (inl error) = inl (refl, refl, refl)
  described_cases permit_id t w (inr (context, told)) =
      elim (Bool-cases (evaluate port.safety context binding.vehicle_state).ok) [
        | inr bad ↦ rw bad (inl (refl, refl, refl))
        | inl good ↦
            unfold Stated issue request_permit record_audit attach in
            rw good (
              inr (
                refl,
                (
                  record {
                    id = permit_id;
                    issued_at = at port w;
                    ecu_id = context.ecu_id;
                    risk = context.risk;
                    checks = record (evaluate port.safety context binding.vehicle_state) {
                      ok = true;
                    };
                    expires_at = at port w + port.safety.permit_ttl_ms;
                  },
                  record {
                    safe = (evaluate_iff port.safety context binding.vehicle_state).0 good;
                    held = refl;
                    for_ecu = refl;
                    until = refl;
                    issued = record {
                      timestamp = at port w;
                      action = permit_issued context.risk permit_id;
                      ecu_id = context.ecu_id;
                    };
                    logged = refl;
                    about = refl;
                  },
                ),
              ))
      ]

module _ {I V E : Type 0} (port : WritePort E) (op : WriteOperation I V E) (input : I)
    (binding : WriteBinding) where
  confirm_cases :
      (permit_id : Text) (t : Transaction V) (w : World V E) (refusal : Option Text)
      → let (t', r, w') = confirm_stage port op input binding permit_id t w refusal in
        ((r.state ≡ failed) × (w'.audit ≡ w.audit) × (t'.permit ≡ t.permit))
        ⊎ ((r.state ≡ ok)
            × ((permit : WritePermit) × Permitted port binding
                  (described op input binding t)
                  w
                  t'
                  w'
                  permit))
  unfolding confirm_stage refuse_stage report
  confirm_cases permit_id t w (some reason) = inl (
    refl,
    refl,
    abort_permit (at port w) reason (report (at port w) confirm failed (reason ∷ []) [] none t).0,
  )
  confirm_cases permit_id t w none =
      unfold confirm_body in
      described_cases port binding permit_id t w (described op input binding t)

  -- What a write leaves in the log: nothing and no permit, or exactly the entry of its permit and
  -- that of its outcome.
  pub data Accounted (t : Transaction V) (at_confirm w : World V E)
      (answer : WriteOperationResult V) (w' : World V E) : Type 0 where
    unwritten :
        answer.ok ≡ false
        → answer.transaction.permit ≡ none
        → w'.audit ≡ w.audit
        → Accounted t at_confirm w answer w'
    written :
        (permit : WritePermit) (issued concluded : AuditEntry)
        → Safe port op input binding t
        → some permit.ecu_id ≡ stated_ecu (described op input binding t)
        → permit.expires_at ≡ at port at_confirm + port.safety.permit_ttl_ms
        → answer.transaction.permit ≡ some permit
        → w'.audit ≡ w.audit ++ (issued ∷ concluded ∷ [])
        → issued.action ≡ permit_issued permit.risk permit.id
        → concluded.action ≡ outcome_action port op input (is_success port op input answer) permit
        → concluded.ecu_id ≡ permit.ecu_id
        → Accounted t at_confirm w answer w'

  refused_kept :
      (reason : Text) (told : Transaction V → Text) (r : StageReport) (t : Transaction V)
      (w : World V E)
      → let (answer, w') = run_refused port op input reason told r t w in
        (answer.ok ≡ false) × (answer.transaction.permit ≡ t.permit) × (w'.audit ≡ w.audit)
  unfolding run_refused result remember
  refused_kept reason told r t w = (
    refl,
    abort_permit (at port w) reason t,
    notified port op input op.on_abort (abort (at port w) reason t)
        (told (abort (at port w) reason t)) w,
  )

  -- `run` behind `confirm`, with the permit that it attached.
  permitted-Concluded :
      (permit : WritePermit) (t : Transaction V) (w : World V E) (held : Option WritePermit)
      → held ≡ some permit
      → t.permit ≡ some permit
      → let (answer, w') = run_permitted port op input binding t w held in
        Concluded port op input permit w.audit answer w'
  unfolding run_permitted
  permitted-Concluded permit t w none h e = cc h
  permitted-Concluded permit t w (some p) h e =
      let body = λ (u : World V E).
        execute_body port op input p t u (verify_permit (at port u) p binding.ecu_id) in
      let (t', r, w') = stage (λ (u : World V E). at port u) execute body t w in
      let k =
        stage-Kept port op input execute body t w
          (execute_body_audit port op input p t w (verify_permit (at port w) p binding.ecu_id)) in
      Concluded-from port op input permit w'.audit w.audit _ _ k.audit
        (executed-Concluded port op input permit t' r w' (k.permit ∙ e))

  confirmed-Accounted :
      (before : World V E) (t : Transaction V) (w : World V E) (t' : Transaction V)
      (r : StageReport) (w' : World V E)
      → w.audit ≡ before.audit
      → t.permit ≡ none
      → ((r.state ≡ failed) × (w'.audit ≡ w.audit) × (t'.permit ≡ t.permit))
        ⊎ ((r.state ≡ ok)
            × ((permit : WritePermit) × Permitted port binding
                  (described op input binding t)
                  w
                  t'
                  w'
                  permit))
      → let (answer, u) = run_confirmed port op input binding (t', r, w') in
        Accounted t w before answer u
  confirmed-Accounted before t w t' r w' same no_permit (inl (bad, kept, permit)) =
      let refused =
        refused_kept (get_some_or (first_text r.reasons) (codes "preconditions not met"))
          (λ (u : Transaction V). get_some_or (shown u.reason) (codes "preconditions not met")) r t'
          (await port w') in
      rw (confirmed_failed port op input binding t' r w' bad)
        (unwritten refused.0 (refused.1 ∙ permit ∙ no_permit) (refused.2 ∙ kept ∙ same))
  confirmed-Accounted before t w t' r w' same no_permit (inr (good, permitted)) =
      unfold run_confirmed in
      rw good (
        let permit = permitted.0 in
        let p = permitted.1 in
        let c = permitted-Concluded permit t' (await port w') t'.permit p.held p.held in
        written permit p.issued c.written (unfold Safe in p.safe) p.for_ecu p.until c.held
          (c.logged
            ∙ ap (λ (log : List AuditEntry). log ++ (c.written ∷ []))
                (p.logged ∙ ap (λ (log : List AuditEntry). log ++ (p.issued ∷ [])) same)
            ∙ append_assoc before.audit (p.issued ∷ []) (c.written ∷ []))
          p.about c.about c.on_ecu)

  prepared-Accounted :
      (permit_id : Text) (before : World V E) (t : Transaction V) (r : StageReport) (w : World V E)
      → w.audit ≡ before.audit
      → t.permit ≡ none
      → let (answer, u) = run_prepared port op input binding permit_id (t, r, w) in
        Accounted t (await port w) before answer u
  unfolding run_prepared
  prepared-Accounted permit_id before t r w same no_permit = elim (Bool-cases (is_ok r.state)) [
    | inr bad ↦
        let reason =
          get_some_or (first_text r.reasons) (codes "prepare did not capture the previous state") in
        let refused = refused_kept reason (λ (u : Transaction V). reason) r t (await port w) in
        rw bad (unwritten refused.0 (refused.1 ∙ no_permit) (refused.2 ∙ same))
    | inl good ↦
        let refusal = stage_refusal confirm t in
        let (t', r', w') = confirm_stage port op input binding permit_id t (await port w) refusal in
        rw good (
          confirmed-Accounted before t (await port w) t' r' w' same no_permit
            (confirm_cases permit_id t (await port w) refusal))
  ]

  -- As long as the hooks `outcomeOf` and `onAbort` do not throw: a write that ends without a
  -- permit is not `ok` and leaves the audit log as it is. A write with a permit was proven to be
  -- safe, for the context that `describe` gives behind `prepare`; the permit is for the ECU of
  -- that context and expires after the configured time; and the audit log has exactly two entries
  -- more, however the write ends: that of the permit, and that of the outcome, which is a success
  -- exactly if the last stage that was reported is a verification that has not failed and the
  -- operation's `outcomeOf`, where there is one, accepts the value of the result.
  pub run_operation-Accounted :
      (id permit_id : Text) (w : World V E)
      → let (t, r, prepared) = prepare_stage port op input binding id w in
        let (answer, w') = run_operation port op input binding id permit_id w in
        Accounted t (await port prepared) w answer w'
  unfolding run_operation prepare_stage begin_write begin_transaction note
  run_operation-Accounted id permit_id w =
      let (t, r, u) = prepare_stage port op input binding id w in
      prepared-Accounted permit_id w t r u (prepare_audit port op input binding id w) (
        stage_permit (λ (v : World V E). at port v) prepare
          (λ (v : World V E).
            on_environment (op.prepare (begin_write port op binding id w) input) v)
          (begin_write port op binding id w) w)
