-- ===== src/Writes/Port/Stale.antt =====
-- packages/core/src/writes/port.ts: a permit that does not hold when the write begins, and a
-- verification that fails without a reason.
use yes_you_can.Prelude.{
  ◌<◌, ◌⊎◌, ◌≢◌, inl, inr, arith, Option-cases, ℕ, ◌≡◌, refl, ap, ◌∙◌, Bool, true, false, Option,
  none, some, List, [], ◌∷◌, ◌++◌, if◌then◌else◌, if_cases,
}
use yes_you_can.Text.{Text}
use yes_you_can.Safety.{WritePermit, SafetyViolation, verify_permit}
use yes_you_can.Safety.Permits.{verify_permit_iff}
use yes_you_can.Writes.Transaction.{
  StageName, execute, verify, executed, prepare, StageReport, failed, ok, StageOutcome, BodyResult,
  returned, Transaction, stage, run_stage, stage_refusal, settle, report, refuse_stage,
}
use yes_you_can.Writes.Operation.{
  WriteBinding, WriteOperation, WritePort, World, at, await, on_environment, unique, unique_from,
}
use yes_you_can.Writes.Port.Bodies.{execute_body}
use yes_you_can.Writes.Port.Flow.{
  is_failed, Verification, run_executed, run_permitted, failed_reasons, rollback_and_finish,
  rollback_finished, run_verified, verify_stage, verification_of, finish,
}
use yes_you_can.Writes.Port.{result}

module _ {I V E : Type 0} (port : WritePort E) (op : WriteOperation I V E) (input : I)
    (binding : WriteBinding) (permit : WritePermit)
    (execute' : Transaction V → I → Option V → WritePermit → E → BodyResult V × E) where
  abbrev pub writing : WriteOperation I V E
  writing = record op { execute = execute' }

  stale_stage :
      (t : Transaction V) (w : World V E) {violation : SafetyViolation} (refusal : Option Text)
      → verify_permit (at port w) permit binding.ecu_id ≡ some violation
      → let now = λ (u : World V E). at port u in
        let body = λ (u : World V E).
          execute_body port op input permit t u (verify_permit (at port u) permit binding.ecu_id) in
        let body' = λ (u : World V E).
          execute_body port writing input permit t u
            (verify_permit (at port u) permit binding.ecu_id) in
        ((run_stage now execute body t w refusal).1.state ≡ failed)
        × ((run_stage now execute body t w refusal).2 ≡ w)
        × (run_stage now execute body' t w refusal ≡ run_stage now execute body t w refusal)
  unfolding run_stage execute_body refuse_stage report settle
  stale_stage t w (some reason) h = (refl, refl, refl)
  stale_stage t w none h = rw h (refl, refl, refl)

  failed_alike :
      (x : Transaction V × StageReport × World V E)
      → x.1.state ≡ failed
      → let (answer, w') = run_executed port op input x in
        (answer.ok ≡ false) × (run_executed port writing input x ≡ run_executed port op input x)
  unfolding run_executed rollback_and_finish rollback_finished result
  failed_alike (t, r, w) h = rw h (refl, refl)

  stale_violation :
      (now : ℕ)
      → (permit.expires_at < now) ⊎ (permit.ecu_id ≢ binding.ecu_id)
      → (violation : SafetyViolation) × (verify_permit now permit binding.ecu_id ≡ some violation)
  stale_violation now stale = elim (Option-cases (verify_permit now permit binding.ecu_id)) [
    | inr found ↦ found
    | inl holds ↦
        let good = (verify_permit_iff now permit binding.ecu_id).0 holds in
        absurd (elim stale [ inl late ↦ omega (arith, good.1) | inr foreign ↦ foreign good.0 ])
  ]

  -- A permit whose time of expiry is past when the write is about to begin, or that is for another
  -- ECU than the one of the binding: the write is not `ok`, and the outcome is that of an operation
  -- with any other hook `execute`, so that hook has not been called.
  pub stale_permit_inert :
      (t : Transaction V) (w : World V E)
      → (permit.expires_at < at port w) ⊎ (permit.ecu_id ≢ binding.ecu_id)
      → let (answer, w') = run_permitted port op input binding t w (some permit) in
        (answer.ok ≡ false)
        × (run_permitted port writing input binding t w (some permit)
            ≡ run_permitted port op input binding t w (some permit))
  unfolding run_permitted stage
  stale_permit_inert t w stale =
      let h = (stale_violation (at port w) stale).1 in
      let stopped = stale_stage t w (stage_refusal execute t) h in
      let now = λ (u : World V E). at port u in
      let body = λ (u : World V E).
        execute_body port op input permit t u (verify_permit (at port u) permit binding.ecu_id) in
      let alike =
        failed_alike (run_stage now execute body t w (stage_refusal execute t)) stopped.0 in
      (
        alike.0,
        ap (λ (x : Transaction V × StageReport × World V E). run_executed port writing input x)
              stopped.2
            ∙ alike.1,
      )

-- The reasons of one more report, which has none.
joined_empty :
    (b : Bool) (xs ys zs : List Text)
    → (if b then xs ++ ys else ys) ≡ []
    → (ys ≡ [] → zs ≡ [])
    → (if b then xs ++ zs else zs) ≡ []
joined_empty true [] ys zs h k = k h
joined_empty true (x ∷ xs) ys zs h k = cc h
joined_empty false xs ys zs h k = k h

failed_reasons-append :
    (rs : List StageReport) (r : StageReport)
    → failed_reasons rs ≡ []
    → r.reasons ≡ []
    → failed_reasons (rs ++ (r ∷ [])) ≡ []
unfolding failed_reasons
failed_reasons-append [] r h e = rw e (if_cases (λ (xs : List Text). xs ≡ []) _ _ _ refl refl)
failed_reasons-append (x ∷ rs) r h e =
    joined_empty (is_failed x.state) x.reasons (failed_reasons rs) (failed_reasons (rs ++ (r ∷ [])))
      h (λ k. failed_reasons-append rs r k e)

verify_allowed :
    {V : Type 0} (t : Transaction V) → t.current_state ≡ executed → stage_refusal verify t ≡ none
unfolding stage_refusal
verify_allowed t h = rw h refl

module _ {V E : Type 0} (now : E → ℕ) where
  -- A stage that may run and whose body fails.
  stage_bad :
      (name : StageName) (body : E → BodyResult V × E) (t : Transaction V) (e : E)
      (outcome : StageOutcome V)
      → stage_refusal name t ≡ none
      → (body e).0 ≡ returned outcome
      → outcome.ok ≡ false
      → stage now name body t e ≡ (
        (report (now (body e).1) name failed outcome.reasons outcome.warnings outcome.detail t).0,
        (report (now (body e).1) name failed outcome.reasons outcome.warnings outcome.detail t).1,
        (body e).1,
      )
  unfolding stage run_stage settle
  stage_bad name body t e outcome free ran bad = rw (free, ran, bad) refl

module _ {I V E : Type 0} (port : WritePort E) (op : WriteOperation I V E) (input : I) where
  silent_stage :
      (hook : Transaction V → I → Option V → Option V → E → BodyResult V × E) (value : Option V)
      (t : Transaction V) (w : World V E) (outcome : StageOutcome V)
      → t.current_state ≡ executed
      → failed_reasons t.stage_reports ≡ []
      → (hook t input (t.values prepare) value w.environment).0 ≡ returned outcome
      → outcome.ok ≡ false
      → outcome.reasons ≡ []
      → let (v, t', w') = verify_stage port op input (some hook) value t w in
        (t'.current_state ≡ executed) × (failed_reasons t'.stage_reports ≡ []) × (v.reasons ≡ [])
  unfolding verify_stage verification_of report
  silent_stage hook value t w outcome at_executed none_failed ran bad silent =
      let body = λ (u : World V E). on_environment (hook t input (t.values prepare) value) u in
      rw
        (stage_bad (λ (u : World V E). at port u) verify body t w outcome
          (verify_allowed t at_executed) ran bad)
        (at_executed, failed_reasons-append t.stage_reports _ none_failed silent, silent)

  no_reasons_pass :
      (value : Option V) (v : Verification V) (t : Transaction V) (w : World V E)
      → t.current_state ≡ executed
      → failed_reasons t.stage_reports ≡ []
      → v.reasons ≡ []
      → (run_verified port op input value (v, t, w)).0.ok ≡ true
  unfolding run_verified finish unique unique_from
  no_reasons_pass value v t w at_executed none_failed silent =
      rw (at_executed, none_failed, silent) refl

  -- A write that was executed without a failed stage, and whose hook `verify` then fails without a
  -- reason, ends as `ok`.
  pub silent_verification_accepted :
      (hook : Transaction V → I → Option V → Option V → E → BodyResult V × E) (t : Transaction V)
      (r : StageReport) (w : World V E) (outcome : StageOutcome V)
      → op.verify ≡ some hook
      → r.state ≡ ok
      → t.current_state ≡ executed
      → failed_reasons t.stage_reports ≡ []
      → (hook t input (t.values prepare) (t.values execute) (port.elapse w.environment)).0
        ≡ returned outcome
      → outcome.ok ≡ false
      → outcome.reasons ≡ []
      → (run_executed port op input (t, r, w)).0.ok ≡ true
  unfolding run_executed
  silent_verification_accepted hook t r w outcome is_hook passed at_executed none_failed ran bad
        silent =
      let s =
        silent_stage hook (t.values execute) t (await port w) outcome at_executed none_failed ran
          bad silent in
      let (v, t', w') =
        verify_stage port op input (some hook) (t.values execute) t (await port w) in
      rw (passed, is_hook) (no_reasons_pass (t.values execute) v t' w' s.0 s.1 s.2)
