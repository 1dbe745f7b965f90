-- ===== src/Writes/Port/Guard.antt =====
-- packages/core/src/writes/port.ts: what a write does whose preconditions are not proven.
use yes_you_can.Prelude.{
  ℕ, ◌≡◌, refl, sym, ap, ◌∙◌, inl, inr, Bool, false, ◌⊎◌, List, Option, none, some, Bool-cases,
  Option-cases, get_some_or,
}
use yes_you_can.Text.{Text, codes}
use yes_you_can.Safety.{WritePermit, evaluate, VehicleState, WriteRequestContext, SafetyManager}
use yes_you_can.Safety.Preconditions.{Proven, evaluate_iff}
use yes_you_can.Writes.Transaction.{
  StageName, prepare, confirm, StageReport, failed, is_ok, BodyResult, Transaction, report, stage,
  run_stage, stage_refusal, refuse_stage, settle,
}
use yes_you_can.Writes.Operation.{
  WriteBinding, WriteOperation, WritePort, World, first_text, shown, remember, at, await,
  on_environment,
}
use yes_you_can.Writes.Port.{session_type_of, begin_write, result, notify_abort}
use yes_you_can.Writes.Port.Bodies.{confirm_stage, confirm_body, confirm_described, described}
use yes_you_can.Writes.Port.Flow.{run_operation, run_prepared, run_confirmed, run_refused}

-- What a stage leaves of its environment: nothing is new, or it is what the body leaves.
pub stage_world :
    {V E : Type 0} (P : E → Type 0) (now : E → ℕ) (name : StageName) (body : E → BodyResult V × E)
    (t : Transaction V) (e : E)
    → P e
    → P (body e).1
    → P (stage now name body t e).2
unfolding stage
stage_world P now name body t e h k = go (stage_refusal name t)
  where
    go : (refusal : Option Text) → P (run_stage now name body t e refusal).2
    go none = k
    go (some reason) = h

unsafe_fails :
    (manager : SafetyManager) (context : WriteRequestContext) (state : VehicleState)
    → ¬ Proven manager context state
    → (evaluate manager context state).ok ≡ false
unsafe_fails manager context state h = elim (Bool-cases (evaluate manager context state).ok) [
  | inl good ↦ absurd (h ((evaluate_iff manager context state).0 good))
  | inr bad ↦ bad
]

-- What `describe` states is proven to be safe; what it throws is not.
unfoldable pub Stated :
    SafetyManager → VehicleState → Text ⊎ (WriteRequestContext × List Text) → Type 0
Stated manager state (inl error) = ⊥
Stated manager state (inr (context, told)) = Proven manager context state

described_unproven :
    {V E : Type 0} (port : WritePort E) (binding : WriteBinding) (permit_id : Text)
    (t : Transaction V) (w : World V E) (x : Text ⊎ (WriteRequestContext × List Text))
    → ¬ Stated port.safety binding.vehicle_state x
    → let (t', outcome, w') = confirm_described port binding permit_id t w x in
      ((settle (at port w') confirm outcome t').1.state ≡ failed) × (w' ≡ w)
unfolding Stated confirm_described settle report
described_unproven port binding permit_id t w (inl error) h = (refl, refl)
described_unproven port binding permit_id t w (inr (context, told)) h =
    rw (unsafe_fails port.safety context binding.vehicle_state h) (refl, refl)

module _ {I V E : Type 0} (port : WritePort E) (op : WriteOperation I V E) (input : I)
    (binding : WriteBinding) where
  -- What `describe` states behind `prepare` is proven to be safe; it does not throw.
  unfoldable pub Safe : Transaction V → Type 0
  Safe t = Stated port.safety binding.vehicle_state (described op input binding t)

  -- The stage `confirm` of a write that is not proven fails and changes nothing outside.
  pub confirm_unproven :
      (permit_id : Text) (t : Transaction V) (w : World V E) (refusal : Option Text)
      → ¬ Safe t
      → let (t', r, w') = confirm_stage port op input binding permit_id t w refusal in
        (r.state ≡ failed) × (w' ≡ w)
  unfolding Safe confirm_stage refuse_stage report
  confirm_unproven permit_id t w (some reason) h = (refl, refl)
  confirm_unproven permit_id t w none h =
      unfold confirm_body in
      described_unproven port binding permit_id t w (described op input binding t) h

  -- What is left of `run` then.
  pub confirmed_failed :
      (t : Transaction V) (r : StageReport) (w : World V E)
      → r.state ≡ failed
      → run_confirmed port op input binding (t, r, w)
        ≡ run_refused port op input
            (get_some_or (first_text r.reasons) (codes "preconditions not met"))
            (λ (u : Transaction V). get_some_or (shown u.reason) (codes "preconditions not met"))
            r
            t
            (await port w)
  unfolding run_confirmed
  confirmed_failed t r w h = rw h refl

  -- The stage `prepare` of a write.
  unfoldable pub prepare_stage : Text → World V E → Transaction V × StageReport × World V E
  unfolding begin_write stage
  prepare_stage id w =
      stage (λ (u : World V E). at port u) prepare
        (λ (u : World V E). on_environment (op.prepare (begin_write port op binding id w) input) u)
        (begin_write port op binding id w) w

  pub prepare_audit : (id : Text) (w : World V E) → (prepare_stage id w).2.audit ≡ w.audit
  unfolding prepare_stage
  prepare_audit id w =
      stage_world (λ (u : World V E). u.audit ≡ w.audit) (λ (u : World V E). at port u) prepare
        (λ (u : World V E). on_environment (op.prepare (begin_write port op binding id w) input) u)
        (begin_write port op binding id w) w refl refl

module _ {I V E : Type 0} (port : WritePort E) (op : WriteOperation I V E) (input : I)
    (binding : WriteBinding) (id permit_id : Text)
    (execute' : Transaction V → I → Option V → WritePermit → E → BodyResult V × E)
    (verify' : Option (Transaction V → I → Option V → Option V → E → BodyResult V × E))
    (rollback' : Option (Transaction V → I → Text → E → BodyResult V × E))
    (outcome_of' : Option (Option V → Bool)) where
  abbrev pub other : WriteOperation I V E
  other = record op {
    execute = execute';
    verify = verify';
    rollback = rollback';
    outcome_of = outcome_of';
  }

  confirm_alike :
      (t : Transaction V) (w : World V E) (refusal : Option Text)
      → confirm_stage port other input binding permit_id t w refusal
        ≡ confirm_stage port op input binding permit_id t w refusal
  unfolding confirm_stage confirm_body described session_type_of
  confirm_alike t w none = refl
  confirm_alike t w (some reason) = refl

  prepared_alike :
      (t : Transaction V) (r : StageReport) (w : World V E)
      → ¬ Safe port op input binding t
      → run_prepared port other input binding permit_id (t, r, w)
        ≡ run_prepared port op input binding permit_id (t, r, w)
  unfolding run_prepared run_refused
  prepared_alike t r w h = elim (Bool-cases (is_ok r.state)) [
    | inr bad ↦ rw bad refl
    | inl good ↦
        rw (good, confirm_alike t (await port w) (stage_refusal confirm t))
          (let stopped =
              confirm_unproven port op input binding permit_id t (await port w)
                (stage_refusal confirm t) h in
            let c =
              confirm_stage port op input binding permit_id t (await port w)
                (stage_refusal confirm t) in
            confirmed_failed port other input binding c.0 c.1 c.2 stopped.0
            ∙ sym (confirmed_failed port op input binding c.0 c.1 c.2 stopped.0))
  ]

  refused_kept_audit :
      (reason : Text) (told : Transaction V → Text) (r : StageReport) (t : Transaction V)
      (w : World V E)
      → let (answer, w') = run_refused port op input reason told r t w in
        (answer.ok ≡ false) × (w'.audit ≡ w.audit)
  unfolding run_refused result remember notify_abort
  refused_kept_audit reason told r t w = elim (Option-cases op.on_abort) [
    | inl silent ↦ rw silent (refl, refl)
    | inr (hook, e) ↦ rw e (refl, refl)
  ]

  -- What `run` does with the outcome of `prepare`, if the write is not proven.
  prepared_unproven :
      (t : Transaction V) (r : StageReport) (w : World V E)
      → ¬ Safe port op input binding t
      → let (answer, w') = run_prepared port op input binding permit_id (t, r, w) in
        (answer.ok ≡ false) × (w'.audit ≡ w.audit)
  unfolding run_prepared
  prepared_unproven t r w h = elim (Bool-cases (is_ok r.state)) [
    | inr bad ↦ rw bad (
        let reason =
          get_some_or (first_text r.reasons) (codes "prepare did not capture the previous state") in
        refused_kept_audit reason (λ (u : Transaction V). reason) r t (await port w))
    | inl good ↦
        let stopped =
          confirm_unproven port op input binding permit_id t (await port w)
            (stage_refusal confirm t) h in
        let c =
          confirm_stage port op input binding permit_id t (await port w)
            (stage_refusal confirm t) in
        rw (good, confirmed_failed port op input binding c.0 c.1 c.2 stopped.0)
          (let kept =
              refused_kept_audit
                (get_some_or (first_text c.1.reasons) (codes "preconditions not met"))
                (λ (u : Transaction V).
                  get_some_or (shown u.reason) (codes "preconditions not met"))
                c.1 c.0 (await port c.2) in
            (kept.0, kept.1 ∙ ap (λ (u : World V E). u.audit) stopped.1))
  ]

  -- A write whose preconditions are not proven, for the context that `describe` gives behind
  -- `prepare`, or whose `describe` throws there, is not done: the result is not `ok`, the audit log is
  -- the same, and the whole outcome is that of any operation that has other hooks `execute`, `verify`,
  -- `rollback` and `outcomeOf`, so none of them has been called.
  pub unproven_inert :
      (w : World V E)
      → ¬ Safe port op input binding (prepare_stage port op input binding id w).0
      → let (answer, w') = run_operation port op input binding id permit_id w in
        (answer.ok ≡ false)
        × (w'.audit ≡ w.audit)
        × (run_operation port other input binding id permit_id w
            ≡ run_operation port op input binding id permit_id w)
  unfolding run_operation prepare_stage
  unproven_inert w h =
      let (t, r, u) = prepare_stage port op input binding id w in
      let stopped = prepared_unproven t r u h in
      (stopped.0, stopped.1 ∙ prepare_audit port op input binding id w, prepared_alike t r u h)
