-- ===== src/Writes/Port/Ended.antt =====
-- packages/core/src/writes/port.ts: the states in which `run` leaves a transaction, and the bound of
-- the history.
use yes_you_can.Prelude.{
  ℕ, ◌+◌, ◌-◌, ◌≤◌, ◌≡◌, refl, ap, inl, inr, Bool, true, false, Option, none, some, List, [], ◌∷◌,
  ◌++◌, arith, ltb, if◌then◌else◌, Bool-cases, get_some_or, length, drop, length-append,
  length-drop,
}
use yes_you_can.Text.{Text, codes}
use yes_you_can.Safety.{WritePermit, verify_permit}
use yes_you_can.Writes.Transaction.{
  TransactionState, StageName, prepare, confirm, execute, verify, rollback, executed, verified,
  aborted, rolled_back, StageReport, is_ok, BodyResult, Transaction, has_state, terminal,
  is_finished, abort, rolled_back_as, transition, note, skip, report, stage, stage_refusal, join,
  next_state,
}
use yes_you_can.Writes.Transaction.Order.{
  refused_stage, failed_stage, passed_stage, stage-Staged, abort_state,
}
use yes_you_can.Writes.Operation.{
  WriteBinding, WriteOperation, WritePort, World, at, await, on_environment, first_text, shown,
  remember,
}
use yes_you_can.Writes.Port.{result}
use yes_you_can.Writes.Port.Bodies.{confirm_stage, execute_body}
use yes_you_can.Writes.Port.Flow.{
  finish, run_verified, verify_stage, undo, rollback_finished, rollback_and_finish, run_executed,
  run_permitted, run_refused, run_confirmed, run_prepared, run_operation,
}
use yes_you_can.Writes.Port.Guard.{prepare_stage}

-- The states in which a write may end.
abbrev pub ends : List TransactionState
ends = executed ∷ verified ∷ aborted ∷ rolled_back ∷ []

pub Ended : TransactionState → Type 0
Ended s = has_state ends s ≡ true

terminal-Ended : (s : TransactionState) → has_state terminal s ≡ true → Ended s
unfolding Ended
terminal-Ended s h = ground arith

aborted-Ended :
    (s : TransactionState) (b : Bool) → has_state terminal s ≡ b → Ended (if b then s else aborted)
unfolding Ended
aborted-Ended s true h = terminal-Ended s h
aborted-Ended s false h = refl

module _ {V : Type 0} where
  abort-Ended :
      (now : ℕ) (reason : Text) (t : Transaction V) → Ended (abort now reason t).current_state
  abort-Ended now reason t =
      rw (abort_state now reason t) (aborted-Ended t.current_state (is_finished t) refl)

  rolled_back-Ended :
      (now : ℕ) (reason : Text) (t : Transaction V)
      → Ended (rolled_back_as now reason t).current_state
  unfolding rolled_back_as transition note Ended
  rolled_back-Ended now reason t = refl

  -- A stage that passed is in its state.
  passed_state :
      {E : Type 0} (now : E → ℕ) (name : StageName) (body : E → BodyResult V × E)
      (t : Transaction V) (e : E)
      → let (t', r, e') = stage now name body t e in
        is_ok r.state ≡ true → t'.current_state ≡ next_state name
  passed_state now name body t e h = elim (stage-Staged now name body t e) [
    | refused_stage bad same state ↦ cc (h, ap is_ok bad)
    | failed_stage bad result may ran state journal ↦ cc (h, ap is_ok bad)
    | passed_stage good result may ran state ↦ state
  ]

  -- A verification leaves an executed write executed, verified or aborted.
  verify-Ended :
      {E : Type 0} (now : E → ℕ) (body : E → BodyResult V × E) (t : Transaction V) (e : E)
      → t.current_state ≡ executed
      → Ended (stage now verify body t e).0.current_state
  verify-Ended now body t e h = elim (stage-Staged now verify body t e) [
    | refused_stage bad same state ↦ rw (state, h) (unfold Ended in refl)
    | failed_stage bad result may ran state journal ↦ rw (state, h) (unfold Ended in refl)
    | passed_stage good result may ran state ↦ rw state (unfold Ended in refl)
  ]

module _ {I V E : Type 0} (port : WritePort E) (op : WriteOperation I V E) (input : I) where
  verify_stage-Ended :
      (hook : Option (Transaction V → I → Option V → Option V → E → BodyResult V × E))
      (value : Option V) (t : Transaction V) (w : World V E)
      → t.current_state ≡ executed
      → Ended (verify_stage port op input hook value t w).1.current_state
  unfolding verify_stage skip report
  verify_stage-Ended none value t w h = rw h (unfold Ended in refl)
  verify_stage-Ended (some hook) value t w h =
      verify-Ended (λ (u : World V E). at port u)
        (λ (u : World V E). on_environment (hook t input (t.values prepare) value) u) t w h

  closing-Ended :
      (b : Bool) (now : ℕ) (reason text : Text) (t : Transaction V)
      → Ended (if b then rolled_back_as now reason t else abort now text t).current_state
  closing-Ended true now reason text t = rolled_back-Ended now reason t
  closing-Ended false now reason text t = abort-Ended now text t

  undo-Ended :
      (hook : Option (Transaction V → I → Text → E → BodyResult V × E)) (reason : Text)
      (t : Transaction V) (w : World V E)
      → Ended (undo port op input hook reason t w).0.current_state
  unfolding undo
  undo-Ended none reason t w =
      abort-Ended (at port w) reason
        (skip (at port w) rollback
          (get_some_or op.rollback_unavailable
            (op.kind ++ codes " provides no rollback — the backup is the recovery path"))
          t).0
  undo-Ended (some hook) reason t w =
      let body = λ (u : World V E). on_environment (hook t input reason) u in
      let (t', r, w') = stage (λ (u : World V E). at port u) rollback body t w in
      closing-Ended (is_ok r.state) (at port (await port w')) reason
        (reason ++ (codes " (rollback failed: " ++ (join (codes "; ") r.reasons ++ codes ")"))) t'

  executed-Ended :
      (t : Transaction V) (r : StageReport) (w : World V E)
      → (is_ok r.state ≡ true → t.current_state ≡ executed)
      → Ended (run_executed port op input (t, r, w)).0.transaction.current_state
  unfolding run_executed rollback_and_finish rollback_finished run_verified finish result
  executed-Ended t r w h = elim (Bool-cases (is_ok r.state)) [
    | inl good ↦ rw good (verify_stage-Ended op.verify (t.values execute) t (await port w) (h good))
    | inr bad ↦ rw bad (
        undo-Ended op.rollback (get_some_or (first_text r.reasons) (op.kind ++ codes " failed")) t
          (await port w))
  ]

  refused-Ended :
      (reason : Text) (told : Transaction V → Text) (r : StageReport) (t : Transaction V)
      (w : World V E)
      → Ended (run_refused port op input reason told r t w).0.transaction.current_state
  unfolding run_refused result
  refused-Ended reason told r t w = abort-Ended (at port w) reason t

  permitted-Ended :
      (binding : WriteBinding) (t : Transaction V) (w : World V E) (permit : Option WritePermit)
      → Ended (run_permitted port op input binding t w permit).0.transaction.current_state
  unfolding run_permitted result
  permitted-Ended binding t w none =
      abort-Ended (at port w) (codes "no permit recorded — write refused (AGENTS 26)") t
  permitted-Ended binding t w (some p) =
      let now = λ (u : World V E). at port u in
      let body = λ (u : World V E).
        execute_body port op input p t u (verify_permit (at port u) p binding.ecu_id) in
      let (t', r, w') = stage now execute body t w in
      executed-Ended t' r w' (passed_state now execute body t w)

  confirmed-Ended :
      (binding : WriteBinding) (x : Transaction V × StageReport × World V E)
      → Ended (run_confirmed port op input binding x).0.transaction.current_state
  unfolding run_confirmed
  confirmed-Ended binding (t, r, w) = elim (Bool-cases (is_ok r.state)) [
    | inl good ↦ rw good (permitted-Ended binding t (await port w) t.permit)
    | inr bad ↦ rw bad (
        refused-Ended (get_some_or (first_text r.reasons) (codes "preconditions not met"))
          (λ (u : Transaction V). get_some_or (shown u.reason) (codes "preconditions not met")) r t
          (await port w))
  ]

  prepared-Ended :
      (binding : WriteBinding) (permit_id : Text) (x : Transaction V × StageReport × World V E)
      → Ended (run_prepared port op input binding permit_id x).0.transaction.current_state
  unfolding run_prepared
  prepared-Ended binding permit_id (t, r, w) = elim (Bool-cases (is_ok r.state)) [
    | inl good ↦ rw good (
        confirmed-Ended binding (
          confirm_stage port op input binding permit_id t (await port w) (stage_refusal confirm t)))
    | inr bad ↦
        let reason =
          get_some_or (first_text r.reasons) (codes "prepare did not capture the previous state") in
        rw bad (refused-Ended reason (λ (u : Transaction V). reason) r t (await port w))
  ]

  -- However the hooks answer, as long as `outcomeOf` and `onAbort` do not throw, `run` comes to
  -- its end with a transaction that is executed, verified, aborted or rolled back: no write is
  -- left open, prepared, confirmed or suspended.
  pub run_operation-Ended :
      (binding : WriteBinding) (id permit_id : Text) (w : World V E)
      → Ended (run_operation port op input binding id permit_id w).0.transaction.current_state
  unfolding run_operation prepare_stage
  run_operation-Ended binding id permit_id w =
      prepared-Ended binding permit_id (prepare_stage port op input binding id w)

grown_length :
    {V : Type 0} (xs : List (Transaction V)) (t : Transaction V)
    → length (xs ++ (t ∷ [])) ≡ length xs + 1
grown_length xs t = omega (arith, length-append xs (t ∷ []))

module _ {V E : Type 0} where
  -- A history within the configured size stays within it, and holds the newest transactions, the
  -- added one included if the size is not zero.
  pub remember_newest :
      (port : WritePort E) (t : Transaction V) (w : World V E)
      → length w.transactions ≤ port.history_size
      → (length (remember port t w).transactions ≤ port.history_size)
        × ((remember port t w).transactions
            ≡ drop (length w.transactions + 1 - port.history_size) (w.transactions ++ (t ∷ [])))
  unfolding remember
  remember_newest port t w h =
      let grown = w.transactions ++ (t ∷ []) in
      elim (Bool-cases (ltb port.history_size (length grown))) [
        | inl over ↦
            let one : length w.transactions + 1 - port.history_size ≡ 1 =
              ground (arith, grown_length w.transactions t) in
            rw (over, one) (omega (arith, length-drop 1 grown, grown_length w.transactions t), refl)
        | inr fits ↦
            let nil : length w.transactions + 1 - port.history_size ≡ 0 =
              ground (arith, grown_length w.transactions t) in
            rw (fits, nil) (ground (arith, grown_length w.transactions t), refl)
      ]
