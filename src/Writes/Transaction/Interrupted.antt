-- ===== src/Writes/Transaction/Interrupted.antt =====
-- packages/core/src/writes/transaction.ts: `stage` with what others call on the transaction while the body
-- is awaited.
use yes_you_can.Prelude.{
  ℕ, ◌≡◌, refl, ap, ◌∙◌, inl, inr, true, false, Option, none, some, Bool-cases, Option-cases,
  if◌then◌else◌,
}
use yes_you_can.Text.{Text}
use yes_you_can.Writes.Transaction.{
  StageName, aborted, has_state, terminal, next_state, StageReport, StageOutcome, BodyResult,
  returned, Transaction, is_finished, transition, note, abort, refuse_stage, settle, stage_refusal,
  run_stage, stage,
}
use yes_you_can.Writes.Transaction.Order.{settled, refusal_none, terminal_refused}

module _ {V E : Type 0} (now : E → ℕ) where
  -- Behind the guard: the body runs, `during` is what is called on the transaction in the meantime, and
  -- the result is settled on what the transaction is then.
  unfoldable pub run_stage_during :
      StageName
      → (Transaction V → Transaction V)
      → (E → BodyResult V × E)
      → Transaction V
      → E
      → Option Text
      → Transaction V × StageReport × E
  unfolding settle refuse_stage
  run_stage_during name during body t e (some reason) =
      let (t', entry) = refuse_stage (now e) name reason t in (t', entry, e)
  run_stage_during name during body t e none =
      let (result, e') = body e in
      let (t', entry) = settle (now e') name result (during t) in (t', entry, e')

  unfoldable pub stage_during :
      StageName
      → (Transaction V → Transaction V)
      → (E → BodyResult V × E)
      → Transaction V
      → E
      → Transaction V × StageReport × E
  unfolding run_stage_during stage_refusal
  stage_during name during body t e = run_stage_during name during body t e (stage_refusal name t)

  -- If nothing is called in the meantime, it is `stage`.
  stage_during_nothing :
      (name : StageName) (body : E → BodyResult V × E) (t : Transaction V) (e : E)
      → stage_during name (λ (u : Transaction V). u) body t e ≡ stage now name body t e
  unfolding stage_during stage
  stage_during_nothing name body t e = elim (Option-cases (stage_refusal name t)) [
    | inl free ↦ rw free (unfold run_stage_during run_stage in refl)
    | inr (reason, refusal) ↦ rw refusal (unfold run_stage_during run_stage in refl)
  ]

  allowed_live :
      (name : StageName) (t : Transaction V) → stage_refusal name t ≡ none → is_finished t ≡ false
  allowed_live name t h = elim (Bool-cases (is_finished t)) [
    | inr live ↦ live
    | inl done ↦ cc ((refusal_none name t h).allowed, terminal_refused name t.current_state done)
  ]

  abort_live :
      (at : ℕ) (reason : Text) (t : Transaction V)
      → is_finished t ≡ false
      → ((abort at reason t).current_state ≡ aborted) × ((abort at reason t).ended_at ≡ some at)
  unfolding abort transition note
  abort_live at reason t live = rw live (refl, refl)

  -- A transaction that is aborted while the body of an allowed stage is awaited, whose body then
  -- succeeds, is not aborted any more: it is in the state of the stage, and still has a time of its
  -- end.
  aborted_revived :
      (name : StageName) (body : E → BodyResult V × E) (t : Transaction V) (e : E) (at : ℕ)
      (reason : Text) (outcome : StageOutcome V)
      → stage_refusal name t ≡ none
      → (body e).0 ≡ returned outcome
      → outcome.ok ≡ true
      → let (t', entry, e') = stage_during name (abort at reason) body t e in
        ((abort at reason t).current_state ≡ aborted)
        × (t'.current_state ≡ next_state name)
        × (t'.ended_at ≡ (if has_state terminal (next_state name) then some (now e') else some at))
  unfolding stage_during
  aborted_revived name body t e at reason outcome free ran good =
      let closed = abort_live at reason t (allowed_live name t free) in
      let over = settled (now (body e).1) name outcome (abort at reason t) good in
      rw free (
        unfold run_stage_during in
        rw ran (
          closed.0,
          over.0,
          over.5
              ∙ ap
                  (λ (end : Option ℕ).
                    if has_state terminal (next_state name) then some (now (body e).1) else end)
                  closed.1,
        ))
