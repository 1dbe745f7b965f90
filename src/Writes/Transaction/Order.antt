-- ===== src/Writes/Transaction/Order.antt =====
-- packages/core/src/writes/transaction.ts: which stage may run, what it changes, and what a finished
-- transaction keeps.
use yes_you_can.Prelude.{
  List, Bool, ℕ, ◌≡◌, refl, ◌≢◌, inl, inr, true, false, Option, none, some, [], ◌∷◌, ◌++◌, arith,
  ◌==◌, if◌then◌else◌, Bool-cases, Option-cases,
}
use yes_you_can.Text.{Text}
use yes_you_can.Writes.Transaction.{
  StageName, prepare, confirm, execute, verify, rollback, TransactionState, verified, suspended,
  aborted, state_index, has_state, terminal, next_state, allowed_from, ok, failed, StageReport,
  StageOutcome, BodyResult, thrown, returned, Transaction, not_allowed_text, is_finished, note,
  transition, report, abort, suspend, resume, refuse_stage, settle, stage_refusal, run_stage, stage,
}

-- No stage starts from a terminal state.
pub terminal_refused :
    (name : StageName) (s : TransactionState)
    → has_state terminal s ≡ true
    → has_state (allowed_from name) s ≡ false
terminal_refused prepare s h = ground arith
terminal_refused confirm s h = ground arith
terminal_refused execute s h = ground arith
terminal_refused verify s h = ground arith
terminal_refused rollback s h = ground arith

terminal_not_suspended :
    (s : TransactionState)
    → has_state terminal s ≡ true
    → (state_index s == state_index suspended) ≡ false
terminal_not_suspended s h = ground arith

module _ {V : Type 0} where
  pub abort_state :
      (now : ℕ) (reason : Text) (t : Transaction V)
      → (abort now reason t).current_state ≡ (if is_finished t then t.current_state else aborted)
  unfolding abort transition note
  abort_state now reason t = elim (Bool-cases (is_finished t)) [
    | inl done ↦ rw done refl
    | inr live ↦ rw live refl
  ]

  pub abort_finished :
      (now : ℕ) (reason : Text) (t : Transaction V) → is_finished t ≡ true → abort now reason t ≡ t
  unfolding abort
  abort_finished now reason t h = rw h refl

  suspend_finished :
      (now : ℕ) (reason : Text) (t : Transaction V)
      → is_finished t ≡ true
      → suspend now reason t ≡ t
  unfolding suspend
  suspend_finished now reason t h = rw h refl

  resume_finished : (t : Transaction V) → is_finished t ≡ true → resume t ≡ (t, false)
  unfolding resume
  resume_finished t h = rw (terminal_not_suspended t.current_state h) refl

  -- What a body that succeeds leaves.
  pub settled :
      (now : ℕ) (name : StageName) (outcome : StageOutcome V) (t : Transaction V)
      → outcome.ok ≡ true
      → let (t', entry) = settle now name (returned outcome) t in
        (t'.current_state ≡ next_state name)
        × (t'.stage_reports ≡ t.stage_reports ++ (entry ∷ []))
        × (entry.state ≡ ok)
        × (entry.stage ≡ name)
        × (t'.permit ≡ t.permit)
        × (t'.ended_at ≡ (if has_state terminal (next_state name) then some now else t.ended_at))
  unfolding settle report transition note
  settled now name outcome t good = elim (Option-cases outcome.value) [
    | inl nothing ↦ rw (good, nothing) (refl, refl, refl, refl, refl, refl)
    | inr (v, value) ↦ rw (good, value) (refl, refl, refl, refl, refl, refl)
  ]

  -- What the guard of `stage` lets through.
  pub record MayRun (name : StageName) (t : Transaction V) : Type 0 where
    pub allowed : has_state (allowed_from name) t.current_state ≡ true
    pub permitted : name ≡ execute → t.permit ≢ none

  pub refusal_none :
      (name : StageName) (t : Transaction V) → stage_refusal name t ≡ none → MayRun name t
  unfolding stage_refusal
  refusal_none prepare t h = record {
    allowed = ground arith;
    permitted = λ (e : prepare ≡ execute). cc;
  }
  refusal_none confirm t h = record {
    allowed = ground arith;
    permitted = λ (e : confirm ≡ execute). cc;
  }
  refusal_none execute t h = record { allowed = ground arith; permitted = λ e p. ground arith }
  refusal_none verify t h = record {
    allowed = ground arith;
    permitted = λ (e : verify ≡ execute). cc;
  }
  refusal_none rollback t h = record {
    allowed = ground arith;
    permitted = λ (e : rollback ≡ execute). cc;
  }

  -- The result of a body that has not succeeded, and that of one that has, with the reasons that the
  -- report has to name.
  pub data BodyFailed : BodyResult V → List Text → Type 0 where
    has_thrown : (message : Text) → BodyFailed (thrown message) (message ∷ [])
    has_refused :
        (outcome : StageOutcome V)
        → outcome.ok ≡ false
        → BodyFailed (returned outcome) outcome.reasons

  pub data BodyPassed : BodyResult V → List Text → Type 0 where
    has_passed :
        (outcome : StageOutcome V)
        → outcome.ok ≡ true
        → BodyPassed (returned outcome) outcome.reasons

  -- How a stage ends whose body, if it runs, has the result and leaves `after`. The body of a stage
  -- that is refused has not run: the environment is the same.
  pub data Staged (name : StageName) (t : Transaction V) {E : Type 0} (e : E)
      (result : BodyResult V) (after : E) (t' : Transaction V) (entry : StageReport) (e' : E)
      : Type 0 where
    refused_stage :
        entry.state ≡ failed
        → e' ≡ e
        → (t'.current_state ≡ (if is_finished t then t.current_state else aborted))
        → Staged name t e result after t' entry e'
    failed_stage :
        entry.state ≡ failed
        → BodyFailed result entry.reasons
        → MayRun name t
        → e' ≡ after
        → t'.current_state ≡ t.current_state
        → t'.journal_entries ≡ t.journal_entries
        → Staged name t e result after t' entry e'
    passed_stage :
        entry.state ≡ ok
        → BodyPassed result entry.reasons
        → MayRun name t
        → e' ≡ after
        → t'.current_state ≡ next_state name
        → Staged name t e result after t' entry e'

  settle_returned-Staged :
      (now : ℕ) (name : StageName) (good : Bool) (value : Option V) (reasons warnings : List Text)
      (detail : Option Text) (t : Transaction V) {E : Type 0} (e after : E)
      → MayRun name t
      → let outcome : StageOutcome V = record {
        ok = good;
        value = value;
        reasons = reasons;
        warnings = warnings;
        detail = detail;
      } in
        let (t', entry) = settle now name (returned outcome) t in
        Staged name t e (returned outcome) after t' entry after
  unfolding settle report transition note
  settle_returned-Staged now name true value reasons warnings detail t e after h =
      passed_stage refl (has_passed _ refl) h refl refl
  settle_returned-Staged now name false value reasons warnings detail t e after h =
      failed_stage refl (has_refused _ refl) h refl refl refl

  settle-Staged :
      (now : ℕ) (name : StageName) (result : BodyResult V) (t : Transaction V) {E : Type 0}
      (e after : E)
      → MayRun name t
      → let (t', entry) = settle now name result t in Staged name t e result after t' entry after
  settle-Staged now name (thrown message) t e after h =
      unfold settle report in failed_stage refl (has_thrown message) h refl refl refl
  settle-Staged now name (returned outcome) t e after h =
      settle_returned-Staged now name outcome.ok outcome.value outcome.reasons outcome.warnings
        outcome.detail t e after h

  module _ {E : Type 0} (now : E → ℕ) where
    run_stage-Staged :
        (name : StageName) (body : E → BodyResult V × E) (t : Transaction V) (e : E)
        (refusal : Option Text)
        → (refusal ≡ none → MayRun name t)
        → let (t', entry, e') = run_stage now name body t e refusal in
          Staged name t e (body e).0 (body e).1 t' entry e'
    unfolding run_stage refuse_stage report
    run_stage-Staged name body t e none h =
        settle-Staged (now (body e).1) name (body e).0 t e (body e).1 (h refl)
    run_stage-Staged name body t e (some reason) h =
        refused_stage refl refl
          (abort_state (now e) reason (report (now e) name failed (reason ∷ []) [] none t).0)

    -- A stage either is refused, and its body has not run and the transaction is aborted unless it
    -- was finished; or it was allowed in the state and, for `execute`, a permit was there, and then
    -- its body has run. Then a body that throws or returns `ok: false` leaves the state and the
    -- journal, and one that returns `ok: true` moves the transaction to the state of the stage; the
    -- report says which of both, with the reasons of the body.
    pub stage-Staged :
        (name : StageName) (body : E → BodyResult V × E) (t : Transaction V) (e : E)
        → let (t', entry, e') = stage now name body t e in
          Staged name t e (body e).0 (body e).1 t' entry e'
    unfolding stage
    stage-Staged name body t e =
        run_stage-Staged name body t e (stage_refusal name t) (refusal_none name t)

    refused_kept :
        (name : StageName) (body : E → BodyResult V × E) (t : Transaction V) (e : E) (reason : Text)
        → is_finished t ≡ true
        → let (t', entry, e') = run_stage now name body t e (some reason) in
          (entry.state ≡ failed)
          × (e' ≡ e)
          × (t'.current_state ≡ t.current_state)
          × (t'.journal_entries ≡ t.journal_entries)
          × (t'.ended_at ≡ t.ended_at)
    unfolding run_stage refuse_stage report
    refused_kept name body t e reason h =
        rw (abort_finished (now e) reason (report (now e) name failed (reason ∷ []) [] none t).0 h)
          (refl, refl, refl, refl, refl)

    not_allowed :
        (name : StageName) (t : Transaction V)
        → is_finished t ≡ true
        → stage_refusal name t ≡ some (not_allowed_text name t.current_state)
    unfolding stage_refusal
    not_allowed name t h = rw (terminal_refused name t.current_state h) refl

    -- A finished transaction is not changed by a stage, which reports that it failed without
    -- running its body, nor by `suspend`, `abort` and `resume`: its state, its journal and the time
    -- of its end stay.
    pub finished_stays :
        (name : StageName) (body : E → BodyResult V × E) (t : Transaction V) (e : E) (at : ℕ)
        (reason : Text)
        → is_finished t ≡ true
        → let (t', entry, e') = stage now name body t e in
          (entry.state ≡ failed)
          × (e' ≡ e)
          × (t'.current_state ≡ t.current_state)
          × (t'.journal_entries ≡ t.journal_entries)
          × (t'.ended_at ≡ t.ended_at)
          × (suspend at reason t ≡ t)
          × (abort at reason t ≡ t)
          × (resume t ≡ (t, false))
    unfolding stage
    finished_stays name body t e at reason h = rw (not_allowed name t h) (
        let kept = refused_kept name body t e (not_allowed_text name t.current_state) h in
        (
          kept.0,
          kept.1,
          kept.2,
          kept.3,
          kept.4,
          suspend_finished at reason t h,
          abort_finished at reason t h,
          resume_finished t h,
        ))

    -- A transaction that is suspended, in whatever unfinished state, also a new one, passes the stage
    -- `verify` when the body succeeds, and is then verified: the stages that were reported before
    -- are the same, so `execute` need not be one of them.
    pub suspended_verifies :
        (t : Transaction V) (at : ℕ) (reason : Text) (body : E → BodyResult V × E) (e : E)
        (outcome : StageOutcome V)
        → is_finished t ≡ false
        → (body e).0 ≡ returned outcome
        → outcome.ok ≡ true
        → let (t', entry, e') = stage now verify body (suspend at reason t) e in
          (t'.current_state ≡ verified)
          × (t'.stage_reports ≡ t.stage_reports ++ (entry ∷ []))
          × (entry.state ≡ ok)
          × (entry.stage ≡ verify)
    unfolding stage stage_refusal run_stage suspend transition note
    suspended_verifies t at reason body e outcome live ran good =
        rw (live, ran)
          (let done =
              settled (now (body e).1) verify outcome
                (transition at suspended (some reason) (record t { reason = some reason })) good in
            (done.0, done.1, done.2, done.3))
