-- ===== src/Writes/Transaction/Stages.antt =====
-- packages/core/src/writes/transaction.ts: `stage` keeps the invariant of a transaction.
use yes_you_can.Prelude.{
  ℕ, ◌≡◌, refl, sym, ◌∙◌, ◌≢◌, inl, inr, true, false, not, Option, none, some, [], ◌∷◌, ◌++◌,
  if◌then◌else◌, Bool-cases, Option-cases, is_none,
}
use yes_you_can.Text.{Text}
use yes_you_can.Writes.Transaction.{
  StageName, prepare, confirm, execute, verify, rollback, has_state, terminal, next_state, failed,
  StageReport, BodyResult, thrown, returned, Transaction, is_finished, report, refuse_stage, settle,
  stage_refusal, run_stage, stage, succeeded,
}
use yes_you_can.Writes.Transaction.Order.{MayRun, refusal_none, terminal_refused, settled}
use yes_you_can.Writes.Transaction.Reports.{next-Backed, succeeded_other}
use yes_you_can.Writes.Transaction.Sound.{Sound, report-Sound, abort-Sound}

module _ {V : Type 0} where
  MayRun-live : (name : StageName) (t : Transaction V) → MayRun name t → is_finished t ≡ false
  MayRun-live name t h = elim (Bool-cases (is_finished t)) [
    | inl done ↦ cc (terminal_refused name t.current_state done, h.allowed)
    | inr live ↦ live
  ]

  permit_there : (t : Transaction V) → t.permit ≢ none → is_none t.permit ≡ false
  permit_there t h = elim (Option-cases t.permit) [ inl e ↦ absurd (h e) | inr (p, e) ↦ rw e refl ]

  passed-permitted :
      (name : StageName) (t : Transaction V) (r : StageReport)
      → MayRun name t
      → Sound t
      → r.stage ≡ name
      → succeeded execute (t.stage_reports ++ (r ∷ [])) ≡ true
      → is_none t.permit ≡ false
  passed-permitted execute t r m s e h = permit_there t (m.permitted refl)
  passed-permitted prepare t r m s e h =
      s.permitted (sym (succeeded_other prepare execute t.stage_reports r e refl) ∙ h)
  passed-permitted confirm t r m s e h =
      s.permitted (sym (succeeded_other confirm execute t.stage_reports r e refl) ∙ h)
  passed-permitted verify t r m s e h =
      s.permitted (sym (succeeded_other verify execute t.stage_reports r e refl) ∙ h)
  passed-permitted rollback t r m s e h =
      s.permitted (sym (succeeded_other rollback execute t.stage_reports r e refl) ∙ h)

  passed-ends :
      (name : StageName) (t : Transaction V) (r : StageReport)
      → MayRun name t
      → Sound t
      → r.stage ≡ name
      → succeeded verify (t.stage_reports ++ (r ∷ [])) ≡ true
      → has_state terminal (next_state name) ≡ true
  passed-ends verify t r m s e h = refl
  passed-ends rollback t r m s e h = refl
  passed-ends prepare t r m s e h = cc (
    MayRun-live prepare t m,
    s.verified_ends (sym (succeeded_other prepare verify t.stage_reports r e refl) ∙ h),
  )
  passed-ends confirm t r m s e h = cc (
    MayRun-live confirm t m,
    s.verified_ends (sym (succeeded_other confirm verify t.stage_reports r e refl) ∙ h),
  )
  passed-ends execute t r m s e h = cc (
    MayRun-live execute t m,
    s.verified_ends (sym (succeeded_other execute verify t.stage_reports r e refl) ∙ h),
  )

  passed_ended :
      (now : ℕ) (name : StageName) (t : Transaction V)
      → not (is_none t.ended_at) ≡ false
      → not (is_none (if has_state terminal (next_state name) then some now else t.ended_at))
        ≡ has_state terminal (next_state name)
  passed_ended now prepare t h = h
  passed_ended now confirm t h = h
  passed_ended now execute t h = h
  passed_ended now verify t h = refl
  passed_ended now rollback t h = refl

  settle-Sound :
      (now : ℕ) (name : StageName) (result : BodyResult V) (t : Transaction V)
      → MayRun name t
      → Sound t
      → Sound (settle now name result t).0
  settle-Sound now name (thrown message) t m s =
      unfold settle in report-Sound now name failed (message ∷ []) [] none t refl s
  settle-Sound now name (returned outcome) t m s = elim (Bool-cases outcome.ok) [
    | inr bad ↦
        unfold settle in
        rw bad
          (report-Sound now name failed outcome.reasons outcome.warnings outcome.detail t refl s)
    | inl good ↦
        let (state, reports, passed, stage_is, permit, ended) = settled now name outcome t good in
        let r = (settle now name (returned outcome) t).1 in
        record {
          backed = rw (state, reports) (next-Backed name t.stage_reports r passed stage_is);
          permitted = rw (reports, permit) (passed-permitted name t r m s stage_is);
          verified_ends = rw (reports, state) (passed-ends name t r m s stage_is);
          ended = rw (state, ended) (passed_ended now name t (s.ended ∙ MayRun-live name t m));
        }
  ]

  refuse_stage-Sound :
      (now : ℕ) (name : StageName) (reason : Text) (t : Transaction V)
      → Sound t
      → Sound (refuse_stage now name reason t).0
  unfolding refuse_stage
  refuse_stage-Sound now name reason t s =
      abort-Sound now reason (report now name failed (reason ∷ []) [] none t).0
        (report-Sound now name failed (reason ∷ []) [] none t refl s)

  module _ {E : Type 0} (now : E → ℕ) where
    run_stage-Sound :
        (name : StageName) (body : E → BodyResult V × E) (t : Transaction V) (e : E)
        (refusal : Option Text)
        → (refusal ≡ none → MayRun name t)
        → Sound t
        → Sound (run_stage now name body t e refusal).0
    unfolding run_stage
    run_stage-Sound name body t e none h s =
        settle-Sound (now (body e).1) name (body e).0 t (h refl) s
    run_stage-Sound name body t e (some reason) h s = refuse_stage-Sound (now e) name reason t s

    pub stage-Sound :
        (name : StageName) (body : E → BodyResult V × E) (t : Transaction V) (e : E)
        → Sound t
        → Sound (stage now name body t e).0
    unfolding stage
    stage-Sound name body t e s =
        run_stage-Sound name body t e (stage_refusal name t) (refusal_none name t) s
