-- ===== src/Writes/Transaction/Logged.antt =====
-- packages/core/src/writes/transaction.ts: the report that a stage adds to those of the transaction.
use yes_you_can.Prelude.{
  ℕ, ◌≡◌, refl, inl, inr, Bool, true, false, none, [], ◌∷◌, ◌++◌, if_cases, Bool-cases,
  Option-cases,
}
use yes_you_can.Text.{Text}
use yes_you_can.Writes.Transaction.{
  StageName, failed, ok, skipped, is_ok, ReportState, StageReport, BodyResult, thrown, returned,
  Transaction, is_finished, abort, transition, note, report, refuse_stage, settle, run_stage,
  stage_refusal, stage,
}
use yes_you_can.Writes.Transaction.Order.{settled}

-- A report that says that the stage has not failed.
abbrev pub not_failed : ReportState → Bool
not_failed ok = true
not_failed failed = false
not_failed skipped = true

module _ {V : Type 0} where
  pub abort_reports :
      (now : ℕ) (reason : Text) (t : Transaction V)
      → (abort now reason t).stage_reports ≡ t.stage_reports
  unfolding abort transition note
  abort_reports now reason t =
      if_cases (λ (u : Transaction V). u.stage_reports ≡ t.stage_reports) (is_finished t) _ _ refl
        refl

  -- The report is the last one, it is of the stage, and the stage was not skipped.
  pub record Logged (name : StageName) (t t' : Transaction V) (r : StageReport) : Type 0 where
    pub added : t'.stage_reports ≡ t.stage_reports ++ (r ∷ [])
    pub named : r.stage ≡ name
    pub decided : is_ok r.state ≡ not_failed r.state

  settle-Logged :
      (now : ℕ) (name : StageName) (outcome : BodyResult V) (t : Transaction V)
      → let (t', r) = settle now name outcome t in Logged name t t' r
  settle-Logged now name (thrown message) t =
      unfold settle report in record { added = refl; named = refl; decided = refl }
  settle-Logged now name (returned outcome) t = elim (Bool-cases outcome.ok) [
    | inl good ↦
        let s = settled now name outcome t good in
        record { added = s.1; named = s.3; decided = rw s.2 refl }
    | inr bad ↦
        unfold settle report in rw bad (record { added = refl; named = refl; decided = refl })
  ]

  pub stage-Logged :
      {E : Type 0} (now : E → ℕ) (name : StageName) (body : E → BodyResult V × E)
      (t : Transaction V) (e : E)
      → let (t', r, e') = stage now name body t e in Logged name t t' r
  unfolding stage
  stage-Logged now name body t e = elim (Option-cases (stage_refusal name t)) [
    | inl free ↦ rw free (unfold run_stage in settle-Logged (now (body e).1) name (body e).0 t)
    | inr (reason, refusal) ↦ rw refusal (
        unfold run_stage refuse_stage report in
        record {
          added =
              abort_reports (now e) reason (report (now e) name failed (reason ∷ []) [] none t).0;
          named = refl;
          decided = refl;
        })
  ]
