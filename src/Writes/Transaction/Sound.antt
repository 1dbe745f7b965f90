-- ===== src/Writes/Transaction/Sound.antt =====
-- packages/core/src/writes/transaction.ts: the invariant of a transaction, and the methods other than
-- `stage` that keep it.
use yes_you_can.Prelude.{
  ℕ, ◌≡◌, refl, sym, ◌∙◌, inl, inr, true, false, not, Option, none, some, List, [], ◌∷◌, arith,
  ◌==◌, if_cases, Bool-cases, is_none,
}
use yes_you_can.Text.{Text}
use yes_you_can.Safety.{WritePermit}
use yes_you_can.Writes.Transaction.{
  StageName, execute, verify, TransactionState, suspended, aborted, rolled_back, state_index,
  has_state, terminal, ReportState, skipped, StageReport, Transaction, TransactionBinding,
  PreconditionSnapshot, is_finished, note, transition, report, abort, rolled_back_as, suspend, skip,
  attach, resume, succeeded, is_ok, rewind_to_last_stage, begin_transaction,
}
use yes_you_can.Writes.Transaction.Reports.{
  Backed, Justified, last_stage-Justified, Backed-more, succeeded_failed,
}

module _ {V : Type 0} where
  -- In the states of a stage (prepared, confirmed, executed, verified) that stage has succeeded; a
  -- transaction is executed only with a permit; one that was verified is finished; and it has a time of
  -- its end exactly if it is in a terminal state.
  pub record Sound (t : Transaction V) : Type 0 where
    pub backed : Backed t.current_state t.stage_reports
    pub permitted : succeeded execute t.stage_reports ≡ true → is_none t.permit ≡ false
    pub verified_ends : succeeded verify t.stage_reports ≡ true → is_finished t ≡ true
    pub ended : not (is_none t.ended_at) ≡ is_finished t

  pub report-Sound :
      (now : ℕ) (name : StageName) (state : ReportState) (reasons warnings : List Text)
      (detail : Option Text) (t : Transaction V)
      → is_ok state ≡ false
      → Sound t
      → Sound (report now name state reasons warnings detail t).0
  unfolding report
  report-Sound now name state reasons warnings detail t h s =
      let entry : StageReport = record {
        stage = name;
        state = state;
        reasons = reasons;
        warnings = warnings;
        at = now;
        detail = detail;
      } in
      record {
        backed = Backed-more t.current_state t.stage_reports entry s.backed;
        permitted = λ e. s.permitted (sym (succeeded_failed execute t.stage_reports entry h) ∙ e);
        verified_ends =
            λ e. s.verified_ends (sym (succeeded_failed verify t.stage_reports entry h) ∙ e);
        ended = s.ended;
      }

  -- A transition to an end that claims no stage, and to the suspension.
  close-Sound :
      (now : ℕ) (next : TransactionState) (reason : Option Text) (t : Transaction V)
      → (Backed next t.stage_reports)
      → (has_state terminal next ≡ true)
      → Sound t
      → Sound (transition now next reason t)
  unfolding transition note
  close-Sound now next reason t b e s = record {
    backed = b;
    permitted = s.permitted;
    verified_ends = λ v. e;
    ended = rw e refl;
  }

  -- The reason does not count.
  reason_kept :
      (reason : Option Text) (t : Transaction V) → Sound t → Sound (record t { reason = reason })
  reason_kept reason t s = record {
    backed = s.backed;
    permitted = s.permitted;
    verified_ends = s.verified_ends;
    ended = s.ended;
  }

  pub abort-Sound :
      (now : ℕ) (reason : Text) (t : Transaction V) → Sound t → Sound (abort now reason t)
  unfolding abort Backed
  abort-Sound now reason t s =
      if_cases (λ (u : Transaction V). Sound u) (is_finished t) t _ s
        (close-Sound now aborted (some reason) (record t { reason = some reason }) tt refl
          (reason_kept (some reason) t s))

  pub rolled_back-Sound :
      (now : ℕ) (reason : Text) (t : Transaction V) → Sound t → Sound (rolled_back_as now reason t)
  unfolding rolled_back_as Backed
  rolled_back-Sound now reason t s =
      close-Sound now rolled_back (some reason) (record t { reason = some reason }) tt refl
        (reason_kept (some reason) t s)

  pub suspend-Sound :
      (now : ℕ) (reason : Text) (t : Transaction V) → Sound t → Sound (suspend now reason t)
  unfolding suspend transition note Backed
  suspend-Sound now reason t s = elim (Bool-cases (is_finished t)) [
    | inl done ↦ rw done s
    | inr live ↦ rw live (record {
      backed = tt;
      permitted = s.permitted;
      verified_ends = λ v. cc (s.verified_ends v, live);
      ended = s.ended ∙ live;
    })
  ]

  pub resume-Sound : (t : Transaction V) → Sound t → Sound (resume t).0
  unfolding resume rewind_to_last_stage Justified
  resume-Sound t s = elim (Bool-cases (state_index t.current_state == state_index suspended)) [
    | inr other ↦ rw other s
    | inl paused ↦
        let live : is_finished t ≡ false = ground arith in
        elim (Bool-cases (succeeded verify t.stage_reports)) [
          | inl v ↦ cc (s.verified_ends v, live)
          | inr v ↦
              let back = last_stage-Justified t.stage_reports v in
              rw paused (record {
                backed = back.0;
                permitted = s.permitted;
                verified_ends = λ w. cc (w, v);
                ended = s.ended ∙ live ∙ sym back.1;
              })
        ]
  ]

  pub attach-Sound :
      (permit : WritePermit) (preconditions : PreconditionSnapshot) (t : Transaction V)
      → Sound t
      → Sound (attach permit preconditions t)
  unfolding attach
  attach-Sound permit preconditions t s = record {
    backed = s.backed;
    permitted = λ e. refl;
    verified_ends = s.verified_ends;
    ended = s.ended;
  }

  pub skip-Sound :
      (now : ℕ) (name : StageName) (reason : Text) (t : Transaction V)
      → Sound t
      → Sound (skip now name reason t).0
  unfolding skip
  skip-Sound now name reason t s = report-Sound now name skipped (reason ∷ []) [] none t refl s

  pub begin_transaction-Sound :
      (id : Text) (binding : TransactionBinding) (now : ℕ)
      → Sound (begin_transaction {V = V} id binding now)
  unfolding begin_transaction note Backed succeeded
  begin_transaction-Sound id binding now = record {
    backed = tt;
    permitted = λ e. cc e;
    verified_ends = λ e. cc e;
    ended = refl;
  }
