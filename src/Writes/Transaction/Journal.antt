-- ===== src/Writes/Transaction/Journal.antt =====
-- packages/core/src/writes/transaction.ts: the reports and the journal of a transaction only grow.
use yes_you_can.Prelude.{
  ℕ, ◌≡◌, refl, sym, Bool, not, Option, none, some, List, [], ◌∷◌, ◌++◌, append_assoc, append-nil,
  ◌==◌, if_cases,
}
use yes_you_can.Text.{Text}
use yes_you_can.Writes.Transaction.{
  StageName, TransactionState, aborted, rolled_back, suspended, state_index, next_state,
  ReportState, ok, failed, skipped, StageReport, BodyResult, thrown, returned, Transaction,
  is_finished, note, transition, report, abort, rolled_back_as, suspend, skip, attach, resume,
  refuse_stage, set_value, settle, stage_refusal, run_stage, stage, rewind_to_last_stage,
}
use yes_you_can.Writes.Transaction.Reach.{
  Call, run, skips, attaches, suspends, resumes, aborts, rolls_back, call, calls,
}

module _ {A : Type 0} where
  -- `ys` is `xs` with entries behind it.
  pub Continues : List A → List A → Type 0
  Continues xs ys = (zs : List A) × (ys ≡ xs ++ zs)

  same : (xs : List A) → Continues xs xs
  unfolding Continues
  same xs = ([], sym (append-nil xs))

  one_more : (xs : List A) (x : A) → Continues xs (xs ++ (x ∷ []))
  unfolding Continues
  one_more xs x = (x ∷ [], refl)

  onwards : (xs ys zs : List A) → Continues xs ys → Continues ys zs → Continues xs zs
  unfolding Continues
  onwards xs ys zs (us, e) (vs, f) = (us ++ vs, rw (f, e) (append_assoc xs us vs))

module _ {V : Type 0} where
  -- What was reported and journaled before stays, in its order.
  pub record Grows (t t' : Transaction V) : Type 0 where
    pub reports : Continues t.stage_reports t'.stage_reports
    pub journal : Continues t.journal_entries t'.journal_entries

  Grows-refl : (t : Transaction V) → Grows t t
  Grows-refl t = record { reports = same t.stage_reports; journal = same t.journal_entries }

  Grows-trans : (t u v : Transaction V) → Grows t u → Grows u v → Grows t v
  Grows-trans t u v g h = record {
    reports = onwards t.stage_reports u.stage_reports v.stage_reports g.reports h.reports;
    journal = onwards t.journal_entries u.journal_entries v.journal_entries g.journal h.journal;
  }

  report-Grows :
      (now : ℕ) (name : StageName) (state : ReportState) (reasons warnings : List Text)
      (detail : Option Text) (t : Transaction V)
      → Grows t (report now name state reasons warnings detail t).0
  unfolding report
  report-Grows now name state reasons warnings detail t = record {
    reports = one_more t.stage_reports (report now name state reasons warnings detail t).1;
    journal = same t.journal_entries;
  }

  transition-Grows :
      (now : ℕ) (next : TransactionState) (note_reason reason : Option Text) (t : Transaction V)
      → Grows t (transition now next note_reason (record t { reason = reason }))
  unfolding transition note
  transition-Grows now next note_reason reason t = record {
    reports = same t.stage_reports;
    journal = one_more t.journal_entries (record { at = now; state = next; reason = note_reason });
  }

  abort-Grows : (now : ℕ) (reason : Text) (t : Transaction V) → Grows t (abort now reason t)
  unfolding abort
  abort-Grows now reason t =
      if_cases (λ (u : Transaction V). Grows t u) (is_finished t) _ _ (Grows-refl t)
        (transition-Grows now aborted (some reason) (some reason) t)

  suspend-Grows : (now : ℕ) (reason : Text) (t : Transaction V) → Grows t (suspend now reason t)
  unfolding suspend
  suspend-Grows now reason t =
      if_cases (λ (u : Transaction V). Grows t u) (is_finished t) _ _ (Grows-refl t)
        (transition-Grows now suspended (some reason) (some reason) t)

  resume-Grows : (t : Transaction V) → Grows t (resume t).0
  unfolding resume rewind_to_last_stage
  resume-Grows t =
      if_cases (λ (u : Transaction V × Bool). Grows t u.0)
        (state_index t.current_state == state_index suspended) _ _
        (record { reports = same t.stage_reports; journal = same t.journal_entries }) (Grows-refl t)

  set_value-Grows :
      (name : StageName) (v : Option V) (t : Transaction V) → Grows t (set_value name v t)
  set_value-Grows name none t = Grows-refl t
  set_value-Grows name (some v) t = record {
    reports = same t.stage_reports;
    journal = same t.journal_entries;
  }

  settle-Grows :
      (now : ℕ) (name : StageName) (result : BodyResult V) (t : Transaction V)
      → Grows t (settle now name result t).0
  unfolding settle
  settle-Grows now name (thrown message) t = report-Grows now name failed (message ∷ []) [] none t
  settle-Grows now name (returned outcome) t =
      let t1 = set_value name outcome.value t in
      let t2 = (report now name ok outcome.reasons outcome.warnings outcome.detail t1).0 in
      if_cases (λ (u : Transaction V × StageReport). Grows t u.0) (not outcome.ok) _ _
        (report-Grows now name failed outcome.reasons outcome.warnings outcome.detail t)
        (Grows-trans t t1 _ (set_value-Grows name outcome.value t) (
          Grows-trans t1 t2 _
            (report-Grows now name ok outcome.reasons outcome.warnings outcome.detail t1)
            (transition-Grows now (next_state name) none t2.reason t2)))

  refuse_stage-Grows :
      (now : ℕ) (name : StageName) (reason : Text) (t : Transaction V)
      → Grows t (refuse_stage now name reason t).0
  unfolding refuse_stage
  refuse_stage-Grows now name reason t =
      let t1 = (report now name failed (reason ∷ []) [] none t).0 in
      Grows-trans t t1 _ (report-Grows now name failed (reason ∷ []) [] none t)
        (abort-Grows now reason t1)

  run_stage-Grows :
      {E : Type 0} (now : E → ℕ) (name : StageName) (body : E → BodyResult V × E)
      (t : Transaction V) (e : E) (refusal : Option Text)
      → Grows t (run_stage now name body t e refusal).0
  unfolding run_stage
  run_stage-Grows now name body t e none = settle-Grows (now (body e).1) name (body e).0 t
  run_stage-Grows now name body t e (some reason) = refuse_stage-Grows (now e) name reason t

  pub stage-Grows :
      {E : Type 0} (now : E → ℕ) (name : StageName) (body : E → BodyResult V × E)
      (t : Transaction V) (e : E)
      → Grows t (stage now name body t e).0
  unfolding stage
  stage-Grows now name body t e = run_stage-Grows now name body t e (stage_refusal name t)

  call-Grows : (c : ℕ × Call V) (t : Transaction V) → Grows t (call c t)
  unfolding call skip attach rolled_back_as
  call-Grows (now, run name result) t =
      stage-Grows (λ (e : Unit {0}). now) name (λ (e : Unit {0}). (result, e)) t tt
  call-Grows (now, skips name reason) t = report-Grows now name skipped (reason ∷ []) [] none t
  call-Grows (now, attaches permit preconditions) t = record {
    reports = same t.stage_reports;
    journal = same t.journal_entries;
  }
  call-Grows (now, suspends reason) t = suspend-Grows now reason t
  call-Grows (now, resumes) t = resume-Grows t
  call-Grows (now, aborts reason) t = abort-Grows now reason t
  call-Grows (now, rolls_back reason) t =
      transition-Grows now rolled_back (some reason) (some reason) t

  -- Whatever is called, the reports of the stages and the journal are append-only: the entries that
  -- were there stay, in their order and in front of the new ones.
  pub calls-Grows : (cs : List (ℕ × Call V)) (t : Transaction V) → Grows t (calls cs t)
  unfolding calls
  calls-Grows [] t = Grows-refl t
  calls-Grows (c ∷ cs) t =
      Grows-trans t (call c t) (calls cs (call c t)) (call-Grows c t) (calls-Grows cs (call c t))
