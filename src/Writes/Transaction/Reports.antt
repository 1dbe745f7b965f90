-- ===== src/Writes/Transaction/Reports.antt =====
-- packages/core/src/writes/transaction.ts: what the reports of the stages say about the state, with the
-- loop of `rewindToLastStage`.
use yes_you_can.Prelude.{
  ◌≡◌, refl, Bool, true, false, ◌&&◌, ◌||◌, List, [], ◌∷◌, ◌++◌, ◌==◌, if◌then◌else◌,
}
use yes_you_can.Writes.Transaction.{
  StageName, prepare, confirm, execute, verify, rollback, TransactionState, open_state, prepared,
  confirmed, executed, verified, suspended, aborted, rolled_back, stage_index, has_state, terminal,
  next_state, ok, StageReport, succeeded, is_ok, last_stage_state,
}

-- The stage behind the state, if there is one, has succeeded.
unfoldable pub Backed : TransactionState → List StageReport → Type 0
Backed open_state reports = Unit
Backed prepared reports = succeeded prepare reports ≡ true
Backed confirmed reports = succeeded confirm reports ≡ true
Backed executed reports = succeeded execute reports ≡ true
Backed verified reports = succeeded verify reports ≡ true
Backed suspended reports = Unit
Backed aborted reports = Unit
Backed rolled_back reports = Unit

or_false : (b : Bool) → (b || false) ≡ b
or_false true = refl
or_false false = refl

or_true : (b : Bool) → (b || true) ≡ true
or_true true = refl
or_true false = refl

or_assoc : (a b c : Bool) → (a || (b || c)) ≡ ((a || b) || c)
or_assoc true b c = refl
or_assoc false b c = refl

and_false : (b : Bool) → (b && false) ≡ false
and_false true = refl
and_false false = refl

succeeded-append :
    (name : StageName) (rs : List StageReport) (r : StageReport)
    → succeeded name (rs ++ (r ∷ []))
      ≡ (succeeded name rs || (stage_index r.stage == stage_index name && is_ok r.state))
unfolding succeeded
succeeded-append name [] r = or_false _
succeeded-append name (x ∷ rs) r = rw (succeeded-append name rs r) (
    or_assoc (stage_index x.stage == stage_index name && is_ok x.state) (succeeded name rs)
      (stage_index r.stage == stage_index name && is_ok r.state))

succeeded_more :
    (name : StageName) (rs : List StageReport) (r : StageReport)
    → succeeded name rs ≡ true
    → succeeded name (rs ++ (r ∷ [])) ≡ true
succeeded_more name rs r h = rw (succeeded-append name rs r, h) refl

pub succeeded_failed :
    (name : StageName) (rs : List StageReport) (r : StageReport)
    → is_ok r.state ≡ false
    → succeeded name (rs ++ (r ∷ [])) ≡ succeeded name rs
succeeded_failed name rs r h = rw (succeeded-append name rs r, h, and_false, or_false) refl

pub Backed-more :
    (s : TransactionState) (rs : List StageReport) (r : StageReport)
    → Backed s rs
    → Backed s (rs ++ (r ∷ []))
unfolding Backed
Backed-more open_state rs r h = h
Backed-more prepared rs r h = succeeded_more prepare rs r h
Backed-more confirmed rs r h = succeeded_more confirm rs r h
Backed-more executed rs r h = succeeded_more execute rs r h
Backed-more verified rs r h = succeeded_more verify rs r h
Backed-more suspended rs r h = h
Backed-more aborted rs r h = h
Backed-more rolled_back rs r h = h

-- A state that the reports justify, before the end.
unfoldable pub Justified : TransactionState → List StageReport → Type 0
Justified s rs = Backed s rs × (has_state terminal s ≡ false)

Justified-either :
    (b : Bool) (s s' : TransactionState) (rs : List StageReport)
    → (b ≡ true → Justified s' rs)
    → Justified s rs
    → Justified (if b then s' else s) rs
Justified-either true s s' rs h k = h refl
Justified-either false s s' rs h k = k

pub last_stage-Justified :
    (rs : List StageReport)
    → succeeded verify rs ≡ false
    → Justified (last_stage_state (prepare ∷ confirm ∷ execute ∷ verify ∷ []) rs open_state) rs
unfolding last_stage_state Justified Backed
last_stage-Justified rs h = rw h (
    Justified-either (succeeded execute rs) _ executed rs (λ e. (e, refl))
      (Justified-either (succeeded confirm rs) _ confirmed rs (λ e. (e, refl))
        (Justified-either (succeeded prepare rs) open_state prepared rs (λ e. (e, refl))
          (tt, refl))))

pub next-Backed :
    (name : StageName) (rs : List StageReport) (r : StageReport)
    → r.state ≡ ok
    → r.stage ≡ name
    → Backed (next_state name) (rs ++ (r ∷ []))
unfolding Backed
next-Backed prepare rs r h e = rw (succeeded-append prepare rs r, h, e, or_true) refl
next-Backed confirm rs r h e = rw (succeeded-append confirm rs r, h, e, or_true) refl
next-Backed execute rs r h e = rw (succeeded-append execute rs r, h, e, or_true) refl
next-Backed verify rs r h e = rw (succeeded-append verify rs r, h, e, or_true) refl
next-Backed rollback rs r h e = tt

-- A stage of another name does not count for `other`.
pub succeeded_other :
    (name other : StageName) (rs : List StageReport) (r : StageReport)
    → r.stage ≡ name
    → (stage_index name == stage_index other) ≡ false
    → succeeded other (rs ++ (r ∷ [])) ≡ succeeded other rs
succeeded_other name other rs r e n = rw (succeeded-append other rs r, e, n, or_false) refl
