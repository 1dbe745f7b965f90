-- ===== src/Writes/Transaction/Reach.antt =====
-- packages/core/src/writes/transaction.ts: what holds of every transaction, however its methods are
-- called.
use yes_you_can.Prelude.{ℕ, List, [], ◌∷◌}
use yes_you_can.Text.{Text}
use yes_you_can.Safety.{WritePermit}
use yes_you_can.Writes.Transaction.{
  StageName, BodyResult, Transaction, TransactionBinding, PreconditionSnapshot, abort,
  rolled_back_as, suspend, skip, attach, resume, stage, begin_transaction,
}
use yes_you_can.Writes.Transaction.Sound.{
  Sound, abort-Sound, rolled_back-Sound, suspend-Sound, resume-Sound, attach-Sound, skip-Sound,
  begin_transaction-Sound,
}
use yes_you_can.Writes.Transaction.Stages.{stage-Sound}

-- A method that is called on the transaction; a stage has the result of its body, if it runs.
pub data Call (V : Type 0) : Type 0 where
  run : StageName → BodyResult V → Call V
  skips : StageName → Text → Call V
  attaches : WritePermit → PreconditionSnapshot → Call V
  suspends : Text → Call V
  resumes : Call V
  aborts : Text → Call V
  rolls_back : Text → Call V

module _ {V : Type 0} where
  -- One call at a time, and calls in order.
  unfoldable pub call : ℕ × Call V → Transaction V → Transaction V
  unfolding stage
  call (now, run name result) t =
      (stage (λ (e : Unit {0}). now) name (λ (e : Unit {0}). (result, e)) t tt).0
  call (now, skips name reason) t = (skip now name reason t).0
  call (now, attaches permit preconditions) t = attach permit preconditions t
  call (now, suspends reason) t = suspend now reason t
  call (now, resumes) t = (resume t).0
  call (now, aborts reason) t = abort now reason t
  call (now, rolls_back reason) t = rolled_back_as now reason t

  unfoldable pub calls : List (ℕ × Call V) → Transaction V → Transaction V
  unfolding call
  calls [] t = t
  calls (c ∷ cs) t = calls cs (call c t)

module _ {V : Type 0} where
  call-Sound : (c : ℕ × Call V) (t : Transaction V) → Sound t → Sound (call c t)
  unfolding call
  call-Sound (now, run name result) t s =
      stage-Sound (λ (e : Unit {0}). now) name (λ (e : Unit {0}). (result, e)) t tt s
  call-Sound (now, skips name reason) t s = skip-Sound now name reason t s
  call-Sound (now, attaches permit preconditions) t s = attach-Sound permit preconditions t s
  call-Sound (now, suspends reason) t s = suspend-Sound now reason t s
  call-Sound (now, resumes) t s = resume-Sound t s
  call-Sound (now, aborts reason) t s = abort-Sound now reason t s
  call-Sound (now, rolls_back reason) t s = rolled_back-Sound now reason t s

  calls-Sound : (cs : List (ℕ × Call V)) (t : Transaction V) → Sound t → Sound (calls cs t)
  unfolding calls
  calls-Sound [] t s = s
  calls-Sound (c ∷ cs) t s = calls-Sound cs (call c t) (call-Sound c t s)

  -- After any calls on a new transaction, one after the other and none while the body of a stage is
  -- awaited: if the state is that a stage is prepared, confirmed, executed or verified, that stage has
  -- succeeded; `execute` has succeeded only if a permit is attached; a transaction that was verified is
  -- finished; and it has a time of its end exactly if it is finished.
  pub calls_from_begin-Sound :
      (id : Text) (binding : TransactionBinding) (now : ℕ) (cs : List (ℕ × Call V))
      → Sound (calls cs (begin_transaction id binding now))
  calls_from_begin-Sound id binding now cs =
      calls-Sound cs (begin_transaction id binding now) (begin_transaction-Sound id binding now)
