-- ===== src/IsoTp/Sender/Rules.antt =====
-- Rules for the parts of a transmission: what holds of every continuation, and of a run that ends
-- early, holds of the whole.
use yes_you_can.Prelude.{ℕ, ◌+◌, ◌≢◌, List, [], ◌∷◌, ltb, ◌==◌, if_cases}
use yes_you_can.IsoTp.Params.{wait_status, overflow_status}
use yes_you_can.IsoTp.Sender.{
  FlowControlFrame, WriteAnswer, accepted, refused, FlowEvent, flow, n_bs_expired, timeouts,
  connection_closed, count, Outcome, sent, failed, waiting, stuck, Run, end_with, after, answer,
  await_flow_control,
}

-- An outcome of a run that is cut short.
abbrev pub IsCut : Outcome → Type 0
IsCut out = (out ≢ sent) × (out ≢ stuck)

module _ (P : Run → Type 0) (cut : (out : Outcome) → IsCut out → P (end_with out)) where
  pub answer_rule :
      (writes : List WriteAnswer) (next : List WriteAnswer → Run)
      → ((more : List WriteAnswer) → P (next more))
      → P (answer writes next)
  unfolding answer
  answer_rule [] next h = cut waiting ((λ e. cc), (λ e. cc))
  answer_rule (accepted ∷ more) next h = h more
  answer_rule (refused retryable ∷ more) next h = cut (failed _) ((λ e. cc), (λ e. cc))

  pub await_rule :
      ((run : Run) → P run → P (after (count timeouts ∷ []) run))
      → (wft_max waits : ℕ) (flows : List FlowEvent)
        (next : FlowControlFrame → List FlowEvent → Run)
      → ((fc : FlowControlFrame) (more : List FlowEvent) → P (next fc more))
      → P (await_flow_control wft_max waits flows next)
  unfolding await_flow_control
  await_rule timed wft_max waits [] next h = cut waiting ((λ e. cc), (λ e. cc))
  await_rule timed wft_max waits (n_bs_expired ∷ flows) next h =
      timed _ (cut (failed _) ((λ e. cc), (λ e. cc)))
  await_rule timed wft_max waits (connection_closed ∷ flows) next h =
      cut (failed _) ((λ e. cc), (λ e. cc))
  await_rule timed wft_max waits (flow fc ∷ flows) next h =
      if_cases P (fc.status == wait_status) _ _
        (if_cases P (ltb wft_max (waits + 1)) _ _ (timed _ (cut (failed _) ((λ e. cc), (λ e. cc))))
          (await_rule timed wft_max (waits + 1) flows next h))
        (if_cases P (fc.status == overflow_status) _ _ (cut (failed _) ((λ e. cc), (λ e. cc)))
          (h fc flows))
