-- ===== src/IsoTp/Sender/Blocks.antt =====
-- The block size: the sender writes no more Consecutive Frames than the receiver has granted.
use yes_you_can.Prelude.{
  ℕ, zero, suc, ◌+◌, ◌-◌, ◌≤◌, ◌<◌, inl, inr, Bool, ◌&&◌, List, [], ◌∷◌, arith, ltb, leb, ◌==◌,
  if◌then◌else◌, if_cases, Bool-cases, length, All,
}
use native.Mathlib.Nat.{le_trans, suc-le-suc_iff}
use yes_you_can.Bytes.{Bytes}
use yes_you_can.IsoTp.Options.{IsoTpOptions, padded, frame_payload_capacity}
use yes_you_can.IsoTp.Segment.{consecutive_body}
use yes_you_can.IsoTp.Params.{wait_status, overflow_status}
use yes_you_can.IsoTp.Sender.{
  FlowControlFrame, WriteAnswer, accepted, refused, FlowEvent, flow, n_bs_expired,
  connection_closed, Environment, Run, after, answer, write_frame, await_flow_control, Progress,
  grant, advance, is_empty, pause, after_consecutive, send_round, send_consecutive, written,
  written-append,
}
use yes_you_can.IsoTp.Sender.Prefix.{written-pause}

abbrev pub event_credit : FlowEvent → ℕ
event_credit (flow fc) = fc.block_size
event_credit n_bs_expired = 0
event_credit connection_closed = 0

-- What the Flow Control frames to come grant at most.
abbrev pub credit : List FlowEvent → ℕ
credit [] = 0
credit (e ∷ es) = event_credit e + credit es

-- No Flow Control lifts the limit by a block size of 0.
abbrev pub IsLimited : FlowEvent → Type 0
IsLimited (flow fc) = 0 < fc.block_size
IsLimited n_bs_expired = Unit
IsLimited connection_closed = Unit

-- A run writes at most `bound` frames.
abbrev Writes : ℕ → Run → Type 0
Writes bound run = length (written run.actions) ≤ bound

Writes-answer :
    (bound : ℕ) (writes : List WriteAnswer) (next : List WriteAnswer → Run)
    → ((more : List WriteAnswer) → Writes bound (next more))
    → Writes bound (answer writes next)
unfolding answer written
Writes-answer bound [] next h = omega arith
Writes-answer bound (accepted ∷ more) next h = h more
Writes-answer bound (refused retryable ∷ more) next h = omega arith

Writes-await :
    (wft_max waits bound : ℕ) (flows : List FlowEvent)
    (next : FlowControlFrame → List FlowEvent → Run)
    → All IsLimited flows
    → ((fc : FlowControlFrame) (more : List FlowEvent)
        → 0 < fc.block_size
        → All IsLimited more
        → fc.block_size + credit more ≤ bound
        → Writes bound (next fc more))
    → credit flows ≤ bound
    → Writes bound (await_flow_control wft_max waits flows next)
unfolding await_flow_control written
Writes-await wft_max waits bound [] next l h k = omega arith
Writes-await wft_max waits bound (n_bs_expired ∷ flows) next l h k = omega arith
Writes-await wft_max waits bound (connection_closed ∷ flows) next l h k = omega arith
Writes-await wft_max waits bound (flow fc ∷ flows) next l h k =
    if_cases (Writes bound) (fc.status == wait_status) _ _
      (if_cases (Writes bound) (ltb wft_max (waits + 1)) _ _ (omega arith)
        (Writes-await wft_max (waits + 1) bound flows next l.1 h (omega arith)))
      (if_cases (Writes bound) (fc.status == overflow_status) _ _ (omega arith)
        (h fc flows l.0 l.1 k))

Writes-pause :
    (bound tenths : ℕ) (run : Run) → Writes bound run → Writes bound (after (pause tenths) run)
Writes-pause bound tenths run h =
    rw (written-append (pause tenths) run.actions) (rw (written-pause tenths) h)

Writes-frame :
    (o : IsoTpOptions) (body : Bytes) (bound : ℕ) (env : Environment) (next : Environment → Run)
    → ((writes : List WriteAnswer) → Writes bound (next (record env { writes = writes })))
    → Writes (suc bound) (write_frame o (padded o body) env next)
unfolding write_frame written
Writes-frame o body bound env next h =
    suc-le-suc_iff.1
      (Writes-answer bound env.writes (λ more. next (record env { writes = more })) h)

-- What may still be written in the present block and in those to come.
abbrev allowance : Progress → List FlowEvent → ℕ
allowance s flows = s.current_block - s.in_block + credit flows

after_consecutive-Writes :
    (o : IsoTpOptions) (s : Progress) (again : Progress → Environment → Run) (env : Environment)
    → 0 < s.current_block
    → s.in_block ≤ s.current_block
    → All IsLimited env.flows
    → ((s' : Progress) (env' : Environment)
        → s'.in_block < s'.current_block
        → All IsLimited env'.flows
        → Writes (allowance s' env'.flows) (again s' env'))
    → Writes (allowance s env.flows) (after_consecutive o s again env)
unfolding after_consecutive
after_consecutive-Writes o s again env b i l h =
    if_cases (Writes bound) (is_empty s.rest) _ _ (unfold written in omega arith) (
      Writes-pause bound s.st_min_tenths (if full then blocked else again s env)
        (elim (Bool-cases full) [
          | inl e ↦ rw e (
              Writes-await o.timing.wft_max 0 bound env.flows next l
                (λ fc more p l' k.
                  le_trans {k = bound} (h (grant s fc) (record env { flows = more }) p l')
                    (omega arith))
                (omega arith))
          | inr e ↦ rw e (h s env (ground arith) l)
        ]))
  where
    bound : ℕ
    bound = allowance s env.flows

    full : Bool
    full = ltb 0 s.current_block && leb s.current_block s.in_block

    next : FlowControlFrame → List FlowEvent → Run
    next fc more = again (grant s fc) (record env { flows = more })

    blocked : Run
    blocked = await_flow_control o.timing.wft_max 0 env.flows next

-- With every block size positive, the Consecutive Frames that are written never exceed what is left
-- of the present block together with the block sizes of the Flow Control frames that follow.
pub send_consecutive-Writes :
    (fuel : ℕ) (o : IsoTpOptions) (s : Progress) (env : Environment)
    → s.in_block < s.current_block
    → All IsLimited env.flows
    → length (written (send_consecutive fuel o s env).actions)
      ≤ s.current_block - s.in_block + credit env.flows
unfolding send_consecutive
send_consecutive-Writes zero o s env i l = unfold written in omega arith
send_consecutive-Writes (suc fuel) o s env i l = elim (Bool-cases (is_empty s.rest)) [
  | inl done ↦ unfold send_round in rw done (unfold written in omega arith)
  | inr more ↦
      let s' = advance (frame_payload_capacity o) s in
      let room : suc (allowance s' env.flows) ≤ allowance s env.flows = omega arith in
      unfold send_round in
      rw more (
        le_trans
          (Writes-frame o (consecutive_body (frame_payload_capacity o) s.sequence s.rest)
            (allowance s' env.flows) env (after_consecutive o s' (send_consecutive fuel o))
            (λ writes.
              after_consecutive-Writes o s' (send_consecutive fuel o)
                (record env { writes = writes }) (omega arith) (omega arith) l
                (λ t env' j l'. send_consecutive-Writes fuel o t env' j l')))
          room)
]
