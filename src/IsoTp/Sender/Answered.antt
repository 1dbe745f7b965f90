-- ===== src/IsoTp/Sender/Answered.antt =====
-- packages/transport/iso-tp/src/connection.ts: a transmission that is answered comes to its end.
use yes_you_can.Prelude.{
  ℕ, zero, suc, ◌+◌, ◌-◌, ◌≤◌, ◌<◌, ◌≢◌, inl, inr, ◌&&◌, List, [], ◌∷◌, arith, ltb, leb, ◌==◌,
  if_cases, Bool-cases, length, length-drop, drop,
}
use yes_you_can.Bytes.{Bytes}
use yes_you_can.IsoTp.Params.{wait_status, overflow_status}
use yes_you_can.IsoTp.Options.{IsoTpOptions, padded, frame_payload_capacity, single_frame_capacity}
use yes_you_can.IsoTp.Segment.{
  consecutive_body, first_frame_body, single_frame_body, first_chunk_length, first_frame_header,
  capacity_bounds, single_frame_fits,
}
use yes_you_can.IsoTp.Sender.{
  FlowControlFrame, WriteAnswer, accepted, refused, FlowEvent, flow, n_bs_expired,
  connection_closed, Environment, count, sent, waiting, stuck, Run, answer, write_frame,
  await_flow_control, Progress, grant, advance, is_empty, started, tx_single_frames,
  after_consecutive, send_round, send_consecutive, send_multi_frame, send_single_frame, transmit,
}
use yes_you_can.IsoTp.Sender.Prefix.{rest_shrinks}

-- A run that has come to its end.
abbrev pub Ended : Run → Type 0
Ended run = (run.outcome ≢ waiting) × (run.outcome ≢ stuck)

-- The events that `frames` waits for Flow Control can take: one more than the waits that the other end
-- may ask for, each.
abbrev pub flows_needed : ℕ → ℕ → ℕ
flows_needed wft_max zero = 0
flows_needed wft_max (suc frames) = wft_max + 1 + flows_needed wft_max frames

flows_needed_less :
    (wft_max a b : ℕ) → a < b → wft_max + 1 + flows_needed wft_max a ≤ flows_needed wft_max b
flows_needed_less wft_max a zero h = absurd (omega arith)
flows_needed_less wft_max zero (suc b) h = omega arith
flows_needed_less wft_max (suc a) (suc b) h =
    omega (arith, flows_needed_less wft_max a b (omega arith))

await-Ended :
    (wft_max waits later : ℕ) (flows : List FlowEvent)
    (next : FlowControlFrame → List FlowEvent → Run)
    → waits ≤ wft_max
    → wft_max + 1 - waits + later ≤ length flows
    → ((fc : FlowControlFrame) (more : List FlowEvent) → later ≤ length more → Ended (next fc more))
    → Ended (await_flow_control wft_max waits flows next)
unfolding await_flow_control
await-Ended wft_max waits later [] next w h k = absurd (omega arith)
await-Ended wft_max waits later (n_bs_expired ∷ flows) next w h k = ((λ e. cc e), (λ e. cc e))
await-Ended wft_max waits later (connection_closed ∷ flows) next w h k = ((λ e. cc e), (λ e. cc e))
await-Ended wft_max waits later (flow fc ∷ flows) next w h k =
    if_cases Ended (fc.status == wait_status) _ _
      (elim (Bool-cases (ltb wft_max (waits + 1))) [
        | inl over ↦ rw over ((λ e. cc e), (λ e. cc e))
        | inr within ↦
            rw within
              (await-Ended wft_max (waits + 1) later flows next (ground arith) (ground arith) k)
      ])
      (if_cases Ended (fc.status == overflow_status) _ _ ((λ e. cc e), (λ e. cc e))
        (k fc flows (omega arith)))

answer-Ended :
    (writes : List WriteAnswer) (later : ℕ) (next : List WriteAnswer → Run)
    → later < length writes
    → ((more : List WriteAnswer) → later ≤ length more → Ended (next more))
    → Ended (answer writes next)
unfolding answer
answer-Ended [] later next h k = absurd (omega arith)
answer-Ended (accepted ∷ more) later next h k = k more (omega arith)
answer-Ended (refused retryable ∷ more) later next h k = ((λ e. cc e), (λ e. cc e))

write-Ended :
    (o : IsoTpOptions) (body : Bytes) (later : ℕ) (env : Environment) (next : Environment → Run)
    → later < length env.writes
    → ((more : List WriteAnswer)
        → later ≤ length more
        → Ended (next (record env { writes = more })))
    → Ended (write_frame o body env next)
unfolding write_frame
write-Ended o body later env next h k =
    answer-Ended env.writes later (λ more. next (record env { writes = more })) h k

-- There are answers for frames of so many bytes, and events for as many waits.
abbrev Answers : IsoTpOptions → ℕ → Environment → Type 0
Answers o n env = (n ≤ length env.writes) × (flows_needed o.timing.wft_max n ≤ length env.flows)

module _ (o : IsoTpOptions) (again : Progress → Environment → Run) where
  after_consecutive-Ended :
      (s : Progress) (env : Environment)
      → length s.rest ≤ length env.writes
      → o.timing.wft_max + 1 + flows_needed o.timing.wft_max (length s.rest) ≤ length env.flows
      → ((fc : FlowControlFrame) (more : List FlowEvent)
          → Answers o (length s.rest) (record env { flows = more })
          → Ended (again (grant s fc) (record env { flows = more })))
      → (Answers o (length s.rest) env → Ended (again s env))
      → Ended (after_consecutive o s again env)
  unfolding after_consecutive
  after_consecutive-Ended s env h k granted free =
      if_cases Ended (is_empty s.rest) _ _ ((λ e. cc e), (λ e. cc e))
        (if_cases Ended (ltb 0 s.current_block && leb s.current_block s.in_block) _ _
          (await-Ended o.timing.wft_max 0 (flows_needed o.timing.wft_max (length s.rest)) env.flows
            _ (omega arith) (omega (arith, k)) (λ fc more enough. granted fc more (h, enough)))
          (free (h, omega (arith, k))))

send_consecutive-Ended :
    (fuel : ℕ) (o : IsoTpOptions) (s : Progress) (env : Environment)
    → 1 < frame_payload_capacity o
    → length s.rest < fuel
    → Answers o (length s.rest) env
    → Ended (send_consecutive fuel o s env)
unfolding send_consecutive send_round
send_consecutive-Ended zero o s env c h a = absurd (omega arith)
send_consecutive-Ended (suc fuel) o s env c h a = elim (Bool-cases (is_empty s.rest)) [
  | inl done ↦ rw done ((λ e. cc e), (λ e. cc e))
  | inr more ↦
      let s' = advance (frame_payload_capacity o) s in
      let less : length s'.rest < length s.rest =
        rest_shrinks (frame_payload_capacity o) s.rest c more in
      let flows = flows_needed_less o.timing.wft_max (length s'.rest) (length s.rest) less in
      rw more (
        write-Ended o (padded o (consecutive_body (frame_payload_capacity o) s.sequence s.rest))
          (length s'.rest) env (after_consecutive o s' (send_consecutive fuel o))
          (omega (arith, less, a.0))
          (λ writes enough.
            after_consecutive-Ended o (send_consecutive fuel o) s' (record env { writes = writes })
              enough (omega (arith, flows, a.1))
              (λ fc more' answers.
                send_consecutive-Ended fuel o (grant s' fc) _ c (omega (arith, less)) answers)
              (λ answers. send_consecutive-Ended fuel o s' _ c (omega (arith, less)) answers)))
]

-- The First Frame takes at least one byte.
first_chunk_some : (capacity n : ℕ) → 7 ≤ capacity → 0 < n → 0 < first_chunk_length capacity n
unfolding first_chunk_length first_frame_header
first_chunk_some capacity n c h = ground arith

send_multi_frame-Ended :
    (o : IsoTpOptions) (payload : Bytes) (env : Environment)
    → 0 < length payload
    → Answers o (length payload) env
    → Ended (send_multi_frame o payload env)
unfolding send_multi_frame
send_multi_frame-Ended o payload env some_bytes a =
    let capacity = frame_payload_capacity o in
    let n = length payload in
    let rest = drop (first_chunk_length capacity n) payload in
    let c : 1 < capacity = omega (arith, capacity_bounds o) in
    let less : length rest < n = omega (
      arith,
      length-drop (first_chunk_length capacity n) payload,
      first_chunk_some capacity n (capacity_bounds o).0 some_bytes,
    ) in
    let flows = flows_needed_less o.timing.wft_max (length rest) n less in
    let blocks = λ (env' : Environment) (fc : FlowControlFrame) (more : List FlowEvent).
      send_consecutive (suc (length rest)) o (started rest fc) (record env' { flows = more }) in
    if_cases Ended (leb capacity 8 && ltb 0xfff n) _ _ ((λ e. cc e), (λ e. cc e))
      (write-Ended o (padded o (first_frame_body capacity payload)) (length rest) env
        (λ env'. await_flow_control o.timing.wft_max 0 env'.flows (blocks env'))
        (omega (arith, less, a.0))
        (λ writes enough.
          await-Ended o.timing.wft_max 0 (flows_needed o.timing.wft_max (length rest)) env.flows
            (blocks (record env { writes = writes })) (omega arith) (omega (arith, flows, a.1))
            (λ fc more left.
              send_consecutive-Ended (suc (length rest)) o (started rest fc)
                (record { writes = writes; flows = more }) c (omega arith) (enough, left))))

-- A transmission whose environment has an answer for as many frames as there are bytes, and for as many
-- waits for Flow Control with `wftMax` + 1 events each, comes to its end: the message is sent, or the
-- transmission fails. So a receiver that only asks to wait, and one that stays silent until N_Bs
-- expires, cannot hold it up.
pub transmit-Ended :
    (o : IsoTpOptions) (payload : Bytes) (env : Environment)
    → length payload ≤ length env.writes
    → flows_needed o.timing.wft_max (length payload) ≤ length env.flows
    → Ended (transmit o payload env)
unfolding transmit send_single_frame
transmit-Ended o payload env writes flows = elim (Bool-cases (length payload == 0)) [
  | inl nothing ↦ rw nothing ((λ e. cc e), (λ e. cc e))
  | inr something ↦
      let some_bytes : 0 < length payload = ground arith in
      rw something (
        if_cases Ended (leb (length payload) (single_frame_capacity o)) _ _
          (if_cases Ended (single_frame_fits o payload) _ _
            (write-Ended o (padded o (single_frame_body payload)) 0 env
              (λ env'. record { actions = count tx_single_frames ∷ []; outcome = sent })
              (omega (arith, some_bytes, writes)) (λ more enough. ((λ e. cc e), (λ e. cc e))))
            ((λ e. cc e), (λ e. cc e)))
          (send_multi_frame-Ended o payload env some_bytes (writes, flows)))
]
