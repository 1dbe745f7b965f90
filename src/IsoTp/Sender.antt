-- ===== src/IsoTp/Sender.antt =====
-- packages/transport/iso-tp/src/connection.ts: `transmit`, `sendSingleFrame`, `sendMultiFrame`,
-- `awaitFlowControl` and `writeFrame`. A transmission is a function of what its environment
-- answers: one answer for each frame handed to the adapter, and the Flow Control frames, timeouts
-- and closings in the order in which they reach it (the queue `fcQueue` keeps that order).
pub mod Rules
pub mod Prefix
pub mod Answered
pub mod Blocks
use yes_you_can.Prelude.{
  ℕ, zero, suc, ◌+◌, ◌-◌, ◌*◌, ◌/◌, ◌%◌, ◌^◌, ◌≤◌, ◌<◌, min, max, ◌≡◌, refl, sym, ap, ◌∙◌, ◌≢◌, ◌↔◌,
  ◌⊎◌, inl, inr, Bool, true, false, not, ◌&&◌, ◌||◌, Option, none, some, List, [], ◌∷◌, ◌++◌, map,
  append_assoc, append-nil, arith, ltb, leb, ◌==◌, if◌then◌else◌, ==_iff, ==_refl, leb→le, ltb→lt,
  Bool-cases, Option-cases, get_some_or, is_none, length, get_or, take, drop, replicate, flatten,
  length-append, take-append-drop, length-take, length-drop, length-replicate, take-append,
  drop-append, take_all, drop_all, includes, All, All-append,
}
use yes_you_can.Bytes.{Bytes}
use yes_you_can.IsoTp.Params.{wait_status, overflow_status}
use yes_you_can.IsoTp.Options.{
  IsoTpOptions, padded, with_address, frame_payload_capacity, single_frame_capacity,
}
use yes_you_can.IsoTp.Errors.{
  IsoTpError, empty_payload, single_frame_too_long, segmentation_too_long, n_bs_timeout,
  closed_in_flow_control, wft_exceeded, flow_control_overflow, write_failed,
}
use yes_you_can.IsoTp.Segment.{
  single_frame_fits, single_frame_body, first_chunk_length, first_frame_body, chunk_length,
  consecutive_body,
}

pub record FlowControlFrame : Type 0 where
  pub status : ℕ
  pub block_size : ℕ
  pub st_min_tenths : ℕ

-- What the adapter makes of one frame; a refusal has the `retryable` detail of its error.
pub data WriteAnswer : Type 0 where
  accepted : WriteAnswer
  refused : Option Bool → WriteAnswer

-- What ends one wait for Flow Control.
pub data FlowEvent : Type 0 where
  flow : FlowControlFrame → FlowEvent
  n_bs_expired : FlowEvent
  connection_closed : FlowEvent

pub record Environment : Type 0 where
  pub writes : List WriteAnswer
  pub flows : List FlowEvent

pub data Counter : Type 0 where
  tx_frames tx_single_frames tx_multi_frame_messages timeouts : Counter

-- What a transmission does, in order. `write` is the payload of a frame on the wire.
pub data Action : Type 0 where
  count : Counter → Action
  write : Bytes → Action
  sleep : ℕ → Action

-- `waiting`: the environment has not answered yet. `stuck` is no outcome of the source: the model's
-- fuel ran out.
pub data Outcome : Type 0 where
  sent : Outcome
  failed : IsoTpError → Outcome
  waiting : Outcome
  stuck : Outcome

pub record Run : Type 0 where
  pub actions : List Action
  pub outcome : Outcome

abbrev pub end_with : Outcome → Run
end_with outcome = record { actions = []; outcome = outcome }

abbrev pub after : List Action → Run → Run
after done run = record { actions = done ++ run.actions; outcome = run.outcome }

-- The end of `await Promise.race([write, aborted])`.
unfoldable pub answer : List WriteAnswer → (List WriteAnswer → Run) → Run
answer [] next = end_with waiting
answer (accepted ∷ more) next = next more
answer (refused retryable ∷ more) next = end_with (failed (write_failed retryable))

-- `writeFrame`: the frame is counted and handed over before the answer comes.
unfoldable pub write_frame : IsoTpOptions → Bytes → Environment → (Environment → Run) → Run
unfolding answer
write_frame o body env next =
    after (count tx_frames ∷ write (with_address o body) ∷ [])
      (answer env.writes (λ more. next (record env { writes = more })))

-- `awaitFlowControl`; the first number is `waitCount`.
unfoldable pub await_flow_control :
    ℕ → ℕ → List FlowEvent → (FlowControlFrame → List FlowEvent → Run) → Run
await_flow_control wft_max waits [] next = end_with waiting
await_flow_control wft_max waits (n_bs_expired ∷ flows) next =
    after (count timeouts ∷ []) (end_with (failed n_bs_timeout))
await_flow_control wft_max waits (connection_closed ∷ flows) next =
    end_with (failed closed_in_flow_control)
await_flow_control wft_max waits (flow fc ∷ flows) next =
    let again = await_flow_control wft_max (waits + 1) flows next in
    if fc.status == wait_status
    then (if ltb wft_max (waits + 1)
        then after (count timeouts ∷ []) (end_with (failed wft_exceeded))
        else again)
    else (if fc.status == overflow_status
        then end_with (failed flow_control_overflow)
        else next fc flows)

-- The loop variables of `sendMultiFrame`; `rest` is the payload from `offset` on.
pub record Progress : Type 0 where
  pub rest : Bytes
  pub sequence : ℕ
  pub in_block : ℕ
  pub current_block : ℕ
  pub st_min_tenths : ℕ

abbrev pub grant : Progress → FlowControlFrame → Progress
grant s fc = record s {
  current_block = fc.block_size;
  st_min_tenths = fc.st_min_tenths;
  in_block = 0;
}

abbrev pub advance : ℕ → Progress → Progress
advance capacity s = record s {
  rest = drop (chunk_length capacity s.rest) s.rest;
  sequence = (s.sequence + 1) % 16;
  in_block = s.in_block + 1;
}

abbrev pub is_empty : Bytes → Bool
is_empty [] = true
is_empty (b ∷ bs) = false

abbrev pub pause : ℕ → List Action
pause tenths = if ltb 0 tenths then sleep tenths ∷ [] else []

abbrev pub message_sent : Run
message_sent = record { actions = count tx_multi_frame_messages ∷ []; outcome = sent }

-- What follows a Consecutive Frame, with `again` for the next round: the end of the message, or the
-- separation time and, where the block is full, the next Flow Control.
unfoldable pub after_consecutive :
    IsoTpOptions → Progress → (Progress → Environment → Run) → Environment → Run
after_consecutive o s again env =
    if is_empty s.rest
    then message_sent
    else after (pause s.st_min_tenths) (
        if ltb 0 s.current_block && leb s.current_block s.in_block
        then await_flow_control o.timing.wft_max 0 env.flows
            (λ fc flows. again (grant s fc) (record env { flows = flows }))
        else again s env)

-- One round of the `while` loop.
unfoldable pub send_round :
    IsoTpOptions → Progress → (Progress → Environment → Run) → Environment → Run
unfolding write_frame after_consecutive
send_round o s again env =
    let capacity = frame_payload_capacity o in
    if is_empty s.rest
    then message_sent
    else write_frame o (padded o (consecutive_body capacity s.sequence s.rest)) env
        (after_consecutive o (advance capacity s) again)

-- The `while` loop of `sendMultiFrame` and what follows it.
unfoldable pub send_consecutive : ℕ → IsoTpOptions → Progress → Environment → Run
unfolding send_round
send_consecutive zero o s env = end_with stuck
send_consecutive (suc fuel) o s env = send_round o s (send_consecutive fuel o) env

-- The loop's variables behind the first Flow Control.
abbrev pub started : Bytes → FlowControlFrame → Progress
started rest fc = record {
  rest = rest;
  sequence = 1;
  in_block = 0;
  current_block = fc.block_size;
  st_min_tenths = fc.st_min_tenths;
}

-- Each round takes a byte at least, so one round more than there are bytes is enough.
unfoldable pub send_multi_frame : IsoTpOptions → Bytes → Environment → Run
unfolding send_consecutive
send_multi_frame o payload env =
    let capacity = frame_payload_capacity o in
    let n = length payload in
    let rest = drop (first_chunk_length capacity n) payload in
    if leb capacity 8 && ltb 0xfff n
    then end_with (failed (segmentation_too_long n))
    else write_frame o (padded o (first_frame_body capacity payload)) env (λ env'.
      await_flow_control o.timing.wft_max 0 env'.flows (λ fc flows.
        send_consecutive (suc (length rest)) o (started rest fc) (record env' { flows = flows })))

unfoldable pub send_single_frame : IsoTpOptions → Bytes → Environment → Run
unfolding write_frame
send_single_frame o payload env =
    if single_frame_fits o payload
    then write_frame o (padded o (single_frame_body payload)) env
        (λ env'. record { actions = count tx_single_frames ∷ []; outcome = sent })
    else end_with (failed (single_frame_too_long (length payload)))

unfoldable pub transmit : IsoTpOptions → Bytes → Environment → Run
unfolding send_single_frame send_multi_frame
transmit o payload env =
    if length payload == 0
    then end_with (failed empty_payload)
    else if leb (length payload) (single_frame_capacity o)
    then send_single_frame o payload env
    else send_multi_frame o payload env

-- The frames that a run hands to the adapter.
unfoldable pub written : List Action → List Bytes
written [] = []
written (write wire ∷ as') = wire ∷ written as'
written (count c ∷ as') = written as'
written (sleep t ∷ as') = written as'

pub written-append : (xs ys : List Action) → written (xs ++ ys) ≡ written xs ++ written ys
unfolding written
written-append [] ys = refl
written-append (write wire ∷ xs) ys = ap (λ t. wire ∷ t) (written-append xs ys)
written-append (count c ∷ xs) ys = written-append xs ys
written-append (sleep t ∷ xs) ys = written-append xs ys
