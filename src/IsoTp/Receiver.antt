-- ===== src/IsoTp/Receiver.antt =====
-- packages/transport/iso-tp/src/connection.ts: `handleFrame`, one function for each frame type,
-- `sendFlowControl` and `deliver`.
pub mod Reassembly
pub mod Accept
pub mod Message
use yes_you_can.Prelude.{
  ℕ, zero, suc, ◌+◌, ◌-◌, ◌*◌, ◌/◌, ◌%◌, ◌^◌, ◌≤◌, ◌<◌, min, max, ◌≡◌, refl, sym, ap, ◌∙◌, ◌≢◌, ◌↔◌,
  ◌⊎◌, inl, inr, Bool, true, false, not, ◌&&◌, ◌||◌, Option, none, some, List, [], ◌∷◌, ◌++◌, map,
  append_assoc, append-nil, arith, ltb, leb, ◌==◌, if◌then◌else◌, if_cases, ==_iff, ==_refl, leb→le,
  ltb→lt, Bool-cases, Option-cases, get_some_or, is_none, length, get_or, take, drop, replicate,
  flatten, length-append, take-append-drop, length-take, length-drop, length-replicate, take-append,
  drop-append, take_all, drop_all, includes, All, All-append,
}
use yes_you_can.Bytes.{Bytes, concat_bytes}
use yes_you_can.Can.{CanFrame}
use yes_you_can.IsoTp.Params.{
  single_type, first_type, consecutive_type, flow_control_type, continue_to_send, overflow_status,
  parse_st_min, encode_st_min,
}
use yes_you_can.IsoTp.Options.{
  IsoTpOptions, Addressing, normal, extended, frame_of, frame_payload_capacity, max_receive_bytes,
}
use yes_you_can.IsoTp.Errors.{sequence_error, first_frame_overflow}
use yes_you_can.IsoTp.Sender.{FlowControlFrame}
use yes_you_can.IsoTp.Connection.{
  Connection, RxState, Effect, Step, ◌then_do◌, send_frame, resolve, unsolicited, settle_flow,
  record_witness, fail_pending, fc_queue_limit,
}

-- `pci & 0x0f` and `pci & 0xf0`
abbrev pub low_nibble : ℕ → ℕ
low_nibble pci = pci % 16

abbrev pub high_nibble : ℕ → ℕ
high_nibble pci = pci / 16 * 16

-- `sendFlowControl` up to its first wait: the frame is counted and handed over. What becomes of the
-- write is only logged.
unfoldable pub send_flow_control : IsoTpOptions → ℕ → ℕ → Connection → Step
send_flow_control o now status c =
    let body =
      (flow_control_type + status)
      ∷ (o.timing.block_size % 256)
      ∷ encode_st_min o.timing.st_min_tenths
      ∷ [] in
    (
      record c {
        stats = record c.stats {
          tx_flow_control_frames = c.stats.tx_flow_control_frames + 1;
          tx_frames = c.stats.tx_frames + 1;
        };
      },
      send_frame (frame_of o now body) ∷ [],
    )

-- `deliver`; `unsolicited` stands for the call of every listener.
unfoldable pub deliver : Bytes → Connection → Step
deliver payload c = elim c.pending [
  | none ↦ (c, unsolicited payload ∷ [])
  | some id ↦ (record c { pending = none }, resolve id payload ∷ [])
]

-- A Single Frame of `n` bytes behind a header of `header_length`.
unfoldable pub take_single : IsoTpOptions → Bytes → ℕ → ℕ → Connection → Step
unfolding deliver
take_single o body header_length n c =
    if ltb n 1
      || ltb (frame_payload_capacity o - header_length) n
      || ltb (length body) (header_length + n)
    then (c, [])
    else deliver (take n (drop header_length body)) (record c {
      stats = record c.stats { rx_single_frames = c.stats.rx_single_frames + 1 };
      cr_timer = false;
      rx_state = none;
    })

-- The branch on the length nibble: 0 is the CAN FD form, with the length in the second byte.
unfoldable pub single_declared : IsoTpOptions → Bytes → ℕ → Connection → Step
unfolding take_single
single_declared o body zero c =
    if leb (frame_payload_capacity o) 8 then (c, []) else take_single o body 2 (get_or body 1 0) c
single_declared o body (suc n) c = take_single o body 1 (suc n) c

unfoldable pub handle_single : IsoTpOptions → Bytes → Connection → Step
unfolding single_declared
handle_single o body c = single_declared o body (low_nibble (get_or body 0 0)) c

-- `ffDl`
abbrev pub ff_dl : Bytes → ℕ
ff_dl body = low_nibble (get_or body 0 0) * 256 + get_or body 1 0

-- The four bytes of the escape form, before `<< 24` makes the result negative from 2 ^ 31 on.
abbrev pub escaped_length : Bytes → ℕ
escaped_length body =
    get_or body 2 0 * 16777216 + get_or body 3 0 * 65536 + get_or body 4 0 * 256 + get_or body 5 0

-- `escaped ? length <= 0xfff : length <= 7`, where a negative length is below both.
unfoldable pub ff_length_rejected : Bool → ℕ → Bool
ff_length_rejected true n = leb n 0xfff || leb 0x80000000 n
ff_length_rejected false n = leb n 7

-- A First Frame of a message of `n` bytes that has passed the length checks.
unfoldable pub open_reception : IsoTpOptions → ℕ → ℕ → Bytes → Connection → Step
unfolding send_flow_control
open_reception o now n first c =
    if ltb (max_receive_bytes o) n
    then (send_flow_control o now overflow_status c
        then_do fail_pending (first_frame_overflow n (max_receive_bytes o)))
    else send_flow_control o now continue_to_send (record c {
      rx_state = some (record {
        expected_length = n;
        chunks = first ∷ [];
        received = length first;
        next_sequence = 1;
        last_frame_at = now;
        block_count = 0;
        witness_base = c.witness_seq;
      });
      cr_timer = true;
    })

-- The branch on FF_DL, where 0 is the escape form.
unfoldable pub first_declared : IsoTpOptions → ℕ → Bytes → ℕ → Connection → Step
unfolding open_reception ff_length_rejected
first_declared o now body zero c =
    if ff_length_rejected true (escaped_length body) || leb (frame_payload_capacity o) 8
    then (c, [])
    else open_reception o now (escaped_length body) (drop 6 body) c
first_declared o now body (suc n) c =
    if ff_length_rejected false (suc n)
    then (c, [])
    else open_reception o now (suc n) (drop 2 body) c

unfoldable pub handle_first : IsoTpOptions → ℕ → Bytes → Connection → Step
unfolding first_declared
handle_first o now body c = first_declared o now body (ff_dl body) c

-- `body.subarray(1, 1 + Math.min(remaining, body.length - 1))` for a body that is not empty. Where more has been
-- received than was expected, by `over` bytes, `remaining` is negative: an end of 0 selects
-- nothing, and an end below 0 counts from the end of the body.
unfoldable pub consecutive_chunk : ℕ → ℕ → Bytes → Bytes
consecutive_chunk expected received body =
    let over = received - expected in
    if leb received expected
    then take (min (expected - received) (length body - 1)) (drop 1 body)
    else if over == 1
    then []
    else take (length body - over) (drop 1 body)

-- The reception with one more chunk, before the end of the message and the block are looked at.
unfoldable pub take_chunk : ℕ → Bytes → RxState → RxState
unfolding consecutive_chunk
take_chunk now body state =
    let chunk = consecutive_chunk state.expected_length state.received body in
    record state {
      chunks = state.chunks ++ (chunk ∷ []);
      received = state.received + length chunk;
      next_sequence = (state.next_sequence + 1) % 16;
      last_frame_at = now;
      block_count = state.block_count + 1;
    }

-- A Consecutive Frame of the expected sequence number; `state` has its chunk.
unfoldable pub accept_chunk : IsoTpOptions → ℕ → RxState → Connection → Step
unfolding deliver send_flow_control
accept_chunk o now state c =
    if leb state.expected_length state.received
    then deliver (take state.expected_length (concat_bytes state.chunks)) (record c {
      cr_timer = false;
      rx_state = none;
      stats = record c.stats { rx_multi_frame_messages = c.stats.rx_multi_frame_messages + 1 };
    })
    else if ltb 0 o.timing.block_size && leb o.timing.block_size state.block_count
    then send_flow_control o now continue_to_send
        (record c { cr_timer = true; rx_state = some (record state { block_count = 0 }) })
    else (record c { cr_timer = true; rx_state = some state }, [])

-- `handleFrame` on a Consecutive Frame, by the reception `rxState` that is active.
unfoldable pub continue_reception : IsoTpOptions → ℕ → Bytes → Option RxState → Connection → Step
unfolding take_chunk accept_chunk fail_pending
continue_reception o now body none c =
    (record c { stats = record c.stats { sequence_errors = c.stats.sequence_errors + 1 } }, [])
continue_reception o now body (some state) c =
    let sequence = low_nibble (get_or body 0 0) in
    if sequence == state.next_sequence
    then accept_chunk o now (take_chunk now body state) c
    else fail_pending (sequence_error state.next_sequence sequence) (record c {
      stats = record c.stats { sequence_errors = c.stats.sequence_errors + 1 };
      cr_timer = false;
      rx_state = none;
    })

unfoldable pub handle_consecutive : IsoTpOptions → ℕ → Bytes → Connection → Step
unfolding continue_reception
handle_consecutive o now body c = continue_reception o now body c.rx_state c

-- `fcWaiters.shift()`, and the queue where nobody waits.
unfoldable pub hand_over : FlowControlFrame → List ℕ → Connection → Step
hand_over fc [] c =
    if ltb (length c.fc_queue) fc_queue_limit
    then (record c { fc_queue = c.fc_queue ++ (fc ∷ []) }, [])
    else (c, [])
hand_over fc (waiter ∷ others) c =
    (record c { fc_waiters = others }, settle_flow waiter (some fc) ∷ [])

unfoldable pub handle_flow_control : Bytes → Connection → Step
unfolding hand_over
handle_flow_control body c =
    let c' = record c {
      stats = record c.stats { rx_flow_control_frames = c.stats.rx_flow_control_frames + 1 };
    } in
    hand_over
      (record {
        status = low_nibble (get_or body 0 0);
        block_size = get_or body 1 0;
        st_min_tenths = parse_st_min (get_or body 2 0);
      })
      c'.fc_waiters c'

-- The body behind the address byte; `none` is a frame that is not for this connection.
unfoldable pub strip_address : Addressing → Option ℕ → Bytes → Option Bytes
strip_address normal source payload = some payload
strip_address extended source [] = none
strip_address extended source (a ∷ []) = none
strip_address extended none (a ∷ b ∷ bs) = some (b ∷ bs)
strip_address extended (some source) (a ∷ b ∷ bs) = if a == source then some (b ∷ bs) else none

unfoldable pub handle_body : IsoTpOptions → ℕ → Bytes → Connection → Step
unfolding handle_single handle_first handle_consecutive handle_flow_control
handle_body o now body c =
    let type = high_nibble (get_or body 0 0) in
    if type == single_type
    then handle_single o body c
    else if type == first_type
    then handle_first o now body c
    else if type == consecutive_type
    then handle_consecutive o now body c
    else if type == flow_control_type
    then handle_flow_control body c
    else (c, [])

-- The frame is recorded and counted before any filter looks at it.
unfoldable pub note_frame : ℕ → CanFrame → Connection → Connection
unfolding record_witness
note_frame now frame c =
    let c' = record_witness now frame c in
    record c' { stats = record c'.stats { rx_frames = c'.stats.rx_frames + 1 } }

unfoldable pub handle_stripped : IsoTpOptions → ℕ → Option Bytes → Connection → Step
unfolding handle_body
handle_stripped o now none c = (c, [])
handle_stripped o now (some body) c = handle_body o now body c

unfoldable pub handle_frame : IsoTpOptions → ℕ → CanFrame → Connection → Step
unfolding note_frame strip_address handle_stripped
handle_frame o now frame c =
    handle_stripped o now (strip_address o.addressing o.source_address frame.payload)
      (note_frame now frame c)

-- A sequence of frames with the times of their arrival.
unfoldable pub handle_frames : IsoTpOptions → List (ℕ × CanFrame) → Connection → Step
handle_frames o [] c = (c, [])
handle_frames o ((now, frame) ∷ rest) c = handle_frame o now frame c then_do handle_frames o rest
