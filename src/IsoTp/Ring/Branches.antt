-- ===== src/IsoTp/Ring/Branches.antt =====
-- packages/transport/iso-tp/src/connection.ts: the branches of `handleFrame` leave the witness ring.
use yes_you_can.Prelude.{
  ℕ, zero, suc, ◌+◌, ◌-◌, ◌*◌, ◌/◌, ◌%◌, ◌≡◌, refl, ◌∙◌, inl, inr, true, false, ◌&&◌, ◌||◌, Option,
  none, some, List, [], ◌∷◌, ltb, leb, ◌==◌, if_cases, Option-cases, length, get_or, drop,
}
use yes_you_can.Bytes.{Bytes}
use yes_you_can.Can.{CanFrame}
use yes_you_can.IsoTp.Options.{IsoTpOptions, max_receive_bytes, frame_payload_capacity}
use yes_you_can.IsoTp.Errors.{IsoTpError, first_frame_overflow}
use yes_you_can.IsoTp.Params.{
  parse_st_min, continue_to_send, overflow_status, single_type, first_type, consecutive_type,
  flow_control_type,
}
use yes_you_can.IsoTp.Sender.{FlowControlFrame}
use yes_you_can.IsoTp.Connection.{
  Connection, RxState, Step, ◌then_do◌, fail_pending, record_witness,
}
use yes_you_can.IsoTp.Receiver.{
  send_flow_control, deliver, take_single, single_declared, handle_single, open_reception,
  first_declared, handle_first, accept_chunk, continue_reception, handle_consecutive, hand_over,
  handle_flow_control, handle_body, note_frame, handle_stripped, handle_frame, ff_length_rejected,
  ff_dl, escaped_length, take_chunk, strip_address,
}

-- A step that leaves the witness ring.
pub record Quiet (c : Connection) (step : Step) : Type 0 where
  pub ring : step.0.witness ≡ c.witness
  pub numbered : step.0.witness_seq ≡ c.witness_seq

Quiet-then :
    (c : Connection) (first : Step) (next : Connection → Step)
    → Quiet c first
    → Quiet first.0 (next first.0)
    → Quiet c (first then_do next)
Quiet-then c first next b d = record { ring = d.ring ∙ b.ring; numbered = d.numbered ∙ b.numbered }

Quiet-deliver : (payload : Bytes) (c : Connection) → Quiet c (deliver payload c)
unfolding deliver
Quiet-deliver payload c = elim (Option-cases c.pending) [
  | inl e ↦ rw e (record { ring = refl; numbered = refl })
  | inr (id, e) ↦ rw e (record { ring = refl; numbered = refl })
]

pub Quiet-fail_pending : (error : IsoTpError) (c : Connection) → Quiet c (fail_pending error c)
unfolding fail_pending
Quiet-fail_pending error c = elim (Option-cases c.pending) [
  | inl e ↦ rw e (record { ring = refl; numbered = refl })
  | inr (id, e) ↦ rw e (record { ring = refl; numbered = refl })
]

Quiet-send_flow_control :
    (o : IsoTpOptions) (now status : ℕ) (c : Connection)
    → Quiet c (send_flow_control o now status c)
unfolding send_flow_control
Quiet-send_flow_control o now status c = record { ring = refl; numbered = refl }

-- A step that changes neither the slot nor anything that callers wait for.
pub Quiet-none : (c : Connection) → Quiet c (c, [])
Quiet-none c = record { ring = refl; numbered = refl }

-- The other fields of the state do not count.
Quiet-from :
    (c c' : Connection) (step : Step)
    → c'.witness ≡ c.witness
    → c'.witness_seq ≡ c.witness_seq
    → Quiet c' step
    → Quiet c step
Quiet-from c c' step e f b = record { ring = b.ring ∙ e; numbered = b.numbered ∙ f }

Quiet-take_single :
    (o : IsoTpOptions) (body : Bytes) (header n : ℕ) (c : Connection)
    → Quiet c (take_single o body header n c)
unfolding take_single
Quiet-take_single o body header n c =
    if_cases (Quiet c)
      (ltb n 1 || ltb (frame_payload_capacity o - header) n || ltb (length body) (header + n)) _ _
      (Quiet-none c) (Quiet-from c _ _ refl refl (Quiet-deliver _ _))

Quiet-single_declared :
    (o : IsoTpOptions) (body : Bytes) (n : ℕ) (c : Connection)
    → Quiet c (single_declared o body n c)
unfolding single_declared
Quiet-single_declared o body zero c =
    if_cases (Quiet c) (leb (frame_payload_capacity o) 8) _ _ (Quiet-none c)
      (Quiet-take_single o body 2 (get_or body 1 0) c)
Quiet-single_declared o body (suc n) c = Quiet-take_single o body 1 (suc n) c

Quiet-open_reception :
    (o : IsoTpOptions) (now n : ℕ) (first : Bytes) (c : Connection)
    → Quiet c (open_reception o now n first c)
unfolding open_reception
Quiet-open_reception o now n first c =
    if_cases (Quiet c) (ltb (max_receive_bytes o) n) _ _
      (Quiet-then c _ (fail_pending (first_frame_overflow n (max_receive_bytes o)))
        (Quiet-send_flow_control o now overflow_status c) (Quiet-fail_pending _ _))
      (Quiet-from c _ _ refl refl (Quiet-send_flow_control o now continue_to_send _))

Quiet-first_declared :
    (o : IsoTpOptions) (now : ℕ) (body : Bytes) (n : ℕ) (c : Connection)
    → Quiet c (first_declared o now body n c)
unfolding first_declared
Quiet-first_declared o now body zero c =
    if_cases (Quiet c)
      (ff_length_rejected true (escaped_length body) || leb (frame_payload_capacity o) 8) _ _
      (Quiet-none c) (Quiet-open_reception o now (escaped_length body) (drop 6 body) c)
Quiet-first_declared o now body (suc n) c =
    if_cases (Quiet c) (ff_length_rejected false (suc n)) _ _ (Quiet-none c)
      (Quiet-open_reception o now (suc n) (drop 2 body) c)

Quiet-accept_chunk :
    (o : IsoTpOptions) (now : ℕ) (state : RxState) (c : Connection)
    → Quiet c (accept_chunk o now state c)
unfolding accept_chunk
Quiet-accept_chunk o now state c =
    if_cases (Quiet c) (leb state.expected_length state.received) _ _
      (Quiet-from c _ _ refl refl (Quiet-deliver _ _))
      (if_cases (Quiet c) (ltb 0 o.timing.block_size && leb o.timing.block_size state.block_count) _
        _ (Quiet-from c _ _ refl refl (Quiet-send_flow_control o now continue_to_send _))
        (Quiet-from c _ _ refl refl (Quiet-none _)))

Quiet-continue_reception :
    (o : IsoTpOptions) (now : ℕ) (body : Bytes) (rx : Option RxState) (c : Connection)
    → Quiet c (continue_reception o now body rx c)
unfolding continue_reception
Quiet-continue_reception o now body none c = Quiet-from c _ _ refl refl (Quiet-none _)
Quiet-continue_reception o now body (some state) c =
    if_cases (Quiet c) (get_or body 0 0 % 16 == state.next_sequence) _ _
      (Quiet-accept_chunk o now (take_chunk now body state) c)
      (Quiet-from c _ _ refl refl (Quiet-fail_pending _ _))

Quiet-hand_over :
    (fc : FlowControlFrame) (waiters : List ℕ) (c : Connection) → Quiet c (hand_over fc waiters c)
unfolding hand_over
Quiet-hand_over fc [] c =
    if_cases (Quiet c) (ltb (length c.fc_queue) 16) _ _ (Quiet-from c _ _ refl refl (Quiet-none _))
      (Quiet-none c)
Quiet-hand_over fc (waiter ∷ others) c = record { ring = refl; numbered = refl }

Quiet-handle_single :
    (o : IsoTpOptions) (body : Bytes) (c : Connection) → Quiet c (handle_single o body c)
unfolding handle_single
Quiet-handle_single o body c = Quiet-single_declared o body (get_or body 0 0 % 16) c

Quiet-handle_first :
    (o : IsoTpOptions) (now : ℕ) (body : Bytes) (c : Connection)
    → Quiet c (handle_first o now body c)
unfolding handle_first
Quiet-handle_first o now body c = Quiet-first_declared o now body (ff_dl body) c

Quiet-handle_consecutive :
    (o : IsoTpOptions) (now : ℕ) (body : Bytes) (c : Connection)
    → Quiet c (handle_consecutive o now body c)
unfolding handle_consecutive
Quiet-handle_consecutive o now body c = Quiet-continue_reception o now body c.rx_state c

Quiet-handle_flow_control : (body : Bytes) (c : Connection) → Quiet c (handle_flow_control body c)
unfolding handle_flow_control
Quiet-handle_flow_control body c =
    Quiet-from c
      (record c {
        stats = record c.stats { rx_flow_control_frames = c.stats.rx_flow_control_frames + 1 };
      })
      _ refl refl
      (Quiet-hand_over
        (record {
          status = get_or body 0 0 % 16;
          block_size = get_or body 1 0;
          st_min_tenths = parse_st_min (get_or body 2 0);
        })
        c.fc_waiters
        (record c {
          stats = record c.stats { rx_flow_control_frames = c.stats.rx_flow_control_frames + 1 };
        }))

Quiet-handle_body :
    (o : IsoTpOptions) (now : ℕ) (body : Bytes) (c : Connection)
    → Quiet c (handle_body o now body c)
unfolding handle_body
Quiet-handle_body o now body c =
    let type = get_or body 0 0 / 16 * 16 in
    if_cases (Quiet c) (type == single_type) _ _ (Quiet-handle_single o body c) (
      if_cases (Quiet c) (type == first_type) _ _ (Quiet-handle_first o now body c) (
        if_cases (Quiet c) (type == consecutive_type) _ _ (Quiet-handle_consecutive o now body c) (
          if_cases (Quiet c) (type == flow_control_type) _ _ (Quiet-handle_flow_control body c)
            (Quiet-none c))))

Quiet-handle_stripped :
    (o : IsoTpOptions) (now : ℕ) (body : Option Bytes) (c : Connection)
    → Quiet c (handle_stripped o now body c)
unfolding handle_stripped
Quiet-handle_stripped o now none c = Quiet-none c
Quiet-handle_stripped o now (some body) c = Quiet-handle_body o now body c

-- A frame is recorded, and then nothing else is.
pub Quiet-handle_frame :
    (o : IsoTpOptions) (now : ℕ) (frame : CanFrame) (c : Connection)
    → Quiet (record_witness now frame c) (handle_frame o now frame c)
unfolding handle_frame note_frame
Quiet-handle_frame o now frame c =
    Quiet-from (record_witness now frame c) (note_frame now frame c) _ refl refl (
      Quiet-handle_stripped o now (strip_address o.addressing o.source_address frame.payload)
        (note_frame now frame c))
