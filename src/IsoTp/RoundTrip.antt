-- ===== src/IsoTp/RoundTrip.antt =====
-- packages/transport/iso-tp/src/connection.ts: the frames that one connection transmits, handled by
-- the other end.
mod Frame
mod Single
mod First
mod SingleFrame
pub mod MultiFrame
pub mod Lost
use yes_you_can.Prelude.{
  ℕ, zero, suc, ◌+◌, ◌-◌, ◌*◌, ◌/◌, ◌%◌, ◌^◌, ◌≤◌, ◌<◌, min, max, ◌≡◌, refl, sym, ap, ◌∙◌, ◌≢◌, ◌↔◌,
  ◌⊎◌, inl, inr, Bool, true, false, not, ◌&&◌, ◌||◌, Option, none, some, List, [], ◌∷◌, ◌++◌, map,
  append_assoc, append-nil, arith, ltb, leb, ◌==◌, if◌then◌else◌, if_cases, ==_iff, ==_refl, leb→le,
  ltb→lt, Bool-cases, Option-cases, get_some_or, is_none, length, get_or, take, drop, replicate,
  flatten, length-append, take-append-drop, length-take, length-drop, length-replicate, take-append,
  drop-append, take_all, drop_all, includes, All, All-append,
}
use yes_you_can.Bytes.{Bytes, concat_bytes}
use yes_you_can.Can.{CanFrame}
use yes_you_can.IsoTp.Params.{continue_to_send}
use yes_you_can.IsoTp.Options.{
  IsoTpOptions, padded, padded-fill, fill, with_address, frame_payload_capacity,
  single_frame_capacity, max_receive_bytes,
}
use yes_you_can.IsoTp.Segment.{
  single_frame_header, single_frame_body, first_frame_header, first_chunk_length, first_frame_body,
  consecutive_bodies, segments, capacity_bounds,
}
use yes_you_can.IsoTp.Connection.{Connection, Step, ◌then_do◌}
use yes_you_can.IsoTp.Sender.{Environment, sent, transmit, written}
use yes_you_can.IsoTp.Sender.Prefix.{wires, frame_bodies, transmit-Sends}
use yes_you_can.IsoTp.Receiver.{
  handle_frame, handle_frames, handle_body, note_frame, deliver, send_flow_control,
}
use yes_you_can.IsoTp.Receiver.Reassembly.{
  Linked, deliveries, deliveries-append, Receiving, carrying, handle_frame-carrying, fill_full,
  same_capacity,
}
use yes_you_can.IsoTp.Receiver.Message.{
  arrivals, Delivers, Delivers-more, one_delivery, message_frames, note_frame_keeps,
}
use yes_you_can.IsoTp.RoundTrip.SingleFrame.{single_delivered}
use yes_you_can.IsoTp.RoundTrip.MultiFrame.{Segmented, multi_frame_delivered}

Delivers-nil :
    (o : IsoTpOptions) (owner : Option ℕ) (payload : Bytes) (first : Step)
    → Delivers owner payload first
    → Delivers owner payload (first then_do handle_frames o [])
unfolding handle_frames deliveries
Delivers-nil o owner payload first d = record {
  given = deliveries-append first.1 [] ∙ append-nil (deliveries first.1) ∙ d.given;
  idle = d.idle;
  finished = d.finished;
}

-- The payloads that arrive over a link: those of one frame, and the segmented ones of `Segmented`.
abbrev pub Sendable : IsoTpOptions → IsoTpOptions → ℕ → Type 0
Sendable p o n = (0 < n) × (n ≤ single_frame_capacity p) ⊎ Segmented p o n

-- Two linked connections: if the receiver handles the frames that ISO 15765-2 sends a payload in, in
-- order and at any times, from any state, it delivers exactly that payload, once, to the request
-- that waits (or to the listeners), and no reception stays open. The payload is one that fits a
-- Single Frame, or is longer than 7 bytes, below 2^31, within the receiver's limit, and above 4095
-- bytes only on CAN FD.
pub frames_delivered :
    (p o : IsoTpOptions) (payload : Bytes) (template : CanFrame) (times : ℕ → ℕ) (c : Connection)
    → Linked p o
    → Sendable p o (length payload)
    → Delivers c.pending payload
        (handle_frames o (arrivals template times 0 (wires p (frame_bodies p payload))) c)
unfolding frame_bodies handle_frames
frames_delivered p o payload template times c l (inl (some_bytes, short)) =
    let one : leb (length payload) (single_frame_capacity p) ≡ true = ground arith in
    rw one (
      Delivers-nil o c.pending payload _
        (single_delivered p o payload (times 0) template c l some_bytes short))
frames_delivered p o payload template times c l (inr s) =
    let many : leb (length payload) (single_frame_capacity p) ≡ false = ground (arith, s.long) in
    rw many (multi_frame_delivered p o payload template times c l s)

-- Between two linked connections (the same addressing and frame size, and a receiver that takes any
-- address or the one that the sender writes), for a payload that fits a Single Frame, or is longer
-- than 7 bytes, below 2^31, within the receiver's limit, and above 4095 bytes only on CAN FD: a
-- transmission that reports success has handed over the whole message, so that the receiver, from
-- any state, delivers exactly the payload, once, when it handles the frames that were written, in
-- order. This holds whatever the adapter and the flow control answered on the way.
pub transmit-delivered :
    (p o : IsoTpOptions) (payload : Bytes) (env : Environment) (template : CanFrame) (times : ℕ → ℕ)
    (c : Connection)
    → Linked p o
    → Sendable p o (length payload)
    → (transmit p payload env).outcome ≡ sent
    → Delivers c.pending payload
        (handle_frames o (arrivals template times 0 (written (transmit p payload env).actions)) c)
transmit-delivered p o payload env template times c l h success =
    let s = transmit-Sends p payload env in
    let all : written (transmit p payload env).actions ≡ wires p (frame_bodies p payload) =
      sym (append-nil (written (transmit p payload env).actions))
      ∙ ap (λ t. written (transmit p payload env).actions ++ t) (sym (s.whole success))
      ∙ s.prefix in
    rw all (frames_delivered p o payload template times c l h)
