-- ===== src/IsoTp/RoundTrip/Lost.antt =====
-- packages/transport/iso-tp/src/connection.ts: the payload that the sender segments and the receiver
-- does not take.
use yes_you_can.Prelude.{ℕ, ◌<◌, ◌≡◌, refl, ap, ◌∙◌, false, [], ◌∷◌, ◌++◌, arith, leb, length, take}
use yes_you_can.Bytes.{Bytes}
use yes_you_can.Can.{CanFrame}
use yes_you_can.IsoTp.Options.{
  IsoTpOptions, padded, fill, with_address, frame_payload_capacity, single_frame_capacity,
}
use yes_you_can.IsoTp.Segment.{first_frame_header, first_frame_body, first_chunk_length, segments}
use yes_you_can.IsoTp.Connection.{Connection}
use yes_you_can.IsoTp.Sender.Prefix.{frame_bodies}
use yes_you_can.IsoTp.Receiver.{
  handle_frame, handle_body, handle_first, first_declared, ff_length_rejected, note_frame,
}
use yes_you_can.IsoTp.Receiver.Reassembly.{Linked, carrying}
use yes_you_can.IsoTp.RoundTrip.Frame.{handle_frame-sent}

seven_rejected :
    (o : IsoTpOptions) (now : ℕ) (chunk : Bytes) (c : Connection)
    → handle_body o now (0x10 ∷ 7 ∷ chunk) c ≡ (c, [])
unfolding handle_body handle_first first_declared ff_length_rejected
seven_rejected o now chunk c = refl

-- The First Frame of 7 bytes announces 7 bytes.
first_frame_body_seven :
    (capacity : ℕ) (payload : Bytes)
    → length payload ≡ 7
    → first_frame_body capacity payload
      ≡ 0x10 ∷ 7 ∷ take (first_chunk_length capacity (length payload)) payload
unfolding first_frame_body first_frame_header
first_frame_body_seven capacity payload h =
    ap (λ n. first_frame_header n ++ take (first_chunk_length capacity (length payload)) payload) h

-- On classic CAN with extended addressing a payload of 7 bytes does not fit a Single Frame, so the
-- sender segments it; but the receiver at the other end drops its First Frame: no Flow Control,
-- no reception, only the witness and the frame counter change.
pub seven_bytes_dropped :
    (p o : IsoTpOptions) (payload : Bytes) (now : ℕ) (template : CanFrame) (c : Connection)
    → Linked p o
    → frame_payload_capacity p ≡ 7
    → length payload ≡ 7
    → let first = first_frame_body (frame_payload_capacity p) payload in
      let frame = carrying template (with_address p (padded p first)) in
      (frame_bodies p payload ≡ segments (frame_payload_capacity p) payload)
      × (handle_frame o now frame c ≡ (note_frame now frame c, []))
unfolding frame_bodies single_frame_capacity
seven_bytes_dropped p o payload now template c l e h =
    let first = first_frame_body (frame_payload_capacity p) payload in
    let frame = carrying template (with_address p (padded p first)) in
    let shape = first_frame_body_seven (frame_payload_capacity p) payload h in
    let some_bytes : 0 < length first = rw shape (omega arith) in
    let many : leb (length payload) (single_frame_capacity p) ≡ false = ground arith in
    (
      rw many refl,
      handle_frame-sent p o now template c first l some_bytes
          ∙ ap (λ b. handle_body o now (b ++ fill p first) (note_frame now frame c)) shape
          ∙ seven_rejected o now
              (take (first_chunk_length (frame_payload_capacity p) (length payload)) payload
                ++ fill p first)
              (note_frame now frame c),
    )
