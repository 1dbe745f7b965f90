-- ===== src/IsoTp/RoundTrip/SingleFrame.antt =====
-- packages/transport/iso-tp/src/connection.ts: a payload in a Single Frame.
use yes_you_can.Prelude.{ℕ, ◌≤◌, ◌<◌, ◌≡◌, sym, arith, length, length-append}
use yes_you_can.Bytes.{Bytes}
use yes_you_can.Can.{CanFrame}
use yes_you_can.IsoTp.Options.{IsoTpOptions, padded, fill, with_address, single_frame_capacity}
use yes_you_can.IsoTp.Segment.{single_frame_header, single_frame_body}
use yes_you_can.IsoTp.Connection.{Connection}
use yes_you_can.IsoTp.Receiver.{handle_frame, note_frame}
use yes_you_can.IsoTp.Receiver.Reassembly.{Linked, carrying, same_capacity}
use yes_you_can.IsoTp.Receiver.Message.{Delivers, note_frame_keeps}
use yes_you_can.IsoTp.RoundTrip.Single.{Delivers-single, single_body}
use yes_you_can.IsoTp.RoundTrip.Frame.{handle_frame-sent}

length-single_frame_header : (n : ℕ) → 0 < length (single_frame_header n)
unfolding single_frame_header
length-single_frame_header n = ground arith

length-single_frame_body : (payload : Bytes) → 0 < length (single_frame_body payload)
unfolding single_frame_body
length-single_frame_body payload = omega (
  arith,
  length-append (single_frame_header (length payload)) payload,
  length-single_frame_header (length payload),
)

same_single : (p o : IsoTpOptions) → Linked p o → single_frame_capacity p ≡ single_frame_capacity o
unfolding single_frame_capacity
same_single p o l = rw (same_capacity p o l)

pub single_delivered :
    (p o : IsoTpOptions) (payload : Bytes) (now : ℕ) (template : CanFrame) (c : Connection)
    → Linked p o
    → 0 < length payload
    → length payload ≤ single_frame_capacity p
    → Delivers c.pending payload (
        handle_frame o now
          (carrying template (with_address p (padded p (single_frame_body payload))))
          c)
unfolding note_frame
single_delivered p o payload now template c l h k =
    let frame = carrying template (with_address p (padded p (single_frame_body payload))) in
    rw
      (handle_frame-sent p o now template c (single_frame_body payload) l
        (length-single_frame_body payload))
      (rw
        (single_body o now payload (fill p (single_frame_body payload)) (note_frame now frame c) h
          (omega (arith, same_single p o l)))
        (rw (sym (note_frame_keeps now frame c).1)
          (Delivers-single payload (note_frame now frame c))))
