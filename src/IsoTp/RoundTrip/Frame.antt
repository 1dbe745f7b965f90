-- ===== src/IsoTp/RoundTrip/Frame.antt =====
-- packages/transport/iso-tp/src/connection.ts: a frame body that one end sends, at the other end.
use yes_you_can.Prelude.{ℕ, ◌<◌, ◌≡◌, [], ◌∷◌, ◌++◌, arith, length}
use yes_you_can.Bytes.{Bytes}
use yes_you_can.Can.{CanFrame}
use yes_you_can.IsoTp.Options.{IsoTpOptions, padded, padded-fill, fill, with_address}
use yes_you_can.IsoTp.Connection.{Connection}
use yes_you_can.IsoTp.Receiver.{handle_frame, handle_body, note_frame}
use yes_you_can.IsoTp.Receiver.Reassembly.{Linked, carrying, handle_frame-carrying}

pub handle_frame-sent :
    (p o : IsoTpOptions) (now : ℕ) (template : CanFrame) (c : Connection) (body : Bytes)
    → Linked p o
    → 0 < length body
    → let frame = carrying template (with_address p (padded p body)) in
      handle_frame o now frame c ≡ handle_body o now (body ++ fill p body) (note_frame now frame c)
handle_frame-sent p o now template c [] l h = absurd (omega arith)
handle_frame-sent p o now template c (b ∷ bs) l h =
    rw (padded-fill p (b ∷ bs))
      (handle_frame-carrying p o now template c b (bs ++ fill p (b ∷ bs)) l)
