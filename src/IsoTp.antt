-- ===== src/IsoTp.antt =====
-- packages/transport/iso-tp/src: the ISO 15765-2 connection. `Params` is params.ts; the other
-- children are the parts of connection.ts.
pub mod Params
pub mod Options
pub mod Errors
pub mod Segment
pub mod Sender
pub mod Connection
pub mod Receiver
pub mod Request
pub mod Slot
pub mod Ring
pub mod RoundTrip
