-- ===== src/Uds.antt =====
-- packages/protocols/uds/src/: the numbers of UDS, the timing that a client reads, and the server of a
-- virtual ECU.
pub mod Codes
pub mod Server
pub mod Timing
