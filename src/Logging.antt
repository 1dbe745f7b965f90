-- ===== src/Logging.antt =====
-- packages/core/src/logging/: the witness of a raw trace.
pub mod Integrity
