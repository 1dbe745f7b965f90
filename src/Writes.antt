-- ===== src/Writes.antt =====
-- packages/core/src/writes/: the transaction of a write, what an operation is, the port that runs it,
-- and the operations of coding and adaptation.
pub mod Transaction
pub mod Operation
pub mod Port
pub mod Coding
pub mod Adaptation
