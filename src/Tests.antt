-- ===== src/Tests.antt =====
-- Runs at small inputs: the program's definitions, and its theorems where their hypotheses hold.
pub mod Samples
pub mod Memory
pub mod Checkpoint
pub mod Ledger
pub mod Relay
pub mod Package
pub mod Delivery
pub mod Transcript
pub mod Ingest
pub mod Registry
pub mod Search
pub mod Gateway
pub mod Integrity
