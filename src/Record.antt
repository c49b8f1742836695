-- ===== src/Record.antt =====
-- The record layer of packages/core/src/record: a run's state, its tables and its decisions.
pub mod Phases
pub mod Raw
pub mod State
pub mod Ledger
pub mod Artifact
pub mod Packet
pub mod Decision
