-- ===== src/Orchestrator.antt =====
-- The orchestrator of packages/orchestrator/src: what is derived from an observed run.
pub mod Governor
pub mod Observation
pub mod Intents
pub mod Idle
pub mod Observe
pub mod History
pub mod Bouncing
pub mod Checks
pub mod Routes
pub mod Derive
pub mod Router
pub mod Schedule
