-- ===== src/Executor.antt =====
-- src/glassrail/executor: how a validated plan is run.
pub mod Plans
pub mod Recording
pub mod Scheduler
pub mod Retries
pub mod Approval
pub mod Tools
pub mod Streamer
pub mod Orchestrator
pub mod Context
pub mod Subplans
pub mod Once
pub mod Dispatch
