-- ===== src/Executor/Orchestrator.antt =====
-- src/glassrail/executor/orchestrator.py: a task from its request to its end.
pub mod World
pub mod Planning
pub mod Handlers
pub mod Execution
pub mod Kept
pub mod Attempts
pub mod Handled
pub mod Endings
pub mod Gate
