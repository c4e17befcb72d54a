-- ===== src/Gateways.antt =====
-- The gateways: what they draw and send of a task.
pub mod Dag
pub mod Acp
