-- ===== src/Planner.antt =====
-- src/glassrail/planner/planner.py: what makes a plan of a request.
pub mod Rejections
pub mod Payload
pub mod Duplicates
pub mod Repair
pub mod Descriptions
pub mod Attempt
pub mod Validated
