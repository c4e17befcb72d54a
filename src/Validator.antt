-- ===== src/Validator.antt =====
-- src/glassrail/validator/validator.py: what a plan must pass before it is executed.
pub mod Errors
pub mod Topo
pub mod Contracts
pub mod Nesting
pub mod Validate
pub mod Level
pub mod Accepted
pub mod Total
