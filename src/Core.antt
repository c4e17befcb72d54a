-- ===== src/Core.antt =====
-- The domain types of src/glassrail/core: plans, node results and execution states, with the
-- floats and the JSON values that they carry.
mod Floats
mod Values
mod Plans
mod Execution
unfoldable pub use Floats.*
unfoldable pub use Values.*
unfoldable pub use Plans.*
unfoldable pub use Execution.*
