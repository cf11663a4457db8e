-- ===== src/Module.antt =====
-- The module under construction, of src/xair.c: its arrays, the value numbering table and the
-- operations that build it.
pub mod Data
pub mod Grow
pub mod Capacity
pub mod Numbering
pub mod Build
pub mod Terms
pub mod Freeze
pub mod Metrics
pub mod Frozen
pub mod Sharing
pub mod Outcome
mod Tests
