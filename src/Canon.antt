-- ===== src/Canon.antt =====
-- The canonicalizer of src/xair.c.
pub mod Local
pub mod Live
pub mod Compact
pub mod Reach
pub mod Roots
pub mod Swap
pub mod Reorder
pub mod Outcome
pub mod Counts
mod Tests
