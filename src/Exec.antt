-- ===== src/Exec.antt =====
-- The scalar arithmetic, the constant folder and the concrete executor of src/xair.c.
pub mod Scalar
pub mod Flags
pub mod Fold
pub mod State
pub mod Memory
pub mod Op
pub mod Run
pub mod Keeps
pub mod Resume
pub mod Agree
pub mod FlagBits
pub mod Bytes
pub mod Slices
mod Tests
mod AgreeTests
