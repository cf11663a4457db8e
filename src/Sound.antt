-- ===== src/Sound.antt =====
-- The executor of src/xair.c on modules that xair_verify_module accepts.
pub mod Errors
pub mod State
pub mod Memory
pub mod Shape
pub mod Operation
pub mod Store
pub mod Step
pub mod Verified
pub mod Block
pub mod Transfer
pub mod Run
pub mod Start
mod Tests
