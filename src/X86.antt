-- ===== src/X86.antt =====
-- The x86 decoder of src/xair_x86_decode.c.
pub mod Inst
pub mod Reader
pub mod Operand
pub mod Decode
pub mod Reads
pub mod Form
pub mod Instruction
pub mod Operations
pub mod Switch
pub mod Prefixes
pub mod Stream
pub mod Padding
mod Tests
