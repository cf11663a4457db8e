-- ===== src/Binary.antt =====
-- src/xair_binary.c: PE and ELF files to segments, and reads from them.
pub mod Bytes
pub mod View
pub mod Pe
pub mod Elf
pub mod Load
pub mod Safety
pub mod Lookup
mod Tests
