-- ===== src/Ir.antt =====
-- Types, opcodes and constants of include/xair/xair.h and src/xair.c.
pub mod Types
pub mod Opcode
