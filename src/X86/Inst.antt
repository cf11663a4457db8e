-- ===== src/X86/Inst.antt =====
-- Decoded instructions, of src/xair_x86_decode.h. A register is its number in xair_x86_reg, a byte or a
-- displacement is its bit pattern, and `int64_t` values are 64-bit patterns in two's complement.
use xair.Prelude.{ℕ, Option, List}

pub data Mnemonic : Type 0 where
  invalid nop mov add sub and or xor : Mnemonic
  cmp test lea push pop jmp jz jnz ret : Mnemonic

-- Kind XAIR_X86_MEM_BASE_INDEX: `base` is absent where `has_base` is 0, and `index` where
-- `has_index` is.
pub record BaseIndex : Type 0 where
  pub base : Option ℕ
  pub index : Option ℕ
  pub scale : ℕ
  pub displacement : ℕ

pub data Operand : Type 0 where
  register : (bits reg : ℕ) → Operand
  rip_rel : (bits displacement : ℕ) → Operand
  base_index : (bits : ℕ) → BaseIndex → Operand
  immediate : (bits value : ℕ) → Operand

-- `operands` holds the first `operand_count`.
pub record Inst : Type 0 where
  pub mnemonic : Mnemonic
  pub length' : ℕ
  pub raw_opcode : ℕ
  pub raw_opcode2 : ℕ
  pub operands : List Operand

-- The two modes, and `mode_bits`.
pub data Mode : Type 0 where
  mode32 mode64 : Mode

abbrev pub mode_bits : Mode → ℕ
mode_bits mode32 = 32
mode_bits mode64 = 64
