-- ===== src/X86/Tests.antt =====
-- Runs of src/xair_x86_decode.c at concrete bytes.
use xair.Prelude.{ℕ, zero, suc, All, replicate, ◌≡◌, ◌≤◌, refl, arith, List, [], ◌∷◌, take, ◌++◌}
use xair.X86.Inst.{Mnemonic, Inst, mode64, register, rip_rel, immediate}
use xair.X86.Reader.{done, short, read_u8, read_le32}
use xair.X86.Operand.{decode_modrm, decode_memory_operand, decode_rm_operand}
use xair.X86.Decode.{
  decode_mov, decode_modrm_move_or_lea, decode_group1_mnemonic, decode_group1_rest,
  decode_group1_imm, decode_switch, decode_opcode, decode_prefixed, decode_mode, decode32, decode64,
}
use xair.X86.Stream.{
  IsDecoded, decode_mode-IsDecoded, decode_mode-take, decode_mode-truncated, decode32-length,
}
use xair.X86.Padding.{nop_at, IsRex, decode64-padded}

-- `mov rax, [rip - 16]` and the byte after it.
abbrev load_bytes : List ℕ
load_bytes = 0x48 ∷ 0x8b ∷ 0x05 ∷ 0xf0 ∷ 0xff ∷ 0xff ∷ 0xff ∷ 0xcc ∷ []

abbrev load_inst : Inst
load_inst = record {
  mnemonic = Mnemonic.mov;
  length' = 7;
  raw_opcode = 0x8b;
  raw_opcode2 = 0;
  operands = register 64 0 ∷ rip_rel 64 0xffff_ffff_ffff_fff0 ∷ [];
}

load_run : decode_mode mode64 load_bytes ≡ done load_inst 7
unfolding decode_mode decode_prefixed decode_opcode decode_switch decode_modrm_move_or_lea
    decode_mov decode_rm_operand decode_memory_operand decode_modrm read_u8 read_le32
load_run = refl

-- `cmp esi, 0x7f`
abbrev compare_bytes : List ℕ
compare_bytes = 0x83 ∷ 0xfe ∷ 0x7f ∷ []

abbrev compare_inst : Inst
compare_inst = record {
  mnemonic = Mnemonic.cmp;
  length' = 3;
  raw_opcode = 0x83;
  raw_opcode2 = 0;
  operands = register 32 6 ∷ immediate 8 0x7f ∷ [];
}

compare_run : decode32 compare_bytes ≡ done compare_inst 3
unfolding decode_mode decode_prefixed decode_opcode decode_switch decode_group1_imm
    decode_group1_rest decode_group1_mnemonic decode_rm_operand decode_modrm read_u8
compare_run = refl

decode_mode-IsDecoded_example : IsDecoded mode64 load_bytes load_inst 7
decode_mode-IsDecoded_example = decode_mode-IsDecoded mode64 load_bytes load_inst 7 load_run

decode_mode-take_example : decode_mode mode64 (take 7 load_bytes ++ 0 ∷ 1 ∷ []) ≡ done load_inst 7
decode_mode-take_example =
    decode_mode-take mode64 load_bytes (take 7 load_bytes ++ 0 ∷ 1 ∷ []) load_inst 7 load_run refl

decode_mode-truncated_example : decode_mode mode64 (take 4 load_bytes) ≡ short
decode_mode-truncated_example =
    decode_mode-truncated mode64 load_bytes load_inst 7 4 load_run (omega arith)

decode32-length_example : (1 ≤ 3) × (3 ≤ 11) × (compare_inst.length' ≡ 3)
decode32-length_example = decode32-length compare_bytes compare_inst 3 compare_run

-- 255 prefixes of two kinds before NOP make an instruction of length 0.
abbrev many : List ℕ
many = 0x40 ∷ replicate 254 0x4f

replicate-IsRex : (n byte : ℕ) → IsRex byte → All IsRex (replicate n byte)
replicate-IsRex zero byte h = tt
replicate-IsRex (suc n) byte h = (h, replicate-IsRex n byte h)

many-IsRex : All IsRex many
many-IsRex = ((omega arith, omega arith), replicate-IsRex 254 0x4f (omega arith, omega arith))

decode64-padded_example : decode64 (many ++ 0x90 ∷ 0xc3 ∷ []) ≡ done (nop_at 256) 256
decode64-padded_example = decode64-padded many (0xc3 ∷ []) many-IsRex
