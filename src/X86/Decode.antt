-- ===== src/X86/Decode.antt =====
-- xair_x86_decode_mode of src/xair_x86_decode.c, with the functions for each form of instruction.
use xair.Prelude.{
  ℕ, zero, suc, ◌+◌, ◌-◌, Bool, true, false, ◌&&◌, ◌||◌, List, [], ◌∷◌, bit_and, ltb, leb, ◌==◌,
  length, if◌then◌else◌,
}
use xair.Prelude.Words.{u8}
use xair.X86.Inst.{
  Mnemonic, Inst, Mode, mode32, mode64, mode_bits, Operand, register, rip_rel, base_index,
  immediate,
}
use xair.X86.Reader.{
  Outcome, done, short, bad_arg, Decoder, ◌>>=◌, and_decode, give, refuse, read_u8, read_le32,
  read_le64, sign_extend8, sign_extend32,
}
use xair.X86.Operand.{
  ModRm, is_mode64, decode_reg, decode_modrm, decode_memory_operand, decode_rm_operand,
}

-- The instruction ends at the offset, which its length keeps modulo 256.
abbrev pub finish : (opcode opcode2 : ℕ) → Mnemonic → List Operand → Decoder Inst
finish opcode opcode2 mnemonic operands bytes offset =
    done
      (record {
        mnemonic = mnemonic;
        length' = u8 offset;
        raw_opcode = opcode;
        raw_opcode2 = opcode2;
        operands = operands;
      })
      offset

-- `mode_bits == 64u && (rex & 8u) == 0`
abbrev pub lacks_rex_w : (rex : ℕ) → Mode → Bool
lacks_rex_w rex mode = is_mode64 mode && bit_and rex 8 == 0

abbrev pub reg_operand : (field rex : ℕ) → Mode → Operand
reg_operand field rex mode = register (mode_bits mode) (decode_reg field (bit_and rex 4) mode)

unfoldable pub decode_lea : (opcode rex : ℕ) → Mode → ModRm → Decoder Inst
decode_lea opcode rex mode modrm = if modrm.mod' == 3 then refuse opcode 0 else do
  rm ← decode_memory_operand modrm rex mode (mode_bits mode)
  finish opcode 0 Mnemonic.lea (reg_operand modrm.reg rex mode ∷ rm ∷ [])

unfoldable pub decode_mov : (opcode rex : ℕ) → Mode → ModRm → Decoder Inst
decode_mov opcode rex mode modrm = do
  rm ← decode_rm_operand modrm rex mode (mode_bits mode)
  let reg = reg_operand modrm.reg rex mode
  finish opcode 0 Mnemonic.mov (if opcode == 0x8b then reg ∷ rm ∷ [] else rm ∷ reg ∷ [])

unfoldable pub decode_modrm_move_or_lea : (opcode rex : ℕ) → Mode → Decoder Inst
decode_modrm_move_or_lea opcode rex mode = if lacks_rex_w rex mode then refuse opcode 0 else do
  byte ← read_u8
  let modrm = decode_modrm byte
  if opcode == 0x8d then decode_lea opcode rex mode modrm else decode_mov opcode rex mode modrm

unfoldable pub decode_binary_mnemonic : ℕ → Mnemonic
decode_binary_mnemonic opcode =
    if opcode == 0x01 || opcode == 0x03
    then Mnemonic.add
    else if opcode == 0x09 || opcode == 0x0b
    then Mnemonic.or
    else if opcode == 0x21 || opcode == 0x23
    then Mnemonic.and
    else if opcode == 0x29 || opcode == 0x2b
    then Mnemonic.sub
    else if opcode == 0x31 || opcode == 0x33
    then Mnemonic.xor
    else if opcode == 0x39 || opcode == 0x3b
    then Mnemonic.cmp
    else if opcode == 0x85
    then Mnemonic.test
    else Mnemonic.invalid

unfoldable pub decode_reg_dest_opcode : ℕ → Bool
decode_reg_dest_opcode opcode =
    opcode == 0x03
    || (opcode == 0x0b
        || (opcode == 0x23 || (opcode == 0x2b || (opcode == 0x33 || opcode == 0x3b))))

-- `inst->mnemonic == XAIR_X86_MNEMONIC_INVALID`, and then decode_unsupported.
abbrev pub unless_invalid : (opcode : ℕ) → Mnemonic → Decoder Inst → Decoder Inst
unless_invalid opcode Mnemonic.invalid next = refuse opcode 0
unless_invalid opcode _ next = next

-- The register form goes on; another operand is not supported.
abbrev pub with_register : (opcode : ℕ) → Operand → Decoder Inst → Decoder Inst
with_register opcode (register bits reg) next = next
with_register opcode (rip_rel bits displacement) next = refuse opcode 0
with_register opcode (base_index bits memory) next = refuse opcode 0
with_register opcode (immediate bits value) next = refuse opcode 0

abbrev pub binary_operands : (opcode : ℕ) → (reg rm : Operand) → List Operand
binary_operands opcode reg rm =
    if decode_reg_dest_opcode opcode then reg ∷ rm ∷ [] else rm ∷ reg ∷ []

unfoldable pub decode_modrm_binary : (opcode rex : ℕ) → Mode → Decoder Inst
decode_modrm_binary opcode rex mode = if lacks_rex_w rex mode then refuse opcode 0 else do
  byte ← read_u8
  let modrm = decode_modrm byte
  rm ← decode_rm_operand modrm rex mode (mode_bits mode)
  with_register opcode rm (
      unless_invalid opcode (decode_binary_mnemonic opcode) (
        finish opcode 0 (decode_binary_mnemonic opcode)
          (binary_operands opcode (reg_operand modrm.reg rex mode) rm)))

unfoldable pub decode_group1_mnemonic : ℕ → Mnemonic
decode_group1_mnemonic group =
    if group == 0
    then Mnemonic.add
    else if group == 1
    then Mnemonic.or
    else if group == 4
    then Mnemonic.and
    else if group == 5
    then Mnemonic.sub
    else if group == 6
    then Mnemonic.xor
    else if group == 7
    then Mnemonic.cmp
    else Mnemonic.invalid

-- The immediate of the group: one byte for 0x83, four for 0x81.
abbrev pub group1_imm : (opcode : ℕ) → Decoder Operand
group1_imm opcode =
    if opcode == 0x83
    then (do raw_imm ← read_u8; give (immediate 8 (sign_extend8 raw_imm)))
    else do raw_imm ← read_le32; give (immediate 32 (sign_extend32 raw_imm))

unfoldable pub decode_group1_rest : (opcode : ℕ) → ModRm → (rm : Operand) → Decoder Inst
decode_group1_rest opcode modrm rm = do
  imm ← group1_imm opcode
  unless_invalid opcode (decode_group1_mnemonic modrm.reg)
      (finish opcode 0 (decode_group1_mnemonic modrm.reg) (rm ∷ imm ∷ []))

unfoldable pub decode_group1_imm : (opcode rex : ℕ) → Mode → Decoder Inst
decode_group1_imm opcode rex mode = if lacks_rex_w rex mode then refuse opcode 0 else do
  byte ← read_u8
  let modrm = decode_modrm byte
  rm ← decode_rm_operand modrm rex mode (mode_bits mode)
  with_register opcode rm (decode_group1_rest opcode modrm rm)

abbrev pub full_imm : Mode → Decoder ℕ
full_imm mode64 = read_le64
full_imm mode32 = read_le32

unfoldable pub decode_mov_imm : (opcode rex : ℕ) → Mode → Decoder Inst
decode_mov_imm opcode rex mode = if lacks_rex_w rex mode then refuse opcode 0 else do
  imm ← full_imm mode
  finish opcode 0 Mnemonic.mov (
      register (mode_bits mode) (decode_reg (opcode - 0xb8) (bit_and rex 1) mode)
      ∷ immediate (mode_bits mode) imm
      ∷ [])

unfoldable pub decode_rel8 : (opcode : ℕ) → Mnemonic → Decoder Inst
decode_rel8 opcode mnemonic = do
  rel ← read_u8
  finish opcode 0 mnemonic (immediate 8 (sign_extend8 rel) ∷ [])

unfoldable pub decode_rel32 : (opcode opcode2 : ℕ) → Mnemonic → Decoder Inst
decode_rel32 opcode opcode2 mnemonic = do
  rel ← read_le32
  finish opcode opcode2 mnemonic (immediate 32 (sign_extend32 rel) ∷ [])

-- The opcodes behind the byte 0x0f.
unfoldable pub decode_two_byte : (opcode : ℕ) → Decoder Inst
decode_two_byte opcode = do
  opcode2 ← read_u8
  if opcode2 == 0x84 || opcode2 == 0x85
      then decode_rel32 opcode opcode2 (if opcode2 == 0x84 then Mnemonic.jz else Mnemonic.jnz)
      else refuse opcode opcode2

-- The case labels of decode_modrm_binary.
abbrev pub is_binary_opcode : ℕ → Bool
is_binary_opcode opcode =
    (opcode == 0x01 || (opcode == 0x03 || (opcode == 0x09 || opcode == 0x0b)))
    || ((opcode == 0x21 || (opcode == 0x23 || (opcode == 0x29 || opcode == 0x2b)))
        || ((opcode == 0x31 || (opcode == 0x33 || (opcode == 0x39 || opcode == 0x3b)))
            || opcode == 0x85))

-- The switch.
unfoldable pub decode_switch : (opcode rex : ℕ) → Mode → Decoder Inst
decode_switch opcode rex mode =
    if opcode == 0x90
    then finish opcode 0 Mnemonic.nop []
    else if opcode == 0x8b || (opcode == 0x89 || opcode == 0x8d)
    then decode_modrm_move_or_lea opcode rex mode
    else if is_binary_opcode opcode
    then decode_modrm_binary opcode rex mode
    else if opcode == 0x81 || opcode == 0x83
    then decode_group1_imm opcode rex mode
    else if opcode == 0xeb
    then decode_rel8 opcode Mnemonic.jmp
    else if opcode == 0xe9
    then decode_rel32 opcode 0 Mnemonic.jmp
    else if opcode == 0x74 || opcode == 0x75
    then decode_rel8 opcode (if opcode == 0x74 then Mnemonic.jz else Mnemonic.jnz)
    else if opcode == 0x0f
    then decode_two_byte opcode
    else if opcode == 0xc3
    then finish opcode 0 Mnemonic.ret []
    else refuse opcode 0

unfoldable pub decode_opcode : (opcode rex : ℕ) → Mode → Decoder Inst
decode_opcode opcode rex mode =
    if leb 0xb8 opcode && leb opcode 0xbf
    then decode_mov_imm opcode rex mode
    else if leb 0x50 opcode && leb opcode 0x5f
    then finish opcode 0 (if ltb opcode 0x58 then Mnemonic.push else Mnemonic.pop)
        (register (mode_bits mode) (decode_reg (bit_and opcode 7) (bit_and rex 1) mode) ∷ [])
    else decode_switch opcode rex mode

abbrev pub is_rex : Mode → ℕ → Bool
is_rex mode opcode = is_mode64 mode && (leb 0x40 opcode && leb opcode 0x4f)

-- The loop over REX prefixes, the last of which counts. Each round takes a byte, so one round more
-- than there are bytes is enough.
unfoldable pub decode_prefixed : (fuel : ℕ) → Mode → (rex : ℕ) → Decoder Inst
decode_prefixed zero mode rex bytes offset = short
decode_prefixed (suc fuel) mode rex bytes offset = and_decode bytes (read_u8 bytes offset) λ opcode.
    elim (is_rex mode opcode) [
      | true ↦ decode_prefixed fuel mode opcode
      | false ↦ decode_opcode opcode rex mode
    ]

unfoldable pub decode_mode : Mode → List ℕ → Outcome Inst
decode_mode mode bytes =
    if length bytes == 0 then bad_arg else decode_prefixed (length bytes + 1) mode 0 bytes 0

abbrev pub decode32 : List ℕ → Outcome Inst
decode32 bytes = decode_mode mode32 bytes

abbrev pub decode64 : List ℕ → Outcome Inst
decode64 bytes = decode_mode mode64 bytes
