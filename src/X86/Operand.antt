-- ===== src/X86/Operand.antt =====
-- ModRM bytes, displacements and operands, of src/xair_x86_decode.c.
use xair.Prelude.{
  ℕ, ◌+◌, ◌^◌, Bool, true, false, ◌&&◌, not, Option, none, some, bit_and, ◌==◌, if◌then◌else◌,
}
use xair.Prelude.Words.{shr, u8}
use xair.X86.Inst.{Mode, mode32, mode64, Operand, register, rip_rel, base_index}
use xair.X86.Reader.{short, Decoder, ◌>>=◌, give, read_u8, read_le32, sign_extend8, sign_extend32}

abbrev pub is_mode64 : Mode → Bool
is_mode64 mode32 = false
is_mode64 mode64 = true

-- `rex_bit` is a masked REX prefix.
abbrev pub decode_reg : (field rex_bit : ℕ) → Mode → ℕ
decode_reg field rex_bit mode = field + (if is_mode64 mode && not (rex_bit == 0) then 8 else 0)

pub record ModRm : Type 0 where
  pub mod' : ℕ
  pub reg : ℕ
  pub rm : ℕ

unfoldable pub decode_modrm : ℕ → ModRm
decode_modrm byte = record {
  mod' = u8 (shr byte 6);
  reg = bit_and (shr byte 3) 7;
  rm = bit_and byte 7;
}

unfoldable pub decode_displacement : (mod' : ℕ) → Decoder ℕ
decode_displacement mod' =
    if mod' == 1
    then (do disp8 ← read_u8; give (sign_extend8 disp8))
    else if mod' == 2
    then (do disp32 ← read_le32; give (sign_extend32 disp32))
    else give 0

abbrev pub read_disp32 : Decoder ℕ
read_disp32 = do disp32 ← read_le32; give (sign_extend32 disp32)

-- The operand that decode_set_base_index_mem writes.
abbrev pub base_index_mem :
    (bits : ℕ) → (base index : Option ℕ) → (scale displacement : ℕ) → Operand
base_index_mem bits base index scale displacement = base_index bits (record {
  base = base;
  index = index;
  scale = if scale == 0 then 1 else scale;
  displacement = displacement;
})

-- The scale-index-base byte and what follows it.
unfoldable pub decode_sib : (mod' rex : ℕ) → Mode → (operand_bits : ℕ) → Decoder Operand
decode_sib mod' rex mode operand_bits = do
  sib ← read_u8
  let scale = u8 (2 ^ u8 (shr sib 6))
  let index_field = bit_and (shr sib 3) 7
  let base_field = bit_and sib 7
  let index =
      if index_field == 4 && bit_and rex 2 == 0
      then none
      else some (decode_reg index_field (bit_and rex 2) mode)
  let absent = mod' == 0 && base_field == 5
  displacement ← if absent then read_disp32 else decode_displacement mod'
  give (
      base_index_mem operand_bits
        (if absent then none else some (decode_reg base_field (bit_and rex 1) mode)) index scale
        displacement)

abbrev pub disp32_operand : Mode → (operand_bits displacement : ℕ) → Operand
disp32_operand mode64 operand_bits displacement = rip_rel operand_bits displacement
disp32_operand mode32 operand_bits displacement =
    base_index_mem operand_bits none none 1 displacement

-- Every failure inside is XAIR_ERR_RANGE, as the callers return it.
unfoldable pub decode_memory_operand :
    ModRm → (rex : ℕ) → Mode → (operand_bits : ℕ) → Decoder Operand
decode_memory_operand modrm rex mode operand_bits =
    if modrm.mod' == 3
    then (λ bytes offset. short)
    else if modrm.rm == 4
    then decode_sib modrm.mod' rex mode operand_bits
    else if modrm.mod' == 0 && modrm.rm == 5
    then (do displacement ← read_disp32; give (disp32_operand mode operand_bits displacement))
    else do
      displacement ← decode_displacement modrm.mod'
      give (
          base_index_mem operand_bits (some (decode_reg modrm.rm (bit_and rex 1) mode)) none 1
            displacement)

unfoldable pub decode_rm_operand : ModRm → (rex : ℕ) → Mode → (operand_bits : ℕ) → Decoder Operand
decode_rm_operand modrm rex mode operand_bits =
    if modrm.mod' == 3
    then give (register operand_bits (decode_reg modrm.rm (bit_and rex 1) mode))
    else decode_memory_operand modrm rex mode operand_bits
