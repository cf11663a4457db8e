-- ===== src/X86/Form.antt =====
-- The instructions that src/xair_x86_decode.c decodes have the operands that their mnemonics take, with
-- the registers of the mode.
use xair.Prelude.{
  ℕ, ◌≤◌, ◌<◌, ◌≡◌, refl, Bool, true, false, ◌&&◌, Option, none, some, List, [], ◌∷◌, arith,
  bit_and, ◌/◌, ◌^◌, ◌==◌, if◌then◌else◌,
}
use xair.Prelude.Bits.{bit_and-mask}
use xair.Prelude.Words.{u8, shr}
use xair.X86.Inst.{
  Mnemonic, Mode, mode32, mode64, mode_bits, BaseIndex, Operand, register, rip_rel, base_index,
  immediate,
}
use xair.X86.Operand.{
  ModRm, decode_reg, decode_modrm, decode_displacement, read_disp32, base_index_mem, decode_sib,
  disp32_operand, decode_memory_operand, decode_rm_operand,
}
use xair.X86.Reads.{
  Reads, mono-Reads, give-Reads, short-Reads, if-Reads, bind-Reads, read_u8-Reads, read_le32-Reads,
}

abbrev pub reg_limit : Mode → ℕ
reg_limit mode32 = 8
reg_limit mode64 = 16

abbrev pub IsReg : Mode → ℕ → Type 0
IsReg mode reg = reg < reg_limit mode

abbrev pub IsReg? : Mode → Option ℕ → Type 0
IsReg? mode none = Unit
IsReg? mode (some reg) = IsReg mode reg

pub data IsRegister (mode : Mode) : Operand → Type 0 where
  is_register : {reg : ℕ} → IsReg mode reg → IsRegister mode (register (mode_bits mode) reg)

-- Memory at a register's place: only the 64-bit mode has addresses relative to the instruction.
pub data IsMemory (mode : Mode) : Operand → Type 0 where
  is_rip :
      {displacement : ℕ} → mode ≡ mode64 → IsMemory mode (rip_rel (mode_bits mode) displacement)
  is_base_index :
      {memory : BaseIndex}
      → IsReg? mode memory.base
      → IsReg? mode memory.index
      → 1 ≤ memory.scale
      → IsMemory mode (base_index (mode_bits mode) memory)

pub data IsRm (mode : Mode) : Operand → Type 0 where
  by_register : {operand : Operand} → IsRegister mode operand → IsRm mode operand
  by_memory : {operand : Operand} → IsMemory mode operand → IsRm mode operand

pub data IsImmediate : Operand → Type 0 where
  is_immediate : {bits value : ℕ} → IsImmediate (immediate bits value)

abbrev pub is_binary : Mnemonic → Bool
is_binary Mnemonic.add = true
is_binary Mnemonic.sub = true
is_binary Mnemonic.and = true
is_binary Mnemonic.or = true
is_binary Mnemonic.xor = true
is_binary Mnemonic.cmp = true
is_binary Mnemonic.test = true
is_binary _ = false

abbrev pub is_jump : Mnemonic → Bool
is_jump Mnemonic.jmp = true
is_jump Mnemonic.jz = true
is_jump Mnemonic.jnz = true
is_jump _ = false

abbrev pub is_stack : Mnemonic → Bool
is_stack Mnemonic.push = true
is_stack Mnemonic.pop = true
is_stack _ = false

pub data Form (mode : Mode) : Mnemonic → List Operand → Type 0 where
  nops : Form mode Mnemonic.nop []
  returns : Form mode Mnemonic.ret []
  loads : {a b : Operand} → IsRegister mode a → IsRm mode b → Form mode Mnemonic.mov (a ∷ b ∷ [])
  stores : {a b : Operand} → IsRm mode a → IsRegister mode b → Form mode Mnemonic.mov (a ∷ b ∷ [])
  sets : {a b : Operand} → IsRegister mode a → IsImmediate b → Form mode Mnemonic.mov (a ∷ b ∷ [])
  computes_address :
      {a b : Operand} → IsRegister mode a → IsMemory mode b → Form mode Mnemonic.lea (a ∷ b ∷ [])
  combines :
      {m : Mnemonic} {a b : Operand}
      → is_binary m ≡ true
      → IsRegister mode a
      → IsRegister mode b
      → Form mode m (a ∷ b ∷ [])
  combines_imm :
      {m : Mnemonic} {a b : Operand}
      → is_binary m ≡ true
      → IsRegister mode a
      → IsImmediate b
      → Form mode m (a ∷ b ∷ [])
  stacks :
      {m : Mnemonic} {a : Operand} → is_stack m ≡ true → IsRegister mode a → Form mode m (a ∷ [])
  jumps : {m : Mnemonic} {a : Operand} → is_jump m ≡ true → IsImmediate a → Form mode m (a ∷ [])

pub decode_reg-IsReg :
    (field rex_bit : ℕ) (mode : Mode) → field < 8 → IsReg mode (decode_reg field rex_bit mode)
decode_reg-IsReg field rex_bit mode32 h = ground arith
decode_reg-IsReg field rex_bit mode64 h = ground arith

pub low_three : (byte : ℕ) → bit_and byte 7 < 8
low_three byte = omega (arith, bit_and-mask 3 byte)

abbrev pub IsModRm : ModRm → Type 0
IsModRm modrm = (modrm.reg < 8) × (modrm.rm < 8)

pub decode_modrm-IsModRm : (byte : ℕ) → IsModRm (decode_modrm byte)
unfolding decode_modrm
decode_modrm-IsModRm byte = (low_three (byte / 2 ^ 3), low_three byte)

decode_displacement-Reads : (mod' : ℕ) → Reads (λ v end. Unit {0}) 4 (decode_displacement mod')
unfolding decode_displacement
decode_displacement-Reads mod' =
    if-Reads (mod' == 1)
      (bind-Reads {n = 0} (omega arith) read_u8-Reads λ v _ _. give-Reads _ 0 λ end. tt)
      (if-Reads (mod' == 2)
        (bind-Reads {n = 0} (omega arith) read_le32-Reads λ v _ _. give-Reads _ 0 λ end. tt)
        (give-Reads 0 4 λ end. tt))

read_disp32-Reads : Reads (λ v end. Unit {0}) 4 read_disp32
read_disp32-Reads =
    bind-Reads {n = 0} (omega arith) read_le32-Reads λ v _ _. give-Reads _ 0 λ end. tt

if-IsReg? :
    (b : Bool) (mode : Mode) (reg : ℕ) → IsReg mode reg → IsReg? mode (if b then none else some reg)
if-IsReg? true mode reg h = tt
if-IsReg? false mode reg h = h

base_index_mem-IsMemory :
    (mode : Mode) (base index : Option ℕ) (scale displacement : ℕ)
    → IsReg? mode base
    → IsReg? mode index
    → IsMemory mode (base_index_mem (mode_bits mode) base index scale displacement)
base_index_mem-IsMemory mode base index scale displacement b i = is_base_index b i (ground arith)

module _ (mode : Mode) (rex : ℕ) where
  decode_sib-Reads :
      (mod' : ℕ)
      → Reads (λ operand end. IsMemory mode operand) 5 (decode_sib mod' rex mode (mode_bits mode))
  unfolding decode_sib
  decode_sib-Reads mod' = bind-Reads {n = 4} (omega arith) read_u8-Reads λ sib _ _.
      bind-Reads {n = 0} (omega arith)
        (if-Reads (mod' == 0 && bit_and sib 7 == 5) read_disp32-Reads
          (decode_displacement-Reads mod'))
        λ displacement _ _. give-Reads _ 0 λ end.
          base_index_mem-IsMemory mode _ _ (u8 (2 ^ u8 (shr sib 6))) displacement
            (if-IsReg? _ mode _ (decode_reg-IsReg (bit_and sib 7) _ mode (low_three sib)))
            (if-IsReg? _ mode _ (decode_reg-IsReg _ _ mode (low_three (sib / 2 ^ 3))))

  disp32_operand-IsMemory :
      (displacement : ℕ) → IsMemory mode (disp32_operand mode (mode_bits mode) displacement)
  disp32_operand-IsMemory displacement = go mode
    where
      go : (mode : Mode) → IsMemory mode (disp32_operand mode (mode_bits mode) displacement)
      go mode32 = base_index_mem-IsMemory mode32 none none 1 displacement tt tt
      go mode64 = is_rip refl

  pub decode_memory_operand-Reads :
      (modrm : ModRm)
      → IsModRm modrm
      → Reads
          (λ operand end. IsMemory mode operand)
          5
          (decode_memory_operand modrm rex mode (mode_bits mode))
  unfolding decode_memory_operand
  decode_memory_operand-Reads modrm (_, small) = if-Reads (modrm.mod' == 3) (short-Reads 5) (
      if-Reads (modrm.rm == 4) (decode_sib-Reads modrm.mod') (
        if-Reads (modrm.mod' == 0 && modrm.rm == 5)
          (bind-Reads {n = 0} (omega arith) read_disp32-Reads
            λ displacement _ _. give-Reads _ 0 λ end. disp32_operand-IsMemory displacement)
          (bind-Reads {n = 0} (omega arith) (decode_displacement-Reads modrm.mod')
            λ displacement _ _. give-Reads _ 0 λ end.
              base_index_mem-IsMemory mode _ none 1 displacement
                (decode_reg-IsReg modrm.rm _ mode small) tt)))

  pub decode_rm_operand-Reads :
      (modrm : ModRm)
      → IsModRm modrm
      → Reads
          (λ operand end. IsRm mode operand)
          5
          (decode_rm_operand modrm rex mode (mode_bits mode))
  unfolding decode_rm_operand
  decode_rm_operand-Reads modrm small =
      if-Reads (modrm.mod' == 3)
        (give-Reads _ 5 λ end. by_register (is_register (decode_reg-IsReg modrm.rm _ mode small.1)))
        (mono-Reads (λ operand end h. by_memory h) (decode_memory_operand-Reads modrm small))
