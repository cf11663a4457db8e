-- ===== src/X86/Operations.antt =====
-- The binary operations of src/xair_x86_decode.c: what they read, and what they decode to.
use xair.Prelude.{ℕ, ◌≡◌, Bool, true, false, [], ◌∷◌, arith, ◌==◌, if◌then◌else◌}
use xair.X86.Inst.{Mnemonic, Inst, Mode, Operand, register, rip_rel, base_index, immediate}
use xair.X86.Reader.{Decoder}
use xair.X86.Operand.{ModRm, decode_modrm}
use xair.X86.Decode.{
  lacks_rex_w, decode_binary_mnemonic, decode_reg_dest_opcode, unless_invalid, with_register,
  decode_modrm_binary, decode_group1_mnemonic, group1_imm, decode_group1_rest, decode_group1_imm,
}
use xair.X86.Reads.{
  Reads, give-Reads, refuse-Reads, if-Reads, bind-Reads, read_u8-Reads, read_le32-Reads,
}
use xair.X86.Form.{
  IsRegister, IsRm, by_register, by_memory, IsImmediate, is_immediate, is_binary, Form, combines,
  combines_imm, decode_modrm-IsModRm, decode_rm_operand-Reads,
}
use xair.X86.Instruction.{IsInst, finish-Reads, reg_operand-IsRegister}

is_op : Mnemonic → Bool
is_op Mnemonic.invalid = true
is_op m = is_binary m

decode_binary_mnemonic-is_op : (opcode : ℕ) → is_op (decode_binary_mnemonic opcode) ≡ true
unfolding is_op decode_binary_mnemonic
decode_binary_mnemonic-is_op opcode = ground arith

decode_group1_mnemonic-is_op : (group : ℕ) → is_op (decode_group1_mnemonic group) ≡ true
unfolding is_op decode_group1_mnemonic
decode_group1_mnemonic-is_op group = ground arith

module _ (mode : Mode) (opcode : ℕ) where
  -- An invalid mnemonic is refused, so the operations that go on are binary ones.
  unless_invalid-Reads :
      (m : Mnemonic) (most : ℕ) (next : Decoder Inst)
      → is_op m ≡ true
      → (is_binary m ≡ true → Reads (IsInst mode) most next)
      → Reads (IsInst mode) most (unless_invalid opcode m next)
  unfolding is_op
  unless_invalid-Reads Mnemonic.invalid most next e h = refuse-Reads opcode 0 most
  unless_invalid-Reads _ most next e h = h e

  with_register-Reads :
      (most : ℕ) (operand : Operand) (next : Decoder Inst)
      → IsRm mode operand
      → (IsRegister mode operand → Reads (IsInst mode) most next)
      → Reads (IsInst mode) most (with_register opcode operand next)
  with_register-Reads most (register bits reg) next (by_register h) k = k h
  with_register-Reads most (register bits reg) next (by_memory h) k = elim h [ ]
  with_register-Reads most (rip_rel bits d) next h k = refuse-Reads opcode 0 most
  with_register-Reads most (base_index bits memory) next h k = refuse-Reads opcode 0 most
  with_register-Reads most (immediate bits value) next h k = refuse-Reads opcode 0 most

  if-Form :
      (b : Bool) (m : Mnemonic) (x y : Operand)
      → is_binary m ≡ true
      → IsRegister mode x
      → IsRegister mode y
      → Form mode m (if b then x ∷ y ∷ [] else y ∷ x ∷ [])
  if-Form true m x y e h k = combines e h k
  if-Form false m x y e h k = combines e k h

  pub decode_modrm_binary-Reads :
      (rex : ℕ) → Reads (IsInst mode) 10 (decode_modrm_binary opcode rex mode)
  unfolding decode_modrm_binary
  decode_modrm_binary-Reads rex = if-Reads (lacks_rex_w rex mode) (refuse-Reads opcode 0 10) (
      bind-Reads {n = 9} (omega arith) read_u8-Reads λ byte _ _.
        bind-Reads {n = 4} (omega arith)
          (decode_rm_operand-Reads mode rex (decode_modrm byte) (decode_modrm-IsModRm byte))
          λ rm _ h. with_register-Reads 4 rm _ h λ is_reg.
            unless_invalid-Reads (decode_binary_mnemonic opcode) 4 _
              (decode_binary_mnemonic-is_op opcode)
              λ e. finish-Reads mode opcode 0 4 _ _ (
                if-Form (decode_reg_dest_opcode opcode) _ _ rm e
                  (reg_operand-IsRegister mode (decode_modrm byte).reg rex
                    (decode_modrm-IsModRm byte).0)
                  is_reg))

  group1_imm-Reads : Reads (λ operand end. IsImmediate operand) 4 (group1_imm opcode)
  group1_imm-Reads =
      if-Reads (opcode == 0x83)
        (bind-Reads {n = 0} (omega arith) read_u8-Reads
          λ raw_imm _ _. give-Reads _ 0 λ end. is_immediate)
        (bind-Reads {n = 0} (omega arith) read_le32-Reads
          λ raw_imm _ _. give-Reads _ 0 λ end. is_immediate)

  decode_group1_rest-Reads :
      (modrm : ModRm) (rm : Operand)
      → IsRegister mode rm
      → Reads (IsInst mode) 4 (decode_group1_rest opcode modrm rm)
  unfolding decode_group1_rest
  decode_group1_rest-Reads modrm rm h = bind-Reads {n = 0} (omega arith) group1_imm-Reads λ imm _ k.
      unless_invalid-Reads (decode_group1_mnemonic modrm.reg) 0 _
        (decode_group1_mnemonic-is_op modrm.reg)
        λ e. finish-Reads mode opcode 0 0 _ _ (combines_imm e h k)

  pub decode_group1_imm-Reads :
      (rex : ℕ) → Reads (IsInst mode) 10 (decode_group1_imm opcode rex mode)
  unfolding decode_group1_imm
  decode_group1_imm-Reads rex = if-Reads (lacks_rex_w rex mode) (refuse-Reads opcode 0 10) (
      bind-Reads {n = 9} (omega arith) read_u8-Reads λ byte _ _.
        bind-Reads {n = 4} (omega arith)
          (decode_rm_operand-Reads mode rex (decode_modrm byte) (decode_modrm-IsModRm byte))
          λ rm _ h. with_register-Reads 4 rm _ h (decode_group1_rest-Reads (decode_modrm byte) rm))
