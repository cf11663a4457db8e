-- ===== src/X86/Instruction.antt =====
-- Each form of instruction of src/xair_x86_decode.c: what it reads, and what it decodes to.
use xair.Prelude.{
  ℕ, ◌<◌, ◌≡◌, Bool, true, false, List, [], ◌∷◌, arith, ◌==◌, if◌then◌else◌, ap, ◌∙◌, sym, subst,
}
use xair.Prelude.Words.{u8}
use xair.X86.Inst.{Mnemonic, Inst, Mode, Operand}
use xair.X86.Reader.{Outcome, done}
use xair.X86.Operand.{ModRm, decode_modrm}
use xair.X86.Decode.{
  finish, lacks_rex_w, reg_operand, decode_lea, decode_mov, decode_modrm_move_or_lea,
}
use xair.X86.Reads.{Reads, refuse-Reads, if-Reads, bind-Reads, read_u8-Reads, end_of}
use xair.X86.Form.{
  IsRegister, is_register, IsRm, Form, loads, stores, computes_address, decode_reg-IsReg, IsModRm,
  decode_modrm-IsModRm, decode_memory_operand-Reads, decode_rm_operand-Reads,
}

-- What a decoded instruction is, where it ends at `end`.
pub record IsInst (mode : Mode) (inst : Inst) (end : ℕ) : Type 0 where
  pub ends : inst.length' ≡ u8 end
  pub form : Form mode inst.mnemonic inst.operands

inst_of : Outcome Inst → Inst
inst_of (done inst end) = inst
inst_of _ = record {
  mnemonic = Mnemonic.invalid;
  length' = 0;
  raw_opcode = 0;
  raw_opcode2 = 0;
  operands = [];
}

module _ (mode : Mode) where
  pub finish-Reads :
      (opcode opcode2 most : ℕ) (m : Mnemonic) (operands : List Operand)
      → Form mode m operands
      → Reads (IsInst mode) most (finish opcode opcode2 m operands)
  unfolding inst_of
  finish-Reads opcode opcode2 most m operands f = record {
    run = λ bytes offset inst end e.
        let stay : offset ≡ end = ap end_of e in
        let made = ap inst_of e in
        record {
          holds = record {
            ends = sym (ap (λ i. i.length') made) ∙ ap u8 stay;
            form = subst (λ i. Form mode i.mnemonic i.operands) made f;
          };
          forward = omega arith;
          bounded = omega arith;
          inside = λ k. omega arith;
          local = λ bytes' agree. e;
          cut = λ bytes' agree start ends. absurd (omega arith);
        };
  }

  pub reg_operand-IsRegister :
      (field rex : ℕ) → field < 8 → IsRegister mode (reg_operand field rex mode)
  reg_operand-IsRegister field rex h = is_register (decode_reg-IsReg field _ mode h)

  decode_lea-Reads :
      (opcode rex : ℕ) (modrm : ModRm)
      → IsModRm modrm
      → Reads (IsInst mode) 5 (decode_lea opcode rex mode modrm)
  unfolding decode_lea
  decode_lea-Reads opcode rex modrm small = if-Reads (modrm.mod' == 3) (refuse-Reads opcode 0 5) (
      bind-Reads {n = 0} (omega arith) (decode_memory_operand-Reads mode rex modrm small) λ rm _ h.
        finish-Reads opcode 0 0 Mnemonic.lea _
          (computes_address (reg_operand-IsRegister modrm.reg rex small.0) h))

  mov-Form :
      (b : Bool) (reg rm : Operand)
      → IsRegister mode reg
      → IsRm mode rm
      → Form mode Mnemonic.mov (if b then reg ∷ rm ∷ [] else rm ∷ reg ∷ [])
  mov-Form true reg rm h k = loads h k
  mov-Form false reg rm h k = stores k h

  decode_mov-Reads :
      (opcode rex : ℕ) (modrm : ModRm)
      → IsModRm modrm
      → Reads (IsInst mode) 5 (decode_mov opcode rex mode modrm)
  unfolding decode_mov
  decode_mov-Reads opcode rex modrm small =
      bind-Reads {n = 0} (omega arith) (decode_rm_operand-Reads mode rex modrm small) λ rm _ h.
        finish-Reads opcode 0 0 Mnemonic.mov _
          (mov-Form (opcode == 0x8b) _ rm (reg_operand-IsRegister modrm.reg rex small.0) h)

  pub decode_modrm_move_or_lea-Reads :
      (opcode rex : ℕ) → Reads (IsInst mode) 10 (decode_modrm_move_or_lea opcode rex mode)
  unfolding decode_modrm_move_or_lea
  decode_modrm_move_or_lea-Reads opcode rex =
      if-Reads (lacks_rex_w rex mode) (refuse-Reads opcode 0 10) (
        bind-Reads {n = 5} (omega arith) read_u8-Reads λ byte _ _.
          let small = decode_modrm-IsModRm byte in
          if-Reads (opcode == 0x8d) (decode_lea-Reads opcode rex (decode_modrm byte) small)
            (decode_mov-Reads opcode rex (decode_modrm byte) small))
