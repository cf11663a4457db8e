-- ===== src/X86/Switch.antt =====
-- The switch of xair_x86_decode_mode, in src/xair_x86_decode.c: what an opcode reads, and what it
-- decodes to.
use xair.Prelude.{
  ℕ, ◌-◌, ◌≡◌, refl, Bool, true, ◌&&◌, ◌||◌, [], arith, bit_and, ltb, leb, ◌==◌, if◌then◌else◌,
}
use xair.X86.Inst.{Mnemonic, Mode, mode32, mode64}
use xair.X86.Decode.{
  lacks_rex_w, full_imm, decode_mov_imm, decode_rel8, decode_rel32, decode_two_byte,
  is_binary_opcode, decode_switch, decode_opcode,
}
use xair.X86.Reads.{
  Reads, refuse-Reads, if-Reads, if_known-Reads, bind-Reads, read_u8-Reads, read_le32-Reads,
  read_le64-Reads, more-Reads,
}
use xair.X86.Form.{
  is_register, is_immediate, is_jump, is_stack, nops, returns, sets, stacks, jumps,
  decode_reg-IsReg, low_three,
}
use xair.X86.Instruction.{IsInst, finish-Reads, decode_modrm_move_or_lea-Reads}
use xair.X86.Operations.{decode_modrm_binary-Reads, decode_group1_imm-Reads}

full_imm-Reads : (mode : Mode) → Reads (λ v end. Unit {0}) 8 (full_imm mode)
full_imm-Reads mode32 = more-Reads (omega arith) read_le32-Reads
full_imm-Reads mode64 = read_le64-Reads

is_jump-if : (b : Bool) → is_jump (if b then Mnemonic.jz else Mnemonic.jnz) ≡ true
is_jump-if b = ground arith

is_stack-if : (b : Bool) → is_stack (if b then Mnemonic.push else Mnemonic.pop) ≡ true
is_stack-if b = ground arith

module _ (mode : Mode) (opcode : ℕ) where
  decode_mov_imm-Reads :
      (rex : ℕ)
      → leb 0xb8 opcode && leb opcode 0xbf ≡ true
      → Reads (IsInst mode) 10 (decode_mov_imm opcode rex mode)
  unfolding decode_mov_imm
  decode_mov_imm-Reads rex within = if-Reads (lacks_rex_w rex mode) (refuse-Reads opcode 0 10) (
      bind-Reads {n = 0} (omega arith) (full_imm-Reads mode) λ imm _ _.
        finish-Reads mode opcode 0 0 Mnemonic.mov _ (
          sets (is_register (decode_reg-IsReg (opcode - 0xb8) _ mode (ground arith))) is_immediate))

  decode_rel8-Reads :
      (m : Mnemonic) → is_jump m ≡ true → Reads (IsInst mode) 10 (decode_rel8 opcode m)
  unfolding decode_rel8
  decode_rel8-Reads m h =
      bind-Reads {n = 0} (omega arith) read_u8-Reads
        λ rel _ _. finish-Reads mode opcode 0 0 m _ (jumps h is_immediate)

  decode_rel32-Reads :
      (opcode2 : ℕ) (m : Mnemonic)
      → is_jump m ≡ true
      → Reads (IsInst mode) 9 (decode_rel32 opcode opcode2 m)
  unfolding decode_rel32
  decode_rel32-Reads opcode2 m h =
      bind-Reads {n = 0} (omega arith) read_le32-Reads
        λ rel _ _. finish-Reads mode opcode opcode2 0 m _ (jumps h is_immediate)

  decode_two_byte-Reads : Reads (IsInst mode) 10 (decode_two_byte opcode)
  unfolding decode_two_byte
  decode_two_byte-Reads = bind-Reads {n = 9} (omega arith) read_u8-Reads λ opcode2 _ _.
      if-Reads (opcode2 == 0x84 || opcode2 == 0x85)
        (decode_rel32-Reads opcode2 _ (is_jump-if (opcode2 == 0x84)))
        (refuse-Reads opcode opcode2 9)

  decode_switch-Reads : (rex : ℕ) → Reads (IsInst mode) 10 (decode_switch opcode rex mode)
  unfolding decode_switch
  decode_switch-Reads rex =
      if-Reads (opcode == 0x90) (finish-Reads mode opcode 0 10 Mnemonic.nop [] nops) (
        if-Reads (opcode == 0x8b || (opcode == 0x89 || opcode == 0x8d))
          (decode_modrm_move_or_lea-Reads mode opcode rex)
          (if-Reads (is_binary_opcode opcode) (decode_modrm_binary-Reads mode opcode rex) (
            if-Reads (opcode == 0x81 || opcode == 0x83) (decode_group1_imm-Reads mode opcode rex) (
              if-Reads (opcode == 0xeb) (decode_rel8-Reads Mnemonic.jmp refl) (
                if-Reads (opcode == 0xe9)
                  (more-Reads (omega arith) (decode_rel32-Reads 0 Mnemonic.jmp refl))
                  (if-Reads (opcode == 0x74 || opcode == 0x75)
                    (decode_rel8-Reads _ (is_jump-if (opcode == 0x74)))
                    (if-Reads (opcode == 0x0f) decode_two_byte-Reads (
                      if-Reads (opcode == 0xc3)
                        (finish-Reads mode opcode 0 10 Mnemonic.ret [] returns)
                        (refuse-Reads opcode 0 10)))))))))

  pub decode_opcode-Reads : (rex : ℕ) → Reads (IsInst mode) 10 (decode_opcode opcode rex mode)
  unfolding decode_opcode
  decode_opcode-Reads rex =
      if_known-Reads (leb 0xb8 opcode && leb opcode 0xbf) (decode_mov_imm-Reads rex) (
        if-Reads (leb 0x50 opcode && leb opcode 0x5f)
          (finish-Reads mode opcode 0 10 _ _ (
            stacks (is_stack-if (ltb opcode 0x58))
              (is_register (decode_reg-IsReg (bit_and opcode 7) _ mode (low_three opcode)))))
          (decode_switch-Reads rex))
