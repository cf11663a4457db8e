-- ===== src/Exec/Agree.antt =====
-- An operation that fold_constant_op of src/xair.c folds, and the constant it is replaced by, in the
-- executor. The state is one where the folder's constants read as such, and where the flags that it sums
-- up have been computed.
pub mod Constants
pub mod Groups
pub mod Flags
use xair.Prelude.{
  ℕ, ◌≡◌, refl, sym, ap, ◌∙◌, Bool, true, false, ◌&&◌, ◌||◌, not, Option, none, some, List, [], ◌∷◌,
  arith, bit_and, bit_or, ltb, leb, ◌==◌, length, get_elem?, if◌then◌else◌,
}
use xair.Status.{Error, verify, Result, ret, err, reject_if}
use xair.Prelude.Words.{size_max, shl64, shr, add64, sub64}
use xair.Ir.Types.{IrType, TypeKind, is_int, is_addr, type_equal, is_value_type, type_is_valid}
use xair.Ir.Opcode
use xair.Ir.Opcode.{Opcode, opcode_equal}
use xair.Module.Data.{Module, OpRec}
use xair.Module.Grow.{Host}
use xair.Exec.Fold.{
  type_at, first_src, second_src, scalar64, FoldGroup, fold_group, fold_value, fold_constant_op,
  fold_arith, fold_shift, fold_compare, fold_to_const,
}
use xair.Exec.State.{ExecState}
use xair.Exec.Op.{Status, binary_result, unary_result, exec_op, exec_shift_right_signed}
use xair.Verify.{
  binary_types_fit, unary_types_fit, verify_binary_op, verify_unary_op, verify_memory_op,
  verify_sources, with_sources, verify_op,
}
use Constants.{ConstantsHold, need-inv, >>=-eq-some, defines, folded-defines, plain}
use Flags.{FlagsHold, flag-Agrees}
use Groups.{
  verified, verified-binary, verified-unary, Agrees, arith-Agrees, address-Agrees, shift-Agrees,
  compare-Agrees, concat-Agrees, extend-Agrees, convert-Agrees,
}

abbrev pub is_flag_group : FoldGroup → Bool
is_flag_group FoldGroup.flag = true
is_flag_group _ = false

int_wide : (type : IrType) → is_value_type type ≡ true → is_int type ≡ true → ltb 0 type.bits ≡ true
unfolding is_value_type type_is_valid
int_wide type valid int = ground arith

module _ (host : Host) (s : ExecState) (op0 : OpRec) (holds : ConstantsHold s)
    (flags : FlagsHold s) where
  abbrev with_opcode : Opcode → OpRec
  with_opcode o = record op0 { opcode = o }

  abbrev At : Opcode → Type 0
  At o =
      verify_sources s.module' (with_opcode o) o ≡ ret tt
      → is_value_type (type_at s.module' (first_src op0)) ≡ true
      → Agrees host s (with_opcode o) holds (fold_group o)

  arith-At :
      (o : Opcode)
      → plain o ≡ true
      → with_sources s.module' (with_opcode o) 2 (verify_binary_op s.module' (with_opcode o))
        ≡ ret tt
      → ((lhs rhs : ℕ)
          → (out l r : IrType) → binary_result o out l r lhs rhs ≡ ret (fold_arith o lhs rhs))
      → Agrees host s (with_opcode o) holds FoldGroup.arithmetic
  arith-At o p h computes =
      arith-Agrees host s (with_opcode o) holds p (verified-binary s.module' (with_opcode o) h).0
        λ lhs rhs. computes lhs rhs _ _ _

  -- The other groups of two operands, and those of one.
  abbrev fits_two : Opcode → Bool
  fits_two o =
      binary_types_fit o (type_at s.module' op0.dst) (type_at s.module' (first_src op0))
        (type_at s.module' (second_src op0))

  two-At :
      (o : Opcode) (group : FoldGroup)
      → ((length op0.src == 2) ≡ true
          → fits_two o ≡ true
          → Agrees host s (with_opcode o) holds group)
      → with_sources s.module' (with_opcode o) 2 (verify_binary_op s.module' (with_opcode o))
        ≡ ret tt
      → Agrees host s (with_opcode o) holds group
  two-At o group next h =
      let (two, fits) = verified-binary s.module' (with_opcode o) h in next two fits

  one-At :
      (o : Opcode) (group : FoldGroup)
      → ((length op0.src == 1) ≡ true → Agrees host s (with_opcode o) holds group)
      → with_sources s.module' (with_opcode o) 1 (verify_unary_op s.module' (with_opcode o))
        ≡ ret tt
      → Agrees host s (with_opcode o) holds group
  one-At o group next h = next (verified-unary s.module' (with_opcode o) h).0

  shift-At :
      (o : Opcode)
      → plain o ≡ true
      → (fits_two o ≡ true
          → type_equal (type_at s.module' op0.dst) (type_at s.module' (first_src op0)) ≡ true)
      → ((out l r : IrType) (lhs rhs : ℕ)
          → ltb rhs l.bits ≡ true
          → binary_result o out l r lhs rhs ≡ ret (fold_shift o lhs rhs l.bits))
      → with_sources s.module' (with_opcode o) 2 (verify_binary_op s.module' (with_opcode o))
        ≡ ret tt
      → Agrees host s (with_opcode o) holds FoldGroup.shift
  shift-At o p same computes =
      two-At o FoldGroup.shift
        λ two fits. shift-Agrees host s (with_opcode o) holds p two (same fits) (computes _ _ _)

  compare-At :
      (o : Opcode)
      → plain o ≡ true
      → (fits_two o ≡ true
          → type_equal (type_at s.module' (first_src op0)) (type_at s.module' (second_src op0))
            ≡ true)
      → ((out l r : IrType) (lhs rhs : ℕ)
          → binary_result o out l r lhs rhs ≡ ret (fold_compare o lhs rhs l.bits))
      → with_sources s.module' (with_opcode o) 2 (verify_binary_op s.module' (with_opcode o))
        ≡ ret tt
      → Agrees host s (with_opcode o) holds FoldGroup.compare
  compare-At o p same computes =
      two-At o FoldGroup.compare
        λ two fits. compare-Agrees host s (with_opcode o) holds p two (same fits) (computes _ _ _)

  flag-At :
      (o : Opcode)
      → plain o ≡ true
      → with_sources s.module' (with_opcode o) 1 (verify_unary_op s.module' (with_opcode o))
        ≡ ret tt
      → Agrees host s (with_opcode o) holds FoldGroup.flag
  flag-At o p h = one-At o FoldGroup.flag (λ one. flag-Agrees host s (with_opcode o) flags p one) h

  agrees-At : (o : Opcode) → At o
  unfolding verify_sources binary_result unary_result fold_arith fold_shift fold_compare
      binary_types_fit fold_value exec_shift_right_signed
  agrees-At Opcode.add h valid = arith-At Opcode.add refl h λ lhs rhs out l r. refl
  agrees-At Opcode.sub h valid = arith-At Opcode.sub refl h λ lhs rhs out l r. refl
  agrees-At Opcode.mul h valid = arith-At Opcode.mul refl h λ lhs rhs out l r. refl
  agrees-At Opcode.and h valid = arith-At Opcode.and refl h λ lhs rhs out l r. refl
  agrees-At Opcode.or h valid = arith-At Opcode.or refl h λ lhs rhs out l r. refl
  agrees-At Opcode.xor h valid = arith-At Opcode.xor refl h λ lhs rhs out l r. refl
  agrees-At Opcode.shl h valid =
      shift-At Opcode.shl refl (λ fits. ground arith) (λ out l r lhs rhs below. ground arith) h
  agrees-At Opcode.lshr h valid =
      shift-At Opcode.lshr refl (λ fits. ground arith) (λ out l r lhs rhs below. ground arith) h
  agrees-At Opcode.ashr h valid =
      shift-At Opcode.ashr refl (λ fits. ground arith) (λ out l r lhs rhs below. ground arith) h
  agrees-At Opcode.eq h valid =
      compare-At Opcode.eq refl (λ fits. ground arith) (λ out l r lhs rhs. refl) h
  agrees-At Opcode.ne h valid =
      compare-At Opcode.ne refl (λ fits. ground arith) (λ out l r lhs rhs. refl) h
  agrees-At Opcode.ult h valid =
      compare-At Opcode.ult refl (λ fits. ground arith) (λ out l r lhs rhs. refl) h
  agrees-At Opcode.ule h valid =
      compare-At Opcode.ule refl (λ fits. ground arith) (λ out l r lhs rhs. refl) h
  agrees-At Opcode.slt h valid =
      compare-At Opcode.slt refl (λ fits. ground arith) (λ out l r lhs rhs. refl) h
  agrees-At Opcode.sle h valid =
      compare-At Opcode.sle refl (λ fits. ground arith) (λ out l r lhs rhs. refl) h
  agrees-At Opcode.zext h valid =
      one-At Opcode.zext FoldGroup.extend
        (λ one.
          extend-Agrees host s (with_opcode Opcode.zext) holds refl one λ lhs a b. rw (a, b) refl)
        h
  agrees-At Opcode.sext h valid =
      one-At Opcode.sext FoldGroup.extend
        (λ one.
          extend-Agrees host s (with_opcode Opcode.sext) holds refl one λ lhs a b. rw (a, b) refl)
        h
  agrees-At Opcode.trunc h valid =
      one-At Opcode.trunc FoldGroup.extend
        (λ one.
          extend-Agrees host s (with_opcode Opcode.trunc) holds refl one λ lhs a b. rw (a, b) refl)
        h
  agrees-At Opcode.int_to_addr h valid =
      one-At Opcode.int_to_addr FoldGroup.convert
        (λ one.
          convert-Agrees host s (with_opcode Opcode.int_to_addr) holds refl one
            λ lhs a b. rw (a, b) refl)
        h
  agrees-At Opcode.addr_to_int h valid =
      one-At Opcode.addr_to_int FoldGroup.convert
        (λ one.
          convert-Agrees host s (with_opcode Opcode.addr_to_int) holds refl one
            λ lhs a b. rw (a, b) refl)
        h
  agrees-At Opcode.concat h valid =
      two-At Opcode.concat FoldGroup.concatenate
        (λ two fits.
          concat-Agrees host s (with_opcode Opcode.concat) holds refl two fits
            (int_wide (type_at s.module' (first_src op0)) valid (ground arith)))
        h
  agrees-At Opcode.addr_add h valid =
      two-At Opcode.addr_add FoldGroup.address
        (λ two fits.
          address-Agrees host s (with_opcode Opcode.addr_add) holds refl two λ lhs rhs. refl)
        h
  agrees-At Opcode.addr_sub h valid =
      two-At Opcode.addr_sub FoldGroup.address
        (λ two fits.
          address-Agrees host s (with_opcode Opcode.addr_sub) holds refl two λ lhs rhs. refl)
        h
  agrees-At Opcode.flag_zf h valid = flag-At Opcode.flag_zf refl h
  agrees-At Opcode.flag_cf h valid = flag-At Opcode.flag_cf refl h
  agrees-At Opcode.flag_of h valid = flag-At Opcode.flag_of refl h
  agrees-At Opcode.flag_sf h valid = flag-At Opcode.flag_sf refl h
  agrees-At Opcode.flag_pf h valid = flag-At Opcode.flag_pf refl h
  agrees-At Opcode.flag_af h valid = flag-At Opcode.flag_af refl h
  agrees-At _ h valid = λ v e. absurd (cc)

-- An operation, the extraction of a flag included, which verify_op accepts and whose first source has a
-- type of values, in a state where what the folder takes for a constant reads as that constant, and flags
-- that the folder sums up read as the packed flags of their operation and operands: where fold_constant_op
-- replaces the operation by a constant, the executor's step at the constant has the same status and leaves
-- the same state as its step at the operation.
pub fold_constant_op-exec_op :
    (host : Host) (s : ExecState) (op folded : OpRec)
    → ConstantsHold s
    → FlagsHold s
    → verify_op s.module' op ≡ ret tt
    → is_value_type (type_at s.module' (first_src op)) ≡ true
    → fold_constant_op s.module' op ≡ some folded
    → exec_op host s op ≡ exec_op host s folded
unfolding fold_constant_op
fold_constant_op-exec_op host s op folded holds flags ok valid h =
    let (v, e, f) = >>=-eq-some (fold_value s.module' op (fold_group op.opcode)) _ h in
    let g : fold_to_const op v (type_at s.module' op.dst) ≡ folded = cc in
    agrees-At host s op holds flags op.opcode (verified s.module' op ok) valid v e
    ∙ sym (folded-defines host s op v)
    ∙ ap (exec_op host s) g
