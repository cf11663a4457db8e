-- ===== src/Sound/Operation.antt =====
-- An operation of a verified module in the executor of src/xair.c: its result is defined, or it stops, or
-- it fails for a reason that verification cannot rule out.
use xair.Prelude.{
  ℕ, ◌/◌, ◌%◌, ◌≡◌, refl, Bool, true, false, ◌||◌, not, arith, ltb, ◌==◌, get_elem?, some,
}
use xair.Status.{Error, oom, bad_arg, range, unsupported, Result, ret, err, ◌>>=◌, reject_if}
use xair.Ir.Types.{IrType}
use xair.Ir.Opcode.{Opcode, opcode_equal}
use xair.Module.Data.{OpRec, valid_value}
use xair.Exec.Fold.{type_at, second_src, scalar64}
use xair.Exec.State.{ExecValue, ExecState, exec_value_make, exec_define_value, exec_read_value}
use xair.Exec.Memory.{exec_range_wraps, exec_load_u64}
use xair.Exec.Op.{
  Status, or_keep, binary_result, unary_result, exec_binary_op, exec_unary_op, exec_load,
  exec_byte_sized_scalar,
}
use xair.Sound.Errors.{fails_in, is_unsupported, access_error}
use xair.Sound.Memory.{load_u64-fails}
use xair.Sound.State.{Defined, Typed, Extends, Defines, defines, define-Defines}

abbrev pub is_access : Opcode → Bool
is_access opcode = opcode_equal opcode Opcode.load || opcode_equal opcode Opcode.store

-- The operation is one of the module's, and reads or writes memory.
pub record IsAccessOf (s : ExecState) (op : OpRec) : Type 0 where
  pub index : ℕ
  pub is_op : get_elem? s.module'.ops.items index ≡ some op
  pub accesses : is_access op.opcode ≡ true

-- The errors that verification leaves, in the state that they leave: memory is short, a range is
-- exceeded, or the bytes of an access wrap around the end of the address space.
pub data Failure (s : ExecState) : Error → Type 0 where
  no_memory : Failure s oom
  out_of_range : Failure s range
  wraps :
      (op : OpRec) (address : ExecValue) (size : ℕ)
      → IsAccessOf s op
      → exec_read_value s (second_src op) ≡ ret address
      → ltb 8 size ≡ false
      → exec_range_wraps address.lo size ≡ true
      → Failure s bad_arg

pub data Step (op : OpRec) (s : ExecState) : Status → Type 0 where
  steps : {s' : ExecState} → Typed s' → Extends s s' → Defined s' op.dst → Step op s (ret tt, s')
  stops : {s' : ExecState} → Typed s' → Step op s (err unsupported, s')
  fails : {s' : ExecState} {e : Error} → Typed s' → Failure s' e → Step op s (err e, s')

unary_result-fails :
    (opcode : Opcode) (out src : IrType) (lo : ℕ)
    → fails_in is_unsupported (unary_result opcode out src lo) ≡ true
unfolding unary_result
unary_result-fails Opcode.zext out src lo = ground arith
unary_result-fails Opcode.trunc out src lo = ground arith
unary_result-fails Opcode.sext out src lo = ground arith
unary_result-fails Opcode.int_to_addr out src lo = ground arith
unary_result-fails Opcode.addr_to_int out src lo = ground arith
unary_result-fails Opcode.flags_logic out src lo = ground arith
unary_result-fails _ out src lo = refl

binary_result-fails :
    (opcode : Opcode) (out l r : IrType) (lhs rhs : ℕ)
    → fails_in is_unsupported (binary_result opcode out l r lhs rhs) ≡ true
unfolding binary_result
binary_result-fails Opcode.shl out l r lhs rhs = ground arith
binary_result-fails Opcode.lshr out l r lhs rhs = ground arith
binary_result-fails Opcode.ashr out l r lhs rhs = ground arith
binary_result-fails Opcode.concat out l r lhs rhs = ground arith
binary_result-fails Opcode.flags_add out l r lhs rhs = ground arith
binary_result-fails Opcode.flags_sub out l r lhs rhs = ground arith
binary_result-fails Opcode.flags_shl out l r lhs rhs = ground arith
binary_result-fails _ out l r lhs rhs = refl

-- The size of a scalar that memory holds is at most eight.
pub data IsSized : Result ℕ → Type 0 where
  sized : {size : ℕ} → ltb 8 size ≡ false → IsSized (ret size)
  unsized : IsSized (err unsupported)

pub byte_size-IsSized : (type : IrType) → IsSized (exec_byte_sized_scalar type)
unfolding exec_byte_sized_scalar
byte_size-IsSized type =
    go (not (scalar64 type) || (type.bits == 1 || not (type.bits % 8 == 0))) refl
  where
    go :
        (b : Bool)
        → (not (scalar64 type) || (type.bits == 1 || not (type.bits % 8 == 0))) ≡ b
        → IsSized (reject_if b unsupported >>= λ _. ret (type.bits / 8))
    go true e = unsized
    go false e = sized (ground arith)

module _ (s : ExecState) (op : OpRec) (t : Typed s)
    (valid : valid_value s.module' op.dst ≡ true) where
  -- The definition of the result of the destination's type.
  pub define-Step :
      (result : ℕ)
      → Step op s (
          or_keep s
            (exec_define_value s op.dst (exec_value_make (type_at s.module' op.dst) result 0)))
  unfolding exec_value_make
  define-Step result = go _ (define-Defines s op.dst _ t valid refl)
    where
      go : (r : Result ExecState) → Defines s op.dst r → Step op s (or_keep s r)
      go (ret s') (defines t' e d) = steps t' e d
      go (err e) d = elim d [ ]

  after-Step :
      (allowed : Error → Bool) (r : Result ℕ)
      → fails_in allowed r ≡ true
      → ((e : Error) → allowed e ≡ true → Step op s (err e, s))
      → Step op s (
          or_keep s (
            r >>= λ result.
            exec_define_value s op.dst (exec_value_make (type_at s.module' op.dst) result 0)))
  after-Step allowed (ret result) h k = define-Step result
  after-Step allowed (err e) h k = k e h

  unsupported-Step : (e : Error) → is_unsupported e ≡ true → Step op s (err e, s)
  unsupported-Step unsupported h = stops t
  unsupported-Step _ h = cc

  pub unary-Step :
      (src : ExecValue) → Step op s (or_keep s (exec_unary_op s op (type_at s.module' op.dst) src))
  unfolding exec_unary_op
  unary-Step src =
      after-Step is_unsupported _
        (unary_result-fails op.opcode (type_at s.module' op.dst) src.type src.lo) unsupported-Step

  reject-Step :
      (b : Bool) (r : Result ExecState)
      → Step op s (or_keep s r)
      → Step op s (or_keep s (reject_if b unsupported >>= λ _. r))
  reject-Step true r h = stops t
  reject-Step false r h = h

  pub binary-Step :
      (lhs rhs : ExecValue)
      → Step op s (or_keep s (exec_binary_op s op (type_at s.module' op.dst) lhs rhs))
  unfolding exec_binary_op
  binary-Step lhs rhs = reject-Step (not (scalar64 lhs.type) || ltb 64 rhs.type.bits) _ (
      after-Step is_unsupported _
        (binary_result-fails op.opcode (type_at s.module' op.dst) lhs.type rhs.type _ _)
        unsupported-Step)

  -- A failed access of a size, at the address of the second source.
  module _ (address : ExecValue) (access : IsAccessOf s op) (size : ℕ)
      (small : ltb 8 size ≡ false) where
    access-Failure :
        exec_read_value s (second_src op) ≡ ret address
        → (e : Error) → access_error (exec_range_wraps address.lo size) e ≡ true
        → Failure s e
    access-Failure h oom k = no_memory
    access-Failure h range k = out_of_range
    access-Failure h bad_arg k = wraps op address size access h small k
    access-Failure h _ k = cc

  pub load-Step :
      (memory address : ExecValue)
      → IsAccessOf s op
      → exec_read_value s (second_src op) ≡ ret address
      → Step op s (or_keep s (exec_load s op (type_at s.module' op.dst) memory address))
  unfolding exec_load
  load-Step memory address access h =
      go (exec_byte_sized_scalar (type_at s.module' op.dst))
        (byte_size-IsSized (type_at s.module' op.dst))
    where
      go :
          (r : Result ℕ)
          → IsSized r
          → Step op s (
              or_keep s (
                r >>= λ size.
                exec_load_u64 s memory.type.aux address.lo size op.endian >>= λ loaded.
                exec_define_value s op.dst (exec_value_make (type_at s.module' op.dst) loaded 0)))
      go (ret size) (sized small) =
          after-Step (access_error (exec_range_wraps address.lo size)) _
            (load_u64-fails s memory.type.aux address.lo size op.endian small)
            λ e k. fails t (access-Failure address access size small h e k)
      go (err e) unsized = stops t
