-- ===== src/Exec/Agree/Constants.antt =====
-- The constants of src/xair.c as const_u64_value sees them and as exec_read_value does, and the
-- executor's step at an operation with constant operands.
use xair.Prelude.{
  ℕ, ◌≡◌, refl, sym, Bool, true, false, ◌&&◌, ◌||◌, not, Option, none, some, arith, bit_and, ltb,
  ◌==◌, ◌<◌, length, get_elem?, lt_of_get_elem?, replicate, length-replicate, get_elem?-replicate,
}
use xair.Status.{ret}
use xair.Ir.Types.{is_int, is_addr}
use xair.Ir.Opcode.{Opcode, opcode_equal}
use xair.Module.Data.{Module, ValueRec, OpRec, count}
use xair.Module.Grow.{Host}
use xair.Exec.Scalar.{mask_for_bits, truncate_to_type, truncate_twice, truncate_masked}
use xair.Exec.Fold.{
  ◌>>=◌, ◌>>◌, need, type_at, first_src, second_src, op_of, scalar64, const_u64_value,
  fold_to_const,
}
use xair.Exec.State.{
  ExecValue, ExecState, exec_value_make, exec_define_value, exec_read_value, new_state, has_slot,
  defined_or_const,
}
use xair.Exec.Op.{
  Status, or_keep, binary_result, unary_result, exec_binary_op, exec_unary_op, exec_op,
}

-- Whatever the folder takes for a constant reads as that constant.
abbrev pub ConstantsHold : ExecState → Type 0
ConstantsHold s =
    (v c : ℕ)
    → const_u64_value s.module' v ≡ some c
    → exec_read_value s v ≡ ret (record { type = type_at s.module' v; lo = c; hi = 0 })

pub need-inv :
    {B : Type 0} (b : Bool) (k : Option B) {v : B}
    → (need b >> k) ≡ some v
    → (b ≡ true) × (k ≡ some v)
need-inv true k h = (refl, h)
need-inv false k h = cc

pub >>=-eq-some :
    {A B : Type 0} (o : Option A) (k : A → Option B) {v : B}
    → (o >>= k) ≡ some v
    → (a : A) × (o ≡ some a) × (k a ≡ some v)
>>=-eq-some none k h = cc
>>=-eq-some (some a) k h = (a, refl, h)

pub const-scalar :
    (m : Module) (v c : ℕ) → const_u64_value m v ≡ some c → scalar64 (type_at m v) ≡ true
unfolding const_u64_value
const-scalar m v c h = (need-inv (scalar64 (type_at m v)) _ h).0

pub const-masked :
    (m : Module) (v c : ℕ)
    → const_u64_value m v ≡ some c
    → bit_and c (mask_for_bits (type_at m v).bits) ≡ c
unfolding const_u64_value
const-masked m v c h =
    let (scalar, h1) = need-inv (scalar64 (type_at m v)) _ h in
    let (op, _, h2) = >>=-eq-some (op_of m v) _ h1 in
    let (_, h3) = need-inv (opcode_equal op.opcode Opcode.const_u64) _ h2 in
    let e : truncate_to_type op.imm (type_at m v) ≡ c = cc in
    let f : (is_int (type_at m v) || is_addr (type_at m v)) ≡ true = ground arith in
    rw (sym e) (truncate_masked op.imm (type_at m v) f)

-- What a step leaves that computes `value`.
abbrev pub defines : ExecState → OpRec → (value : ℕ) → Status
defines s op value =
    or_keep s (exec_define_value s op.dst (exec_value_make (type_at s.module' op.dst) value 0))

pub folded-defines :
    (host : Host) (s : ExecState) (op : OpRec) (value : ℕ)
    → exec_op host s (fold_to_const op value (type_at s.module' op.dst)) ≡ defines s op value
unfolding exec_op fold_to_const exec_value_make
folded-defines host s op value = rw (truncate_twice value (type_at s.module' op.dst)) refl

-- An operation that is none of the three with a case of their own.
abbrev pub plain : Opcode → Bool
plain opcode =
    not (opcode_equal opcode Opcode.const_u64)
    && not (opcode_equal opcode Opcode.load || opcode_equal opcode Opcode.store)

-- A value that is not defined reads as its constant.
read-constant :
    (m : Module) (v c : ℕ) (slot : Option (Option ExecValue))
    → const_u64_value m v ≡ some c
    → slot ≡ some none
    → defined_or_const m v slot ≡ ret (record { type = type_at m v; lo = c; hi = 0 })
unfolding const_u64_value op_of exec_value_make
read-constant m v c slot h undefined = ground arith

const-value :
    (m : Module) (v c : ℕ)
    → const_u64_value m v ≡ some c
    → (rec : ValueRec) × (get_elem? m.values.items v ≡ some rec)
unfolding const_u64_value op_of
const-value m v c h =
    let (_, h1) = need-inv (scalar64 (type_at m v)) _ h in
    let (op, at, _) = >>=-eq-some (op_of m v) _ h1 in
    let (rec, e, _) = >>=-eq-some (get_elem? m.values.items v) _ at in (rec, e)

-- In a state that xair_exec_state_create has just made, for any module, a value that the folder takes
-- for a constant reads as that constant at the value's type.
pub new_state-reads_constant :
    (m : Module) (v c : ℕ)
    → const_u64_value m v ≡ some c
    → exec_read_value (new_state m) v ≡ ret (record { type = type_at m v; lo = c; hi = 0 })
unfolding exec_read_value
new_state-reads_constant m v c h =
    let (rec, at) = const-value m v c h in
    let inside : v < count m.values = lt_of_get_elem? m.values.items v at in
    let undefined : Option ExecValue = none in
    let slots : length (replicate (count m.values) undefined) ≡ count m.values =
      length-replicate (count m.values) undefined in
    let slot : has_slot (new_state m) v ≡ true = rw slots (ground arith) in
    rw slot (
      read-constant m v c (get_elem? (replicate (count m.values) none) v) h
        (get_elem?-replicate (count m.values) v undefined inside))

module _ (host : Host) (s : ExecState) (op : OpRec) (holds : ConstantsHold s)
    (is_plain : plain op.opcode ≡ true) where
  abbrev m : Module
  m = s.module'

  pub binary-defines :
      (lhs rhs value : ℕ)
      → (length op.src == 2) ≡ true
      → const_u64_value m (first_src op) ≡ some lhs
      → const_u64_value m (second_src op) ≡ some rhs
      → binary_result op.opcode
          (type_at m op.dst)
          (type_at m (first_src op))
          (type_at m (second_src op))
          lhs
          rhs
        ≡ ret value
      → exec_op host s op ≡ defines s op value
  unfolding exec_op exec_binary_op
  binary-defines lhs rhs value two l r h =
      let a : opcode_equal op.opcode Opcode.const_u64 ≡ false = ground arith in
      let b : (opcode_equal op.opcode Opcode.load || opcode_equal op.opcode Opcode.store) ≡ false =
        ground arith in
      let c : (length op.src == 1) ≡ false = ground arith in
      let scalar : scalar64 (type_at m (first_src op)) ≡ true =
        const-scalar m (first_src op) lhs l in
      let scalar' : scalar64 (type_at m (second_src op)) ≡ true =
        const-scalar m (second_src op) rhs r in
      let narrow : ltb 64 (type_at m (second_src op)).bits ≡ false = ground arith in
      rw
        (
          a,
          b,
          c,
          two,
          holds (first_src op) lhs l,
          holds (second_src op) rhs r,
          scalar,
          narrow,
          const-masked m (first_src op) lhs l,
          const-masked m (second_src op) rhs r,
          h,
        )
        refl

  pub unary-defines :
      (lhs value : ℕ)
      → (length op.src == 1) ≡ true
      → const_u64_value m (first_src op) ≡ some lhs
      → unary_result op.opcode (type_at m op.dst) (type_at m (first_src op)) lhs ≡ ret value
      → exec_op host s op ≡ defines s op value
  unfolding exec_op exec_unary_op
  unary-defines lhs value one l h =
      let a : opcode_equal op.opcode Opcode.const_u64 ≡ false = ground arith in
      let b : (opcode_equal op.opcode Opcode.load || opcode_equal op.opcode Opcode.store) ≡ false =
        ground arith in
      rw (a, b, one, holds (first_src op) lhs l, h) refl
