-- ===== src/Canon/Reorder.antt =====
-- canonicalize_local_ops of src/xair.c may exchange the operands of a commutative operation: the executor
-- does the same at either.
use xair.Prelude.{
  ℕ, ◌≡◌, refl, sym, ap, ◌∙◌, Bool, true, false, ◌||◌, not, Option, none, some, List, [], ◌∷◌,
  arith, length, get_elem?, leb, ◌==◌, bit_and, if◌then◌else◌,
}
use xair.Status.{Error, bad_arg, verify, Result, ret, err, reject_if, reject_if-eq-ret}
use xair.Ir.Types.{IrType, is_value_type, type_equal, eq_of_type_equal}
use xair.Ir.Opcode.{Opcode, opcode_equal, op_is_commutative}
use xair.Module.Data.{Module, ValueRec, OpRec, count, invalid_id}
use xair.Module.Grow.{Host}
use xair.Exec.Scalar.{mask_for_bits}
use xair.Exec.Fold.{type_at, type_or_void, first_src, second_src, second_of}
use xair.Exec.State.{
  ExecValue, ExecState, exec_value_make, has_slot, exec_read_value, defined_or_const, global_const,
  const_of,
}
use xair.Exec.Op.{Status, or_keep, with_read, exec_binary_op, exec_op}
use xair.Verify.{verify_op, verify_sources, verify_binary_op, binary_types_fit, with_sources}
use xair.Sound.State.{Typed}
use xair.Sound.Shape.{with_sources-eq}
use xair.Sound.Errors.{fails_in}
use xair.Canon.Local.{swapped}
use xair.Canon.Swap.{binary_result_comm}

abbrev is_bad_arg : Error → Bool
is_bad_arg bad_arg = true
is_bad_arg _ = false

-- A read fails as a bad argument alone.
read-fails : (s : ExecState) (v : ℕ) → fails_in is_bad_arg (exec_read_value s v) ≡ true
unfolding exec_read_value
read-fails s v = ground arith

then-eq : (b : Bool) {y x : ExecValue} → (if b then ret y else err bad_arg) ≡ ret x → y ≡ x
then-eq true h = let same : ret _ ≡ ret _ = h in cc
then-eq false h = cc

else-eq :
    (b : Bool) (r : Result ExecValue) {x : ExecValue}
    → (if b then err bad_arg else r) ≡ ret x
    → r ≡ ret x
else-eq true r h = cc
else-eq false r h = h

const-type :
    (m : Module) (r : ValueRec) (o : Option OpRec) {x : ExecValue}
    → const_of m r o ≡ ret x
    → x.type ≡ r.type
unfolding exec_value_make
const-type m r none h = cc
const-type m r (some op) h =
    ap (λ y. y.type) (sym (then-eq (opcode_equal op.opcode Opcode.const_u64) h))

global-type :
    (m : Module) (o : Option ValueRec) {x : ExecValue}
    → global_const m o ≡ ret x
    → x.type ≡ type_or_void o
global-type m none h = cc
global-type m (some r) h =
    const-type m r (get_elem? m.ops.items r.op)
      (else-eq (r.op == invalid_id) (const_of m r (get_elem? m.ops.items r.op)) h)

-- What is read has the value's type.
read-type :
    (s : ExecState) (v : ℕ) (x : ExecValue)
    → Typed s
    → exec_read_value s v ≡ ret x
    → x.type ≡ type_at s.module' v
unfolding exec_read_value
read-type s v x t h =
    let (e, k) =
      reject_if-eq-ret (not (has_slot s v)) bad_arg
        (defined_or_const s.module' v (get_elem? s.values v)) h in
    go (get_elem? s.values v) refl k
  where
    go :
        (o : Option (Option ExecValue))
        → get_elem? s.values v ≡ o
        → defined_or_const s.module' v o ≡ ret x
        → x.type ≡ type_at s.module' v
    go (some (some y)) e k =
        t.types v x (e ∙ (let same : y ≡ x = cc in ap (λ z. some (some z)) same))
    go (some none) e k = global-type s.module' (get_elem? s.module'.values.items v) k
    go none e k = global-type s.module' (get_elem? s.module'.values.items v) k

binary-swap :
    (s : ExecState) (op : OpRec) (out : IrType) (lhs rhs : ExecValue)
    → op_is_commutative op.opcode ≡ true
    → lhs.type ≡ rhs.type
    → exec_binary_op s op out rhs lhs ≡ exec_binary_op s op out lhs rhs
unfolding exec_binary_op
binary-swap s op out lhs rhs c e =
    rw
      (
        e,
        binary_result_comm op.opcode out rhs.type (bit_and rhs.lo (mask_for_bits rhs.type.bits))
            (bit_and lhs.lo (mask_for_bits rhs.type.bits)) c,
      )
      refl

fits-type_equal :
    (opcode : Opcode) (out l r : IrType)
    → op_is_commutative opcode ≡ true
    → binary_types_fit opcode out l r ≡ true
    → type_equal l r ≡ true
unfolding binary_types_fit
fits-type_equal Opcode.add out l r c h = ground arith
fits-type_equal Opcode.mul out l r c h = ground arith
fits-type_equal Opcode.and out l r c h = ground arith
fits-type_equal Opcode.or out l r c h = ground arith
fits-type_equal Opcode.xor out l r c h = ground arith
fits-type_equal Opcode.eq out l r c h = ground arith
fits-type_equal Opcode.ne out l r c h = ground arith
fits-type_equal Opcode.flags_add out l r c h = ground arith
fits-type_equal _ out l r c h = cc

module _ (m : Module) (op : OpRec) where
  binary-sources :
      (opcode : Opcode)
      → op_is_commutative opcode ≡ true
      → verify_sources m op opcode ≡ ret tt
      → with_sources m op 2 (verify_binary_op m op) ≡ ret tt
  unfolding verify_sources
  binary-sources Opcode.add c h = h
  binary-sources Opcode.mul c h = h
  binary-sources Opcode.and c h = h
  binary-sources Opcode.or c h = h
  binary-sources Opcode.xor c h = h
  binary-sources Opcode.eq c h = h
  binary-sources Opcode.ne c h = h
  binary-sources Opcode.flags_add c h = h
  binary-sources _ c h = cc

  -- What verify_op asks of a commutative operation: two sources, of one type.
  commutative-types :
      op_is_commutative op.opcode ≡ true
      → verify_op m op ≡ ret tt
      → (length op.src ≡ 2) × (type_at m (first_src op) ≡ type_at m (second_src op))
  unfolding verify_op verify_binary_op
  commutative-types c h =
      let (below, h1) = reject_if-eq-ret (leb (count m.values) op.dst) verify _ h in
      let (typed, h2) = reject_if-eq-ret (not (is_value_type (type_at m op.dst))) verify _ h1 in
      let (n, h3) =
        with_sources-eq m op 2 (verify_binary_op m op) (binary-sources op.opcode c h2) in
      let fit : binary_types_fit op.opcode (type_at m op.dst) (type_at m (first_src op))
            (type_at m (second_src op))
          ≡ true =
        passed _ h3 in
      (n, eq_of_type_equal _ _ (fits-type_equal op.opcode _ _ _ c fit))
    where
      passed : (b : Bool) → reject_if (not b) verify ≡ ret tt → b ≡ true
      passed true h = refl
      passed false h = cc

module _ (host : Host) (s : ExecState) (op : OpRec) where
  -- An operation of two operands reads them in order.
  exec_op-two :
      op_is_commutative op.opcode ≡ true
      → (lhs rhs : ℕ)
      → exec_op host s (record op { src = lhs ∷ rhs ∷ [] })
        ≡ with_read s (exec_read_value s lhs) (λ l.
          with_read s
            (exec_read_value s rhs)
            (λ r. or_keep s (exec_binary_op s op (type_at s.module' op.dst) l r)))
  unfolding exec_op exec_binary_op
  exec_op-two c lhs rhs =
      let a : opcode_equal op.opcode Opcode.const_u64 ≡ false = no_const op.opcode c in
      let b : (opcode_equal op.opcode Opcode.load || opcode_equal op.opcode Opcode.store) ≡ false =
        no_access op.opcode c in
      rw (a, b) refl
    where
      no_const : (o : Opcode) → op_is_commutative o ≡ true → opcode_equal o Opcode.const_u64 ≡ false
      no_const o c = ground arith

      no_access :
          (o : Opcode)
          → op_is_commutative o ≡ true
          → (opcode_equal o Opcode.load || opcode_equal o Opcode.store) ≡ false
      no_access o c = ground arith

reads-swap :
    (s : ExecState) (p q : Result ExecValue) (k k' : ExecValue → ExecValue → Status)
    → fails_in is_bad_arg p ≡ true
    → fails_in is_bad_arg q ≡ true
    → ((x y : ExecValue) → p ≡ ret x → q ≡ ret y → k' y x ≡ k x y)
    → with_read s q (λ y. with_read s p (λ x. k' y x))
      ≡ with_read s p (λ x. with_read s q (λ y. k x y))
reads-swap s (ret x) (ret y) k k' f g h = h x y refl refl
reads-swap s (ret x) (err e) k k' f g h = refl
reads-swap s (err e) (ret y) k k' f g h = refl
reads-swap s (err bad_arg) (err bad_arg) k k' f g h = refl
reads-swap s (err bad_arg) (err _) k k' f g h = cc
reads-swap s (err _) (err e) k k' f g h = cc

two_of : (xs : List ℕ) → length xs ≡ 2 → xs ≡ (elim xs [ [] ↦ 0 | a ∷ _ ↦ a ]) ∷ second_of xs ∷ []
two_of [] n = absurd (omega arith)
two_of (a ∷ []) n = absurd (omega arith)
two_of (a ∷ b ∷ []) n = refl
two_of (a ∷ b ∷ c ∷ xs) n = absurd (omega arith)

-- In a state whose values have their types, a commutative operation that verify_op accepts has the same
-- step in the executor, error and state included, with its two operands exchanged.
pub exec_op-swapped :
    (host : Host) (s : ExecState) (op : OpRec)
    → Typed s
    → op_is_commutative op.opcode ≡ true
    → verify_op s.module' op ≡ ret tt
    → exec_op host s (swapped op) ≡ exec_op host s op
exec_op-swapped host s op t c v =
    let (n, same) = commutative-types s.module' op c v in
    let ordered : exec_op host s op
        ≡ exec_op host s (record op { src = first_src op ∷ second_src op ∷ [] }) =
      ap (λ l. exec_op host s (record op { src = l })) (two_of op.src n) in
    exec_op-two host s op c (second_src op) (first_src op)
    ∙ reads-swap s (exec_read_value s (first_src op)) (exec_read_value s (second_src op)) _ _
        (read-fails s (first_src op)) (read-fails s (second_src op))
        (λ x y p q. ap (or_keep s) (
          binary-swap s op (type_at s.module' op.dst) x y c
            (read-type s (first_src op) x t p ∙ same ∙ sym (read-type s (second_src op) y t q))))
    ∙ sym (exec_op-two host s op c (first_src op) (second_src op))
    ∙ sym ordered
