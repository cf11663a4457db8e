-- ===== src/Exec/Agree/Groups.antt =====
-- The groups of cases of fold_constant_op of src/xair.c, each against exec_op.
use xair.Prelude.{
  ℕ, ◌-◌, ◌≡◌, refl, sym, ap, ◌∙◌, true, false, ◌&&◌, ◌||◌, not, Option, some, arith, bit_and,
  bit_or, ltb, leb, ◌==◌, length, if◌then◌else◌,
}
use xair.Status.{ret}
use xair.Prelude.Words.{size_max, add64, sub64}
use xair.Ir.Types.{IrType, is_int, is_addr, type_equal, eq_of_type_equal}
use xair.Ir.Opcode.{Opcode, opcode_equal}
use xair.Module.Data.{Module, OpRec}
use xair.Module.Grow.{Host}
use xair.Exec.Scalar.{mask_for_bits, sign_bit_for_bits, is_set}
use xair.Exec.Fold.{
  ◌>>=◌, type_at, first_src, second_src, scalar64, const_u64_value, FoldGroup, fold_value,
  fold_arith, fold_shift, fold_compare,
}
use xair.Exec.State.{ExecState}
use xair.Exec.Op.{binary_result, unary_result, exec_op}
use xair.Verify.{
  binary_types_fit, unary_types_fit, verify_binary_op, verify_unary_op, verify_sources,
  with_sources, verify_op,
}
use xair.Exec.Agree.Constants.{
  ConstantsHold, need-inv, >>=-eq-some, const-scalar, const-masked, defines, plain, binary-defines,
  unary-defines,
}

-- What verify_op has checked of an operation, once it has returned XAIR_OK.
pub verified :
    (m : Module) (op : OpRec) → verify_op m op ≡ ret tt → verify_sources m op op.opcode ≡ ret tt
unfolding verify_op
verified m op h = ground arith

pub verified-binary :
    (m : Module) (op : OpRec)
    → with_sources m op 2 (verify_binary_op m op) ≡ ret tt
    → ((length op.src == 2) ≡ true)
      × (binary_types_fit op.opcode
            (type_at m op.dst)
            (type_at m (first_src op))
            (type_at m (second_src op))
          ≡ true)
unfolding verify_binary_op
verified-binary m op h = ground arith

pub verified-unary :
    (m : Module) (op : OpRec)
    → with_sources m op 1 (verify_unary_op m op) ≡ ret tt
    → ((length op.src == 1) ≡ true)
      × (unary_types_fit op.opcode (type_at m op.dst) (type_at m (first_src op)) ≡ true)
unfolding verify_unary_op
verified-unary m op h = ground arith

-- The operands of a binary group that was folded.
two_constants :
    {k : ℕ → ℕ → Option ℕ} (m : Module) (a b : ℕ) {v : ℕ}
    → (const_u64_value m a >>= λ lhs. const_u64_value m b >>= λ rhs. k lhs rhs) ≡ some v
    → (lhs : ℕ) × (rhs : ℕ) × (const_u64_value m a ≡ some lhs)
      × (const_u64_value m b ≡ some rhs)
      × (k lhs rhs ≡ some v)
two_constants {k} m a b h =
    let (lhs, l, h1) = >>=-eq-some (const_u64_value m a) _ h in
    let (rhs, r, h2) = >>=-eq-some (const_u64_value m b) _ h1 in (lhs, rhs, l, r, h2)

module _ (host : Host) (s : ExecState) (op : OpRec) (holds : ConstantsHold s) where
  abbrev m : Module
  m = s.module'

  abbrev out : IrType
  out = type_at m op.dst

  abbrev ltype : IrType
  ltype = type_at m (first_src op)

  abbrev rtype : IrType
  rtype = type_at m (second_src op)

  -- The step at the operation computes the folded value.
  abbrev pub Agrees : FoldGroup → Type 0
  Agrees group = (v : ℕ) → fold_value m op group ≡ some v → exec_op host s op ≡ defines s op v

  abbrev pub Computes : (ℕ → ℕ → ℕ) → Type 0
  Computes f = (lhs rhs : ℕ) → binary_result op.opcode out ltype rtype lhs rhs ≡ ret (f lhs rhs)

  pub arith-Agrees :
      plain op.opcode ≡ true
      → (length op.src == 2) ≡ true
      → Computes (fold_arith op.opcode)
      → Agrees FoldGroup.arithmetic
  unfolding fold_value
  arith-Agrees p two computes v h =
      let (_, h1) = need-inv (is_int out && leb out.bits 64) _ h in
      let (lhs, rhs, l, r, e) = two_constants m (first_src op) (second_src op) h1 in
      binary-defines host s op holds p lhs rhs v two l r (computes lhs rhs ∙ cc)

  pub address-Agrees :
      plain op.opcode ≡ true
      → (length op.src == 2) ≡ true
      → Computes (λ lhs rhs.
        if opcode_equal op.opcode Opcode.addr_add then add64 lhs rhs else sub64 lhs rhs)
      → Agrees FoldGroup.address
  unfolding fold_value
  address-Agrees p two computes v h =
      let (_, h1) = need-inv (is_addr out && leb out.bits 64) _ h in
      let (lhs, rhs, l, r, e) = two_constants m (first_src op) (second_src op) h1 in
      binary-defines host s op holds p lhs rhs v two l r (computes lhs rhs ∙ cc)

  pub shift-Agrees :
      plain op.opcode ≡ true
      → (length op.src == 2) ≡ true
      → type_equal out ltype ≡ true
      → ((lhs rhs : ℕ)
          → ltb rhs ltype.bits ≡ true
          → binary_result op.opcode out ltype rtype lhs rhs
            ≡ ret (fold_shift op.opcode lhs rhs ltype.bits))
      → Agrees FoldGroup.shift
  unfolding fold_value
  shift-Agrees p two same computes v h =
      let (_, h1) = need-inv (is_int out && leb out.bits 64) _ h in
      let (lhs, rhs, l, r, h2) = two_constants m (first_src op) (second_src op) h1 in
      let (below, e) = need-inv (ltb rhs out.bits) _ h2 in
      let width : out.bits ≡ ltype.bits = ap (λ t. t.bits) (eq_of_type_equal out ltype same) in
      let masked : bit_and lhs (mask_for_bits out.bits) ≡ lhs =
        ap (λ b. bit_and lhs (mask_for_bits b)) width ∙ const-masked m (first_src op) lhs l in
      let folded : fold_shift op.opcode lhs rhs ltype.bits ≡ v = cc in
      binary-defines host s op holds p lhs rhs v two l r
        (computes lhs rhs (ap (ltb rhs) (sym width) ∙ below) ∙ ap ret folded)

  pub compare-Agrees :
      plain op.opcode ≡ true
      → (length op.src == 2) ≡ true
      → type_equal ltype rtype ≡ true
      → Computes (λ lhs rhs. fold_compare op.opcode lhs rhs ltype.bits)
      → Agrees FoldGroup.compare
  unfolding fold_value
  compare-Agrees p two same computes v h =
      let (lhs, rhs, l, r, h1) = two_constants m (first_src op) (second_src op) h in
      let (_, e) = need-inv (leb ltype.bits 64) _ h1 in
      let width : ltype.bits ≡ rtype.bits = ap (λ t. t.bits) (eq_of_type_equal ltype rtype same) in
      let masked : bit_and lhs (mask_for_bits ltype.bits) ≡ lhs =
        const-masked m (first_src op) lhs l in
      let masked' : bit_and rhs (mask_for_bits ltype.bits) ≡ rhs =
        ap (λ b. bit_and rhs (mask_for_bits b)) width ∙ const-masked m (second_src op) rhs r in
      let folded : fold_compare op.opcode lhs rhs ltype.bits ≡ v = cc in
      binary-defines host s op holds p lhs rhs v two l r (computes lhs rhs ∙ ap ret folded)

  -- The widths of two constants add up with no wrap, and the first is not 0.
  pub concat-Agrees :
      op.opcode ≡ Opcode.concat
      → (length op.src == 2) ≡ true
      → binary_types_fit Opcode.concat out ltype rtype ≡ true
      → ltb 0 ltype.bits ≡ true
      → Agrees FoldGroup.concatenate
  unfolding fold_value binary_types_fit binary_result
  concat-Agrees is_concat two fits wide v h =
      let (int_out, h1) = need-inv (is_int out && leb out.bits 64) _ h in
      let (lhs, rhs, l, r, e) = two_constants m (first_src op) (second_src op) h1 in
      let ls : scalar64 ltype ≡ true = const-scalar m (first_src op) lhs l in
      let rs : scalar64 rtype ≡ true = const-scalar m (second_src op) rhs r in
      let test : (not (is_int out) || (ltb 64 out.bits || leb 64 rtype.bits)) ≡ false =
        ground arith in
      let p : plain op.opcode ≡ true = rw is_concat refl in
      binary-defines host s op holds p lhs rhs v two l r (rw (is_concat, test, binary_result) (cc))

  pub extend-Agrees :
      plain op.opcode ≡ true
      → (length op.src == 1) ≡ true
      → ((lhs : ℕ)
          → scalar64 out ≡ true
          → scalar64 ltype ≡ true
          → unary_result op.opcode out ltype lhs
            ≡ ret (
                if opcode_equal op.opcode Opcode.sext && is_set lhs (sign_bit_for_bits ltype.bits)
                then bit_or lhs (size_max - mask_for_bits ltype.bits)
                else lhs))
      → Agrees FoldGroup.extend
  unfolding fold_value
  extend-Agrees p one computes v h =
      let (int_out, h1) = need-inv (is_int out && leb out.bits 64) _ h in
      let (lhs, l, e) = >>=-eq-some (const_u64_value m (first_src op)) _ h1 in
      let wide : scalar64 out ≡ true = ground arith in
      unary-defines host s op holds p lhs v one l
        (computes lhs wide (const-scalar m (first_src op) lhs l) ∙ cc)

  pub convert-Agrees :
      plain op.opcode ≡ true
      → (length op.src == 1) ≡ true
      → ((lhs : ℕ)
          → scalar64 out ≡ true
          → scalar64 ltype ≡ true
          → unary_result op.opcode out ltype lhs ≡ ret lhs)
      → Agrees FoldGroup.convert
  unfolding fold_value
  convert-Agrees p one computes v h =
      let (wide, l) = need-inv (scalar64 out) _ h in
      unary-defines host s op holds p v v one l
        (computes v wide (const-scalar m (first_src op) v l))
