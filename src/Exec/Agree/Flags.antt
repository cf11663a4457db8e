-- ===== src/Exec/Agree/Flags.antt =====
-- The extraction of a flag by compute_flag_extract and fold_constant_op of src/xair.c, and exec_op's.
use xair.Prelude.{
  ℕ, ◌≡◌, refl, ap, subst, ◌∙◌, true, false, ◌&&◌, ◌||◌, some, bit_and, leb, ltb, sym, ◌==◌, arith,
  length, if◌then◌else◌,
}
use xair.Status.{ret}
use xair.Ir.Types.{IrType, is_int, is_flags, type_equal, eq_of_type_equal}
use xair.Ir.Opcode.{Opcode, opcode_equal}
use xair.Module.Data.{Module, OpRec}
use xair.Module.Grow.{Host}
use xair.Exec.Scalar.{mask_for_bits, and_mask_twice}
use xair.Exec.Fold.{
  type_at, first_src, second_src, op_of, is_flags_op, const_u64_value, Summary, summary_result,
  summary_of, compute_flag_extract, FoldGroup, fold_value,
}
use xair.Exec.State.{ExecValue, ExecState, exec_read_value}
use xair.Exec.Op.{unary_result, exec_unary_op, exec_op, binary_result}
use xair.Exec.FlagBits.{packed_flags, IsFlagsOp, adds, subs, logic, shl, extract-unary_result}
use xair.Verify.{verify_sources, binary_types_fit, unary_types_fit, verify_op}
use xair.Exec.Agree.Groups.{verified-binary, verified-unary, verified}
use xair.Exec.Agree.Constants.{
  ConstantsHold, const-scalar, const-masked, need-inv, >>=-eq-some, defines, plain, binary-defines,
  unary-defines,
}

-- Whatever value of flags the folder sums up reads as the packed flags of its operation and operands,
-- as it does once the executor has run that operation.
abbrev pub FlagsHold : ExecState → Type 0
FlagsHold s =
    (v : ℕ) (sum : Summary)
    → summary_of s.module' v ≡ some sum
    → (x : ExecValue) × (exec_read_value s v ≡ ret x)
      × (x.lo ≡ packed_flags sum.opcode sum.lhs sum.rhs sum.bits)

IsFlagsOp-of_test : (o : Opcode) → is_flags_op o ≡ true → IsFlagsOp o
IsFlagsOp-of_test Opcode.flags_add h = adds
IsFlagsOp-of_test Opcode.flags_sub h = subs
IsFlagsOp-of_test Opcode.flags_logic h = logic
IsFlagsOp-of_test Opcode.flags_shl h = shl
IsFlagsOp-of_test _ h = absurd (cc)

-- The operands of a summary are masked, and its result is theirs.
record IsSummary (s : Summary) : Type 0 where
  is_op : IsFlagsOp s.opcode
  lhs_masked : bit_and s.lhs (mask_for_bits s.bits) ≡ s.lhs
  rhs_masked : bit_and s.rhs (mask_for_bits s.bits) ≡ s.rhs
  computed : summary_result s.opcode s.lhs s.rhs s.bits ≡ some s.result

summary_of-IsSummary :
    (m : Module) (v : ℕ) {sum : Summary} → summary_of m v ≡ some sum → IsSummary sum
unfolding summary_of
summary_of-IsSummary m v {sum} h =
    let (op, _, h1) = >>=-eq-some (op_of m v) _ h in
    let (is, h2) = need-inv (is_flags_op op.opcode) _ h1 in
    let (lhs, _, h3) = >>=-eq-some (const_u64_value m (first_src op)) _ h2 in
    let (rhs, _, h4) =
      >>=-eq-some
        (if opcode_equal op.opcode Opcode.flags_logic
          then some 0
          else const_u64_value m (second_src op))
        _ h3 in
    let type = type_at m (first_src op) in
    let (_, h5) = need-inv (is_int type && leb type.bits 64) _ h4 in
    let l = bit_and lhs (mask_for_bits type.bits) in
    let r = bit_and rhs (mask_for_bits type.bits) in
    let (result, e, h6) = >>=-eq-some (summary_result op.opcode l r type.bits) _ h5 in
    let made : Summary = record {
      opcode = op.opcode;
      bits = type.bits;
      lhs = l;
      rhs = r;
      result = result;
    } in
    let same : made ≡ sum = cc in
    subst IsSummary same (record {
      is_op = IsFlagsOp-of_test op.opcode is;
      lhs_masked = and_mask_twice _ _;
      rhs_masked = and_mask_twice _ _;
      computed = e;
    })

module _ (host : Host) (s : ExecState) (op : OpRec) (flags : FlagsHold s) where
  pub flag-Agrees :
      plain op.opcode ≡ true
      → (length op.src == 1) ≡ true
      → (v : ℕ) → fold_value s.module' op FoldGroup.flag ≡ some v
      → exec_op host s op ≡ defines s op v
  unfolding fold_value compute_flag_extract exec_op exec_unary_op
  flag-Agrees p one v h =
      let (sum, e, x) = >>=-eq-some (summary_of s.module' (first_src op)) _ h in
      let (value, read, packed) = flags (first_src op) sum e in
      let is = summary_of-IsSummary s.module' (first_src op) e in
      let out = type_at s.module' op.dst in
      let a : opcode_equal op.opcode Opcode.const_u64 ≡ false = ground arith in
      let b : (opcode_equal op.opcode Opcode.load || opcode_equal op.opcode Opcode.store) ≡ false =
        ground arith in
      let bit : unary_result op.opcode out value.type value.lo ≡ ret v =
        ap (unary_result op.opcode out value.type) packed
        ∙ extract-unary_result sum.opcode op.opcode out value.type sum.lhs sum.rhs sum.bits
            sum.result v is.is_op is.lhs_masked is.rhs_masked is.computed x in
      rw (a, b, one, read, bit) refl

-- What the folder's summary of an operation of flags says of the executor's step at the operation.
module _ (host : Host) (s : ExecState) (op : OpRec) (holds : ConstantsHold s) where
  abbrev m : Module
  m = s.module'

  abbrev ltype : IrType
  ltype = type_at m (first_src op)

  abbrev masked : ℕ → ℕ
  masked x = bit_and x (mask_for_bits ltype.bits)

  abbrev with_opcode : Opcode → OpRec
  with_opcode o = record op { opcode = o }

  abbrev Packs : Opcode → Type 0
  Packs o =
      verify_sources m (with_opcode o) o ≡ ret tt
      → (lhs rhs : ℕ) → const_u64_value m (first_src op) ≡ some lhs
      → (if opcode_equal o Opcode.flags_logic then some 0 else const_u64_value m (second_src op))
        ≡ some rhs
      → (result : ℕ) → summary_result o (masked lhs) (masked rhs) ltype.bits ≡ some result
      → exec_op host s (with_opcode o)
        ≡ defines s op (packed_flags o (masked lhs) (masked rhs) ltype.bits)

  -- The operations with two operands, of one type.
  packs_two :
      (o : Opcode)
      → plain o ≡ true
      → (length op.src == 2) ≡ true
      → type_equal ltype (type_at m (second_src op)) ≡ true
      → (lhs rhs : ℕ) → const_u64_value m (first_src op) ≡ some lhs
      → const_u64_value m (second_src op) ≡ some rhs
      → binary_result o
          (type_at m op.dst)
          ltype
          (type_at m (second_src op))
          (masked lhs)
          (masked rhs)
        ≡ ret (packed_flags o (masked lhs) (masked rhs) ltype.bits)
      → exec_op host s (with_opcode o)
        ≡ defines s op (packed_flags o (masked lhs) (masked rhs) ltype.bits)
  packs_two o p two same lhs rhs l r computed =
      let width : ltype.bits ≡ (type_at m (second_src op)).bits =
        ap (λ t. t.bits) (eq_of_type_equal ltype _ same) in
      let left : masked lhs ≡ lhs = const-masked m (first_src op) lhs l in
      let right : masked rhs ≡ rhs =
        ap (λ b. bit_and rhs (mask_for_bits b)) width ∙ const-masked m (second_src op) rhs r in
      binary-defines host s (with_opcode o) holds p (masked lhs) (masked rhs) _ two
        (l ∙ ap some (sym left)) (r ∙ ap some (sym right)) computed

  packs : {o : Opcode} → IsFlagsOp o → Packs o
  unfolding verify_sources binary_result unary_result binary_types_fit unary_types_fit
      summary_result
  packs adds ok lhs rhs l r result e =
      let (two, fits) = verified-binary m (with_opcode Opcode.flags_add) ok in
      let int : is_int ltype ≡ true = ground arith in
      packs_two Opcode.flags_add refl two (ground arith) lhs rhs l r (rw int refl)
  packs subs ok lhs rhs l r result e =
      let (two, fits) = verified-binary m (with_opcode Opcode.flags_sub) ok in
      let int : is_int ltype ≡ true = ground arith in
      packs_two Opcode.flags_sub refl two (ground arith) lhs rhs l r (rw int refl)
  packs shl ok lhs rhs l r result e =
      let (two, fits) = verified-binary m (with_opcode Opcode.flags_shl) ok in
      let same : type_equal ltype (type_at m (second_src op)) ≡ true = ground arith in
      let rtype : type_at m (second_src op) ≡ ltype = sym (eq_of_type_equal ltype _ same) in
      let int : is_int ltype ≡ true = ground arith in
      let below : (masked rhs == 0 || leb ltype.bits (masked rhs)) ≡ false = ground arith in
      packs_two Opcode.flags_shl refl two same lhs rhs l r (rw (rtype, int, below) refl)
  packs logic ok lhs rhs l r result e =
      let (one, fits) = verified-unary m (with_opcode Opcode.flags_logic) ok in
      let flags : is_flags (type_at m op.dst) ≡ true = ground arith in
      let int : is_int ltype ≡ true = ground arith in
      let scalar = const-scalar m (first_src op) lhs l in
      let narrow : ltb 64 ltype.bits ≡ false = ground arith in
      let left : masked lhs ≡ lhs = const-masked m (first_src op) lhs l in
      unary-defines host s (with_opcode Opcode.flags_logic) holds refl (masked lhs) _ one
        (l ∙ ap some (sym left)) (rw (flags, int, narrow) refl)

-- A value of flags that the folder sums up, and the operation that defines it, which verify_op accepts: in
-- a state where what the folder takes for a constant reads as that constant, the executor's step at the
-- operation is exec_define_value at the packed flags of the summary's operation and operands.
pub exec_op-packed_flags :
    (host : Host) (s : ExecState) (op : OpRec) (sum : Summary)
    → ConstantsHold s
    → verify_op s.module' op ≡ ret tt
    → op_of s.module' op.dst ≡ some op
    → summary_of s.module' op.dst ≡ some sum
    → exec_op host s op ≡ defines s op (packed_flags sum.opcode sum.lhs sum.rhs sum.bits)
unfolding summary_of
exec_op-packed_flags host s op sum holds ok at h =
    let m = s.module' in
    let (op', at', h1) = >>=-eq-some (op_of m op.dst) _ h in
    let (is, h2) = need-inv (is_flags_op op'.opcode) _ h1 in
    let (lhs, l, h3) = >>=-eq-some (const_u64_value m (first_src op')) _ h2 in
    let (rhs, r, h4) =
      >>=-eq-some
        (if opcode_equal op'.opcode Opcode.flags_logic
          then some 0
          else const_u64_value m (second_src op'))
        _ h3 in
    let type = type_at m (first_src op') in
    let (_, h5) = need-inv (is_int type && leb type.bits 64) _ h4 in
    let a = bit_and lhs (mask_for_bits type.bits) in
    let b = bit_and rhs (mask_for_bits type.bits) in
    let (result, e, h6) = >>=-eq-some (summary_result op'.opcode a b type.bits) _ h5 in
    let made : Summary = record {
      opcode = op'.opcode;
      bits = type.bits;
      lhs = a;
      rhs = b;
      result = result;
    } in
    let same : made ≡ sum = cc in
    let own : op' ≡ op = cc in
    let ok' : verify_op m op' ≡ ret tt = ap (verify_op m) own ∙ ok in
    let step : exec_op host s op' ≡ defines s op' (packed_flags op'.opcode a b type.bits) =
      packs host s op' holds (IsFlagsOp-of_test op'.opcode is) (verified m op' ok') lhs rhs l r
        result e in
    ap (exec_op host s) (sym own)
    ∙ step
    ∙ ap (λ o. defines s o (packed_flags op'.opcode a b type.bits)) own
    ∙ ap (λ q. defines s op (packed_flags q.opcode q.lhs q.rhs q.bits)) same
