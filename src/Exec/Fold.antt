-- ===== src/Exec/Fold.antt =====
-- The constant folder of src/xair.c: const_u64_value, compute_flag_extract and fold_constant_op.
use xair.Prelude.{
  ℕ, ◌-◌, Bool, true, false, ◌&&◌, ◌||◌, not, Option, none, some, List, [], ◌∷◌, bit_and, bit_or,
  bit_xor, ltb, leb, ◌==◌, get_elem?, if◌then◌else◌,
}
use xair.Prelude.Words.{size_max, add64, sub64, mul64, shl64, shr}
use xair.Ir.Types.{IrType, is_int, is_addr, type_void}
use xair.Ir.Opcode.{Opcode, opcode_equal}
use xair.Module.Data.{Module, ValueRec, OpRec, Endian, invalid_id}
use xair.Exec.Scalar.{
  mask_for_bits, sign_bit_for_bits, truncate_to_type, bool_u64, is_set, differ, signed_less_u64,
  even_parity8,
}

infixl 5 ◌>>=◌
abbrev pub ◌>>=◌ : {A B : Type 0} → Option A → (A → Option B) → Option B
none >>= f = none
some a >>= f = f a

infixl 5 ◌>>◌
abbrev pub ◌>>◌ : {B : Type 0} → Option (Unit {0}) → Option B → Option B
m >> k = m >>= λ _. k

-- `if (!b) return 0;`
abbrev pub need : Bool → Option (Unit {0})
need true = some tt
need false = none

-- `src[i]`, which memset leaves 0 past the sources.
abbrev pub first_src : OpRec → ℕ
first_src op = elim op.src [ [] ↦ 0 | a ∷ _ ↦ a ]

abbrev pub second_of : List ℕ → ℕ
second_of [] = 0
second_of (a ∷ []) = 0
second_of (a ∷ b ∷ _) = b

abbrev pub second_src : OpRec → ℕ
second_src op = second_of op.src

-- The type of a value; the folder is run on verified modules, whose ids are valid.
abbrev pub type_or_void : Option ValueRec → IrType
type_or_void none = type_void
type_or_void (some v) = v.type

abbrev pub type_at : Module → ℕ → IrType
type_at m value = type_or_void (get_elem? m.values.items value)

-- The record of the operation that defines a value, if there is one.
unfoldable pub op_of : Module → ℕ → Option OpRec
op_of m value = do
  v ← get_elem? m.values.items value
  need (not (v.op == invalid_id))
  get_elem? m.ops.items v.op

abbrev pub scalar64 : IrType → Bool
scalar64 type = (is_int type || is_addr type) && leb type.bits 64

unfoldable pub const_u64_value : Module → ℕ → Option ℕ
const_u64_value m value = do
  need (scalar64 (type_at m value))
  op ← op_of m value
  need (opcode_equal op.opcode Opcode.const_u64)
  some (truncate_to_type op.imm (type_at m value))

unfoldable pub fold_to_const : OpRec → ℕ → IrType → OpRec
fold_to_const op value type = record op {
  opcode = Opcode.const_u64;
  src = [];
  endian = Endian.le;
  imm = truncate_to_type value type;
}

-- The operands of a summary and its result, once they are known to be constants.
pub record Summary : Type 0 where
  pub opcode : Opcode
  pub bits : ℕ
  pub lhs : ℕ
  pub rhs : ℕ
  pub result : ℕ

abbrev pub is_flags_op : Opcode → Bool
is_flags_op opcode =
    opcode_equal opcode Opcode.flags_add
    || (opcode_equal opcode Opcode.flags_sub
        || (opcode_equal opcode Opcode.flags_logic || opcode_equal opcode Opcode.flags_shl))

unfoldable pub summary_result : Opcode → (lhs rhs bits : ℕ) → Option ℕ
summary_result opcode lhs rhs bits =
    let mask = mask_for_bits bits in
    if opcode_equal opcode Opcode.flags_add
    then some (bit_and (add64 lhs rhs) mask)
    else if opcode_equal opcode Opcode.flags_sub
    then some (bit_and (sub64 lhs rhs) mask)
    else if opcode_equal opcode Opcode.flags_shl
    then (if rhs == 0 || leb bits rhs then none else some (bit_and (shl64 lhs rhs) mask))
    else some lhs

unfoldable pub summary_of : Module → (flags_value : ℕ) → Option Summary
summary_of m flags_value = do
  op ← op_of m flags_value
  need (is_flags_op op.opcode)
  lhs ← const_u64_value m (first_src op)
  rhs ←
      if opcode_equal op.opcode Opcode.flags_logic
      then some 0
      else const_u64_value m (second_src op)
  let type = type_at m (first_src op)
  need (is_int type && leb type.bits 64)
  let l = bit_and lhs (mask_for_bits type.bits)
  let r = bit_and rhs (mask_for_bits type.bits)
  result ← summary_result op.opcode l r type.bits
  some (record { opcode = op.opcode; bits = type.bits; lhs = l; rhs = r; result = result })

unfoldable pub extract_cf : Summary → ℕ
extract_cf s =
    if opcode_equal s.opcode Opcode.flags_logic
    then 0
    else if opcode_equal s.opcode Opcode.flags_shl
    then bit_and (shr s.lhs (s.bits - s.rhs)) 1
    else bool_u64
        (if opcode_equal s.opcode Opcode.flags_add then ltb s.result s.lhs else ltb s.lhs s.rhs)

unfoldable pub extract_of : Summary → Option ℕ
extract_of s =
    let sign = sign_bit_for_bits s.bits in
    let l = is_set s.lhs sign in
    let r = is_set s.rhs sign in
    let res = is_set s.result sign in
    if opcode_equal s.opcode Opcode.flags_logic
    then some 0
    else if opcode_equal s.opcode Opcode.flags_shl
    then (if not (s.rhs == 1)
        then none
        else some (bool_u64 (differ res (not (bit_and (shr s.lhs (s.bits - s.rhs)) 1 == 0)))))
    else if opcode_equal s.opcode Opcode.flags_add
    then some (bool_u64 (not (differ l r) && differ res l))
    else some (bool_u64 (differ l r && differ res l))

unfoldable pub extract_af : Summary → ℕ
extract_af s =
    if opcode_equal s.opcode Opcode.flags_logic || opcode_equal s.opcode Opcode.flags_shl
    then 0
    else bool_u64 (is_set (bit_xor (bit_xor s.lhs s.rhs) s.result) 0x10)

unfoldable pub extract : Opcode → Summary → Option ℕ
extract Opcode.flag_zf s = some (bool_u64 (s.result == 0))
extract Opcode.flag_cf s = some (extract_cf s)
extract Opcode.flag_of s = extract_of s
extract Opcode.flag_sf s = some (bool_u64 (is_set s.result (sign_bit_for_bits s.bits)))
extract Opcode.flag_pf s = some (bool_u64 (even_parity8 s.result))
extract Opcode.flag_af s = some (extract_af s)
extract _ s = none

unfoldable pub compute_flag_extract : Module → Opcode → (flags_value : ℕ) → Option ℕ
compute_flag_extract m opcode flags_value = do s ← summary_of m flags_value; extract opcode s

-- The arithmetic of the first group of cases.
unfoldable pub fold_arith : Opcode → (lhs rhs : ℕ) → ℕ
fold_arith Opcode.add lhs rhs = add64 lhs rhs
fold_arith Opcode.sub lhs rhs = sub64 lhs rhs
fold_arith Opcode.mul lhs rhs = mul64 lhs rhs
fold_arith Opcode.and lhs rhs = bit_and lhs rhs
fold_arith Opcode.or lhs rhs = bit_or lhs rhs
fold_arith _ lhs rhs = bit_xor lhs rhs

-- The shifts, for a shift below the width.
unfoldable pub fold_shift : Opcode → (lhs shift bits : ℕ) → ℕ
fold_shift Opcode.shl lhs shift bits = shl64 lhs shift
fold_shift Opcode.lshr lhs shift bits = shr lhs shift
fold_shift _ lhs shift bits =
    if shift == 0
    then lhs
    else if is_set lhs (sign_bit_for_bits bits)
    then bit_or (shr lhs shift) (shl64 (mask_for_bits bits) (bits - shift))
    else shr lhs shift

unfoldable pub fold_compare : Opcode → (lhs rhs bits : ℕ) → ℕ
fold_compare Opcode.eq lhs rhs bits = bool_u64 (lhs == rhs)
fold_compare Opcode.ne lhs rhs bits = bool_u64 (not (lhs == rhs))
fold_compare Opcode.ult lhs rhs bits = bool_u64 (ltb lhs rhs)
fold_compare Opcode.ule lhs rhs bits = bool_u64 (leb lhs rhs)
fold_compare Opcode.slt lhs rhs bits = bool_u64 (signed_less_u64 lhs rhs bits)
fold_compare _ lhs rhs bits = bool_u64 (signed_less_u64 lhs rhs bits || lhs == rhs)

-- The groups of cases of the switch.
pub data FoldGroup : Type 0 where
  arithmetic shift compare extend convert concatenate address flag not_folded : FoldGroup

abbrev pub fold_group : Opcode → FoldGroup
fold_group Opcode.add = arithmetic
fold_group Opcode.sub = arithmetic
fold_group Opcode.mul = arithmetic
fold_group Opcode.and = arithmetic
fold_group Opcode.or = arithmetic
fold_group Opcode.xor = arithmetic
fold_group Opcode.shl = shift
fold_group Opcode.lshr = shift
fold_group Opcode.ashr = shift
fold_group Opcode.eq = compare
fold_group Opcode.ne = compare
fold_group Opcode.ult = compare
fold_group Opcode.ule = compare
fold_group Opcode.slt = compare
fold_group Opcode.sle = compare
fold_group Opcode.zext = extend
fold_group Opcode.sext = extend
fold_group Opcode.trunc = extend
fold_group Opcode.int_to_addr = convert
fold_group Opcode.addr_to_int = convert
fold_group Opcode.concat = concatenate
fold_group Opcode.addr_add = address
fold_group Opcode.addr_sub = address
fold_group Opcode.flag_zf = flag
fold_group Opcode.flag_cf = flag
fold_group Opcode.flag_of = flag
fold_group Opcode.flag_sf = flag
fold_group Opcode.flag_pf = flag
fold_group Opcode.flag_af = flag
fold_group _ = not_folded

module _ (m : Module) (op : OpRec) where
  abbrev out : IrType
  out = type_at m op.dst

  -- The value that each group computes, or none where the operation is left as it is.
  unfoldable pub fold_value : FoldGroup → Option ℕ
  fold_value arithmetic = do
    need (is_int out && leb out.bits 64)
    lhs ← const_u64_value m (first_src op)
    rhs ← const_u64_value m (second_src op)
    some (fold_arith op.opcode lhs rhs)
  fold_value shift = do
    need (is_int out && leb out.bits 64)
    lhs ← const_u64_value m (first_src op)
    rhs ← const_u64_value m (second_src op)
    need (ltb rhs out.bits)
    some (fold_shift op.opcode (bit_and lhs (mask_for_bits out.bits)) rhs out.bits)
  fold_value compare = do
    lhs ← const_u64_value m (first_src op)
    rhs ← const_u64_value m (second_src op)
    let bits = (type_at m (first_src op)).bits
    need (leb bits 64)
    some (
        fold_compare op.opcode (bit_and lhs (mask_for_bits bits)) (bit_and rhs (mask_for_bits bits))
          bits)
  fold_value extend = do
    need (is_int out && leb out.bits 64)
    lhs ← const_u64_value m (first_src op)
    let bits = (type_at m (first_src op)).bits
    some (
        if opcode_equal op.opcode Opcode.sext && is_set lhs (sign_bit_for_bits bits)
        then bit_or lhs (size_max - mask_for_bits bits)
        else lhs)
  fold_value convert = do need (scalar64 out); const_u64_value m (first_src op)
  fold_value concatenate = do
    need (is_int out && leb out.bits 64)
    lhs ← const_u64_value m (first_src op)
    rhs ← const_u64_value m (second_src op)
    some (bit_or (shl64 lhs (type_at m (second_src op)).bits) rhs)
  fold_value address = do
    need (is_addr out && leb out.bits 64)
    lhs ← const_u64_value m (first_src op)
    rhs ← const_u64_value m (second_src op)
    some (if opcode_equal op.opcode Opcode.addr_add then add64 lhs rhs else sub64 lhs rhs)
  fold_value flag = compute_flag_extract m op.opcode (first_src op)
  fold_value not_folded = none

  -- The folded operation, if it is folded.
  unfoldable pub fold_constant_op : Option OpRec
  fold_constant_op = do value ← fold_value (fold_group op.opcode); some (fold_to_const op value out)
