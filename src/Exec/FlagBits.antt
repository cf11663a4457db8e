-- ===== src/Exec/FlagBits.antt =====
-- The flags that compute_flag_extract of src/xair.c computes are the bits that exec_flags,
-- exec_logic_flags and exec_shift_left_flags pack.
use xair.Prelude.{
  ℕ, ◌-◌, ◌≡◌, refl, sym, ap, ◌∙◌, Bool, true, false, ◌&&◌, not, some, bit_and, bit_xor, arith, ltb,
  ◌==◌, if◌then◌else◌,
}
use xair.Prelude.Bits.{bit_and-mask}
use xair.Prelude.Words.{add64, sub64, shl64, shr}
use xair.Status.{ret}
use xair.Ir.Types.{IrType}
use xair.Ir.Opcode.{Opcode, opcode_equal}
use xair.Exec.Scalar.{mask_for_bits, sign_bit_for_bits, even_parity8, is_set, differ, bool_u64}
use xair.Exec.Flags.{
  or_if, exec_zf, exec_cf, exec_of, exec_sf, exec_pf, exec_af, exec_logic_flags, exec_flags,
  overflow_of, exec_shift_left_flags,
}
use xair.Exec.Fold.{Summary, summary_result, extract_cf, extract_of, extract_af, extract}
use xair.Exec.Op.{unary_result}

-- The six flags in the order in which exec_flags packs them, and as exec_shift_left_flags does.
abbrev pack : (z c o s p a : Bool) → ℕ
pack z c o s p a =
    or_if a exec_af
      (or_if p exec_pf (or_if s exec_sf (or_if o exec_of (or_if c exec_cf (or_if z exec_zf 0)))))

pack-bits :
    (z c o s p a : Bool)
    → (is_set (pack z c o s p a) exec_zf ≡ z)
      × (is_set (pack z c o s p a) exec_cf ≡ c)
      × (is_set (pack z c o s p a) exec_of ≡ o)
      × (is_set (pack z c o s p a) exec_sf ≡ s)
      × (is_set (pack z c o s p a) exec_pf ≡ p)
      × (is_set (pack z c o s p a) exec_af ≡ a)
pack-bits z c o s p a = ground arith

pack-shl :
    (z c o s p : Bool)
    → or_if o exec_of (or_if c exec_cf (or_if p exec_pf (or_if s exec_sf (or_if z exec_zf 0))))
      ≡ pack z c o s p false
pack-shl z c o s p = ground arith

-- The packed flags of an operation of flags at masked operands.
abbrev pub packed_flags : Opcode → (lhs rhs bits : ℕ) → ℕ
packed_flags opcode lhs rhs bits =
    if opcode_equal opcode Opcode.flags_logic
    then exec_logic_flags lhs bits
    else if opcode_equal opcode Opcode.flags_shl
    then exec_shift_left_flags lhs rhs bits
    else exec_flags opcode lhs rhs bits

-- The carry and overflow of a summary of each kind.
abbrev cf_of : Opcode → Summary → Bool
cf_of Opcode.flags_add s = ltb s.result s.lhs
cf_of Opcode.flags_sub s = ltb s.lhs s.rhs
cf_of Opcode.flags_shl s = not (bit_and (shr s.lhs (s.bits - s.rhs)) 1 == 0)
cf_of _ s = false

abbrev of_of : Opcode → (sign : ℕ) → Summary → Bool
of_of Opcode.flags_add sign s =
    overflow_of true (is_set s.lhs sign) (is_set s.rhs sign) (is_set s.result sign)
of_of Opcode.flags_sub sign s =
    overflow_of false (is_set s.lhs sign) (is_set s.rhs sign) (is_set s.result sign)
of_of Opcode.flags_shl sign s =
    s.rhs == 1 && differ (is_set s.result sign) (cf_of Opcode.flags_shl s)
of_of _ sign s = false

abbrev af_of : Opcode → Summary → Bool
af_of Opcode.flags_add s = is_set (bit_xor (bit_xor s.lhs s.rhs) s.result) 0x10
af_of Opcode.flags_sub s = is_set (bit_xor (bit_xor s.lhs s.rhs) s.result) 0x10
af_of _ s = false

abbrev packed_of : Opcode → Summary → ℕ
packed_of f s =
    pack (s.result == 0) (cf_of f s) (of_of f (sign_bit_for_bits s.bits) s)
      (is_set s.result (sign_bit_for_bits s.bits)) (even_parity8 s.result) (af_of f s)

-- `opcode` is one of the four.
pub data IsFlagsOp : Opcode → Type 0 where
  adds : IsFlagsOp Opcode.flags_add
  subs : IsFlagsOp Opcode.flags_sub
  logic : IsFlagsOp Opcode.flags_logic
  shl : IsFlagsOp Opcode.flags_shl

abbrev summary : Opcode → (lhs rhs bits result : ℕ) → Summary
summary f lhs rhs bits result = record {
  opcode = f;
  bits = bits;
  lhs = lhs;
  rhs = rhs;
  result = result;
}

packed_flags-pack :
    {f : Opcode} (is : IsFlagsOp f) (lhs rhs bits result : ℕ)
    → bit_and lhs (mask_for_bits bits) ≡ lhs
    → bit_and rhs (mask_for_bits bits) ≡ rhs
    → summary_result f lhs rhs bits ≡ some result
    → packed_flags f lhs rhs bits ≡ packed_of f (summary f lhs rhs bits result)
unfolding summary_result exec_flags exec_logic_flags exec_shift_left_flags
packed_flags-pack adds lhs rhs bits result l r e =
    let same : bit_and (add64 lhs rhs) (mask_for_bits bits) ≡ result = cc in rw (l, r, same) refl
packed_flags-pack subs lhs rhs bits result l r e =
    let same : bit_and (sub64 lhs rhs) (mask_for_bits bits) ≡ result = cc in rw (l, r, same) refl
packed_flags-pack logic lhs rhs bits result l r e =
    let same : lhs ≡ result = cc in rw (l, sym same) refl
packed_flags-pack shl lhs rhs bits result l r e =
    let same : bit_and (shl64 lhs rhs) (mask_for_bits bits) ≡ result = ground arith in
    rw (l, same) (pack-shl _ _ _ _ _)

bit_and-one : (x : ℕ) → bit_and x 1 ≡ bool_u64 (not (bit_and x 1 == 0))
bit_and-one x = rw (bit_and-mask 1 x) (ground arith)

extract-flags :
    {f : Opcode} (is : IsFlagsOp f) (lhs rhs bits result : ℕ)
    → (extract_cf (summary f lhs rhs bits result)
        ≡ bool_u64 (cf_of f (summary f lhs rhs bits result)))
      × ((value : ℕ)
          → extract_of (summary f lhs rhs bits result) ≡ some value
          → bool_u64 (of_of f (sign_bit_for_bits bits) (summary f lhs rhs bits result)) ≡ value)
      × (extract_af (summary f lhs rhs bits result)
          ≡ bool_u64 (af_of f (summary f lhs rhs bits result)))
unfolding extract_cf extract_of extract_af
extract-flags adds lhs rhs bits result = (refl, λ value h. cc, refl)
extract-flags subs lhs rhs bits result = (refl, λ value h. cc, refl)
extract-flags logic lhs rhs bits result = (refl, λ value h. cc, refl)
extract-flags shl lhs rhs bits result =
    (bit_and-one (shr lhs (bits - rhs)), λ value h. ground arith, refl)

bits_of :
    (f : Opcode) (s : Summary)
    → (is_set (packed_of f s) exec_zf ≡ (s.result == 0))
      × (is_set (packed_of f s) exec_cf ≡ cf_of f s)
      × (is_set (packed_of f s) exec_of ≡ of_of f (sign_bit_for_bits s.bits) s)
      × (is_set (packed_of f s) exec_sf ≡ is_set s.result (sign_bit_for_bits s.bits))
      × (is_set (packed_of f s) exec_pf ≡ even_parity8 s.result)
      × (is_set (packed_of f s) exec_af ≡ af_of f s)
bits_of f s = pack-bits _ _ _ _ _ _

flag_bit :
    {f : Opcode} (is : IsFlagsOp f) (o : Opcode) (out src : IrType) (lhs rhs bits result value : ℕ)
    → extract o (summary f lhs rhs bits result) ≡ some value
    → unary_result o out src (packed_of f (summary f lhs rhs bits result)) ≡ ret value
unfolding extract unary_result
flag_bit {f} is Opcode.flag_zf out src lhs rhs bits result value x =
    rw ((bits_of f (summary f lhs rhs bits result)).0) (ap ret cc)
flag_bit {f} is Opcode.flag_cf out src lhs rhs bits result value x =
    rw ((bits_of f (summary f lhs rhs bits result)).1)
      (ap ret (sym (extract-flags is lhs rhs bits result).0 ∙ cc))
flag_bit {f} is Opcode.flag_of out src lhs rhs bits result value x =
    rw ((bits_of f (summary f lhs rhs bits result)).2)
      (ap ret ((extract-flags is lhs rhs bits result).1 value x))
flag_bit {f} is Opcode.flag_sf out src lhs rhs bits result value x =
    rw ((bits_of f (summary f lhs rhs bits result)).3) (ap ret cc)
flag_bit {f} is Opcode.flag_pf out src lhs rhs bits result value x =
    rw ((bits_of f (summary f lhs rhs bits result)).4) (ap ret cc)
flag_bit {f} is Opcode.flag_af out src lhs rhs bits result value x =
    rw ((bits_of f (summary f lhs rhs bits result)).5)
      (ap ret (sym (extract-flags is lhs rhs bits result).2 ∙ cc))
flag_bit is _ out src lhs rhs bits result value x = absurd (cc)

-- The flag that the folder extracts from a summary of flags whose operands are masked to their width
-- is the bit that the executor extracts from the packed flags of the same operation and operands, for
-- every operation of flags and every flag that the folder extracts.
pub extract-unary_result :
    (f o : Opcode) (out src : IrType) (lhs rhs bits result value : ℕ)
    → IsFlagsOp f
    → bit_and lhs (mask_for_bits bits) ≡ lhs
    → bit_and rhs (mask_for_bits bits) ≡ rhs
    → summary_result f lhs rhs bits ≡ some result
    → extract o (record { opcode = f; bits = bits; lhs = lhs; rhs = rhs; result = result })
      ≡ some value
    → unary_result o out src (packed_flags f lhs rhs bits) ≡ ret value
extract-unary_result f o out src lhs rhs bits result value is l r e x =
    ap (unary_result o out src) (packed_flags-pack is lhs rhs bits result l r e)
    ∙ flag_bit is o out src lhs rhs bits result value x
