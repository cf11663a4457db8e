-- ===== src/Exec/Scalar.antt =====
-- Masks, sign bits and comparisons on uint64_t, of src/xair.c.
use xair.Prelude.{
  ℕ, ◌-◌, ◌%◌, ◌^◌, ◌≤◌, ◌<◌, ◌≡◌, ap, ◌∙◌, Bool, true, false, ◌&&◌, ◌||◌, not, bit_and, bit_xor,
  arith, ltb, leb, ◌==◌, if◌then◌else◌,
}
use xair.Prelude.Bits.{bit_and-mask}
use xair.Prelude.Words.{size_max, shl64, shr}
use xair.Ir.Types.{IrType, is_int, is_addr}
use native.Mathlib.Nat.{pow-le-pow_right, mod-mod}
use native.Mathlib.Decide.{dec_le}

unfoldable pub mask_for_bits : ℕ → ℕ
mask_for_bits bits = if leb 64 bits then size_max else shl64 1 bits - 1

-- For a width from 1 to 64.
unfoldable pub sign_bit_for_bits : ℕ → ℕ
sign_bit_for_bits bits = if bits == 64 then shl64 1 63 else shl64 1 (bits - 1)

unfoldable pub truncate_to_type : ℕ → IrType → ℕ
truncate_to_type value type =
    if not (is_int type) && not (is_addr type)
    then value
    else bit_and value (mask_for_bits type.bits)

abbrev pub bool_u64 : Bool → ℕ
bool_u64 true = 1
bool_u64 false = 0

abbrev pub is_set : ℕ → ℕ → Bool
is_set value bit = not (bit_and value bit == 0)

abbrev pub differ : Bool → Bool → Bool
differ true b = not b
differ false b = b

unfoldable pub signed_less_u64 : (lhs rhs bits : ℕ) → Bool
signed_less_u64 lhs rhs bits =
    let sign = sign_bit_for_bits bits in
    let l = bit_and lhs (mask_for_bits bits) in
    let r = bit_and rhs (mask_for_bits bits) in
    if differ (is_set l sign) (is_set r sign) then is_set l sign else ltb l r

unfoldable pub even_parity8 : ℕ → Bool
even_parity8 value =
    let byte = bit_and value 0xff in
    let folded = bit_and (bit_xor byte (shr byte 4)) 0x0f in bit_and (shr 0x6996 folded) 1 == 0

-- A mask is a remainder.
mask_narrow : (bits : ℕ) → bits < 64 → mask_for_bits bits ≡ 2 ^ bits - 1
unfolding mask_for_bits
mask_narrow bits h =
    let narrow : leb 64 bits ≡ false = ground arith in
    let small : 2 ^ bits ≤ 2 ^ 63 =
      pow-le-pow_right {n = 2} (omega arith) {i = bits} {j = 63} (omega arith) in
    rw narrow (omega arith)

pub and_mask_narrow : (x bits : ℕ) → bits < 64 → bit_and x (mask_for_bits bits) ≡ x % 2 ^ bits
and_mask_narrow x bits h = ap (bit_and x) (mask_narrow bits h) ∙ bit_and-mask bits x

pub and_mask_wide : (x bits : ℕ) → 64 ≤ bits → bit_and x (mask_for_bits bits) ≡ x % 2 ^ 64
unfolding mask_for_bits
and_mask_wide x bits h = let wide : leb 64 bits ≡ true = ground arith in rw wide (bit_and-mask 64 x)

-- Masking twice is masking once.
pub and_mask_twice :
    (x bits : ℕ)
    → bit_and (bit_and x (mask_for_bits bits)) (mask_for_bits bits) ≡ bit_and x (mask_for_bits bits)
and_mask_twice x bits = elim (dec_le 64 bits) [
  | yes h ↦ rw (and_mask_wide x bits h, and_mask_wide (x % 2 ^ 64) bits h) (omega arith)
  | no h ↦
      let n : bits < 64 = omega arith in
      rw (and_mask_narrow x bits n, and_mask_narrow (x % 2 ^ bits) bits n) (mod-mod x (2 ^ bits))
]

pub truncate_twice :
    (x : ℕ) (type : IrType)
    → truncate_to_type (truncate_to_type x type) type ≡ truncate_to_type x type
unfolding truncate_to_type
truncate_twice x type = ground (arith, and_mask_twice x type.bits)

-- The truncation of a scalar is already masked.
pub truncate_masked :
    (x : ℕ) (type : IrType)
    → (is_int type || is_addr type) ≡ true
    → bit_and (truncate_to_type x type) (mask_for_bits type.bits) ≡ truncate_to_type x type
unfolding truncate_to_type
truncate_masked x type h = ground (arith, and_mask_twice x type.bits)
