-- ===== src/Canon/Swap.antt =====
-- The commutative operations of the executor in src/xair.c give the same result for operands in either
-- order.
use xair.Prelude.{
  ℕ, ◌+◌, ◌-◌, ◌%◌, ◌^◌, ◌≡◌, ◌≤◌, ◌<◌, refl, sym, ap, ◌∙◌, Bool, true, not, arith, bit_and, ltb,
  ◌==◌,
}
use xair.Prelude.Commute.{bit_and_comm, bit_or_comm, bit_xor_comm}
use xair.Prelude.Words.{add64, mul64}
use xair.Status.{ret}
use xair.Ir.Types.{IrType}
use xair.Ir.Opcode.{Opcode, op_is_commutative}
use xair.Exec.Scalar.{
  mask_for_bits, sign_bit_for_bits, and_mask_narrow, and_mask_wide, is_set, bool_u64,
}
use xair.Exec.Flags.{exec_flags, overflow_of}
use xair.Exec.Op.{binary_result}
use native.Mathlib.Nat.{pow-le-pow_right, mod-eq_of_lt, mod-eq-sub-mod, one-le-pow, mod-lt}
use native.Mathlib.Decide.{dec_le}

-- Below the modulus, a sum that wraps is less than either term, and one that does not is less than
-- neither.
wraps_below : (l r p : ℕ) → l < p → r < p → ltb ((l + r) % p) l ≡ ltb ((l + r) % p) r
wraps_below l r p h k = elim (dec_le p (l + r)) [
  | yes c ↦
      let e : (l + r) % p ≡ l + r - p = mod-eq-sub-mod c ∙ mod-eq_of_lt (omega arith) in
      rw e (ground arith)
  | no c ↦ let e : (l + r) % p ≡ l + r = mod-eq_of_lt (omega arith) in rw e (ground arith)
]

-- The carry of a sum of two masked numbers.
carry_comm :
    (a b bits : ℕ)
    → ltb
        (bit_and
          (add64 (bit_and a (mask_for_bits bits)) (bit_and b (mask_for_bits bits)))
          (mask_for_bits bits))
        (bit_and a (mask_for_bits bits))
      ≡ ltb
          (bit_and
            (add64 (bit_and a (mask_for_bits bits)) (bit_and b (mask_for_bits bits)))
            (mask_for_bits bits))
          (bit_and b (mask_for_bits bits))
carry_comm a b bits = elim (dec_le 64 bits) [
  | yes h ↦
      rw
        (
          and_mask_wide a bits h,
          and_mask_wide b bits h,
          and_mask_wide (add64 (a % 2 ^ 64) (b % 2 ^ 64)) bits h,
        )
        (ground arith)
  | no h ↦
      let n : bits < 64 = omega arith in
      let small : 2 ^ bits ≤ 2 ^ 63 =
        pow-le-pow_right {n = 2} (omega arith) {i = bits} {j = 63} (omega arith) in
      let positive : 0 < 2 ^ bits = one-le-pow bits 2 (omega arith) in
      let below_a : a % 2 ^ bits < 2 ^ bits = mod-lt a positive in
      let below_b : b % 2 ^ bits < 2 ^ bits = mod-lt b positive in
      let whole : add64 (a % 2 ^ bits) (b % 2 ^ bits) ≡ a % 2 ^ bits + b % 2 ^ bits =
        mod-eq_of_lt (omega arith) in
      rw
        (
          and_mask_narrow a bits n,
          and_mask_narrow b bits n,
          whole,
          and_mask_narrow (a % 2 ^ bits + b % 2 ^ bits) bits n,
        )
        (wraps_below (a % 2 ^ bits) (b % 2 ^ bits) (2 ^ bits) below_a below_b)
]

overflow_comm : (l r s : Bool) → overflow_of true l r s ≡ overflow_of true r l s
overflow_comm l r s = ground arith

exec_flags_comm :
    (a b bits : ℕ) → exec_flags Opcode.flags_add a b bits ≡ exec_flags Opcode.flags_add b a bits
unfolding exec_flags
exec_flags_comm a b bits =
    let mask = mask_for_bits bits in
    let l = bit_and a mask in
    let r = bit_and b mask in
    let sum : add64 r l ≡ add64 l r =
      ap (λ x. x % 2 ^ 64) (let e : r + l ≡ l + r = omega arith in e) in
    rw
      (
        sum,
        bit_xor_comm r l,
        sym (carry_comm a b bits),
        overflow_comm (is_set l (sign_bit_for_bits bits)) (is_set r (sign_bit_for_bits bits))
            (is_set (bit_and (add64 l r) mask) (sign_bit_for_bits bits)),
      )
      refl

mul64_comm : (a b : ℕ) → mul64 a b ≡ mul64 b a
mul64_comm a b = ap (λ x. x % 2 ^ 64) (omega arith)

add64_comm : (a b : ℕ) → add64 a b ≡ add64 b a
add64_comm a b = ap (λ x. x % 2 ^ 64) (omega arith)

==_comm : (a b : ℕ) → (a == b) ≡ (b == a)
==_comm a b = ground arith

pub binary_result_comm :
    (opcode : Opcode) (out type : IrType) (lhs rhs : ℕ)
    → op_is_commutative opcode ≡ true
    → binary_result opcode out type type lhs rhs ≡ binary_result opcode out type type rhs lhs
unfolding binary_result
binary_result_comm Opcode.add out type lhs rhs h = ap ret (add64_comm lhs rhs)
binary_result_comm Opcode.mul out type lhs rhs h = ap ret (mul64_comm lhs rhs)
binary_result_comm Opcode.and out type lhs rhs h = ap ret (bit_and_comm lhs rhs)
binary_result_comm Opcode.or out type lhs rhs h = ap ret (bit_or_comm lhs rhs)
binary_result_comm Opcode.xor out type lhs rhs h = ap ret (bit_xor_comm lhs rhs)
binary_result_comm Opcode.eq out type lhs rhs h = ap (λ b. ret (bool_u64 b)) (==_comm lhs rhs)
binary_result_comm Opcode.ne out type lhs rhs h = ap (λ b. ret (bool_u64 (not b))) (==_comm lhs rhs)
binary_result_comm Opcode.flags_add out type lhs rhs h = rw (exec_flags_comm lhs rhs type.bits) refl
binary_result_comm _ out type lhs rhs h = cc
