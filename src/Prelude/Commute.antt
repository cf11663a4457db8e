-- ===== src/Prelude/Commute.antt =====
-- The operations on digits are commutative.
use Prim.Native.Nat.{
  ℕ, zero, suc, ◌+◌, ◌*◌, ◌/◌, ◌%◌, ◌≤◌, min, max, differ, bit_and, bit_or, bit_xor, digits,
  bit_and-bitwise, bit_or-bitwise, bit_xor-bitwise,
}
use mathlib.Core.Path.{◌≡◌, refl, sym, ap, ◌∙◌}
use native.Mathlib.Omega.{arith}

-- The operation `f` on digits, where `z` is what is left once the first number ends.
module _ (z : ℕ → ℕ) (f : ℕ → ℕ → ℕ) where
  digits-none : (n b : ℕ) → digits z f n 0 b ≡ z b
  digits-none zero b = refl
  digits-none (suc n) b = refl

  digits_comm :
      ((a b : ℕ) → f a b ≡ f b a)
      → ((n b : ℕ) → b ≤ n → digits z f n b 0 ≡ z b)
      → (m n a b : ℕ) → a ≤ m
      → b ≤ n
      → digits z f m a b ≡ digits z f n b a
  digits_comm c rest m n zero b h k = digits-none m b ∙ sym (rest n b k)
  digits_comm c rest m n (suc a) zero h k = rest m (suc a) h ∙ sym (digits-none n (suc a))
  digits_comm c rest zero n (suc a) (suc b) h k = absurd (omega arith)
  digits_comm c rest (suc m) zero (suc a) (suc b) h k = absurd (omega arith)
  digits_comm c rest (suc m) (suc n) (suc a) (suc b) h k =
      ap (λ x. x * 2 + f (suc a % 2) (suc b % 2))
        (digits_comm c rest m n (suc a / 2) (suc b / 2) (omega arith) (omega arith))
      ∙ ap (λ x. digits z f n (suc b / 2) (suc a / 2) * 2 + x) (c (suc a % 2) (suc b % 2))

and-rest : (n b : ℕ) → b ≤ n → digits (λ b. zero) min n b 0 ≡ 0
and-rest n zero h = digits-none (λ b. zero) min n 0
and-rest zero (suc b) h = absurd (omega arith)
and-rest (suc n) (suc b) h = let below = and-rest n (suc b / 2) (omega arith) in omega arith

or-rest : (n b : ℕ) → b ≤ n → digits (λ b. b) max n b 0 ≡ b
or-rest n zero h = digits-none (λ b. b) max n 0
or-rest zero (suc b) h = absurd (omega arith)
or-rest (suc n) (suc b) h = let below = or-rest n (suc b / 2) (omega arith) in omega arith

differ-zero : (a : ℕ) → differ a 0 ≡ a
differ-zero zero = refl
differ-zero (suc a) = refl

differ_comm : (a b : ℕ) → differ a b ≡ differ b a
differ_comm zero b = sym (differ-zero b)
differ_comm (suc a) zero = refl
differ_comm (suc a) (suc b) = differ_comm a b

xor-rest : (n b : ℕ) → b ≤ n → digits (λ b. b) differ n b 0 ≡ b
xor-rest n zero h = digits-none (λ b. b) differ n 0
xor-rest zero (suc b) h = absurd (omega arith)
xor-rest (suc n) (suc b) h =
    let below = xor-rest n (suc b / 2) (omega arith) in omega (arith, differ-zero (suc b % 2))

pub bit_and_comm : (a b : ℕ) → bit_and a b ≡ bit_and b a
bit_and_comm a b =
    bit_and-bitwise a b
    ∙ digits_comm (λ b. zero) min (λ x y. omega arith) and-rest a b a b (omega arith) (omega arith)
    ∙ sym (bit_and-bitwise b a)

pub bit_or_comm : (a b : ℕ) → bit_or a b ≡ bit_or b a
bit_or_comm a b =
    bit_or-bitwise a b
    ∙ digits_comm (λ b. b) max (λ x y. omega arith) or-rest a b a b (omega arith) (omega arith)
    ∙ sym (bit_or-bitwise b a)

pub bit_xor_comm : (a b : ℕ) → bit_xor a b ≡ bit_xor b a
bit_xor_comm a b =
    bit_xor-bitwise a b
    ∙ digits_comm (λ b. b) differ differ_comm xor-rest a b a b (omega arith) (omega arith)
    ∙ sym (bit_xor-bitwise b a)
