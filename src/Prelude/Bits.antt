-- ===== src/Prelude/Bits.antt =====
-- A mask of low ones takes a remainder, at every width.
use Prim.Native.Nat.{
  ℕ, zero, suc, ◌+◌, ◌-◌, ◌*◌, ◌/◌, ◌%◌, ◌^◌, ◌≤◌, ◌<◌, min, bit_and, digits, bit_and-bitwise,
}
use mathlib.Core.Path.{◌≡◌, refl, ap, ◌∙◌}
use native.Mathlib.Nat.{pow-suc, one-le-pow}
use native.Mathlib.Omega.{arith}

-- What `bit_and` stands for, with its fuel shown.
abbrev conj : (fuel x mask : ℕ) → ℕ
conj = digits (λ mask. zero) min

conj-none : (fuel mask : ℕ) → conj fuel 0 mask ≡ 0
conj-none zero mask = refl
conj-none (suc fuel) mask = refl

-- Any number is peeled at its lowest digit.
conj-peel :
    (fuel x mask : ℕ)
    → conj (suc fuel) x mask ≡ conj fuel (x / 2) (mask / 2) * 2 + min (x % 2) (mask % 2)
conj-peel fuel zero mask = omega (arith, conj-none fuel (mask / 2))
conj-peel fuel (suc x) mask = refl

conj-zero : (fuel x : ℕ) → x ≤ fuel → conj fuel x 0 ≡ 0
conj-zero fuel zero h = conj-none fuel 0
conj-zero (suc fuel) (suc x) h =
    omega (arith, conj-peel fuel (suc x) 0, conj-zero fuel (suc x / 2) (omega arith))
conj-zero zero (suc x) h = absurd (omega arith)

double-high : (high width : ℕ) → high * 2 ^ suc width ≡ 2 * (high * 2 ^ width)
double-high high width = omega (arith, ap (λ (power : ℕ). high * power) (pow-suc 2 width))

-- Of a number that is split at a width, the mask of that width leaves the low part.
conj-low :
    (width high low fuel : ℕ)
    → low < 2 ^ width
    → high * 2 ^ width + low ≤ fuel
    → conj fuel (high * 2 ^ width + low) (2 ^ width - 1) ≡ low
conj-low zero high low fuel narrow h =
    conj-zero fuel (high * 1 + low) (omega arith) ∙ (let e : 0 ≡ low = omega arith in e)
conj-low (suc width) high low fuel narrow h =
    ap (λ x. conj fuel (x + low) (2 ^ suc width - 1)) (double-high high width)
    ∙ peeled fuel (high * 2 ^ width) (omega (arith, double-high high width))
        (conj-low width high (low / 2))
  where
    peeled :
        (fuel part : ℕ)
        → 2 * part + low ≤ fuel
        → ((fuel' : ℕ)
            → low / 2 < 2 ^ width
            → part + low / 2 ≤ fuel'
            → conj fuel' (part + low / 2) (2 ^ width - 1) ≡ low / 2)
        → conj fuel (2 * part + low) (2 ^ suc width - 1) ≡ low
    peeled zero part h rest = omega arith
    peeled (suc fuel') part h rest = ground (
      arith,
      conj-peel fuel' (2 * part + low) (2 ^ suc width - 1),
      rest fuel',
      pow-suc 2 width,
      one-le-pow width 2,
    )

-- The mask of the `k` low bits.
pub bit_and-mask : (k a : ℕ) → bit_and a (2 ^ k - 1) ≡ a % 2 ^ k
bit_and-mask k a =
    ground
      (arith, one-le-pow k 2, bit_and-bitwise a (2 ^ k - 1), conj-low k (a / 2 ^ k) (a % 2 ^ k) a)
