-- ===== src/Status.antt =====
-- xair_status of include/xair/xair.h. XAIR_OK is `ret`, with the value of the out parameter; the
-- other codes are the constructors of `Error`.
use xair.Prelude.{Bool, ◌≡◌, ◌⊎◌, inl, inr, refl}

pub data Error : Type 0 where
  oom bad_arg range verify unsupported : Error

pub data Result {ℓ} (A : Type ℓ) : Type ℓ where
  ret : A → Result A
  err : Error → Result A

-- A call whose error is returned, as in `if (status != XAIR_OK) return status;`.
infixl 5 ◌>>=◌
infixl 5 ◌>>◌
abbrev pub ◌>>=◌ {ℓ κ} :
    {First : Type ℓ} {Second : Type κ} → Result First → (First → Result Second) → Result Second
err status >>= next = err status
ret value >>= next = next value

abbrev pub ◌>>◌ {ℓ} : {Second : Type ℓ} → Result (Unit {0}) → Result Second → Result Second
check >> next = check >>= (λ done. next)

-- `if (b) return e;`
abbrev pub reject_if : Bool → Error → Result (Unit {0})
reject_if b e = elim b [ Bool.true ↦ err e | Bool.false ↦ ret tt ]

-- Where a chain succeeds, so has its first call, and the rest from there.
pub >>=-eq-ret {ℓ κ} :
    {First : Type ℓ} {Second : Type κ} (first : Result First) (next : First → Result Second)
    {out : Second}
    → (first >>= next) ≡ ret out
    → (value : First) × (first ≡ ret value) × (next value ≡ ret out)
>>=-eq-ret (err status) next h = cc
>>=-eq-ret (ret value) next h = (value, refl, h)

pub Result-cases {ℓ} :
    {A : Type ℓ} (r : Result A) → ((e : Error) × (r ≡ err e)) ⊎ ((a : A) × (r ≡ ret a))
Result-cases (err e) = inl (e, refl)
Result-cases (ret a) = inr (a, refl)

-- Where a chain succeeds, so has its first test.
pub reject_if-eq-ret :
    {A : Type 0} (b : Bool) (e : Error) (next : Result A) {a : A}
    → (reject_if b e >> next) ≡ ret a
    → (b ≡ Bool.false) × (next ≡ ret a)
reject_if-eq-ret Bool.true e next h = cc
reject_if-eq-ret Bool.false e next h = (refl, h)
