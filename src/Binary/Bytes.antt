-- ===== src/Binary/Bytes.antt =====
-- The reads of src/xair_binary.c from the file's bytes. The buffer is a list, and an access past
-- its end is `fault`, which no error code of the program stands for.
use xair.Prelude.{
  ℕ, ◌+◌, ◌-◌, ◌*◌, ◌^◌, ◌≤◌, ◌<◌, ◌≡◌, refl, Bool, ◌&&◌, some, none, List, bit_or, arith, leb,
  length, get_elem?, get_elem?-lt, [], ◌∷◌, ◌==◌, suc, take, drop, if◌then◌else◌,
}
use xair.Prelude.Words.{u16, u32, u64, add64}
use xair.Status.{Error}

pub data Parse (A : Type 0) : Type 0 where
  ret : A → Parse A
  err : Error → Parse A
  fault : Parse A

infixl 5 ◌>>=◌
abbrev pub ◌>>=◌ : {A B : Type 0} → Parse A → (A → Parse B) → Parse B
ret a >>= f = f a
err e >>= f = err e
fault >>= f = fault

infixl 5 ◌>>◌
abbrev pub ◌>>◌ : {B : Type 0} → Parse (Unit {0}) → Parse B → Parse B
m >> k = m >>= λ _. k

-- `if (b) return e;`
unfoldable pub reject_if : Bool → Error → Parse (Unit {0})
reject_if Bool.true e = err e
reject_if Bool.false e = ret tt

abbrev pub at : List ℕ → ℕ → Parse ℕ
at bytes i = elim (get_elem? bytes i) [ none ↦ fault | some b ↦ ret b ]

unfoldable pub read_le16 : List ℕ → ℕ → Parse ℕ
read_le16 bytes offset = do
  b0 ← at bytes offset
  b1 ← at bytes (add64 offset 1)
  ret (u16 (bit_or b0 (b1 * 2 ^ 8)))

unfoldable pub read_le32 : List ℕ → ℕ → Parse ℕ
read_le32 bytes offset = do
  b0 ← at bytes offset
  b1 ← at bytes (add64 offset 1)
  b2 ← at bytes (add64 offset 2)
  b3 ← at bytes (add64 offset 3)
  ret (u32 (bit_or (bit_or (bit_or b0 (b1 * 2 ^ 8)) (b2 * 2 ^ 16)) (b3 * 2 ^ 24)))

unfoldable pub read_le64 : List ℕ → ℕ → Parse ℕ
read_le64 bytes offset = do
  lo ← read_le32 bytes offset
  hi ← read_le32 bytes (add64 offset 4)
  ret (u64 (bit_or lo (hi * 2 ^ 32)))

-- The bytes from `offset` on are `expected`: memcmp, or comparisons joined by `&&`. The reads stop
-- at the first difference.
unfoldable pub matches : List ℕ → ℕ → List ℕ → Parse Bool
matches bytes offset [] = ret Bool.true
matches bytes offset (x ∷ xs) = do
  b ← at bytes offset
  let rest = matches bytes (add64 offset 1) xs
  if b == x then rest else ret Bool.false

abbrev pub range_ok : ℕ → ℕ → ℕ → Bool
range_ok size offset need = leb offset size && leb need (size - offset)

-- memcpy of `n` bytes from `offset` on
unfoldable pub copy : List ℕ → ℕ → ℕ → Parse (List ℕ)
copy bytes offset n =
    if range_ok (length bytes) offset n then ret (take n (drop offset bytes)) else fault

-- Total correctness of a run: no access out of bounds, and what a success returns.
pub data Ensures {A : Type 0} (P : A → Type 0) : Parse A → Type 0 where
  returns : {a : A} → P a → Ensures P (ret a)
  refuses : {e : Error} → Ensures P (err e)

pub Ensures-bind :
    {A B : Type 0} {P : A → Type 0} {Q : B → Type 0} {m : Parse A} {k : A → Parse B}
    → Ensures P m
    → ((a : A) → P a → Ensures Q (k a))
    → Ensures Q (m >>= k)
Ensures-bind (returns p) next = next _ p
Ensures-bind refuses next = refuses

pub Ensures-mono :
    {A : Type 0} {P Q : A → Type 0} {m : Parse A}
    → Ensures P m
    → ((a : A) → P a → Q a)
    → Ensures Q m
Ensures-mono (returns p) weaken = returns (weaken _ p)
Ensures-mono refuses weaken = refuses

pub Ensures-cases :
    {A : Type 0} {P : A → Type 0} {m : Parse A} (b : Bool)
    → (b ≡ Bool.true → Ensures P m)
    → (b ≡ Bool.false → Ensures P m)
    → Ensures P m
Ensures-cases Bool.true f g = f refl
Ensures-cases Bool.false f g = g refl

pub Ensures-reject :
    {B : Type 0} {Q : B → Type 0} (b : Bool) (e : Error) {k : Parse B}
    → (b ≡ Bool.false → Ensures Q k)
    → Ensures Q (reject_if b e >> k)
unfolding reject_if
Ensures-reject Bool.true e next = refuses
Ensures-reject Bool.false e next = next refl

-- Each read is in bounds if its last byte is.
module _ (bytes : List ℕ) (small : length bytes < 2 ^ 64) where
  pub at-Ensures : (i : ℕ) → i < length bytes → Ensures (λ _. Unit {0}) (at bytes i)
  at-Ensures i h = let (b, e) = get_elem?-lt bytes i h in rw (e, at) (returns tt)

  pub matches-Ensures :
      (o : ℕ) (xs : List ℕ)
      → o + length xs ≤ length bytes
      → Ensures (λ _. Unit {0}) (matches bytes o xs)
  unfolding matches
  matches-Ensures o [] h = returns tt
  matches-Ensures o (x ∷ xs) h = Ensures-bind (at-Ensures o (omega arith)) λ b _.
      Ensures-cases (b == x) (λ e. rw e (matches-Ensures (add64 o 1) xs (next h)))
        λ e. rw e (returns tt)
    where
      next : o + suc (length xs) ≤ length bytes → add64 o 1 + length xs ≤ length bytes
      next h = omega arith

  pub read_le16-Ensures :
      (o : ℕ) → o + 2 ≤ length bytes → Ensures (λ v. v < 2 ^ 16) (read_le16 bytes o)
  unfolding read_le16
  read_le16-Ensures o h =
      Ensures-bind (at-Ensures o (omega arith))
        λ b0 _. Ensures-bind (at-Ensures (add64 o 1) (omega arith)) λ b1 _. returns (omega arith)

  pub read_le32-Ensures :
      (o : ℕ) → o + 4 ≤ length bytes → Ensures (λ v. v < 2 ^ 32) (read_le32 bytes o)
  unfolding read_le32
  read_le32-Ensures o h = Ensures-bind (at-Ensures o (omega arith)) λ b0 _.
      Ensures-bind (at-Ensures (add64 o 1) (omega arith)) λ b1 _.
        Ensures-bind (at-Ensures (add64 o 2) (omega arith))
          λ b2 _. Ensures-bind (at-Ensures (add64 o 3) (omega arith)) λ b3 _. returns (omega arith)

  pub read_le64-Ensures :
      (o : ℕ) → o + 8 ≤ length bytes → Ensures (λ v. v < 2 ^ 64) (read_le64 bytes o)
  unfolding read_le64
  read_le64-Ensures o h = Ensures-bind (read_le32-Ensures o (omega arith)) λ lo _.
      Ensures-bind (read_le32-Ensures (add64 o 4) (omega arith)) λ hi _. returns (omega arith)
