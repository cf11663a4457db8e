-- ===== src/X86/Reads.antt =====
-- What a decoder of src/xair_x86_decode.c reads: a bounded number of bytes that are there, and no
-- other byte matters.
use xair.Prelude.{
  ℕ, zero, suc, ◌+◌, ◌≤◌, ◌<◌, ◌≡◌, refl, sym, ap, subst, ◌∙◌, Bool, true, false, Option, none,
  some, List, [], ◌∷◌, ◌⊎◌, arith, length, get_elem?, lt_of_get_elem?, inl, inr, if◌then◌else◌,
}
use xair.X86.Reader.{
  Outcome, done, unsupported, short, bad_arg, Decoder, ◌>>=◌, and_decode, give, refuse, taken,
  read_u8, read_le32, read_le64,
}

-- The first `n` bytes are the same.
abbrev pub Agree : (n : ℕ) → List ℕ → List ℕ → Type 0
Agree n xs ys = (i : ℕ) → i < n → get_elem? xs i ≡ get_elem? ys i

pub Agree-le : (m n : ℕ) (xs ys : List ℕ) → m ≤ n → Agree n xs ys → Agree m xs ys
Agree-le m n xs ys h same i below = same i (omega arith)

-- From a result: its property, the bounds of what was read, and the same result on all bytes that
-- agree up to the end. Bytes that stop before the end are too short.
pub record Read {A : Type 0} (P : A → ℕ → Type 0) (most : ℕ) (p : Decoder A) (bytes : List ℕ)
    (offset : ℕ) (a : A) (end : ℕ) : Type 0 where
  pub holds : P a end
  pub forward : offset ≤ end
  pub bounded : end ≤ offset + most
  pub inside : offset ≤ length bytes → end ≤ length bytes
  pub local : (bytes' : List ℕ) → Agree end bytes bytes' → p bytes' offset ≡ done a end
  pub cut :
      (bytes' : List ℕ)
      → Agree (length bytes') bytes bytes'
      → offset ≤ length bytes'
      → length bytes' < end
      → p bytes' offset ≡ short

pub record Reads {A : Type 0} (P : A → ℕ → Type 0) (most : ℕ) (p : Decoder A) : Type 0 where
  pub run :
      (bytes : List ℕ) (offset : ℕ) (a : A) (end : ℕ)
      → p bytes offset ≡ done a end
      → Read P most p bytes offset a end

get_elem?-past : (xs : List ℕ) (i : ℕ) → length xs ≤ i → get_elem? xs i ≡ none
get_elem?-past [] i h = refl
get_elem?-past (x ∷ xs) zero h = absurd (omega arith)
get_elem?-past (x ∷ xs) (suc i) h = get_elem?-past xs i (omega arith)

pub lt_cases : (m n : ℕ) → (m < n) ⊎ (n ≤ m)
lt_cases m n = omega arith

value_of : {A : Type 0} → A → Outcome A → A
value_of d (done a end) = a
value_of d _ = d

abbrev pub end_of : {A : Type 0} → Outcome A → ℕ
end_of (done a end) = end
end_of _ = 0

pub give-Reads :
    {A : Type 0} {P : A → ℕ → Type 0} (a : A) (most : ℕ)
    → ((end : ℕ) → P a end)
    → Reads P most (give a)
unfolding value_of
give-Reads {P} a most h = record {
  run = λ bytes offset b end e.
      let same : a ≡ b = ap (value_of a) e in
      let stay : offset ≡ end = ap end_of e in
      record {
        holds = subst (λ x. P x end) same (h end);
        forward = omega arith;
        bounded = omega arith;
        inside = λ k. omega arith;
        local = λ bytes' agree. e;
        cut = λ bytes' agree start ends. absurd (omega arith);
      };
}

pub refuse-Reads :
    {A : Type 0} {P : A → ℕ → Type 0} (opcode opcode2 most : ℕ)
    → Reads P most (refuse opcode opcode2)
refuse-Reads opcode opcode2 most = record {
  run =
      λ bytes offset b end e. absurd (let bad : unsupported opcode opcode2 ≡ done b end = e in cc);
}

pub short-Reads :
    {A : Type 0} {P : A → ℕ → Type 0} (most : ℕ) → Reads P most (λ bytes offset. short)
short-Reads most = record {
  run = λ bytes offset b end e. absurd (let bad : short ≡ done b end = e in cc);
}

pub if-Reads :
    {A : Type 0} {P : A → ℕ → Type 0} {most : ℕ} (b : Bool) {p q : Decoder A}
    → Reads P most p
    → Reads P most q
    → Reads P most (if b then p else q)
if-Reads true hp hq = hp
if-Reads false hp hq = hq

pub if_known-Reads :
    {A : Type 0} {P : A → ℕ → Type 0} {most : ℕ} (b : Bool) {p q : Decoder A}
    → (b ≡ true → Reads P most p)
    → Reads P most q
    → Reads P most (if b then p else q)
if_known-Reads true hp hq = hp refl
if_known-Reads false hp hq = hq

-- The parts of a chain that has a result.
pub and_decode-eq :
    {A B : Type 0} (bytes : List ℕ) (o : Outcome A) (next : A → Decoder B) {b : B} {end : ℕ}
    → and_decode bytes o next ≡ done b end
    → (a : A) × (mid : ℕ) × (o ≡ done a mid) × (next a bytes mid ≡ done b end)
and_decode-eq bytes (done a mid) next h = (a, mid, refl, h)
and_decode-eq bytes (unsupported opcode opcode2) next h = cc
and_decode-eq bytes short next h = cc
and_decode-eq bytes bad_arg next h = cc

pub bind-Reads :
    {A B : Type 0} {P : A → ℕ → Type 0} {Q : B → ℕ → Type 0} {m n most : ℕ} {p : Decoder A}
    {k : A → Decoder B}
    → m + n ≤ most
    → Reads P m p
    → ((a : A) (mid : ℕ) → P a mid → Reads Q n (k a))
    → Reads Q most (p >>= k)
bind-Reads {P} {Q} {m} {n} {most} {p} {k} fits hp hk = record {
  run = λ bytes offset b end e.
      let (a, mid, e1, e2) = and_decode-eq bytes (p bytes offset) k e in
      let first = hp.run bytes offset a mid e1 in
      let second = (hk a mid first.holds).run bytes mid b end e2 in
      record {
        holds = second.holds;
        forward = omega (arith, first.forward, second.forward);
        bounded = omega (arith, first.bounded, second.bounded);
        inside = λ start. second.inside (first.inside start);
        local = λ bytes' agree.
            ap (λ o. and_decode bytes' o k)
              (first.local bytes' (Agree-le mid end bytes bytes' second.forward agree))
            ∙ second.local bytes' agree;
        cut = λ bytes' agree start ends. elim (lt_cases (length bytes') mid) [
          | inl before ↦ ap (λ o. and_decode bytes' o k) (first.cut bytes' agree start before)
          | inr past ↦
              ap (λ o. and_decode bytes' o k)
                (first.local bytes' (Agree-le mid (length bytes') bytes bytes' past agree))
              ∙ second.cut bytes' agree past ends
        ];
      };
}

pub taken-eq :
    {A : Type 0} (o : Option A) (offset : ℕ) {a : A} {end : ℕ}
    → taken o offset ≡ done a end
    → (o ≡ some a) × (offset + 1 ≡ end)
unfolding value_of
taken-eq none offset h = cc
taken-eq (some b) offset h = (ap some (ap (value_of b) h), ap end_of h)

pub read_u8-Reads : Reads (λ b end. Unit {0}) 1 read_u8
unfolding read_u8
read_u8-Reads = record {
  run = λ bytes offset b end e.
      let (at, next) = taken-eq (get_elem? bytes offset) offset e in
      let here : offset < length bytes = lt_of_get_elem? bytes offset at in
      record {
        holds = tt;
        forward = omega arith;
        bounded = omega arith;
        inside = λ start. omega arith;
        local = λ bytes' agree. ap (λ o. taken o offset) (sym (agree offset (omega arith))) ∙ e;
        cut = λ bytes' agree start ends.
            ap (λ o. taken o offset) (get_elem?-past bytes' offset (omega arith));
      };
}

pub read_le32-Reads : Reads (λ v end. Unit {0}) 4 read_le32
unfolding read_le32
read_le32-Reads = bind-Reads {n = 3} (omega arith) read_u8-Reads λ b0 _ _.
    bind-Reads {n = 2} (omega arith) read_u8-Reads λ b1 _ _.
      bind-Reads {n = 1} (omega arith) read_u8-Reads
        λ b2 _ _. bind-Reads {n = 0} (omega arith) read_u8-Reads λ b3 _ _. give-Reads _ 0 λ end. tt

pub read_le64-Reads : Reads (λ v end. Unit {0}) 8 read_le64
unfolding read_le64
read_le64-Reads =
    bind-Reads {n = 4} (omega arith) read_le32-Reads
      λ lo _ _. bind-Reads {n = 0} (omega arith) read_le32-Reads λ hi _ _. give-Reads _ 0 λ end. tt

pub mono-Reads :
    {A : Type 0} {P Q : A → ℕ → Type 0} {most : ℕ} {p : Decoder A}
    → ((a : A) (end : ℕ) → P a end → Q a end)
    → Reads P most p
    → Reads Q most p
mono-Reads weaken h = record {
  run = λ bytes offset a end e.
      let r = h.run bytes offset a end e in
      record {
        holds = weaken a end r.holds;
        forward = r.forward;
        bounded = r.bounded;
        inside = r.inside;
        local = r.local;
        cut = r.cut;
      };
}

pub more-Reads :
    {A : Type 0} {P : A → ℕ → Type 0} {m n : ℕ} {p : Decoder A} → m ≤ n → Reads P m p → Reads P n p
more-Reads fits h = record {
  run = λ bytes offset a end e.
      let r = h.run bytes offset a end e in
      record {
        holds = r.holds;
        forward = r.forward;
        bounded = omega (arith, r.bounded);
        inside = r.inside;
        local = r.local;
        cut = r.cut;
      };
}
