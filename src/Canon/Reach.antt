-- ===== src/Canon/Reach.antt =====
-- What mark_live_value of src/xair.c marks: the values that can be reached over the sources of the
-- operations that define them.
use xair.Prelude.{
  ℕ, zero, suc, ◌≡◌, ◌≤◌, ◌<◌, ◌⊎◌, inl, inr, refl, sym, ap, subst, ◌∙◌, true, false, ◌||◌, not,
  List, [], ◌∷◌, ◌++◌, arith, ◌==◌, length, set, length-set, get_elem?-set_self, get_elem?-set_ne,
  Bool-cases,
}
use mathlib.Core.List.{Memᴰ}
use mathlib.Core.List.Memᴰ
use xair.Module.Data.{Module, count, valid_value}
use xair.Verify.Blocks.{Marks, is_marked, mark_or_false}
use xair.Canon.Live.{uses, mark_each, mark_live_value}

-- A valid value among the roots, or among the sources of one that is reached.
pub data Reach (m : Module) (roots : List ℕ) : ℕ → Type 0 where
  root : {v : ℕ} → Memᴰ v roots → valid_value m v ≡ true → Reach m roots v
  source :
      {w v : ℕ} → Reach m roots w → Memᴰ v (uses m w) → valid_value m v ≡ true → Reach m roots v

abbrev pub unmarked : Marks → ℕ
unmarked [] = 0
unmarked (true ∷ marks) = unmarked marks
unmarked (false ∷ marks) = suc (unmarked marks)

-- The marks `live'` are `live` and what is reached from the roots.
pub record Explores (m : Module) (roots : List ℕ) (live live' : Marks) : Type 0 where
  pub grows : (v : ℕ) → is_marked live v ≡ true → is_marked live' v ≡ true
  pub only : (v : ℕ) → is_marked live' v ≡ true → (is_marked live v ≡ true) ⊎ Reach m roots v
  pub all_roots : (v : ℕ) → Memᴰ v roots → valid_value m v ≡ true → is_marked live' v ≡ true
  pub closed :
      (w : ℕ)
      → is_marked live' w ≡ true
      → (is_marked live w ≡ true)
        ⊎ ((v : ℕ) → Memᴰ v (uses m w) → valid_value m v ≡ true → is_marked live' v ≡ true)
  pub size : length live' ≡ length live
  pub left : unmarked live' ≤ unmarked live

module _ (m : Module) where
  Reach-monotone :
      (roots roots' : List ℕ)
      → ((v : ℕ) → Memᴰ v roots → valid_value m v ≡ true → Reach m roots' v)
      → (v : ℕ) → Reach m roots v
      → Reach m roots' v
  Reach-monotone roots roots' h v (root i ok) = h v i ok
  Reach-monotone roots roots' h v (source {w} r i ok) =
      source (Reach-monotone roots roots' h w r) i ok

  -- Nothing to explore.
  pub none-Explores : (live : Marks) → Explores m [] live live
  none-Explores live = record {
    grows = λ v h. h;
    only = λ v h. inl h;
    all_roots = λ v i ok. elim i [ ];
    closed = λ w h. inl h;
    size = refl;
    left = omega arith;
  }

  pub Explores-trans :
      (xs ys : List ℕ) (a b c : Marks)
      → Explores m xs a b
      → Explores m ys b c
      → Explores m (xs ++ ys) a c
  Explores-trans xs ys a b c p q = record {
    grows = λ v h. q.grows v (p.grows v h);
    only = λ v h. elim (q.only v h) [
      | inl k ↦ elim (p.only v k) [
        | inl k ↦ inl k
        | inr r ↦ inr (Reach-monotone xs (xs ++ ys) (λ v i ok. root (Memᴰ.append_left ys i) ok) v r)
      ]
      | inr r ↦ inr (Reach-monotone ys (xs ++ ys) (λ v i ok. root (Memᴰ.append_right xs i) ok) v r)
    ];
    all_roots = λ v i ok. elim (Memᴰ.append_cases xs i) [
      | inl j ↦ q.grows v (p.all_roots v j ok)
      | inr j ↦ q.all_roots v j ok
    ];
    closed = λ w h. elim (q.closed w h) [
      | inl k ↦ elim (p.closed w k) [ inl k ↦ inl k | inr k ↦ inr (λ v i ok. q.grows v (k v i ok)) ]
      | inr k ↦ inr k
    ];
    size = q.size ∙ p.size;
    left = omega (arith, p.left, q.left);
  }

  -- A root that is no value, or is marked, needs nothing.
  skip-Explores :
      (live : Marks) (value : ℕ)
      → (not (valid_value m value) || is_marked live value) ≡ true
      → Explores m (value ∷ []) live live
  skip-Explores live value h = record {
    grows = λ v k. k;
    only = λ v k. inl k;
    all_roots = λ v i ok.
        let same = Memᴰ.eq_of_singleton i in
        let ok' : valid_value m value ≡ true = ap (valid_value m) (sym same) ∙ ok in
        ap (is_marked live) same ∙ (let k : is_marked live value ≡ true = ground arith in k);
    closed = λ w k. inl k;
    size = refl;
    left = omega arith;
  }

  marked_cases :
      (live : Marks) (value v : ℕ)
      → is_marked (set live value true) v ≡ true
      → (v ≡ value) ⊎ (is_marked live v ≡ true)
  marked_cases live value v h = elim (Bool-cases (value == v)) [
    | inl e ↦ inl (ground arith)
    | inr e ↦
        inr (ap mark_or_false (sym (get_elem?-set_ne live value v true (λ same. ground arith))) ∙ h)
  ]

  set-grows :
      (live : Marks) (value v : ℕ)
      → value < length live
      → is_marked live v ≡ true
      → is_marked (set live value true) v ≡ true
  set-grows live value v below h = elim (Bool-cases (value == v)) [
    | inl e ↦
        let same : value ≡ v = ground arith in
        subst (λ u. is_marked (set live value true) u ≡ true) same
          (ap mark_or_false (get_elem?-set_self live value true below))
    | inr e ↦ ap mark_or_false (get_elem?-set_ne live value v true (λ same. ground arith)) ∙ h
  ]

  unmarked-set :
      (live : Marks) (value : ℕ)
      → value < length live
      → is_marked live value ≡ false
      → suc (unmarked (set live value true)) ≡ unmarked live
  unmarked-set [] value below h = absurd (omega arith)
  unmarked-set (true ∷ live) zero below h = cc
  unmarked-set (false ∷ live) zero below h = refl
  unmarked-set (true ∷ live) (suc value) below h = unmarked-set live value (omega arith) h
  unmarked-set (false ∷ live) (suc value) below h = ap suc (unmarked-set live value (omega arith) h)

  -- A value that is marked first, and then what its sources reach.
  node-Explores :
      (live live' : Marks) (value : ℕ)
      → valid_value m value ≡ true
      → value < length live
      → is_marked live value ≡ false
      → Explores m (uses m value) (set live value true) live'
      → Explores m (value ∷ []) live live'
  node-Explores live live' value ok below fresh e = record {
    grows = λ v h. e.grows v (set-grows live value v below h);
    only = λ v h. elim (e.only v h) [
      | inl k ↦ elim (marked_cases live value v k) [
        | inl same ↦ inr (subst (Reach m (value ∷ [])) (sym same) (root (Memᴰ.head refl) ok))
        | inr k ↦ inl k
      ]
      | inr r ↦ inr (
          Reach-monotone (uses m value) (value ∷ [])
            (λ v i ok'. source (root (Memᴰ.head refl) ok) i ok') v r)
    ];
    all_roots = λ v i ok'.
        subst (λ u. is_marked live' u ≡ true) (sym (Memᴰ.eq_of_singleton i))
          (e.grows value (ap mark_or_false (get_elem?-set_self live value true below)));
    closed = λ w h. elim (e.closed w h) [
      | inl k ↦ elim (marked_cases live value w k) [
        | inl same ↦ inr (λ v i ok'. e.all_roots v (subst (λ u. Memᴰ v (uses m u)) same i) ok')
        | inr k ↦ inl k
      ]
      | inr k ↦ inr k
    ];
    size = e.size ∙ length-set live value true;
    left = omega (arith, e.left, unmarked-set live value below fresh);
  }

  pub mark_each-Explores :
      (mark : Marks → ℕ → Marks) (bound : ℕ)
      → ((live : Marks) (value : ℕ)
          → unmarked live < bound
          → count m.values ≤ length live
          → Explores m (value ∷ []) live (mark live value))
      → (values : List ℕ) (live : Marks) → unmarked live < bound
      → count m.values ≤ length live
      → Explores m values live (mark_each mark live values)
  mark_each-Explores mark bound h [] live few wide = none-Explores live
  mark_each-Explores mark bound h (value ∷ values) live few wide =
      let first = h live value few wide in
      Explores-trans (value ∷ []) values live (mark live value) _ first (
        mark_each-Explores mark bound h values (mark live value) (omega (arith, first.left))
          (omega (arith, first.size)))

  -- As deep as there are values that are not marked.
  pub mark_live_value-Explores :
      (fuel : ℕ) (live : Marks) (value : ℕ)
      → unmarked live < fuel
      → count m.values ≤ length live
      → Explores m (value ∷ []) live (mark_live_value fuel m live value)
  unfolding mark_live_value
  mark_live_value-Explores zero live value few wide = absurd (omega arith)
  mark_live_value-Explores (suc fuel) live value few wide =
      elim (Bool-cases (not (valid_value m value) || is_marked live value)) [
        | inl e ↦ rw e (skip-Explores live value e)
        | inr e ↦
            let ok : valid_value m value ≡ true = ground arith in
            let fresh : is_marked live value ≡ false = ground arith in
            let below : value < length live = ground arith in
            let fewer = unmarked-set live value below fresh in
            rw e (
              node-Explores live _ value ok below fresh (
                mark_each-Explores (λ live value. mark_live_value fuel m live value) fuel
                  (mark_live_value-Explores fuel) (uses m value) (set live value true) (omega arith)
                  (omega (arith, length-set live value true))))
      ]
