-- ===== src/Canon/Roots.antt =====
-- The marks of eliminate_dead_values of src/xair.c: exactly the values that the parameters and the
-- terminators of the blocks need.
use xair.Prelude.{
  ℕ, suc, ◌+◌, ◌≡◌, ◌≤◌, ◌↔◌, inl, inr, true, false, List, [], ◌∷◌, ◌++◌, arith, length, replicate,
  length-replicate, if◌then◌else◌, ◌==◌,
}
use xair.Module.Data.{Module, BlockRec, count}
use xair.Verify.Blocks.{Marks, is_marked}
use xair.Canon.Live.{
  mark_each, mark_live, term_uses, mark_term_live_values, mark_blocks, live_values,
}
use xair.Canon.Reach.{
  Reach, root, source, Explores, unmarked, none-Explores, Explores-trans, mark_each-Explores,
  mark_live_value-Explores,
}
use xair.Sound.Verified.{blank-clear}

abbrev pub roots_of : Module → List BlockRec → List ℕ
roots_of m [] = []
roots_of m (block ∷ blocks) =
    (block.params.items ++ term_uses m block.term block.term.kind) ++ roots_of m blocks

unmarked-le : (live : Marks) → unmarked live ≤ length live
unmarked-le [] = omega arith
unmarked-le (true ∷ live) = omega (arith, unmarked-le live)
unmarked-le (false ∷ live) = omega (arith, unmarked-le live)

module _ (m : Module) where
  mark_live-Explores :
      (live : Marks) (value : ℕ)
      → count m.values ≤ length live
      → Explores m (value ∷ []) live (mark_live m live value)
  mark_live-Explores live value wide =
      mark_live_value-Explores m (length live + 1) live value (omega (arith, unmarked-le live)) wide

  many-Explores :
      (values : List ℕ) (live : Marks)
      → count m.values ≤ length live
      → Explores m values live (mark_each (mark_live m) live values)
  many-Explores values live wide =
      mark_each-Explores m (mark_live m) (suc (length live))
        (λ live value few wide. mark_live-Explores live value wide) values live
        (omega (arith, unmarked-le live)) wide

  blocks-Explores :
      (blocks : List BlockRec) (live : Marks)
      → count m.values ≤ length live
      → Explores m (roots_of m blocks) live (mark_blocks m live blocks)
  unfolding mark_blocks mark_term_live_values
  blocks-Explores [] live wide = none-Explores m live
  blocks-Explores (block ∷ blocks) live wide =
      let params = many-Explores block.params.items live wide in
      let after_params = mark_each (mark_live m) live block.params.items in
      let term =
        many-Explores (term_uses m block.term block.term.kind) after_params
          (omega (arith, params.size)) in
      let after_term =
        mark_each (mark_live m) after_params (term_uses m block.term block.term.kind) in
      Explores-trans m (block.params.items ++ term_uses m block.term block.term.kind)
        (roots_of m blocks) live after_term _
        (Explores-trans m block.params.items (term_uses m block.term block.term.kind) live
          after_params after_term params term)
        (blocks-Explores blocks after_term (omega (arith, params.size, term.size)))

  Reach-marked :
      (roots : List ℕ) (live live' : Marks)
      → Explores m roots live live'
      → ((v : ℕ) → is_marked live v ≡ false)
      → (v : ℕ) → Reach m roots v
      → is_marked live' v ≡ true
  Reach-marked roots live live' e clear v (root i ok) = e.all_roots v i ok
  Reach-marked roots live live' e clear v (source {w} r i ok) =
      elim (e.closed w (Reach-marked roots live live' e clear w r)) [
        | inl k ↦ absurd (let bad = clear w in cc)
        | inr k ↦ k v i ok
      ]

-- The marks of a module's live values are exactly the valid values that can be reached from the
-- parameters and the terminators of its blocks over the sources of defining operations: the recursion
-- is deep enough to find them all.
pub live_values-Reach :
    (m : Module) (v : ℕ)
    → (is_marked (live_values m) v ≡ true) ↔ Reach m (roots_of m m.blocks.items) v
live_values-Reach m v =
    let size = if count m.values == 0 then 1 else count m.values in
    let wide : count m.values ≤ length (replicate size false) =
      (let n : length (replicate size false) ≡ size = length-replicate size false in
        ground arith) in
    let e = blocks-Explores m m.blocks.items (replicate size false) wide in
    (
      λ h. elim (e.only v h) [ inl k ↦ absurd (let clear = blank-clear size v in cc) | inr r ↦ r ],
      λ r.
          Reach-marked m (roots_of m m.blocks.items) (replicate size false) _ e (blank-clear size) v
            r,
    )
