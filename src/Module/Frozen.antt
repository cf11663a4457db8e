-- ===== src/Module/Frozen.antt =====
-- xair_module_freeze of src/xair.c keeps what the module holds.
use xair.Prelude.{
  ℕ, zero, suc, ◌+◌, ◌≡◌, refl, sym, ap, take, take-length, arith, subst, ◌∙◌, Bool, true, false,
  List, [], ◌∷◌, Option, none, some, get_elem?, set, get_elem?-set_self, lt_of_get_elem?,
  if◌then◌else◌,
}
use xair.Status.{Error, bad_arg, Result, ret, err, ◌>>=◌}
use xair.Module.Data.{Module, Buffer, BlockRec, count}
use xair.Module.Grow.{Host, Array, shrink, shrink_array}
use xair.Module.Build.{Step, set_block}
use xair.Module.Numbering.{value_number_clear}
use xair.Module.Freeze.{
  and_then, put, put_params, finalize_block_storage, finalize_blocks, finalize_arrays,
  finalize_module_storage, module_freeze,
}

-- What a block holds, apart from the capacities of its arrays.
pub record SameBlock (b b' : BlockRec) : Type 0 where
  pub name_same : b'.name ≡ b.name
  pub params_same : b'.params.items ≡ b.params.items
  pub ops_same : b'.ops.items ≡ b.ops.items
  pub term_same : b'.term ≡ b.term

pub data SameBlocks : List BlockRec → List BlockRec → Type 0 where
  no_blocks : SameBlocks [] []
  same_block :
      {b b' : BlockRec} {bs bs' : List BlockRec}
      → SameBlock b b'
      → SameBlocks bs bs'
      → SameBlocks (b ∷ bs) (b' ∷ bs')

-- What a module holds.
pub record SameContents (m m' : Module) : Type 0 where
  pub values_same : m'.values.items ≡ m.values.items
  pub ops_same : m'.ops.items ≡ m.ops.items
  pub args_same : m'.term_args.items ≡ m.term_args.items
  pub blocks_same : SameBlocks m.blocks.items m'.blocks.items

SameBlock-refl : (b : BlockRec) → SameBlock b b
SameBlock-refl b = record {
  name_same = refl;
  params_same = refl;
  ops_same = refl;
  term_same = refl;
}

SameBlocks-refl : (bs : List BlockRec) → SameBlocks bs bs
SameBlocks-refl [] = no_blocks
SameBlocks-refl (b ∷ bs) = same_block (SameBlock-refl b) (SameBlocks-refl bs)

SameBlocks-trans :
    (xs ys zs : List BlockRec) → SameBlocks xs ys → SameBlocks ys zs → SameBlocks xs zs
SameBlocks-trans [] [] zs no_blocks k = k
SameBlocks-trans (x ∷ xs) (y ∷ ys) (z ∷ zs) (same_block p h) (same_block q k) =
    same_block
      (record {
        name_same = q.name_same ∙ p.name_same;
        params_same = q.params_same ∙ p.params_same;
        ops_same = q.ops_same ∙ p.ops_same;
        term_same = q.term_same ∙ p.term_same;
      })
      (SameBlocks-trans xs ys zs h k)
SameBlocks-trans (x ∷ xs) (y ∷ ys) [] (same_block p h) k = elim k [ ]
SameBlocks-trans [] (y ∷ ys) zs h k = elim h [ ]
SameBlocks-trans (x ∷ xs) [] zs h k = elim h [ ]

set-SameBlocks :
    (bs : List BlockRec) (i : ℕ) (b b' : BlockRec)
    → get_elem? bs i ≡ some b
    → SameBlock b b'
    → SameBlocks bs (set bs i b')
set-SameBlocks [] i b b' e h = no_blocks
set-SameBlocks (x ∷ xs) zero b b' e h =
    same_block (let same : b ≡ x = cc in subst (λ c. SameBlock c b') same h) (SameBlocks-refl xs)
set-SameBlocks (x ∷ xs) (suc i) b b' e h =
    same_block (SameBlock-refl x) (set-SameBlocks xs i b b' e h)

SameContents-refl : (m : Module) → SameContents m m
SameContents-refl m = record {
  values_same = refl;
  ops_same = refl;
  args_same = refl;
  blocks_same = SameBlocks-refl m.blocks.items;
}

SameContents-trans : (a b c : Module) → SameContents a b → SameContents b c → SameContents a c
SameContents-trans a b c p q = record {
  values_same = q.values_same ∙ p.values_same;
  ops_same = q.ops_same ∙ p.ops_same;
  args_same = q.args_same ∙ p.args_same;
  blocks_same =
      SameBlocks-trans a.blocks.items b.blocks.items c.blocks.items p.blocks_same q.blocks_same;
}

-- The array keeps its elements.
data Shrinks {A : Type 0} (b : Buffer A) : Result (Buffer A) → Type 0 where
  shrinks : {b' : Buffer A} → b'.items ≡ b.items → Shrinks b (ret b')
  shrinks_not : {e : Error} → Shrinks b (err e)

shrink_array-count :
    (host : Host) (array : Array) (cap count' : ℕ) {c : ℕ}
    → shrink_array host array cap count' ≡ ret c
    → c ≡ count'
unfolding shrink_array
shrink_array-count host array cap count' h = ground arith

shrink-Shrinks :
    {A : Type 0} (host : Host) (array : Array) (b : Buffer A) → Shrinks b (shrink host array b)
unfolding shrink
shrink-Shrinks host array b = go (shrink_array host array b.cap (count b)) refl
  where
    go :
        (r : Result ℕ)
        → shrink_array host array b.cap (count b) ≡ r
        → Shrinks b (r >>= λ c. ret (record { items = take c b.items; cap = c }))
    go (ret c) e = shrinks (
        ap (λ k. take k b.items) (shrink_array-count host array b.cap (count b) e)
        ∙ take-length b.items)
    go (err e) _ = shrinks_not

-- Whatever a step returns, the module holds what it held.
pub data KeepsContents (m : Module) : Step (Unit {0}) → Type 0 where
  keeps_contents :
      {r : Result (Unit {0})} {m' : Module} → SameContents m m' → KeepsContents m (r, m')

and_then-Keeps :
    (m : Module) (p : Step (Unit {0})) (k : Module → Step (Unit {0}))
    → KeepsContents m p
    → ((m' : Module) → KeepsContents m' (k m'))
    → KeepsContents m (and_then p k)
and_then-Keeps m (err e, m') k (keeps_contents h) f = keeps_contents h
and_then-Keeps m (ret u, m') k (keeps_contents h) f = go (k m') (f m')
  where
    go : (q : Step (Unit {0})) → KeepsContents m' q → KeepsContents m q
    go (r, m'') (keeps_contents h') = keeps_contents (SameContents-trans m m' m'' h h')

put-Keeps :
    {A : Type 0} (m : Module) (b : Buffer A) (enter : Buffer A → Module) (r : Result (Buffer A))
    → Shrinks b r
    → ((b' : Buffer A) → b'.items ≡ b.items → SameContents m (enter b'))
    → KeepsContents m (put m enter r)
put-Keeps m b enter (ret b') (shrinks h) f = keeps_contents (f b' h)
put-Keeps m b enter (err e) shrinks_not f = keeps_contents (SameContents-refl m)

later-Keeps :
    (m m' : Module) (q : Step (Unit {0}))
    → SameContents m m'
    → KeepsContents m' q
    → KeepsContents m q
later-Keeps m m' (r, m'') h (keeps_contents h') = keeps_contents (SameContents-trans m m' m'' h h')

set_block-SameContents :
    (m : Module) (i : ℕ) (b b' : BlockRec)
    → get_elem? m.blocks.items i ≡ some b
    → SameBlock b b'
    → SameContents m (set_block m i b')
set_block-SameContents m i b b' at h = record {
  values_same = refl;
  ops_same = refl;
  args_same = refl;
  blocks_same = set-SameBlocks m.blocks.items i b b' at h;
}

params-Keeps :
    (host : Host) (m : Module) (i : ℕ) (b : BlockRec) (r : Result (Buffer ℕ))
    → get_elem? m.blocks.items i ≡ some b
    → Shrinks b.params r
    → KeepsContents m (put_params host m i b r)
params-Keeps host m i b (err e) at shrinks_not = keeps_contents (SameContents-refl m)
params-Keeps host m i b (ret params) at (shrinks h) =
    let b' : BlockRec = record b { params = params } in
    let m' = set_block m i b' in
    let same : SameBlock b b' = record {
      name_same = refl;
      params_same = h;
      ops_same = refl;
      term_same = refl;
    } in
    let at' : get_elem? m'.blocks.items i ≡ some b' =
      get_elem?-set_self m.blocks.items i b' (lt_of_get_elem? m.blocks.items i at) in
    later-Keeps m m' _ (set_block-SameContents m i b b' at same) (
      put-Keeps m' b.ops (λ ops. set_block m' i (record b' { ops = ops }))
        (shrink host Array.block_ops b.ops) (shrink-Shrinks host Array.block_ops b.ops)
        λ ops k.
          set_block-SameContents m' i b' (record b' { ops = ops }) at'
            (record { name_same = refl; params_same = refl; ops_same = k; term_same = refl }))

blocks-Keeps : (host : Host) (k i : ℕ) (m : Module) → KeepsContents m (finalize_blocks host k i m)
unfolding finalize_blocks finalize_block_storage
blocks-Keeps host zero i m = keeps_contents (SameContents-refl m)
blocks-Keeps host (suc k) i m =
    and_then-Keeps m (finalize_block_storage host m i (get_elem? m.blocks.items i)) _
      (go (get_elem? m.blocks.items i) refl) λ m'. blocks-Keeps host k (i + 1) m'
  where
    go :
        (o : Option BlockRec)
        → get_elem? m.blocks.items i ≡ o
        → KeepsContents m (finalize_block_storage host m i o)
    go none e = keeps_contents (SameContents-refl m)
    go (some b) e =
        params-Keeps host m i b (shrink host Array.params b.params) e
          (shrink-Shrinks host Array.params b.params)

arrays-Keeps : (host : Host) (m : Module) → KeepsContents m (finalize_arrays host m)
unfolding finalize_arrays value_number_clear
arrays-Keeps host m =
    and_then-Keeps m _ _
      (put-Keeps m m.term_args (λ b. record m { term_args = b }) _
        (shrink-Shrinks host Array.term_args m.term_args)
        λ b h. record {
          values_same = refl;
          ops_same = refl;
          args_same = h;
          blocks_same = SameBlocks-refl m.blocks.items;
        })
      λ m1.
        and_then-Keeps m1 _ _
          (put-Keeps m1 m1.values (λ b. record m1 { values = b }) _
            (shrink-Shrinks host Array.values m1.values)
            λ b h. record {
              values_same = h;
              ops_same = refl;
              args_same = refl;
              blocks_same = SameBlocks-refl m1.blocks.items;
            })
          λ m2.
            and_then-Keeps m2 _ _
              (put-Keeps m2 m2.ops (λ b. record m2 { ops = b }) _
                (shrink-Shrinks host Array.ops m2.ops)
                λ b h. record {
                  values_same = refl;
                  ops_same = h;
                  args_same = refl;
                  blocks_same = SameBlocks-refl m2.blocks.items;
                })
              λ m3.
                and_then-Keeps m3 _ _
                  (put-Keeps m3 m3.blocks (λ b. record m3 { blocks = b }) _
                    (shrink-Shrinks host Array.blocks m3.blocks)
                    λ b h. record {
                      values_same = refl;
                      ops_same = refl;
                      args_same = refl;
                      blocks_same =
                          subst (SameBlocks m3.blocks.items) (sym h)
                            (SameBlocks-refl m3.blocks.items);
                    })
                  λ m4. keeps_contents (record {
                    values_same = refl;
                    ops_same = refl;
                    args_same = refl;
                    blocks_same = SameBlocks-refl m4.blocks.items;
                  })

freeze-Keeps : (host : Host) (m : Module) → KeepsContents m (module_freeze host m)
unfolding module_freeze finalize_module_storage
freeze-Keeps host m = go m.frozen
  where
    go :
        (b : Bool)
        → KeepsContents m (
            if b
            then (err bad_arg, m)
            else and_then
                (finalize_module_storage host m)
                λ m'. (ret tt, record m' { frozen = true }))
    go true = keeps_contents (SameContents-refl m)
    go false =
        and_then-Keeps m (finalize_module_storage host m) _
          (and_then-Keeps m (finalize_blocks host (count m.blocks) 0 m) (finalize_arrays host)
            (blocks-Keeps host (count m.blocks) 0 m) (arrays-Keeps host))
          λ m'. keeps_contents (record {
            values_same = refl;
            ops_same = refl;
            args_same = refl;
            blocks_same = SameBlocks-refl m'.blocks.items;
          })

-- The module that a step leaves.
abbrev pub module_after : Step (Unit {0}) → Module
module_after (r, m) = m

-- Whether it succeeds or fails half way, freezing keeps the values, the operations, the arguments and the
-- blocks of a module.
pub module_freeze-SameContents :
    (host : Host) (m : Module) → SameContents m (module_after (module_freeze host m))
module_freeze-SameContents host m = go (module_freeze host m) (freeze-Keeps host m)
  where
    go : (q : Step (Unit {0})) → KeepsContents m q → SameContents m (module_after q)
    go (r, m') (keeps_contents h) = h
