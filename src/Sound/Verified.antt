-- ===== src/Sound/Verified.antt =====
-- What xair_verify_module of src/xair.c has found of each block of a module that it accepts.
use xair.Prelude.{
  ℕ, zero, suc, ◌+◌, ◌≡◌, refl, subst, Bool, true, false, ◌||◌, not, Option, none, some, List, [],
  ◌∷◌, arith, ◌==◌, get_elem?, set, replicate, All, if◌then◌else◌,
}
use xair.Status.{oom, verify, ret, ◌>>=◌, >>=-eq-ret, reject_if-eq-ret}
use xair.Ir.Types.{is_value_type}
use xair.Module.Data.{Module, OpRec, BlockRec, count, valid_value}
use xair.Exec.Fold.{type_at}
use xair.Exec.State.{ExecState}
use xair.Verify.{verify_op}
use xair.Verify.Blocks.{
  Marks, is_marked, in_block, made_by, verify_available, verify_params, verify_one, verify_ops,
  verify_term, verify_block, verify_blocks, verify_module,
}
use xair.Sound.State.{Defined, Typed, Holds, mark-Holds}

abbrev pub blank : Module → Marks
blank m = replicate (if count m.values == 0 then 1 else count m.values) false

-- The three parts of a block are accepted, with the marks that each leaves to the next.
pub record VerifiedBlock (m : Module) (block_id : ℕ) (block : BlockRec) : Type 0 where
  pub entered : Marks
  pub available : Marks
  pub params_ok : verify_params m block_id block.params.items (blank m) ≡ ret entered
  pub ops_ok : verify_ops m block_id block.ops.items entered ≡ ret available
  pub term_ok : verify_term m available block.term block.term.kind ≡ ret tt

abbrev pub Verified : Module → Type 0
Verified m =
    (block_id : ℕ) (block : BlockRec)
    → get_elem? m.blocks.items block_id ≡ some block
    → VerifiedBlock m block_id block

module _ (calloc : ℕ → Bool) (m : Module) where
  block-Verified :
      (block_id : ℕ) (block : BlockRec)
      → verify_block calloc m block_id block ≡ ret tt
      → VerifiedBlock m block_id block
  unfolding verify_block
  block-Verified block_id block h =
      let (given, h1) =
        reject_if-eq-ret _ oom
          (verify_params m block_id block.params.items (blank m) >>= λ params.
            verify_ops m block_id block.ops.items params >>= λ available.
            verify_term m available block.term block.term.kind)
          h in
      let (entered, params_ok, h2) =
        >>=-eq-ret (verify_params m block_id block.params.items (blank m)) _ h1 in
      let (available, ops_ok, h3) =
        >>=-eq-ret (verify_ops m block_id block.ops.items entered) _ h2 in
      record {
        entered = entered;
        available = available;
        params_ok = params_ok;
        ops_ok = ops_ok;
        term_ok = h3;
      }

  blocks-Verified :
      (base : ℕ) (blocks : List BlockRec)
      → verify_blocks calloc m base blocks ≡ ret tt
      → (i : ℕ) (block : BlockRec) → get_elem? blocks i ≡ some block
      → VerifiedBlock m (base + i) block
  unfolding verify_blocks
  blocks-Verified base [] h i block e = cc
  blocks-Verified base (b ∷ blocks) h zero block e =
      let (u, h1, h2) = >>=-eq-ret (verify_block calloc m base b) _ h in
      let same : b ≡ block = cc in
      subst (λ n. VerifiedBlock m n block) (let k : base ≡ base + 0 = omega arith in k)
        (subst (VerifiedBlock m base) same (block-Verified base b h1))
  blocks-Verified base (b ∷ blocks) h (suc i) block e =
      let (u, h1, h2) = >>=-eq-ret (verify_block calloc m base b) _ h in
      subst (λ n. VerifiedBlock m n block) (let k : base + 1 + i ≡ base + suc i = omega arith in k)
        (blocks-Verified (base + 1) blocks h2 i block e)

  pub module-Verified : verify_module calloc m ≡ ret tt → Verified m
  unfolding verify_module
  module-Verified h block_id block e =
      subst (λ n. VerifiedBlock m n block) (let k : 0 + block_id ≡ block_id = omega arith in k)
        (blocks-Verified 0 m.blocks.items h block_id block e)

-- The marks before any parameter are clear.
pub blank-clear : (n v : ℕ) → is_marked (replicate n false) v ≡ false
blank-clear zero v = refl
blank-clear (suc n) zero = refl
blank-clear (suc n) (suc v) = blank-clear n v

pub blank-Holds : (s : ExecState) → Typed s → Holds (blank s.module') s
blank-Holds s t = record {
  typed = t;
  defined = λ v h. absurd (
      let clear =
        blank-clear (if count s.module'.values == 0 then 1 else count s.module'.values) v in
      cc);
}

module _ (m : Module) (block_id : ℕ) where
  param-eq :
      (value : ℕ) (params : List ℕ) (available available' : Marks)
      → verify_params m block_id (value ∷ params) available ≡ ret available'
      → (valid_value m value ≡ true)
        × (verify_params m block_id params (set available value true) ≡ ret available')
  unfolding verify_params
  param-eq value params available available' h =
      let (e, k) =
        reject_if-eq-ret
          (not (valid_value m value)
            || (not (in_block block_id (get_elem? m.values.items value))
                || not (is_value_type (type_at m value))))
          verify (verify_params m block_id params (set available value true)) h in
      (ground arith, k)

  pub params-valid :
      (params : List ℕ) (available available' : Marks)
      → verify_params m block_id params available ≡ ret available'
      → All (λ value. valid_value m value ≡ true) params
  params-valid [] available available' h = tt
  params-valid (value ∷ params) available available' h =
      let (e, k) = param-eq value params available available' h in
      (e, params-valid params (set available value true) available' k)

-- A block whose parameters are defined is entered with their marks.
pub enter-Holds :
    (s : ExecState) (block_id : ℕ) (params : List ℕ) (available available' : Marks)
    → Holds available s
    → All (Defined s) params
    → verify_params s.module' block_id params available ≡ ret available'
    → Holds available' s
unfolding verify_params
enter-Holds s block_id [] available available' h d e =
    subst (λ a. Holds a s) (let same : available ≡ available' = cc in same) h
enter-Holds s block_id (value ∷ params) available available' h d e =
    enter-Holds s block_id params (set available value true) available'
      (mark-Holds available s value h d.0) d.1
      (param-eq s.module' block_id value params available available' e).1

-- The parts of an accepted operation.
pub record VerifiedOp (m : Module) (available available' : Marks) (o : Option OpRec) : Type 0 where
  pub op : OpRec
  pub is_op : o ≡ some op
  pub sources_ok : verify_available m available op.src ≡ ret tt
  pub op_ok : verify_op m op ≡ ret tt
  pub marks : available' ≡ set available op.dst true

pub one-Verified :
    (m : Module) (block_id op_id : ℕ) (available available' : Marks) (o : Option OpRec)
    → verify_one m block_id op_id available o ≡ ret available'
    → VerifiedOp m available available' o
unfolding verify_one
one-Verified m block_id op_id available available' none h = cc
one-Verified m block_id op_id available available' (some op) h =
    let (u, h1, h5) = >>=-eq-ret _ (λ done. ret (set available op.dst true)) h in
    let (u', h2, h4) = >>=-eq-ret _ (λ done. verify_op m op) h1 in
    let (e, h3) =
      reject_if-eq-ret
        (not (valid_value m op.dst)
          || not (made_by block_id op_id (get_elem? m.values.items op.dst)))
        verify (verify_available m available op.src) h2 in
    record { op = op; is_op = refl; sources_ok = h3; op_ok = h4; marks = cc }
