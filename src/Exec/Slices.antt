-- ===== src/Exec/Slices.antt =====
-- The terminator that xair_set_cbranch of src/xair.c writes, and the slices of the module's shared array
-- that xair_exec_run reads for its two targets.
use xair.Prelude.{
  ℕ, suc, ◌≡◌, refl, sym, ap, ◌∙◌, Bool, true, false, ◌||◌, not, Option, none, some, List, [], ◌∷◌,
  ◌++◌, arith, ◌==◌, length, get_elem?, get_elem?-set_self, lt_of_get_elem?, take, drop,
  take-append, if◌then◌else◌,
}
use xair.Prelude.Words.{add64}
use xair.Status.{Error, bad_arg, Result, ret, err}
use xair.Module.Data.{Module, BlockRec, TermRec, TermKind, count, valid_block, valid_value}
use xair.Module.Grow.{Host, Array, grow_array}
use xair.Module.Build.{Step, is_open}
use xair.Module.Terms.{extend, append_term_args, put_term, set_term, after_args, set_cbranch}
use xair.Exec.Run.{true_args, false_args}

append-nil : (xs : List ℕ) → xs ++ [] ≡ xs
append-nil [] = refl
append-nil (x ∷ xs) = ap (λ l. x ∷ l) (append-nil xs)

-- A slice of what was appended, whatever follows it.
slice-append : (xs ys zs : List ℕ) → take (length ys) (drop (length xs) ((xs ++ ys) ++ zs)) ≡ ys
slice-append [] ys zs = take-append ys zs
slice-append (x ∷ xs) ys zs = slice-append xs ys zs

past-if :
    {A : Type 0} {a : A} {m' : Module} (e : Error) (m : Module) (b : Bool) {rest : Step A}
    → (if b then (err e, m) else rest) ≡ (ret a, m')
    → rest ≡ (ret a, m')
past-if {a} e m true h = let bad : err e ≡ ret a = ap (λ r. r.0) h in absurd (cc)
past-if e m false h = h

-- What append_term_args has done where it succeeds.
record Appended (m : Module) (args : List ℕ) (offset : ℕ) (m' : Module) : Type 0 where
  at : offset ≡ count m.term_args
  items : m'.term_args.items ≡ m.term_args.items ++ args
  blocks : m'.blocks ≡ m.blocks

append_term_args-Appended :
    (host : Host) (m m' : Module) (args : List ℕ) (offset : ℕ)
    → append_term_args host m args ≡ (ret offset, m')
    → Appended m args offset m'
unfolding append_term_args
append_term_args-Appended host m m' [] offset h =
    let left : ret (count m.term_args) ≡ ret offset = ap (λ r. r.0) h in
    let right : m ≡ m' = ap (λ r. r.1) h in
    record {
      at = cc;
      items = ap (λ k. k.term_args.items) (sym right) ∙ sym (append-nil m.term_args.items);
      blocks = ap (λ k. k.blocks) (sym right);
    }
append_term_args-Appended host m m' (a ∷ args) offset h =
    let some_args : (suc (length args) == 0) ≡ false = ground arith in
    go
      (grow_array host Array.term_args m.term_args.cap
        (add64 (count m.term_args) (length (a ∷ args))))
      (rw some_args at h)
  where
    go : (r : Result ℕ) → extend m (a ∷ args) r ≡ (ret offset, m') → Appended m (a ∷ args) offset m'
    go (err e) g = let bad : err e ≡ ret offset = ap (λ r. r.0) g in absurd (cc)
    go (ret cap) g =
        let left : ret (count m.term_args) ≡ ret offset = ap (λ r. r.0) g in
        record {
          at = cc;
          items = ap (λ r. r.1.term_args.items) (sym g);
          blocks = ap (λ r. r.1.blocks) (sym g);
        }

-- What set_term has done where it succeeds.
record Terminated (m : Module) (block : ℕ) (term : TermRec) (m' : Module) : Type 0 where
  record' : BlockRec
  at : get_elem? m'.blocks.items block ≡ some record'
  written : record'.term ≡ term
  args : m'.term_args.items ≡ m.term_args.items

set_term-Terminated :
    (m m' : Module) (block : ℕ) (term : TermRec)
    → set_term m block term ≡ (ret tt, m')
    → Terminated m block term m'
unfolding set_term
set_term-Terminated m m' block term h =
    put (get_elem? m.blocks.items block) refl
      (past-if bad_arg m (m.frozen || not (is_open m block)) h)
  where
    put :
        (o : Option BlockRec)
        → get_elem? m.blocks.items block ≡ o
        → put_term m block term o ≡ (ret tt, m')
        → Terminated m block term m'
    put none f g = let bad : err bad_arg ≡ ret tt = ap (λ r. r.0) g in absurd (cc)
    put (some b) f g = record {
      record' = record b { term = term };
      at =
          ap (λ r. get_elem? r.1.blocks.items block) (sym g)
          ∙ get_elem?-set_self m.blocks.items block (record b { term = term })
              (lt_of_get_elem? m.blocks.items block f);
      written = refl;
      args = ap (λ r. r.1.term_args.items) (sym g);
    }

after_args-eq :
    {A : Type 0} {a : A} {m' : Module} (r : Step ℕ) (k : ℕ → Module → Step A)
    → after_args r k ≡ (ret a, m')
    → (offset : ℕ) × (m1 : Module) × (r ≡ (ret offset, m1)) × (k offset m1 ≡ (ret a, m'))
after_args-eq {a} (err e, m) k h = let bad : err e ≡ ret a = ap (λ r. r.0) h in absurd (cc)
after_args-eq (ret offset, m) k h = (offset, m, refl, h)

-- Where xair_set_cbranch succeeds, the block has a terminator of that kind, with the condition and the
-- targets that were asked for, and xair_exec_run reads exactly the given arguments of the taken and of
-- the other branch from the shared array.
pub set_cbranch-args :
    (host : Host) (m m' : Module) (block condition true_target : ℕ) (ts : List ℕ) (false_target : ℕ)
    (fs : List ℕ)
    → set_cbranch host m block condition true_target ts false_target fs ≡ (ret tt, m')
    → (b : BlockRec) × (get_elem? m'.blocks.items block ≡ some b)
      × (b.term.kind ≡ TermKind.cbranch)
      × (b.term.condition ≡ condition)
      × (b.term.true_target ≡ true_target)
      × (b.term.false_target ≡ false_target)
      × (true_args m' b.term ≡ ts)
      × (false_args m' b.term ≡ fs)
unfolding set_cbranch
set_cbranch-args host m m' block condition true_target ts false_target fs h =
    let refused =
      m.frozen
      || (not (is_open m block)
          || (not (valid_value m condition)
              || (not (valid_block m true_target) || not (valid_block m false_target)))) in
    let (o1, m1, f1, h1) =
      after_args-eq (append_term_args host m ts) _ (past-if bad_arg m refused h) in
    let (o2, m2, f2, h2) = after_args-eq (append_term_args host m1 fs) _ h1 in
    let t1 = append_term_args-Appended host m m1 ts o1 f1 in
    let t2 = append_term_args-Appended host m1 m2 fs o2 f2 in
    let done = set_term-Terminated m2 m' block _ h2 in
    let all : m'.term_args.items ≡ (m.term_args.items ++ ts) ++ fs =
      done.args ∙ t2.items ∙ ap (λ l. l ++ fs) t1.items in
    let place : o2 ≡ length (m.term_args.items ++ ts) = t2.at ∙ ap length t1.items in
    (
      done.record',
      done.at,
      ap (λ t. t.kind) done.written,
      ap (λ t. t.condition) done.written,
      ap (λ t. t.true_target) done.written,
      ap (λ t. t.false_target) done.written,
      ap (true_args m') done.written
          ∙ ap (λ l. take (length ts) (drop o1 l)) all
          ∙ ap (λ o. take (length ts) (drop o ((m.term_args.items ++ ts) ++ fs))) t1.at
          ∙ slice-append m.term_args.items ts fs,
      ap (false_args m') done.written
          ∙ ap (λ l. take (length fs) (drop o2 l)) all
          ∙ ap (λ o. take (length fs) (drop o ((m.term_args.items ++ ts) ++ fs))) place
          ∙ ap (λ l. take (length fs) (drop (length (m.term_args.items ++ ts)) l))
              (sym (append-nil ((m.term_args.items ++ ts) ++ fs)))
          ∙ slice-append (m.term_args.items ++ ts) fs [],
    )
