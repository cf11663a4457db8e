-- ===== src/Exec/Resume.antt =====
-- xair_exec_run of src/xair.c may be stopped by its step limit and taken up again where it stood.
use xair.Prelude.{
  ℕ, zero, suc, ◌+◌, ◌≡◌, refl, sym, ap, subst, ◌∙◌, Bool, true, false, ◌||◌, not, Option, none,
  some, List, [], ◌∷◌, arith, bit_and, ltb, ◌==◌, lt→ltb, length, get_elem?, lt_of_get_elem?,
  Bool-cases, Option-cases, inl, inr, if◌then◌else◌,
}
use xair.Status.{Error, Result, ret, err, Result-cases}
use xair.Ir.Opcode.{Opcode}
use xair.Module.Data.{OpRec, BlockRec, TermRec, TermKind, count, valid_block}
use xair.Module.Grow.{Host}
use xair.Exec.State.{ExecValue, ExecState, exec_define_value, exec_read_value}
use xair.Exec.Op.{Status}
use xair.Exec.Keeps.{
  Keeps, Keeps-refl, Keeps-trans, KeepsResult, KeepsStatus, leaves, KeepsStatus-trans, same_state,
  if-Keeps, define_value-Keeps, unkept, op-Keeps,
}
use xair.Exec.Run.{
  HaltKind, ExecResult, true_args, read_all, define_all, define_copies, transfer_to,
  exec_transfer_args, OpsEnd, finished, stopped, failed, Next, goto, halt, fail, op_end, run_one,
  run_ops, go_on, halt_with, branch_on, run_term, after_ops, run_block_rec, run_block, run_from,
  and_ops, and_from, exec_run,
}
use xair.Ir.Types.{is_i1}

abbrev pub is_step_limit : HaltKind → Bool
is_step_limit HaltKind.halted_step_limit = true
is_step_limit _ = false

-- A run that the limit stopped goes on from its block and its state for `k` more steps.
abbrev pub resume :
    Host
    → (malloc : ℕ → Bool) → (k : ℕ) → Result ExecResult × ExecState
    → Result ExecResult × ExecState
resume host malloc k (err e, s) = (err e, s)
resume host malloc k (ret result, s) =
    if is_step_limit result.kind then exec_run host malloc result.block s k else (ret result, s)

-- What a round leads to: a block of the same module, or a halt that is not the limit's.
data Good (s : ExecState) : Next × ExecState → Type 0 where
  goes :
      {target : ℕ} {s' : ExecState}
      → valid_block s.module' target ≡ true
      → Keeps s s'
      → Good s (goto target, s')
  halts :
      {result : ExecResult} {s' : ExecState}
      → is_step_limit result.kind ≡ false
      → Good s (halt result, s')
  fails : {e : Error} {s' : ExecState} → Good s (fail e, s')

define_all-Keeps :
    (s : ExecState) (params : List ℕ) (copies : List ExecValue)
    → KeepsStatus s (define_all s params copies)
unfolding define_all
define_all-Keeps s [] copies = same_state
define_all-Keeps s (param ∷ params) [] = same_state
define_all-Keeps s (param ∷ params) (copy ∷ copies) =
    elim (Result-cases (exec_define_value s param copy)) [
      | inl (e, f) ↦ rw (f, define_all) same_state
      | inr (s', f) ↦
          rw (f, define_all)
            (KeepsStatus-trans (unkept (subst (KeepsResult s) f (define_value-Keeps s param copy)))
              (define_all-Keeps s' params copies))
    ]

define_copies-Keeps :
    (s : ExecState) (params : List ℕ) (r : Result (List ExecValue))
    → KeepsStatus s (define_copies s params r)
define_copies-Keeps s params (err e) = same_state
define_copies-Keeps s params (ret copies) = define_all-Keeps s params copies

go_on-Good :
    {s : ExecState} {r : Status} (target : ℕ)
    → valid_block s.module' target ≡ true
    → KeepsStatus s r
    → Good s (go_on target r)
go_on-Good target valid (leaves {r = err e} h) = fails
go_on-Good target valid (leaves {r = ret u} h) = goes valid h

transfer-Good :
    (malloc : ℕ → Bool) (s : ExecState) (target : ℕ) (args : List ℕ)
    → Good s (go_on target (exec_transfer_args malloc s target args))
unfolding exec_transfer_args transfer_to
transfer-Good malloc s target args = elim (Option-cases (get_elem? s.module'.blocks.items target)) [
  | inl e ↦ rw e fails
  | inr (block, e) ↦ rw e (
      go_on-Good target (lt→ltb target _ (lt_of_get_elem? s.module'.blocks.items target e)) (
        if-Keeps (not (count block.params == length args)) same_state (
          if-Keeps (length args == 0) same_state (
            if-Keeps (not (malloc (length args))) same_state
              (define_copies-Keeps s block.params.items (read_all s args))))))
]

if-Good :
    {s : ExecState} (b : Bool) {x y : Next × ExecState}
    → Good s x
    → Good s y
    → Good s (if b then x else y)
if-Good true h k = h
if-Good false h k = k

run_term-Good :
    (malloc : ℕ → Bool) (s : ExecState) (current : ℕ) (term : TermRec) (kind : TermKind)
    → Good s (run_term malloc s current term kind)
unfolding run_term
run_term-Good malloc s current term TermKind.jump = transfer-Good malloc s term.true_target _
run_term-Good malloc s current term TermKind.cbranch = go (exec_read_value s term.condition)
  where
    go : (r : Result ExecValue) → Good s (branch_on malloc s term r)
    go (err e) = fails
    go (ret condition) = if-Good (not (is_i1 condition.type)) fails (
        if-Good (not (bit_and condition.lo 1 == 0)) (transfer-Good malloc s term.true_target _)
          (transfer-Good malloc s term.false_target _))
run_term-Good malloc s current term TermKind.return =
    if-Good (ltb 8 term.true_arg_count) fails (go (read_all s (true_args s.module' term)))
  where
    go : (r : Result (List ExecValue)) → Good s (halt_with current r, s)
    go (err e) = fails
    go (ret values) = halts refl
run_term-Good malloc s current term TermKind.trap = halts refl
run_term-Good malloc s current term TermKind.fault = halts refl
run_term-Good malloc s current term TermKind.unterminated = fails

-- The operations keep the module and the slots.
data Passed (s : ExecState) : OpsEnd × ExecState → Type 0 where
  passes : {end : OpsEnd} {s' : ExecState} → Keeps s s' → Passed s (end, s')

op_end-Passed :
    {s : ExecState} {r : Status} (opcode : Opcode) → KeepsStatus s r → Passed s (op_end opcode r)
op_end-Passed opcode (leaves {r = ret u} h) = passes h
op_end-Passed opcode (leaves {r = err Error.oom} h) = passes h
op_end-Passed opcode (leaves {r = err Error.bad_arg} h) = passes h
op_end-Passed opcode (leaves {r = err Error.range} h) = passes h
op_end-Passed opcode (leaves {r = err Error.verify} h) = passes h
op_end-Passed opcode (leaves {r = err Error.unsupported} h) = passes h

run_one-Passed : (host : Host) (s : ExecState) (o : Option OpRec) → Passed s (run_one host s o)
run_one-Passed host s none = passes (Keeps-refl s)
run_one-Passed host s (some op) = op_end-Passed op.opcode (op-Keeps host s op)

and_ops-Passed :
    {s : ExecState} {r : OpsEnd × ExecState} {k : ExecState → OpsEnd × ExecState}
    → Passed s r
    → ((s' : ExecState) → Passed s' (k s'))
    → Passed s (and_ops r k)
and_ops-Passed {s} {k} (passes {end = finished} {s'} h) next = go (k s') (next s')
  where
    go : (r : OpsEnd × ExecState) → Passed s' r → Passed s r
    go r (passes {s' = s''} g) = passes (Keeps-trans s s' s'' h g)
and_ops-Passed (passes {end = stopped opcode} h) next = passes h
and_ops-Passed (passes {end = failed e} h) next = passes h

run_ops-Passed : (host : Host) (ops : List ℕ) (s : ExecState) → Passed s (run_ops host ops s)
unfolding run_ops
run_ops-Passed host [] s = passes (Keeps-refl s)
run_ops-Passed host (i ∷ ops) s =
    and_ops-Passed (run_one-Passed host s (get_elem? s.module'.ops.items i))
      λ s'. run_ops-Passed host ops s'

Good-after : {s s' : ExecState} {r : Next × ExecState} → Keeps s s' → Good s' r → Good s r
Good-after {s} {s'} h (goes {target} {s' = s''} valid g) =
    goes (ap (λ m. valid_block m target) (sym h.module_same) ∙ valid) (Keeps-trans s s' s'' h g)
Good-after h (halts e) = halts e
Good-after h fails = fails

after_ops-Good :
    (malloc : ℕ → Bool) {s : ExecState} (current : ℕ) (term : TermRec) {r : OpsEnd × ExecState}
    → Passed s r
    → Good s (after_ops malloc current term r)
after_ops-Good malloc current term (passes {end = finished} {s'} h) =
    Good-after h (run_term-Good malloc s' current term term.kind)
after_ops-Good malloc current term (passes {end = stopped opcode} h) = halts refl
after_ops-Good malloc current term (passes {end = failed e} h) = fails

run_block-Good :
    (host : Host) (malloc : ℕ → Bool) (s : ExecState) (current : ℕ)
    → Good s (run_block host malloc s current)
unfolding run_block
run_block-Good host malloc s current = go (get_elem? s.module'.blocks.items current)
  where
    go : (o : Option BlockRec) → Good s (run_block_rec host malloc s current o)
    go none = fails
    go (some block) =
        after_ops-Good malloc current block.term (run_ops-Passed host block.ops.items s)

-- The tests at the entry of a run.
abbrev Ready : ExecState → (block : ℕ) → Type 0
Ready s block =
    ((length s.values == count s.module'.values) ≡ true) × (valid_block s.module' block ≡ true)

Ready-Keeps :
    (s s' : ExecState) (block target : ℕ)
    → Ready s block
    → Keeps s s'
    → valid_block s.module' target ≡ true
    → Ready s' target
Ready-Keeps s s' block target (slots, _) h valid =
    (rw (h.slots_same, h.module_same) slots, rw (h.module_same) valid)

run-Ready :
    (host : Host) (malloc : ℕ → Bool) (s : ExecState) (block k : ℕ)
    → Ready s block
    → exec_run host malloc block s k ≡ run_from host malloc k block s
unfolding exec_run
run-Ready host malloc s block k (slots, valid) = rw (slots, valid) refl

run_from-resume :
    (host : Host) (malloc : ℕ → Bool) (n k current : ℕ) (s : ExecState)
    → Ready s current
    → run_from host malloc (n + k) current s
      ≡ resume host malloc k (run_from host malloc n current s)
unfolding run_from
run_from-resume host malloc zero k current s h =
    ap (λ i. run_from host malloc i current s) (let e : 0 + k ≡ k = omega arith in e)
    ∙ sym (run-Ready host malloc s current k h)
run_from-resume host malloc (suc n) k current s h =
    ap (λ i. run_from host malloc i current s) (let e : suc n + k ≡ suc (n + k) = omega arith in e)
    ∙ go (run_block host malloc s current) (run_block-Good host malloc s current)
        (λ target s'. run_from-resume host malloc n k target s')
  where
    go :
        (r : Next × ExecState)
        → Good s r
        → ((target : ℕ) (s' : ExecState)
            → Ready s' target
            → run_from host malloc (n + k) target s'
              ≡ resume host malloc k (run_from host malloc n target s'))
        → and_from r (λ target s'. run_from host malloc (n + k) target s')
          ≡ resume host malloc k (and_from r (λ target s'. run_from host malloc n target s'))
    go _ (goes {target} {s'} valid g) next =
        next target s' (Ready-Keeps s s' current target h g valid)
    go _ (halts e) next = rw e refl
    go _ fails next = refl

-- A run of at most `n + k` steps is a run of at most `n` steps which, if and only if the step limit
-- halted it, is taken up again at the block and in the state that it reports for at most `k` more.
-- So a run that returns, traps, faults, meets an unsupported operation or fails does the same under
-- every larger limit.
pub exec_run-resume :
    (host : Host) (malloc : ℕ → Bool) (entry : ℕ) (s : ExecState) (n k : ℕ)
    → exec_run host malloc entry s (n + k) ≡ resume host malloc k (exec_run host malloc entry s n)
unfolding exec_run
exec_run-resume host malloc entry s n k =
    elim (Bool-cases
      (not (length s.values == count s.module'.values) || not (valid_block s.module' entry))) [
        | inl e ↦ rw e refl
        | inr e ↦
            let h : Ready s entry = ground arith in
            run-Ready host malloc s entry (n + k) h
            ∙ run_from-resume host malloc n k entry s h
            ∙ ap (resume host malloc k) (sym (run-Ready host malloc s entry n h))
      ]
