-- ===== src/Sound/Run.antt =====
-- xair_exec_run of src/xair.c on a module that xair_verify_module accepts.
use xair.Prelude.{
  ℕ, zero, suc, ◌≡◌, sym, ap, subst, ◌∙◌, Bool, true, false, ◌||◌, not, List, [], ◌∷◌, arith, ◌==◌,
  length, if◌then◌else◌, bit_and, ltb, lt_of_get_elem?,
}
use xair.Status.{Error, range, verify, Result, ret, err, ◌>>=◌, >>=-eq-ret, reject_if-eq-ret}
use xair.Ir.Types.{is_i1}
use xair.Module.Data.{TermRec, TermKind, count, valid_block}
use xair.Module.Grow.{Host}
use xair.Exec.Fold.{type_at}
use xair.Exec.State.{ExecValue, ExecState, exec_read_value}
use xair.Exec.Op.{Status}
use xair.Exec.Run.{
  ExecResult, OpsEnd, Next, goto, halt, fail, finished, stopped, failed, max_returns, true_args,
  false_args, read_all, exec_transfer_args, go_on, halt_with, branch_on, run_term, after_ops,
  run_ops, run_block_rec, run_block, and_from, run_from, exec_run,
}
use xair.Verify.Blocks.{
  Marks, value_is_available, verify_available, verify_target_args, verify_term, verify_module,
}
use xair.Sound.State.{Typed, Extends, Extends-trans, Holds, Reads, reads, available-Reads}
use xair.Sound.Operation.{Failure, out_of_range}
use xair.Sound.Verified.{Verified, blank-Holds, enter-Holds, module-Verified}
use xair.Sound.Block.{Runs, finishes, stops_at, fails_with, run_ops-Runs}
use xair.Sound.Shape.{source_available}
use xair.Sound.Transfer.{Entered, Transfers, transfers, transfers_not, exec_transfer_args-Transfers}

-- A block leads to a block that can be entered, halts, or fails.
data Leads (s : ExecState) : Next × ExecState → Type 0 where
  leads :
      {target : ℕ} {s' : ExecState}
      → Typed s'
      → Extends s s'
      → Entered s' target
      → Leads s (goto target, s')
  halts : {result : ExecResult} {s' : ExecState} → Typed s' → Leads s (halt result, s')
  leads_not : {e : Error} {s' : ExecState} → Typed s' → Failure s' e → Leads s (fail e, s')

later-Leads : (s s' : ExecState) (r : Next × ExecState) → Extends s s' → Leads s' r → Leads s r
later-Leads s s' r x (leads {s' = t} h y e) = leads h (Extends-trans s s' t x y) e
later-Leads s s' r x (halts t) = halts t
later-Leads s s' r x (leads_not t f) = leads_not t f

data ReadsMany : Result (List ExecValue) → Type 0 where
  reads_many : {values : List ExecValue} → ReadsMany (ret values)

module _ (malloc : ℕ → Bool) (s : ExecState) (available : Marks) (h : Holds available s)
    (verified : Verified s.module') where
  go_on-Leads :
      (target : ℕ) (args : List ℕ)
      → verify_target_args s.module' available target args ≡ ret tt
      → Leads s (go_on target (exec_transfer_args malloc s target args))
  go_on-Leads target args e =
      go (exec_transfer_args malloc s target args)
        (exec_transfer_args-Transfers malloc s available h target args verified e)
    where
      go : (r : Status) → Transfers s target r → Leads s (go_on target r)
      go (ret u, s') (transfers t x d) = leads t x d
      go (err e, s') (transfers_not t f) = leads_not t f

  read_all-ReadsMany :
      (args : List ℕ)
      → verify_available s.module' available args ≡ ret tt
      → ReadsMany (read_all s args)
  unfolding read_all
  read_all-ReadsMany [] e = reads_many
  read_all-ReadsMany (arg ∷ args) e =
      let (a, rest) = source_available s.module' available arg args e in
      go (exec_read_value s arg) (read_all s args) (available-Reads s available arg h a)
        (read_all-ReadsMany args rest)
    where
      go :
          (r : Result ExecValue) (q : Result (List ExecValue)) {type : _}
          → Reads type r
          → ReadsMany q
          → ReadsMany (r >>= λ value. q >>= λ rest. ret (value ∷ rest))
      go (ret x) (ret xs) (reads e) reads_many = reads_many
      go (err e) q r m = elim r [ ]
      go (ret x) (err e) r m = elim m [ ]

  branch-Leads :
      (term : TermRec) (r : Result ExecValue)
      → Reads (type_at s.module' term.condition) r
      → is_i1 (type_at s.module' term.condition) ≡ true
      → verify_target_args s.module' available term.true_target (true_args s.module' term) ≡ ret tt
      → verify_target_args s.module' available term.false_target (false_args s.module' term)
        ≡ ret tt
      → Leads s (branch_on malloc s term r)
  branch-Leads term (err e) r i a b = elim r [ ]
  branch-Leads term (ret condition) (reads e) i a b =
      let small : is_i1 condition.type ≡ true = ap is_i1 e ∙ i in
      rw small (
        if-Leads (not (bit_and condition.lo 1 == 0))
          (go_on-Leads term.true_target (true_args s.module' term) a)
          (go_on-Leads term.false_target (false_args s.module' term) b))
    where
      if-Leads :
          (b : Bool) {x y : Next × ExecState} → Leads s x → Leads s y → Leads s (if b then x else y)
      if-Leads true p q = p
      if-Leads false p q = q

  return-Leads :
      (current : ℕ) (b : Bool) (r : Result (List ExecValue))
      → ReadsMany r
      → Leads s (if b then (fail range, s) else (halt_with current r, s))
  return-Leads current true r m = leads_not h.typed out_of_range
  return-Leads current false (ret values) reads_many = halts h.typed
  return-Leads current false (err e) m = elim m [ ]

  run_term-Leads :
      (current : ℕ) (term : TermRec) (kind : TermKind)
      → verify_term s.module' available term kind ≡ ret tt
      → Leads s (run_term malloc s current term kind)
  unfolding run_term verify_term
  run_term-Leads current term TermKind.unterminated e = cc
  run_term-Leads current term TermKind.jump e =
      go_on-Leads term.true_target (true_args s.module' term) e
  run_term-Leads current term TermKind.cbranch e =
      let (u, h1, b) =
        >>=-eq-ret _
          (λ done.
            verify_target_args s.module' available term.false_target (false_args s.module' term))
          e in
      let (c, a) =
        reject_if-eq-ret
          (not (value_is_available s.module' available term.condition)
            || not (is_i1 (type_at s.module' term.condition)))
          verify
          (verify_target_args s.module' available term.true_target (true_args s.module' term)) h1 in
      branch-Leads term (exec_read_value s term.condition)
        (available-Reads s available term.condition h (ground arith)) (ground arith) a b
  run_term-Leads current term TermKind.return e =
      return-Leads current (ltb max_returns term.true_arg_count)
        (read_all s (true_args s.module' term)) (read_all-ReadsMany (true_args s.module' term) e)
  run_term-Leads current term TermKind.trap e = halts h.typed
  run_term-Leads current term TermKind.fault e = halts h.typed

move-Verified : (s s' : ExecState) → Extends s s' → Verified s.module' → Verified s'.module'
move-Verified s s' x v = subst Verified (sym x.module_same) v

run_block-Leads :
    (host : Host) (malloc : ℕ → Bool) (s : ExecState) (current : ℕ)
    → Typed s
    → Verified s.module'
    → Entered s current
    → Leads s (run_block host malloc s current)
unfolding run_block
run_block-Leads host malloc s current t verified e =
    let v = verified current e.block e.is_block in
    let h : Holds v.entered s =
      enter-Holds s current e.block.params.items _ v.entered (blank-Holds s t) e.params
        v.params_ok in
    subst (λ o. Leads s (run_block_rec host malloc s current o)) (sym e.is_block)
      (go v.available v.term_ok (run_ops host e.block.ops.items s)
        (run_ops-Runs host current e.block.ops.items v.entered v.available s h v.ops_ok))
  where
    go :
        (available : Marks)
        → verify_term s.module' available e.block.term e.block.term.kind ≡ ret tt
        → (r : OpsEnd × ExecState) → Runs available s r
        → Leads s (after_ops malloc current e.block.term r)
    go available k (finished, s') (finishes h x) = later-Leads s s' _ x (
        run_term-Leads malloc s' available h (move-Verified s s' x verified) current e.block.term
          e.block.term.kind
          (subst (λ m. verify_term m available e.block.term e.block.term.kind ≡ ret tt)
            (sym x.module_same) k))
    go available k (stopped opcode, s') (stops_at t) = halts t
    go available k (failed e, s') (fails_with t f) = leads_not t f

-- A run that halts, or that fails for a reason that verification leaves, in a state with values of
-- their types.
pub data IsSound : Result ExecResult × ExecState → Type 0 where
  halts_well : {result : ExecResult} {s : ExecState} → Typed s → IsSound (ret result, s)
  fails_well : {e : Error} {s : ExecState} → Typed s → Failure s e → IsSound (err e, s)

run_from-IsSound :
    (host : Host) (malloc : ℕ → Bool) (left current : ℕ) (s : ExecState)
    → Typed s
    → Verified s.module'
    → Entered s current
    → IsSound (run_from host malloc left current s)
unfolding run_from
run_from-IsSound host malloc zero current s t verified e = halts_well t
run_from-IsSound host malloc (suc left) current s t verified e =
    go (run_block host malloc s current) (run_block-Leads host malloc s current t verified e)
      λ target s' t' x d.
        run_from-IsSound host malloc left target s' t' (move-Verified s s' x verified) d
  where
    go :
        (r : Next × ExecState)
        → Leads s r
        → ((target : ℕ) (s' : ExecState)
            → Typed s'
            → Extends s s'
            → Entered s' target
            → IsSound (run_from host malloc left target s'))
        → IsSound (and_from r λ target s'. run_from host malloc left target s')
    go (goto target, s') (leads t x d) k = k target s' t x d
    go (halt result, s') (halts t) k = halts_well t
    go (fail e, s') (leads_not t f) k = fails_well t f

-- On a module that is verified, from a state whose values have their types and where the parameters of
-- the entry are defined, a run of any number of steps halts, or fails because memory is short, because a
-- range is exceeded, or as a bad argument where the bytes of an access wrap around the address space;
-- the values that it leaves have their types.
pub exec_run-IsSound :
    (calloc malloc : ℕ → Bool) (host : Host) (entry : ℕ) (s : ExecState) (step_limit : ℕ)
    → verify_module calloc s.module' ≡ ret tt
    → Typed s
    → Entered s entry
    → IsSound (exec_run host malloc entry s step_limit)
unfolding exec_run
exec_run-IsSound calloc malloc host entry s step_limit verified t e =
    let slots : (length s.values == count s.module'.values) ≡ true =
      let k = t.slots in ground arith in
    let below = lt_of_get_elem? s.module'.blocks.items entry e.is_block in
    let valid : valid_block s.module' entry ≡ true = ground arith in
    rw (slots, valid)
      (run_from-IsSound host malloc step_limit entry s t (module-Verified calloc s.module' verified)
        e)
