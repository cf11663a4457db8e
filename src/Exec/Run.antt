-- ===== src/Exec/Run.antt =====
-- exec_transfer_args, exec_set_result and xair_exec_run of src/xair.c. The state holds the module that
-- it was created for, so that the test for the same module has no counterpart. The arguments of a
-- terminator are a slice of the module's shared array.
use xair.Prelude.{
  ℕ, zero, suc, Bool, ◌||◌, not, Option, none, some, List, [], ◌∷◌, bit_and, ltb, ◌==◌, length,
  get_elem?, take, drop, if◌then◌else◌,
}
use xair.Status.{Error, oom, bad_arg, range, unsupported, Result, ret, err, ◌>>=◌}
use xair.Ir.Types.{is_i1}
use xair.Ir.Opcode.{Opcode, opcode_code}
use xair.Module.Data.{Module, OpRec, BlockRec, TermRec, TermKind, count, valid_block}
use xair.Module.Grow.{Host}
use xair.Exec.State.{ExecValue, ExecState, exec_define_value, exec_read_value}
use xair.Exec.Op.{Status, exec_op}

-- XAIR_EXEC_MAX_RETURNS
abbrev pub max_returns : ℕ
max_returns = 8

pub data HaltKind : Type 0 where
  halted_return halted_trap halted_fault halted_step_limit halted_unsupported : HaltKind

-- `returns` holds the first `return_count` values.
pub record ExecResult : Type 0 where
  pub kind : HaltKind
  pub block : ℕ
  pub code : ℕ
  pub returns : List ExecValue

abbrev pub exec_set_result : HaltKind → (block code : ℕ) → ExecResult
exec_set_result kind block code = record { kind = kind; block = block; code = code; returns = [] }

abbrev pub true_args : Module → TermRec → List ℕ
true_args m term = take term.true_arg_count (drop term.true_arg_offset m.term_args.items)

abbrev pub false_args : Module → TermRec → List ℕ
false_args m term = take term.false_arg_count (drop term.false_arg_offset m.term_args.items)

-- The first loop of exec_transfer_args, and the loop over the returned values.
unfoldable pub read_all : ExecState → List ℕ → Result (List ExecValue)
read_all s [] = ret []
read_all s (arg ∷ args) = do
  value ← exec_read_value s arg
  rest ← read_all s args
  ret (value ∷ rest)

-- The second loop, which keeps what it has defined where it fails.
unfoldable pub define_all : ExecState → (params : List ℕ) → List ExecValue → Status
define_all s [] copies = (ret tt, s)
define_all s (param ∷ params) [] = (ret tt, s)
define_all s (param ∷ params) (copy ∷ copies) = elim (exec_define_value s param copy) [
  | err e ↦ (err e, s)
  | ret s' ↦ define_all s' params copies
]

abbrev pub define_copies : ExecState → (params : List ℕ) → Result (List ExecValue) → Status
define_copies s params (err e) = (err e, s)
define_copies s params (ret copies) = define_all s params copies

-- The allocation of the copies is the host's: `malloc` is asked for their number.
unfoldable pub transfer_to :
    (malloc : ℕ → Bool) → ExecState → Option BlockRec → (args : List ℕ) → Status
transfer_to malloc s none args = (err bad_arg, s)
transfer_to malloc s (some block) args =
    if not (count block.params == length args)
    then (err bad_arg, s)
    else if length args == 0
    then (ret tt, s)
    else if not (malloc (length args))
    then (err oom, s)
    else define_copies s block.params.items (read_all s args)

unfoldable pub exec_transfer_args :
    (malloc : ℕ → Bool) → ExecState → (target : ℕ) → (args : List ℕ) → Status
exec_transfer_args malloc s target args =
    transfer_to malloc s (get_elem? s.module'.blocks.items target) args

-- What the operations of a block, and then its terminator, lead to.
pub data OpsEnd : Type 0 where
  finished : OpsEnd
  stopped : Opcode → OpsEnd
  failed : Error → OpsEnd

pub data Next : Type 0 where
  goto : ℕ → Next
  halt : ExecResult → Next
  fail : Error → Next

abbrev pub op_end : Opcode → Status → OpsEnd × ExecState
op_end opcode (ret u, s) = (finished, s)
op_end opcode (err unsupported, s) = (stopped opcode, s)
op_end opcode (err e, s) = (failed e, s)

-- The module has been verified, so the ids of a block's operations are valid.
abbrev pub run_one : Host → ExecState → Option OpRec → OpsEnd × ExecState
run_one host s none = (failed bad_arg, s)
run_one host s (some op) = op_end op.opcode (exec_op host s op)

abbrev pub and_ops : OpsEnd × ExecState → (ExecState → OpsEnd × ExecState) → OpsEnd × ExecState
and_ops (finished, s) k = k s
and_ops (stopped opcode, s) k = (stopped opcode, s)
and_ops (failed e, s) k = (failed e, s)

unfoldable pub run_ops : Host → (ops : List ℕ) → ExecState → OpsEnd × ExecState
run_ops host [] s = (finished, s)
run_ops host (i ∷ ops) s =
    and_ops (run_one host s (get_elem? s.module'.ops.items i)) λ s'. run_ops host ops s'

abbrev pub go_on : (target : ℕ) → Status → Next × ExecState
go_on target (ret u, s) = (goto target, s)
go_on target (err e, s) = (fail e, s)

abbrev pub halt_with : (current : ℕ) → Result (List ExecValue) → Next
halt_with current (err e) = fail e
halt_with current (ret values) =
    halt (record (exec_set_result HaltKind.halted_return current 0) { returns = values })

abbrev pub branch_on :
    (malloc : ℕ → Bool) → ExecState → TermRec → Result ExecValue → Next × ExecState
branch_on malloc s term (err e) = (fail e, s)
branch_on malloc s term (ret condition) =
    if not (is_i1 condition.type)
    then (fail bad_arg, s)
    else if not (bit_and condition.lo 1 == 0)
    then go_on term.true_target
        (exec_transfer_args malloc s term.true_target (true_args s.module' term))
    else go_on term.false_target
        (exec_transfer_args malloc s term.false_target (false_args s.module' term))

-- The switch over the terminator's kind.
unfoldable pub run_term :
    (malloc : ℕ → Bool) → ExecState → (current : ℕ) → TermRec → TermKind → Next × ExecState
run_term malloc s current term TermKind.jump =
    go_on term.true_target (exec_transfer_args malloc s term.true_target (true_args s.module' term))
run_term malloc s current term TermKind.cbranch =
    branch_on malloc s term (exec_read_value s term.condition)
run_term malloc s current term TermKind.return =
    if ltb max_returns term.true_arg_count
    then (fail range, s)
    else (halt_with current (read_all s (true_args s.module' term)), s)
run_term malloc s current term TermKind.trap =
    (halt (exec_set_result HaltKind.halted_trap current term.code), s)
run_term malloc s current term TermKind.fault =
    (halt (exec_set_result HaltKind.halted_fault current term.code), s)
run_term malloc s current term TermKind.unterminated = (fail bad_arg, s)

abbrev pub after_ops :
    (malloc : ℕ → Bool) → (current : ℕ) → TermRec → OpsEnd × ExecState → Next × ExecState
after_ops malloc current term (finished, s) = run_term malloc s current term term.kind
after_ops malloc current term (stopped opcode, s) =
    (halt (exec_set_result HaltKind.halted_unsupported current (opcode_code opcode)), s)
after_ops malloc current term (failed e, s) = (fail e, s)

abbrev pub run_block_rec :
    Host → (malloc : ℕ → Bool) → ExecState → (current : ℕ) → Option BlockRec → Next × ExecState
run_block_rec host malloc s current none = (fail bad_arg, s)
run_block_rec host malloc s current (some block) =
    after_ops malloc current block.term (run_ops host block.ops.items s)

-- One round of the loop of xair_exec_run, past the test of the step limit.
unfoldable pub run_block : Host → (malloc : ℕ → Bool) → ExecState → (current : ℕ) → Next × ExecState
run_block host malloc s current =
    run_block_rec host malloc s current (get_elem? s.module'.blocks.items current)

abbrev pub and_from :
    Next × ExecState
    → (ℕ → ExecState → Result ExecResult × ExecState)
    → Result ExecResult × ExecState
and_from (goto target, s) k = k target s
and_from (halt result, s) k = (ret result, s)
and_from (fail e, s) k = (err e, s)

-- The loop; `left` is the number of steps below the limit.
unfoldable pub run_from :
    Host → (malloc : ℕ → Bool) → (left current : ℕ) → ExecState → Result ExecResult × ExecState
run_from host malloc zero current s =
    (ret (exec_set_result HaltKind.halted_step_limit current 0), s)
run_from host malloc (suc left) current s =
    and_from (run_block host malloc s current) λ target s'. run_from host malloc left target s'

unfoldable pub exec_run :
    Host
    → (malloc : ℕ → Bool) → (entry : ℕ) → ExecState
    → (step_limit : ℕ) → Result ExecResult × ExecState
exec_run host malloc entry s step_limit =
    if not (length s.values == count s.module'.values) || not (valid_block s.module' entry)
    then (err bad_arg, s)
    else run_from host malloc step_limit entry s
