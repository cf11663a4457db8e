-- ===== src/Verify/Blocks.antt =====
-- xair_verify_module, verify_term and verify_target_args of src/xair.c. A refusal is the error `verify`;
-- its message and its place are left out. The parameters of a block that a terminator names are valid
-- ids, as xair_block_add_param makes them.
use xair.Prelude.{
  ℕ, ◌+◌, Bool, true, false, ◌&&◌, ◌||◌, not, Option, none, some, List, [], ◌∷◌, ◌==◌, length,
  get_elem?, set, replicate, if◌then◌else◌,
}
use xair.Status.{oom, verify, Result, ret, err, ◌>>=◌, ◌>>◌, reject_if}
use xair.Ir.Types.{type_equal, is_i1, is_value_type}
use xair.Ir.Opcode.{Opcode, opcode_equal}
use xair.Module.Data.{
  Module, ValueRec, OpRec, BlockRec, TermRec, TermKind, count, valid_value, invalid_id,
}
use xair.Exec.Fold.{type_at}
use xair.Exec.Run.{true_args, false_args}
use xair.Verify.{verify_op}

abbrev pub is_const_op : Option OpRec → Bool
is_const_op none = false
is_const_op (some op) = opcode_equal op.opcode Opcode.const_u64

abbrev pub defined_by_const : Module → Option ValueRec → Bool
defined_by_const m none = false
defined_by_const m (some v) = not (v.op == invalid_id) && is_const_op (get_elem? m.ops.items v.op)

unfoldable pub value_is_global_const : Module → (value : ℕ) → Bool
value_is_global_const m value = defined_by_const m (get_elem? m.values.items value)

-- The marks of one block's available values, which calloc clears.
abbrev pub Marks : Type 0
Marks = List Bool

abbrev pub mark_or_false : Option Bool → Bool
mark_or_false none = false
mark_or_false (some b) = b

abbrev pub is_marked : Marks → ℕ → Bool
is_marked available value = mark_or_false (get_elem? available value)

unfoldable pub value_is_available : Module → Marks → (value : ℕ) → Bool
value_is_available m available value =
    valid_value m value && (is_marked available value || value_is_global_const m value)

-- The loop over the arguments.
unfoldable pub verify_args : Module → Marks → (params args : List ℕ) → Result (Unit {0})
verify_args m available [] args = ret tt
verify_args m available (param ∷ params) [] = ret tt
verify_args m available (param ∷ params) (arg ∷ args) =
    reject_if (not (value_is_available m available arg)) verify
    >> reject_if (not (type_equal (type_at m arg) (type_at m param))) verify
    >> verify_args m available params args

abbrev pub verify_target : Module → Marks → Option BlockRec → (args : List ℕ) → Result (Unit {0})
verify_target m available none args = err verify
verify_target m available (some block) args =
    reject_if (not (count block.params == length args)) verify
    >> verify_args m available block.params.items args

unfoldable pub verify_target_args :
    Module → Marks → (target : ℕ) → (args : List ℕ) → Result (Unit {0})
verify_target_args m available target args =
    verify_target m available (get_elem? m.blocks.items target) args

-- The loop over the sources of an operation, and the one over the values of a return.
unfoldable pub verify_available : Module → Marks → List ℕ → Result (Unit {0})
verify_available m available [] = ret tt
verify_available m available (value ∷ values) =
    reject_if (not (value_is_available m available value)) verify
    >> verify_available m available values

unfoldable pub verify_term : Module → Marks → TermRec → TermKind → Result (Unit {0})
verify_term m available term TermKind.unterminated = err verify
verify_term m available term TermKind.jump =
    verify_target_args m available term.true_target (true_args m term)
verify_term m available term TermKind.cbranch =
    reject_if
      (not (value_is_available m available term.condition)
        || not (is_i1 (type_at m term.condition)))
      verify
    >> verify_target_args m available term.true_target (true_args m term)
    >> verify_target_args m available term.false_target (false_args m term)
verify_term m available term TermKind.return = verify_available m available (true_args m term)
verify_term m available term TermKind.trap = ret tt
verify_term m available term TermKind.fault = ret tt

abbrev pub in_block : (block_id : ℕ) → Option ValueRec → Bool
in_block block_id none = false
in_block block_id (some v) = v.block == block_id

abbrev pub made_by : (block_id op_id : ℕ) → Option ValueRec → Bool
made_by block_id op_id none = false
made_by block_id op_id (some v) = v.block == block_id && v.op == op_id

-- The loop over the parameters, which marks them.
unfoldable pub verify_params : Module → (block_id : ℕ) → (params : List ℕ) → Marks → Result Marks
verify_params m block_id [] available = ret available
verify_params m block_id (value ∷ params) available =
    reject_if
      (not (valid_value m value)
        || (not (in_block block_id (get_elem? m.values.items value))
            || not (is_value_type (type_at m value))))
      verify
    >> verify_params m block_id params (set available value true)

-- One round of the loop over the operations.
unfoldable pub verify_one : Module → (block_id op_id : ℕ) → Marks → Option OpRec → Result Marks
verify_one m block_id op_id available none = err verify
verify_one m block_id op_id available (some op) =
    reject_if
      (not (valid_value m op.dst) || not (made_by block_id op_id (get_elem? m.values.items op.dst)))
      verify
    >> verify_available m available op.src
    >> verify_op m op
    >> ret (set available op.dst true)

unfoldable pub verify_ops : Module → (block_id : ℕ) → (ops : List ℕ) → Marks → Result Marks
verify_ops m block_id [] available = ret available
verify_ops m block_id (op_id ∷ ops) available = do
  available' ← verify_one m block_id op_id available (get_elem? m.ops.items op_id)
  verify_ops m block_id ops available'

-- `calloc` says whether the marks are given.
unfoldable pub verify_block :
    (calloc : ℕ → Bool) → Module → (block_id : ℕ) → BlockRec → Result (Unit {0})
verify_block calloc m block_id block = do
  reject_if (not (calloc (if count m.values == 0 then 1 else count m.values))) oom
  params ←
      verify_params m block_id block.params.items
        (replicate (if count m.values == 0 then 1 else count m.values) false)
  available ← verify_ops m block_id block.ops.items params
  verify_term m available block.term block.term.kind

unfoldable pub verify_blocks :
    (calloc : ℕ → Bool) → Module → (block_id : ℕ) → List BlockRec → Result (Unit {0})
verify_blocks calloc m block_id [] = ret tt
verify_blocks calloc m block_id (block ∷ blocks) =
    verify_block calloc m block_id block >> verify_blocks calloc m (block_id + 1) blocks

unfoldable pub verify_module : (calloc : ℕ → Bool) → Module → Result (Unit {0})
verify_module calloc m = verify_blocks calloc m 0 m.blocks.items
