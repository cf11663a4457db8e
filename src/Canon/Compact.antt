-- ===== src/Canon/Compact.antt =====
-- compact_live_values, eliminate_dead_values and xair_canonicalize_module of src/xair.c. The ids in a
-- verified module are valid, so every read of a map is in its bounds; which allocations succeed is the
-- host's.
use xair.Prelude.{
  ℕ, zero, suc, ◌+◌, Bool, ◌&&◌, not, Option, none, some, List, [], ◌∷◌, ◌==◌, get_elem?, set,
  replicate, if◌then◌else◌,
}
use xair.Prelude.Words.{add64, sub64}
use xair.Status.{oom, bad_arg, Result, ret, err}
use xair.Ir.Types.{ir_type, TypeKind}
use xair.Ir.Opcode.{Opcode}
use xair.Module.Data.{
  Module, ValueRec, OpRec, Endian, BlockRec, TermRec, TermKind, count, invalid_id,
}
use xair.Module.Numbering.{value_number_clear}
use xair.Verify.Blocks.{Marks, is_marked, verify_module}
use xair.Canon.Local.{CanonStats, canonicalize_local_ops}
use xair.Canon.Live.{live_values}

abbrev pub id_or_invalid : Option ℕ → ℕ
id_or_invalid none = invalid_id
id_or_invalid (some id) = id

-- `value_map` and `op_map`, and the number of the ids that they give.
abbrev pub mapped : List ℕ → ℕ → ℕ
mapped map id = id_or_invalid (get_elem? map id)

pub record Numbering : Type 0 where
  pub value_map : List ℕ
  pub op_map : List ℕ
  pub new_value_count : ℕ
  pub new_op_count : ℕ

abbrev pub number_value : ℕ → Numbering → Numbering
number_value value n = record n {
  value_map = set n.value_map value n.new_value_count;
  new_value_count = n.new_value_count + 1;
}

unfoldable pub number_params : (params : List ℕ) → Numbering → Numbering
number_params [] n = n
number_params (value ∷ params) n = number_params params (number_value value n)

abbrev pub number_op : Marks → (op_id : ℕ) → Option OpRec → Numbering → Numbering
number_op live op_id none n = n
number_op live op_id (some op) n =
    if is_marked live op.dst
    then record (number_value op.dst n) {
      op_map = set n.op_map op_id n.new_op_count;
      new_op_count = n.new_op_count + 1;
    }
    else n

unfoldable pub number_ops : Module → Marks → (ops : List ℕ) → Numbering → Numbering
number_ops m live [] n = n
number_ops m live (op_id ∷ ops) n =
    number_ops m live ops (number_op live op_id (get_elem? m.ops.items op_id) n)

unfoldable pub number_blocks : Module → Marks → List BlockRec → Numbering → Numbering
number_blocks m live [] n = n
number_blocks m live (block ∷ blocks) n =
    number_blocks m live blocks
      (number_ops m live block.ops.items (number_params block.params.items n))

abbrev pub number_live : Module → Marks → Numbering
number_live m live = number_blocks m live m.blocks.items (record {
  value_map = replicate (count m.values) invalid_id;
  op_map = replicate (count m.ops) invalid_id;
  new_value_count = 0;
  new_op_count = 0;
})

-- The records that calloc clears.
abbrev pub cleared_value : ValueRec
cleared_value = record { type = ir_type TypeKind.invalid 0 0; block = 0; op = 0; name = [] }

abbrev pub cleared_op : OpRec
cleared_op = record { opcode = Opcode.const_u64; dst = 0; src = []; endian = Endian.le; imm = 0 }

-- The loop that moves the values, from the old id `i` on.
unfoldable pub move_values :
    (value_map : List ℕ) → (i : ℕ) → List ValueRec → List ValueRec → List ValueRec
move_values value_map i [] new_values = new_values
move_values value_map i (v ∷ rest) new_values = move_values value_map (i + 1) rest (
    if mapped value_map i == invalid_id
    then new_values
    else set new_values (mapped value_map i) (record v { op = invalid_id }))

-- The new arrays while they are filled.
pub record Moved : Type 0 where
  pub new_values : List ValueRec
  pub new_ops : List OpRec
  pub new_args : List ℕ

abbrev pub with_op : ℕ → Option ValueRec → List ValueRec → ℕ → List ValueRec
with_op value none values op = values
with_op value (some v) values op = set values value (record v { op = op })

unfoldable pub map_ids : List ℕ → List ℕ → List ℕ
map_ids map [] = []
map_ids map (id ∷ ids) = mapped map id ∷ map_ids map ids

abbrev pub mapped_op : (value_map : List ℕ) → OpRec → OpRec
mapped_op value_map op = record op { dst = mapped value_map op.dst; src = map_ids value_map op.src }

abbrev pub move_op : (value_map : List ℕ) → (new_id : ℕ) → Option OpRec → Moved → Moved
move_op value_map new_id none moved = moved
move_op value_map new_id (some op) moved =
    let dst = mapped value_map op.dst in
    record moved {
      new_ops = set moved.new_ops new_id (mapped_op value_map op);
      new_values = with_op dst (get_elem? moved.new_values dst) moved.new_values new_id;
    }

-- A block's operations that are kept, under their new ids.
unfoldable pub kept_ops : (op_map : List ℕ) → (ops : List ℕ) → List ℕ
kept_ops op_map [] = []
kept_ops op_map (op_id ∷ ops) =
    let rest = kept_ops op_map ops in
    if mapped op_map op_id == invalid_id then rest else mapped op_map op_id ∷ rest

unfoldable pub move_ops : Module → Numbering → (ops : List ℕ) → Moved → Moved
move_ops m n [] moved = moved
move_ops m n (op_id ∷ ops) moved = move_ops m n ops (
    if mapped n.op_map op_id == invalid_id
    then moved
    else move_op n.value_map (mapped n.op_map op_id) (get_elem? m.ops.items op_id) moved)

-- The arguments are a slice of the shared array, which is changed in place.
unfoldable pub remap_args : (value_map : List ℕ) → (offset arg_count : ℕ) → List ℕ → List ℕ
remap_args value_map offset zero args = args
remap_args value_map offset (suc left) args =
    remap_args value_map (offset + 1) left (set args offset (mapped value_map (mapped args offset)))

abbrev pub remap_true : (value_map : List ℕ) → TermRec → List ℕ → List ℕ
remap_true value_map term args = remap_args value_map term.true_arg_offset term.true_arg_count args

abbrev pub remap_false : (value_map : List ℕ) → TermRec → List ℕ → List ℕ
remap_false value_map term args =
    remap_args value_map term.false_arg_offset term.false_arg_count args

unfoldable pub remap_term_args : (value_map : List ℕ) → TermRec → TermKind → List ℕ → List ℕ
remap_term_args value_map term TermKind.jump args = remap_true value_map term args
remap_term_args value_map term TermKind.return args = remap_true value_map term args
remap_term_args value_map term TermKind.cbranch args =
    remap_false value_map term (remap_true value_map term args)
remap_term_args value_map term _ args = args

abbrev pub remap_term : (value_map : List ℕ) → TermRec → TermKind → TermRec
remap_term value_map term TermKind.cbranch = record term {
  condition = mapped value_map term.condition;
}
remap_term value_map term _ = term

abbrev pub move_block : Numbering → BlockRec → BlockRec
move_block n block = record block {
  params = record block.params { items = map_ids n.value_map block.params.items };
  ops = record block.ops { items = kept_ops n.op_map block.ops.items };
  term = remap_term n.value_map block.term block.term.kind;
}

unfoldable pub move_blocks : Module → Numbering → List BlockRec → Moved → List BlockRec × Moved
move_blocks m n [] moved = ([], moved)
move_blocks m n (block ∷ blocks) moved =
    let after = move_ops m n block.ops.items moved in
    let (rest, end) = move_blocks m n blocks (record after {
      new_args = remap_term_args n.value_map block.term block.term.kind after.new_args;
    }) in
    (move_block n block ∷ rest, end)

-- The module with the new arrays.
unfoldable pub compacted : Module → Numbering → Module
compacted m n =
    let (blocks, end) = move_blocks m n m.blocks.items (record {
      new_values =
          move_values n.value_map 0 m.values.items (replicate n.new_value_count cleared_value);
      new_ops = replicate n.new_op_count cleared_op;
      new_args = m.term_args.items;
    }) in
    record m {
      values = record { items = end.new_values; cap = n.new_value_count };
      ops = record { items = end.new_ops; cap = n.new_op_count };
      blocks = record m.blocks { items = blocks };
      term_args = record m.term_args { items = end.new_args };
    }

-- Whether each group of allocations succeeds: the marks, the two maps, and the two new arrays.
pub record Allocations : Type 0 where
  pub live_given : Bool
  pub maps_given : Bool
  pub arrays_given : Bool

abbrev pub Canon : Type 0
Canon = Result CanonStats × Module

abbrev pub keeps_all : Module → Numbering → Bool
keeps_all m n = n.new_value_count == count m.values && n.new_op_count == count m.ops

abbrev pub removed : Module → Numbering → CanonStats → CanonStats
removed m n stats = record stats {
  dead_values_removed = add64 stats.dead_values_removed (sub64 (count m.values) n.new_value_count);
  dead_operations_removed =
      add64 stats.dead_operations_removed (sub64 (count m.ops) n.new_op_count);
}

unfoldable pub compact_live_values : Allocations → Module → Marks → CanonStats → Canon
compact_live_values given m live stats =
    if not given.maps_given
    then (err oom, m)
    else if keeps_all m (number_live m live)
    then (ret stats, m)
    else if not given.arrays_given
    then (err oom, m)
    else (ret (removed m (number_live m live) stats), compacted m (number_live m live))

unfoldable pub eliminate_dead_values : Allocations → Module → CanonStats → Canon
eliminate_dead_values given m stats =
    if not given.live_given then (err oom, m) else compact_live_values given m (live_values m) stats

abbrev pub stats_before : Module → CanonStats
stats_before m = record {
  values_before = count m.values;
  values_after = 0;
  operations_before = count m.ops;
  operations_after = 0;
  value_number_entries_before = m.number_count;
  value_number_entries_after = 0;
  operands_reordered = 0;
  constants_folded = 0;
  dead_values_removed = 0;
  dead_operations_removed = 0;
}

-- The counts after the second verification.
abbrev pub stats_after : Module → CanonStats → CanonStats
stats_after m stats = record stats {
  values_after = count m.values;
  operations_after = count m.ops;
  value_number_entries_after = m.number_count;
}

abbrev pub report : CanonStats → Module → Result (Unit {0}) → Canon
report stats m (err e) = (err e, m)
report stats m (ret u) = (ret (stats_after m stats), m)

abbrev pub verify_after : (calloc : ℕ → Bool) → Canon → Canon
verify_after calloc (err e, m) = (err e, m)
verify_after calloc (ret stats, m) = report stats m (verify_module calloc m)

abbrev pub after_local : (calloc : ℕ → Bool) → Allocations → Module × CanonStats → Canon
after_local calloc given (m, stats) = verify_after calloc (eliminate_dead_values given m stats)

abbrev pub if_verified : (calloc : ℕ → Bool) → Allocations → Module → Result (Unit {0}) → Canon
if_verified calloc given m (err e) = (err e, m)
if_verified calloc given m (ret u) =
    after_local calloc given (canonicalize_local_ops (value_number_clear m, stats_before m))

unfoldable pub canonicalize_module : (calloc : ℕ → Bool) → Allocations → Module → Canon
canonicalize_module calloc given m =
    if m.frozen then (err bad_arg, m) else if_verified calloc given m (verify_module calloc m)
