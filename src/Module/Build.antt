-- ===== src/Module/Build.antt =====
-- The operations of src/xair.c that add blocks, parameters and operations to a module. An operation
-- returns its result and the module that it leaves, also where it fails.
use xair.Prelude.{
  ℕ, ◌+◌, ◌-◌, Bool, false, ◌||◌, not, Option, none, some, List, [], ◌∷◌, ltb, leb, ◌==◌, length,
  get_elem?, set, take, if◌then◌else◌,
}
use xair.Prelude.Words.{uint32_max}
use xair.Status.{bad_arg, range, Result, ret, err}
use xair.Ir.Types.{IrType, int, addr, kind_equal, is_value_type, type_void}
use xair.Ir.Opcode.{Opcode, const_u64, load, store}
use xair.Module.Data.{
  Endian, le, Module, Buffer, ValueRec, OpRec, BlockRec, TermRec, TermKind, term_kind_code,
  invalid_id, count, empty_buffer, valid_block, valid_value, copy_name,
}
use xair.Module.Grow.{Host, Array, append_to}
use xair.Module.Numbering.{
  Key, value_number_hash, value_number_lookup, value_number_prepare_insert, value_number_insert,
}

abbrev pub Step : Type 0 → Type 0
Step A = Result A × Module

-- The first test that holds decides the error.
abbrev pub is_open : Module → ℕ → Bool
is_open m block = elim (get_elem? m.blocks.items block) [
  | none ↦ false
  | some b ↦ term_kind_code b.term.kind == 0
]

abbrev pub new_value : IrType → ℕ → List ℕ → ℕ → ValueRec
new_value type block name id = record {
  type = type;
  block = block;
  op = invalid_id;
  name = copy_name name (b'v' ∷ []) id;
}

abbrev pub appended : Module → Result (Buffer ValueRec) → Step ℕ
appended m (err e) = (err e, m)
appended m (ret values) = (ret (count m.values), record m { values = values })

unfoldable pub add_value : Host → Module → (block : ℕ) → IrType → (name : List ℕ) → Step ℕ
add_value host m block type name =
    if m.frozen || (not (valid_block m block) || not (is_value_type type))
    then (err bad_arg, m)
    else if leb uint32_max (count m.values)
    then (err range, m)
    else appended m
        (append_to host Array.values m.values (new_value type block name (count m.values)))

-- `count--`, and the write of the `op` field of a value
abbrev pub pop_last : {A : Type 0} → Buffer A → Buffer A
pop_last b = record b { items = take (count b - 1) b.items }

abbrev pub write_op : List ValueRec → ℕ → ℕ → Option ValueRec → List ValueRec
write_op values value op none = values
write_op values value op (some v) = set values value (record v { op = op })

abbrev pub set_op : List ValueRec → ℕ → ℕ → List ValueRec
set_op values value op = write_op values value op (get_elem? values value)

abbrev pub set_block : Module → ℕ → BlockRec → Module
set_block m block b = record m { blocks = record m.blocks { items = set m.blocks.items block b } }

-- add_op from the append to the block's array of operations on: `m` holds the new value and the new
-- operation.
abbrev pub enter_op :
    Module → (block : ℕ) → BlockRec → (hash value : ℕ) → Result (Buffer ℕ) → Step ℕ
enter_op m block b hash value (err e) = (
  err e,
  record m {
    values = pop_last (record m.values { items = set_op m.values.items value invalid_id });
    ops = pop_last m.ops;
  },
)
enter_op m block b hash value (ret ops) =
    (ret value, value_number_insert (set_block m block (record b { ops = ops })) hash value)

abbrev pub new_op : Key → ℕ → OpRec
new_op key value = record {
  opcode = key.opcode;
  dst = value;
  src = key.srcs;
  endian = key.endian;
  imm = key.imm;
}

-- From the growth of the array of operations on: `m` holds the new value.
abbrev pub record_op :
    Host → Module → BlockRec → Key → (hash value : ℕ) → Result (Buffer OpRec) → Step ℕ
record_op host m b key hash value (err e) = (err e, record m { values = pop_last m.values })
record_op host m b key hash value (ret ops) =
    let op_id = count m.ops in
    let m' = record m {
      ops = ops;
      values = record m.values { items = set_op m.values.items value op_id };
    } in
    enter_op m' key.block b hash value (append_to host Array.block_ops b.ops op_id)

unfoldable pub after_value : Host → BlockRec → Key → ℕ → Step ℕ → Step ℕ
after_value host b key hash (err e, m) = (err e, m)
after_value host b key hash (ret value, m) =
    record_op host m b key hash value (append_to host Array.ops m.ops (new_op key value))

-- From the growth of the value numbering table on.
unfoldable pub insert_op : Host → Module → BlockRec → Key → ℕ → List ℕ → Result Module → Step ℕ
insert_op host m b key hash name (err e) = (err e, m)
insert_op host m b key hash name (ret m') =
    after_value host b key hash (add_value host m' key.block key.type name)

-- From the lookup's result on; a hit counts as reused.
unfoldable pub reuse_or_insert :
    Host → Module → BlockRec → Key → (hash : ℕ) → (name : List ℕ) → Option ℕ → Step ℕ
reuse_or_insert host m b key hash name (some value) =
    (ret value, record m { stats = record m.stats { reused = m.stats.reused + 1 } })
reuse_or_insert host m b key hash name none =
    insert_op host m b key hash name (value_number_prepare_insert host m)

unfoldable pub find_or_insert : Host → Module → BlockRec → Key → List ℕ → Step ℕ
find_or_insert host m b key name =
    let hash = value_number_hash key in
    let found = value_number_lookup m key hash in
    reuse_or_insert host (record m { stats = record m.stats { collisions = found.collisions } }) b
      key hash name found.value

-- From the read of the block on.
unfoldable pub add_op_in : Host → Module → Key → (name : List ℕ) → Option BlockRec → Step ℕ
add_op_in host m key name none = (err bad_arg, m)
add_op_in host m key name (some b) =
    if not (term_kind_code b.term.kind == 0)
    then (err bad_arg, m)
    else if leb uint32_max (count m.ops)
    then (err range, m)
    else find_or_insert host m b key name

unfoldable pub add_op : Host → Module → Key → (name : List ℕ) → Step ℕ
add_op host m key name =
    if m.frozen || ltb 3 (length key.srcs)
    then (err bad_arg, m)
    else add_op_in host m key name (get_elem? m.blocks.items key.block)

abbrev pub no_term : TermRec
no_term = record {
  kind = TermKind.unterminated;
  condition = invalid_id;
  true_target = invalid_id;
  false_target = invalid_id;
  true_arg_offset = 0;
  true_arg_count = 0;
  false_arg_offset = 0;
  false_arg_count = 0;
  code = 0;
}

abbrev pub new_block : List ℕ → ℕ → BlockRec
new_block name id = record {
  name = copy_name name (b'b' ∷ b'b' ∷ []) id;
  params = empty_buffer;
  ops = empty_buffer;
  term = no_term;
}

unfoldable pub block_create : Host → Module → (name : List ℕ) → Step ℕ
block_create host m name =
    if m.frozen
    then (err bad_arg, m)
    else if leb uint32_max (count m.blocks)
    then (err range, m)
    else elim (append_to host Array.blocks m.blocks (new_block name (count m.blocks))) [
      | err e ↦ (err e, m)
      | ret blocks ↦ (ret (count m.blocks), record m { blocks = blocks })
    ]

abbrev pub enter_param : Module → (block : ℕ) → BlockRec → (value : ℕ) → Result (Buffer ℕ) → Step ℕ
enter_param m block b value (err e) = (err e, record m { values = pop_last m.values })
enter_param m block b value (ret params) =
    (ret value, set_block m block (record b { params = params }))

unfoldable pub after_param : Host → (block : ℕ) → BlockRec → Step ℕ → Step ℕ
after_param host block b (err e, m) = (err e, m)
after_param host block b (ret value, m) =
    enter_param m block b value (append_to host Array.params b.params value)

unfoldable pub block_add_param : Host → Module → (block : ℕ) → IrType → (name : List ℕ) → Step ℕ
block_add_param host m block type name = elim (get_elem? m.blocks.items block) [
  | none ↦ (err bad_arg, m)
  | some b ↦
      if not (is_value_type type) || not (term_kind_code b.term.kind == 0)
      then (err bad_arg, m)
      else after_param host block b (add_value host m block type name)
]

abbrev pub key_of : ℕ → Opcode → IrType → List ℕ → ℕ → Endian → Key
key_of block opcode type srcs imm endian = record {
  block = block;
  opcode = opcode;
  type = type;
  srcs = srcs;
  imm = imm;
  endian = endian;
}

module _ (host : Host) (m : Module) (block : ℕ) where
  unfoldable pub build_const_u64 : IrType → (value : ℕ) → (name : List ℕ) → Step ℕ
  build_const_u64 type value name =
      if not (kind_equal type.kind int || kind_equal type.kind addr) || ltb 64 type.bits
      then (err bad_arg, m)
      else add_op host m (key_of block const_u64 type [] value le) name

  unfoldable pub build_unary : Opcode → IrType → (src : ℕ) → (name : List ℕ) → Step ℕ
  build_unary opcode type src name =
      if not (valid_value m src)
      then (err bad_arg, m)
      else add_op host m (key_of block opcode type (src ∷ []) 0 le) name

  unfoldable pub build_binary : Opcode → IrType → (lhs rhs : ℕ) → (name : List ℕ) → Step ℕ
  build_binary opcode type lhs rhs name =
      if not (valid_value m lhs) || not (valid_value m rhs)
      then (err bad_arg, m)
      else add_op host m (key_of block opcode type (lhs ∷ rhs ∷ []) 0 le) name

  unfoldable pub build_load : IrType → (memory address : ℕ) → Endian → (name : List ℕ) → Step ℕ
  build_load type memory address endian name =
      if not (valid_value m memory) || not (valid_value m address)
      then (err bad_arg, m)
      else add_op host m (key_of block load type (memory ∷ address ∷ []) 0 endian) name

  abbrev value_type_or_void : Option ValueRec → IrType
  value_type_or_void none = type_void
  value_type_or_void (some v) = v.type

  -- The result has the type of the memory, which is valid once the tests have passed.
  unfoldable pub build_store : (memory address value : ℕ) → Endian → (name : List ℕ) → Step ℕ
  build_store memory address value endian name =
      if not (valid_value m memory) || (not (valid_value m address) || not (valid_value m value))
      then (err bad_arg, m)
      else add_op host m
          (key_of block store (value_type_or_void (get_elem? m.values.items memory))
            (memory ∷ address ∷ value ∷ []) 0 endian)
          name
