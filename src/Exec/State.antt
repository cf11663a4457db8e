-- ===== src/Exec/State.antt =====
-- The state of the executor and its values, of src/xair.c. The two arrays `values` and `defined` are
-- one list: a value that is not defined is `none`.
use xair.Prelude.{
  ℕ, Bool, false, ◌&&◌, not, Option, none, some, List, [], ltb, ◌==◌, length, get_elem?, set,
  replicate, if◌then◌else◌,
}
use xair.Status.{bad_arg, Result, ret, err, ◌>>◌, reject_if}
use xair.Ir.Types.{IrType, type_equal, type_i, type_addr, type_mem}
use xair.Ir.Opcode
use xair.Ir.Opcode.{opcode_equal}
use xair.Module.Data.{Module, ValueRec, OpRec, invalid_id, count}
use xair.Exec.Scalar.{truncate_to_type}

pub record ExecValue : Type 0 where
  pub type : IrType
  pub lo : ℕ
  pub hi : ℕ

-- A page's bytes; a byte that is not defined is `none`. Offsets are below 4096.
pub record Page : Type 0 where
  pub space : ℕ
  pub number : ℕ
  pub bytes : ℕ → Option ℕ

pub record ExecState : Type 0 where
  pub module' : Module
  pub values : List (Option ExecValue)
  pub pages : List Page
  pub page_cap : ℕ
  pub mem_generation : ℕ

unfoldable pub exec_value_make : IrType → (lo hi : ℕ) → ExecValue
exec_value_make type lo hi = record { type = type; lo = truncate_to_type lo type; hi = hi }

abbrev pub exec_i : (bits value : ℕ) → ExecValue
exec_i bits value = exec_value_make (type_i bits) value 0

abbrev pub exec_addr : (bits value : ℕ) → ExecValue
exec_addr bits value = exec_value_make (type_addr bits) value 0

abbrev pub exec_mem : (space addr_bits : ℕ) → ExecValue
exec_mem space addr_bits = exec_value_make (type_mem space addr_bits) 0 0

-- xair_exec_state_create, once the module has been verified: the two arrays are cleared.
abbrev pub new_state : Module → ExecState
new_state m = record {
  module' = m;
  values = replicate (count m.values) none;
  pages = [];
  page_cap = 0;
  mem_generation = 0;
}

abbrev pub has_slot : ExecState → ℕ → Bool
has_slot s value = ltb value (length s.values) && ltb value (count s.module'.values)

abbrev pub expects : Option ValueRec → IrType → Bool
expects none type = false
expects (some v) type = type_equal v.type type

unfoldable pub exec_define_value : ExecState → (value : ℕ) → ExecValue → Result ExecState
exec_define_value s value concrete = do
  reject_if (not (has_slot s value)) bad_arg
  reject_if (not (expects (get_elem? s.module'.values.items value) concrete.type)) bad_arg
  ret (record s { values = set s.values value (some concrete) })

-- The operation that defines a value, if it has a valid one.
abbrev pub const_of : Module → ValueRec → Option OpRec → Result ExecValue
const_of m v none = err bad_arg
const_of m v (some op) =
    if opcode_equal op.opcode Opcode.const_u64
    then ret (exec_value_make v.type op.imm 0)
    else err bad_arg

-- A value that is not defined is read if it is a constant (value_is_global_const).
abbrev pub global_const : Module → Option ValueRec → Result ExecValue
global_const m none = err bad_arg
global_const m (some v) =
    if v.op == invalid_id then err bad_arg else const_of m v (get_elem? m.ops.items v.op)

abbrev pub defined_or_const : Module → ℕ → Option (Option ExecValue) → Result ExecValue
defined_or_const m value (some (some concrete)) = ret concrete
defined_or_const m value _ = global_const m (get_elem? m.values.items value)

unfoldable pub exec_read_value : ExecState → (value : ℕ) → Result ExecValue
exec_read_value s value = do
  reject_if (not (has_slot s value)) bad_arg
  defined_or_const s.module' value (get_elem? s.values value)

abbrev pub is_param : Option ValueRec → Bool
is_param none = false
is_param (some v) = v.op == invalid_id

unfoldable pub exec_set_param : ExecState → (value : ℕ) → ExecValue → Result ExecState
exec_set_param s value concrete = do
  reject_if (not (has_slot s value)) bad_arg
  reject_if (not (is_param (get_elem? s.module'.values.items value))) bad_arg
  exec_define_value s value concrete
