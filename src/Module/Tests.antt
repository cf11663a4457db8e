-- ===== src/Module/Tests.antt =====
-- The theorems of src/xair.c's builder at a module with one open block.
use xair.Prelude.{◌≤◌, ◌≡◌, refl, arith, true, [], ◌∷◌}
use xair.Prelude.Words.{size_max}
use xair.Status.{ret}
use xair.Ir.Types.{type_i}
use xair.Ir.Opcode.{const_u64}
use xair.Module.Data.{Endian, Module, new_module}
use xair.Module.Grow.{Host, Array, grow_cap, grow_array}
use xair.Module.Capacity.{grow_array-holds}
use xair.Module.Numbering.{Key}
use xair.Module.Build.{add_op, new_block}
use xair.Module.Outcome.{Outcome, add_op_lem}
use xair.Module.Freeze.{module_freeze}
use xair.Module.Frozen.{SameContents, module_after, module_freeze-SameContents}

abbrev generous : Host
generous = record { size_of = λ _. 16; realloc = λ _ _. true }

abbrev one_block : Module
one_block = record new_module { blocks = record { items = new_block (b'e' ∷ []) 0 ∷ []; cap = 8 } }

abbrev five : Key
five = record {
  block = 0;
  opcode = const_u64;
  type = type_i 8;
  srcs = [];
  imm = 5;
  endian = Endian.le;
}

add_op_lem_example : Outcome one_block five [] (add_op generous one_block five [])
add_op_lem_example = add_op_lem generous one_block five []

grown : grow_array generous Array.values 8 20 ≡ ret 32
unfolding grow_array grow_cap
grown = refl

grow_array-holds_example : (20 ≤ 32) × (8 ≤ 32) × (32 ≤ size_max)
grow_array-holds_example =
    grow_array-holds generous Array.values 8 20 32 (omega arith) (omega arith) grown

-- The module with the constant in it.
abbrev one_op : Module
one_op = (add_op generous one_block five []).1

module_freeze-SameContents_example :
    SameContents one_op (module_after (module_freeze generous one_op))
module_freeze-SameContents_example = module_freeze-SameContents generous one_op
