-- ===== src/Canon/Tests.antt =====
-- The live values of src/xair.c at a block that adds its parameter to a constant and returns the sum;
-- a product is dead.
use xair.Prelude.{ℕ, ◌≡◌, ◌↔◌, refl, true, false, List, [], ◌∷◌}
use xair.Status.{ret}
use xair.Ir.Types.{type_i, type_equal, type_is_valid, is_value_type}
use xair.Module.Grow.{Host}
use xair.Exec.State.{new_state}
use xair.Exec.Op.{exec_op}
use xair.Verify.{verify_op, verify_sources, verify_binary_op, binary_types_fit}
use xair.Sound.Start.{new_state-Typed}
use xair.Exec.Fold.{fold_constant_op, fold_value, fold_arith, fold_to_const, const_u64_value, op_of}
use xair.Exec.Scalar.{truncate_to_type, mask_for_bits}
use xair.Module.Numbering.{value_number_clear}
use xair.Verify.Blocks.{
  value_is_global_const, value_is_available, verify_args, verify_target_args, verify_available,
  verify_term, verify_params, verify_one, verify_ops, verify_block, verify_blocks, verify_module,
}
use xair.Canon.Local.{
  CanonStats, swapped, strcmp, compare_value_order, reorder_op, canonicalize_from,
  canonicalize_local_ops,
}
use xair.Canon.Compact.{
  Allocations, canonicalize_module, eliminate_dead_values, compact_live_values, compacted,
  move_blocks, move_ops, kept_ops, map_ids, move_values, number_blocks, number_ops, number_params,
  remap_args, remap_term_args,
}
use xair.Canon.Counts.{IsCanonical, canonicalize_module-IsCanonical}
use xair.Canon.Reorder.{exec_op-swapped}
use xair.Ir.Opcode.{Opcode}
use xair.Module.Data.{Endian, Module, OpRec, ValueRec, TermKind, invalid_id, new_module}
use xair.Module.Build.{new_block}
use xair.Module.Terms.{term_of, with_true_args}
use xair.Verify.Blocks.{is_marked}
use xair.Canon.Live.{live_values, mark_live_value, mark_term_live_values, mark_blocks}
use xair.Canon.Reach.{Reach}
use xair.Canon.Roots.{roots_of, live_values-Reach}

abbrev value_rec : (op : ℕ) → ValueRec
value_rec op = record { type = type_i 8; block = 0; op = op; name = b'v' ∷ [] }

abbrev op_rec : Opcode → (dst : ℕ) → List ℕ → (imm : ℕ) → OpRec
op_rec opcode dst src imm = record {
  opcode = opcode;
  dst = dst;
  src = src;
  endian = Endian.le;
  imm = imm;
}

abbrev summed : Module
summed = record new_module {
  values = record {
    items = value_rec invalid_id ∷ value_rec 0 ∷ value_rec 1 ∷ value_rec 2 ∷ [];
    cap = 8;
  };
  ops = record {
    items =
        op_rec Opcode.const_u64 1 [] 5
        ∷ op_rec Opcode.mul 2 (0 ∷ 1 ∷ []) 0
        ∷ op_rec Opcode.add 3 (0 ∷ 1 ∷ []) 0
        ∷ [];
    cap = 8;
  };
  blocks = record {
    items =
        record (new_block [] 0) {
          params = record { items = 0 ∷ []; cap = 8 };
          ops = record { items = 0 ∷ 1 ∷ 2 ∷ []; cap = 8 };
          term = with_true_args (term_of TermKind.return invalid_id invalid_id invalid_id 0) 0 1;
        }
        ∷ [];
    cap = 8;
  };
  term_args = record { items = 3 ∷ []; cap = 8 };
}

sum-live : live_values summed ≡ true ∷ true ∷ false ∷ true ∷ []
unfolding mark_live_value mark_term_live_values mark_blocks
sum-live = refl

live_values-Reach_example :
    (is_marked (live_values summed) 1 ≡ true) ↔ Reach summed (roots_of summed summed.blocks.items) 1
live_values-Reach_example = live_values-Reach summed 1

abbrev generous : Host
generous = record { size_of = λ _. 16; realloc = λ _ _. true }

abbrev sum : OpRec
sum = op_rec Opcode.add 3 (0 ∷ 1 ∷ []) 0

sum-verified : verify_op summed sum ≡ ret tt
unfolding verify_op verify_sources verify_binary_op binary_types_fit type_equal is_value_type
    type_is_valid
sum-verified = refl

exec_op-swapped_example :
    exec_op generous (new_state summed) (swapped sum) ≡ exec_op generous (new_state summed) sum
exec_op-swapped_example =
    exec_op-swapped generous (new_state summed) sum (new_state-Typed summed) refl sum-verified

abbrev all_given : Allocations
all_given = record { live_given = true; maps_given = true; arrays_given = true }

-- The product is removed.
abbrev summed_stats : CanonStats
summed_stats = record {
  values_before = 4;
  values_after = 3;
  operations_before = 3;
  operations_after = 2;
  value_number_entries_before = 0;
  value_number_entries_after = 0;
  operands_reordered = 0;
  constants_folded = 0;
  dead_values_removed = 1;
  dead_operations_removed = 1;
}

abbrev summed_after : Module
summed_after = (canonicalize_module (λ _. true) all_given summed).1

summed-canonicalized :
    canonicalize_module (λ _. true) all_given summed ≡ (ret summed_stats, summed_after)
unfolding canonicalize_module eliminate_dead_values compact_live_values compacted move_blocks
    move_ops kept_ops map_ids move_values number_blocks number_ops number_params remap_args
    remap_term_args canonicalize_local_ops canonicalize_from reorder_op compare_value_order strcmp
    fold_constant_op fold_value fold_arith fold_to_const const_u64_value op_of truncate_to_type
    mask_for_bits value_number_clear mark_live_value mark_term_live_values mark_blocks verify_module
    verify_blocks verify_block verify_params verify_ops verify_one verify_term verify_available
    verify_target_args verify_args value_is_available value_is_global_const verify_op verify_sources
    verify_binary_op binary_types_fit type_equal is_value_type type_is_valid
summed-canonicalized = refl

canonicalize_module-IsCanonical_example : IsCanonical (λ _. true) summed summed_stats summed_after
canonicalize_module-IsCanonical_example =
    canonicalize_module-IsCanonical (λ _. true) all_given summed summed_stats summed_after
      summed-canonicalized
