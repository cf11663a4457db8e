-- ===== src/Sound/Tests.antt =====
-- The executor of src/xair.c on a verified module with two blocks: the first stores a byte at an address
-- and loads it again, and the second returns it.
use xair.Prelude.{
  ℕ, zero, suc, ◌≡◌, refl, sym, ap, true, List, [], ◌∷◌, some, none, replicate, get_elem?,
}
use xair.Status.{ret}
use xair.Ir.Types.{IrType, type_i, type_addr, type_mem, type_equal, type_is_valid, is_value_type}
use xair.Ir.Opcode.{Opcode}
use xair.Module.Data.{Endian, Module, OpRec, ValueRec, TermKind, invalid_id, new_module}
use xair.Module.Grow.{Host}
use xair.Module.Build.{new_block}
use xair.Module.Terms.{term_of, with_true_args}
use xair.Exec.Fold.{type_at}
use xair.Exec.State.{ExecState, exec_mem, exec_value_make, new_state, exec_set_param, ExecValue}
use xair.Exec.Run.{exec_run}
use xair.Verify.{verify_op, verify_sources, verify_memory_op}
use xair.Verify.Blocks.{
  value_is_global_const, value_is_available, verify_args, verify_target_args, verify_available,
  verify_term, verify_params, verify_one, verify_ops, verify_block, verify_blocks, verify_module,
}
use xair.Sound.State.{Typed}
use xair.Sound.Run.{IsSound, exec_run-IsSound}
use xair.Sound.Start.{Sets, none-undefined, new_state-Typed, set_param-Sets}

abbrev generous : Host
generous = record { size_of = λ _. 16; realloc = λ _ _. true }

abbrev value_rec : IrType → (block op : ℕ) → ValueRec
value_rec type block op = record { type = type; block = block; op = op; name = b'v' ∷ [] }

abbrev op_rec : Opcode → (dst : ℕ) → List ℕ → (imm : ℕ) → OpRec
op_rec opcode dst src imm = record {
  opcode = opcode;
  dst = dst;
  src = src;
  endian = Endian.le;
  imm = imm;
}

abbrev keeper : Module
keeper = record new_module {
  values = record {
    items =
        value_rec (type_mem 0 64) 0 invalid_id
        ∷ value_rec (type_addr 64) 0 0
        ∷ value_rec (type_i 8) 0 1
        ∷ value_rec (type_mem 0 64) 0 2
        ∷ value_rec (type_i 8) 0 3
        ∷ value_rec (type_i 8) 1 invalid_id
        ∷ [];
    cap = 8;
  };
  ops = record {
    items =
        op_rec Opcode.const_u64 1 [] 4096
        ∷ op_rec Opcode.const_u64 2 [] 7
        ∷ op_rec Opcode.store 3 (0 ∷ 1 ∷ 2 ∷ []) 0
        ∷ op_rec Opcode.load 4 (3 ∷ 1 ∷ []) 0
        ∷ [];
    cap = 8;
  };
  blocks = record {
    items =
        record (new_block [] 0) {
          params = record { items = 0 ∷ []; cap = 8 };
          ops = record { items = 0 ∷ 1 ∷ 2 ∷ 3 ∷ []; cap = 8 };
          term = with_true_args (term_of TermKind.jump invalid_id 1 invalid_id 0) 0 1;
        }
        ∷ record (new_block [] 1) {
          params = record { items = 5 ∷ []; cap = 8 };
          term = with_true_args (term_of TermKind.return invalid_id invalid_id invalid_id 0) 1 1;
        }
        ∷ [];
    cap = 8;
  };
  term_args = record { items = 4 ∷ 5 ∷ []; cap = 8 };
}

keeper-verified : verify_module (λ _. true) keeper ≡ ret tt
unfolding verify_module verify_blocks verify_block verify_params verify_ops verify_one verify_term
    verify_available verify_target_args verify_args value_is_available value_is_global_const
    verify_op verify_sources verify_memory_op type_equal is_value_type type_is_valid
keeper-verified = refl

-- The state with the memory as the parameter.
abbrev begun : ExecState
begun = record (new_state keeper) { values = some (exec_mem 0 64) ∷ replicate 5 none }

begun-Typed : Typed begun
unfolding exec_value_make
begun-Typed = record { slots = refl; types = types }
  where
    types :
        (v : ℕ) (x : ExecValue)
        → get_elem? begun.values v ≡ some (some x)
        → x.type ≡ type_at keeper v
    types zero x e = let same : exec_mem 0 64 ≡ x = cc in sym (ap (λ y. y.type) same)
    types (suc v) x e = absurd (none-undefined 5 v e)

exec_run-IsSound_example : IsSound (exec_run generous (λ _. true) 0 begun 10)
exec_run-IsSound_example =
    exec_run-IsSound (λ _. true) (λ _. true) generous 0 begun 10 keeper-verified begun-Typed
      (record { block = _; is_block = refl; params = ((exec_mem 0 64, refl), tt) })

set_param-Sets_example :
    Sets (new_state keeper) 0 (exec_mem 0 64) (exec_set_param (new_state keeper) 0 (exec_mem 0 64))
set_param-Sets_example =
    set_param-Sets (new_state keeper) 0 (exec_mem 0 64) (new_state-Typed keeper)
