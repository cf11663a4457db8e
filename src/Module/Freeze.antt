-- ===== src/Module/Freeze.antt =====
-- xair_module_freeze and the shrinking of a module's arrays, of src/xair.c.
use xair.Prelude.{ℕ, zero, suc, ◌+◌, true, Option, none, some, get_elem?, if◌then◌else◌}
use xair.Status.{bad_arg, Result, ret, err}
use xair.Module.Data.{Module, Buffer, BlockRec, count}
use xair.Module.Grow.{Host, Array, shrink}
use xair.Module.Build.{Step, set_block}
use xair.Module.Numbering.{value_number_clear}

-- A step that may fail half way, and then keeps what was done.
abbrev pub and_then : Step (Unit {0}) → (Module → Step (Unit {0})) → Step (Unit {0})
and_then (err e, m) k = (err e, m)
and_then (ret u, m) k = k m

-- The new array enters the module if the realloc succeeds.
abbrev pub put : {A : Type 0} → Module → (A → Module) → Result A → Step (Unit {0})
put m enter (err e) = (err e, m)
put m enter (ret b) = (ret tt, enter b)

abbrev pub put_ops : Module → ℕ → BlockRec → Result (Buffer ℕ) → Step (Unit {0})
put_ops m i b r = put m (λ ops. set_block m i (record b { ops = ops })) r

abbrev pub put_params : Host → Module → ℕ → BlockRec → Result (Buffer ℕ) → Step (Unit {0})
put_params host m i b (err e) = (err e, m)
put_params host m i b (ret params) =
    let b' = record b { params = params } in
    put_ops (set_block m i b') i b' (shrink host Array.block_ops b.ops)

unfoldable pub finalize_block_storage : Host → Module → ℕ → Option BlockRec → Step (Unit {0})
finalize_block_storage host m i none = (ret tt, m)
finalize_block_storage host m i (some b) = put_params host m i b (shrink host Array.params b.params)

-- The blocks from the `i`-th on, `k` of them left.
unfoldable pub finalize_blocks : Host → (k i : ℕ) → Module → Step (Unit {0})
finalize_blocks host zero i m = (ret tt, m)
finalize_blocks host (suc k) i m =
    and_then (finalize_block_storage host m i (get_elem? m.blocks.items i))
      λ m'. finalize_blocks host k (i + 1) m'

unfoldable pub finalize_arrays : Host → Module → Step (Unit {0})
finalize_arrays host m =
    and_then (put m (λ b. record m { term_args = b }) (shrink host Array.term_args m.term_args))
      λ m1.
        and_then (put m1 (λ b. record m1 { values = b }) (shrink host Array.values m1.values)) λ m2.
          and_then (put m2 (λ b. record m2 { ops = b }) (shrink host Array.ops m2.ops)) λ m3.
            and_then (put m3 (λ b. record m3 { blocks = b }) (shrink host Array.blocks m3.blocks))
              λ m4. (ret tt, value_number_clear m4)

unfoldable pub finalize_module_storage : Host → Module → Step (Unit {0})
finalize_module_storage host m =
    and_then (finalize_blocks host (count m.blocks) 0 m) (finalize_arrays host)

unfoldable pub module_freeze : Host → Module → Step (Unit {0})
module_freeze host m =
    if m.frozen
    then (err bad_arg, m)
    else and_then (finalize_module_storage host m) λ m'. (ret tt, record m' { frozen = true })
