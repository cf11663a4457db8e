-- ===== src/Canon/Outcome.antt =====
-- What xair_canonicalize_module of src/xair.c returns.
use xair.Prelude.{
  ℕ, zero, suc, ◌+◌, ◌≡◌, refl, ◌∙◌, Option, none, some, get_elem?, length-set, Bool-cases, inl,
  inr,
}
use xair.Module.Data.{Module, OpRec, count}
use xair.Exec.Fold.{fold_constant_op}
use xair.Canon.Local.{
  CanonStats, put_op, wants_swap, swapped, reorder_op, with_folded, canonicalize_at,
  canonicalize_from, canonicalize_local_ops,
}

-- The loop over the operations changes neither the values nor the number of operations, and no count
-- but its two.
pub record IsUnchanged (m : Module) (stats : CanonStats) (m' : Module) (stats' : CanonStats)
    : Type 0 where
  pub values_same : m'.values ≡ m.values
  pub ops_same : count m'.ops ≡ count m.ops
  pub number_same : m'.number_count ≡ m.number_count
  pub values_before_same : stats'.values_before ≡ stats.values_before
  pub operations_before_same : stats'.operations_before ≡ stats.operations_before
  pub entries_before_same : stats'.value_number_entries_before ≡ stats.value_number_entries_before
  pub dead_values_same : stats'.dead_values_removed ≡ stats.dead_values_removed
  pub dead_operations_same : stats'.dead_operations_removed ≡ stats.dead_operations_removed

abbrev pub Unchanged : Module × CanonStats → Module × CanonStats → Type 0
Unchanged (m, stats) (m', stats') = IsUnchanged m stats m' stats'

Unchanged-refl : (p : Module × CanonStats) → Unchanged p p
Unchanged-refl (m, stats) = record {
  values_same = refl;
  ops_same = refl;
  number_same = refl;
  values_before_same = refl;
  operations_before_same = refl;
  entries_before_same = refl;
  dead_values_same = refl;
  dead_operations_same = refl;
}

Unchanged-trans : (p q r : Module × CanonStats) → Unchanged p q → Unchanged q r → Unchanged p r
Unchanged-trans (m, s) (m', s') (m'', s'') h k = record {
  values_same = k.values_same ∙ h.values_same;
  ops_same = k.ops_same ∙ h.ops_same;
  number_same = k.number_same ∙ h.number_same;
  values_before_same = k.values_before_same ∙ h.values_before_same;
  operations_before_same = k.operations_before_same ∙ h.operations_before_same;
  entries_before_same = k.entries_before_same ∙ h.entries_before_same;
  dead_values_same = k.dead_values_same ∙ h.dead_values_same;
  dead_operations_same = k.dead_operations_same ∙ h.dead_operations_same;
}

put-Unchanged :
    (m : Module) (stats : CanonStats) (index : ℕ) (op : OpRec) (reordered folded : ℕ)
    → Unchanged
        (m, stats)
        (
          put_op m index op,
          record stats { operands_reordered = reordered; constants_folded = folded },
        )
put-Unchanged m stats index op reordered folded = record {
  values_same = refl;
  ops_same = length-set m.ops.items index op;
  number_same = refl;
  values_before_same = refl;
  operations_before_same = refl;
  entries_before_same = refl;
  dead_values_same = refl;
  dead_operations_same = refl;
}

reorder-Unchanged :
    (index : ℕ) (op : OpRec) (p : Module × CanonStats) → Unchanged p (reorder_op index op p)
unfolding reorder_op
reorder-Unchanged index op (m, stats) = elim (Bool-cases (wants_swap m op)) [
  | inl e ↦ rw e (
      put-Unchanged m stats index (swapped op) (stats.operands_reordered + 1)
        stats.constants_folded)
  | inr e ↦ rw e (Unchanged-refl (m, stats))
]

folded-Unchanged :
    (index : ℕ) (op : OpRec) (o : Option OpRec) (p : Module × CanonStats)
    → Unchanged p (with_folded index op o p)
folded-Unchanged index op none (m, stats) = reorder-Unchanged index op (m, stats)
folded-Unchanged index op (some folded) (m, stats) =
    Unchanged-trans (m, stats) _ _
      (put-Unchanged m stats index folded stats.operands_reordered (stats.constants_folded + 1))
      (reorder-Unchanged index folded _)

at-Unchanged :
    (index : ℕ) (o : Option OpRec) (p : Module × CanonStats)
    → Unchanged p (canonicalize_at index o p)
at-Unchanged index none (m, stats) = Unchanged-refl (m, stats)
at-Unchanged index (some op) (m, stats) =
    folded-Unchanged index op (fold_constant_op m op) (m, stats)

from-Unchanged :
    (left index : ℕ) (p : Module × CanonStats) → Unchanged p (canonicalize_from left index p)
unfolding canonicalize_from
from-Unchanged zero index (m, stats) = Unchanged-refl (m, stats)
from-Unchanged (suc left) index (m, stats) =
    Unchanged-trans (m, stats) _ _ (at-Unchanged index (get_elem? m.ops.items index) (m, stats))
      (from-Unchanged left (index + 1)
        (canonicalize_at index (get_elem? m.ops.items index) (m, stats)))

pub local_ops-Unchanged : (p : Module × CanonStats) → Unchanged p (canonicalize_local_ops p)
unfolding canonicalize_local_ops
local_ops-Unchanged (m, stats) = from-Unchanged (count m.ops) 0 (m, stats)
