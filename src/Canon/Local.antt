-- ===== src/Canon/Local.antt =====
-- compare_value_order and canonicalize_local_ops of src/xair.c: the order of operands and the folding of
-- constants. The counts are those of xair_canonicalize_stats.
use xair.Prelude.{
  ℕ, zero, suc, ◌+◌, Bool, true, false, ◌&&◌, Option, none, some, List, [], ◌∷◌, ltb, ◌==◌, length,
  get_elem?, set, if◌then◌else◌,
}
use xair.Ir.Types.{IrType, kind_code}
use xair.Ir.Opcode.{op_is_commutative}
use xair.Module.Data.{Module, ValueRec, OpRec, count}
use xair.Exec.Fold.{type_at, first_src, second_src, const_u64_value, fold_constant_op}

-- The sign of a comparison.
pub data Sign : Type 0 where
  less equal greater : Sign

abbrev pub sign_of : ℕ → ℕ → Sign
sign_of a b = if a == b then equal else if ltb a b then less else greater

-- A comparison, and the next one where it finds no difference.
abbrev pub and_then : Sign → Sign → Sign
and_then equal next = next
and_then less next = less
and_then greater next = greater

-- strcmp on the characters before the NUL.
unfoldable pub strcmp : List ℕ → List ℕ → Sign
strcmp [] [] = equal
strcmp [] (b ∷ ys) = less
strcmp (a ∷ xs) [] = greater
strcmp (a ∷ xs) (b ∷ ys) = and_then (sign_of a b) (strcmp xs ys)

abbrev pub name_or_empty : Option ValueRec → List ℕ
name_or_empty none = []
name_or_empty (some v) = v.name

abbrev pub name_at : Module → ℕ → List ℕ
name_at m value = name_or_empty (get_elem? m.values.items value)

abbrev pub compare_types : IrType → IrType → Sign
compare_types lhs rhs =
    and_then (sign_of (kind_code lhs.kind) (kind_code rhs.kind))
      (and_then (sign_of lhs.bits rhs.bits) (sign_of lhs.aux rhs.aux))

abbrev pub compare_names : Module → (lhs rhs : ℕ) → Sign
compare_names m lhs rhs = and_then (strcmp (name_at m lhs) (name_at m rhs)) (sign_of lhs rhs)

abbrev pub compare_constants : Module → (lhs rhs : ℕ) → Option ℕ → Option ℕ → Sign
compare_constants m lhs rhs (some a) none = greater
compare_constants m lhs rhs none (some b) = less
compare_constants m lhs rhs (some a) (some b) =
    and_then (compare_types (type_at m lhs) (type_at m rhs))
      (and_then (sign_of a b) (compare_names m lhs rhs))
compare_constants m lhs rhs none none =
    and_then (compare_types (type_at m lhs) (type_at m rhs)) (compare_names m lhs rhs)

-- Constants come last.
unfoldable pub compare_value_order : Module → (lhs rhs : ℕ) → Sign
compare_value_order m lhs rhs =
    compare_constants m lhs rhs (const_u64_value m lhs) (const_u64_value m rhs)

abbrev pub is_greater : Sign → Bool
is_greater greater = true
is_greater less = false
is_greater equal = false

pub record CanonStats : Type 0 where
  pub values_before : ℕ
  pub values_after : ℕ
  pub operations_before : ℕ
  pub operations_after : ℕ
  pub value_number_entries_before : ℕ
  pub value_number_entries_after : ℕ
  pub operands_reordered : ℕ
  pub constants_folded : ℕ
  pub dead_values_removed : ℕ
  pub dead_operations_removed : ℕ

abbrev pub put_op : Module → (index : ℕ) → OpRec → Module
put_op m index op = record m { ops = record m.ops { items = set m.ops.items index op } }

abbrev pub wants_swap : Module → OpRec → Bool
wants_swap m op =
    length op.src == 2
    && (op_is_commutative op.opcode
        && is_greater (compare_value_order m (first_src op) (second_src op)))

abbrev pub swapped : OpRec → OpRec
swapped op = record op { src = second_src op ∷ first_src op ∷ [] }

-- The operation after folding, which is in the module already.
unfoldable pub reorder_op : (index : ℕ) → OpRec → Module × CanonStats → Module × CanonStats
reorder_op index op (m, stats) =
    if wants_swap m op
    then (
      put_op m index (swapped op),
      record stats { operands_reordered = stats.operands_reordered + 1 },
    )
    else (m, stats)

abbrev pub with_folded :
    (index : ℕ) → OpRec → Option OpRec → Module × CanonStats → Module × CanonStats
with_folded index op none (m, stats) = reorder_op index op (m, stats)
with_folded index op (some folded) (m, stats) =
    reorder_op index folded
      (put_op m index folded, record stats { constants_folded = stats.constants_folded + 1 })

abbrev pub canonicalize_at : (index : ℕ) → Option OpRec → Module × CanonStats → Module × CanonStats
canonicalize_at index none (m, stats) = (m, stats)
canonicalize_at index (some op) (m, stats) = with_folded index op (fold_constant_op m op) (m, stats)

-- The loop, with the number of operations that are left.
unfoldable pub canonicalize_from : (left index : ℕ) → Module × CanonStats → Module × CanonStats
canonicalize_from zero index (m, stats) = (m, stats)
canonicalize_from (suc left) index (m, stats) =
    canonicalize_from left (index + 1)
      (canonicalize_at index (get_elem? m.ops.items index) (m, stats))

unfoldable pub canonicalize_local_ops : Module × CanonStats → Module × CanonStats
canonicalize_local_ops (m, stats) = canonicalize_from (count m.ops) 0 (m, stats)
