-- ===== src/Canon/Counts.antt =====
-- The counts that xair_canonicalize_module of src/xair.c reports.
use xair.Prelude.{
  ℕ, ◌+◌, ◌%◌, ◌^◌, ◌≡◌, refl, sym, ap, subst, ◌∙◌, Bool, true, false, not, Option, none, some,
  List, [], ◌∷◌, arith, length, get_elem?, length-set, set, ◌==◌, if◌then◌else◌, length-replicate,
  replicate,
}
use xair.Prelude.Words.{add64, sub64}
use xair.Status.{oom, bad_arg, Result, ret, err}
use xair.Module.Data.{Module, ValueRec, OpRec, BlockRec, count, invalid_id}
use xair.Module.Numbering.{value_number_clear}
use xair.Verify.Blocks.{verify_module, Marks}
use xair.Canon.Local.{CanonStats, canonicalize_local_ops}
use xair.Canon.Live.{live_values}
use xair.Canon.Compact.{
  Canon, Allocations, Numbering, Moved, mapped, move_values, with_op, move_op, move_ops,
  move_blocks, remap_term_args, cleared_value, cleared_op, number_live, keeps_all, compacted,
  compact_live_values, eliminate_dead_values, stats_before, stats_after, report, verify_after,
  if_verified, canonicalize_module,
}
use xair.Canon.Outcome.{Unchanged, local_ops-Unchanged}

length-move_values :
    (value_map : List ℕ) (i : ℕ) (values new_values : List ValueRec)
    → length (move_values value_map i values new_values) ≡ length new_values
unfolding move_values
length-move_values value_map i [] new_values = refl
length-move_values value_map i (v ∷ rest) new_values =
    length-move_values value_map (i + 1) rest _
    ∙ go (mapped value_map i == invalid_id) (mapped value_map i) (record v { op = invalid_id })
  where
    go :
        (b : Bool) (n : ℕ) (w : ValueRec)
        → length (if b then new_values else set new_values n w) ≡ length new_values
    go true n w = refl
    go false n w = length-set new_values n w

-- The new arrays keep their lengths while they are filled.
record SameLengths (a b : Moved) : Type 0 where
  values_same : length b.new_values ≡ length a.new_values
  ops_same : length b.new_ops ≡ length a.new_ops

with_op-length :
    (value : ℕ) (o : Option ValueRec) (values : List ValueRec) (op : ℕ)
    → length (with_op value o values op) ≡ length values
with_op-length value none values op = refl
with_op-length value (some v) values op = length-set values value (record v { op = op })

move_op-SameLengths :
    (value_map : List ℕ) (new_id : ℕ) (o : Option OpRec) (a : Moved)
    → SameLengths a (move_op value_map new_id o a)
move_op-SameLengths value_map new_id none a = record { values_same = refl; ops_same = refl }
move_op-SameLengths value_map new_id (some op) a = record {
  values_same =
      with_op-length (mapped value_map op.dst) (get_elem? a.new_values (mapped value_map op.dst))
        a.new_values new_id;
  ops_same = length-set a.new_ops new_id _;
}

SameLengths-trans : (a b c : Moved) → SameLengths a b → SameLengths b c → SameLengths a c
SameLengths-trans a b c p q = record {
  values_same = q.values_same ∙ p.values_same;
  ops_same = q.ops_same ∙ p.ops_same;
}

move_ops-SameLengths :
    (m : Module) (n : Numbering) (ops : List ℕ) (a : Moved) → SameLengths a (move_ops m n ops a)
unfolding move_ops
move_ops-SameLengths m n [] a = record { values_same = refl; ops_same = refl }
move_ops-SameLengths m n (op_id ∷ ops) a =
    SameLengths-trans a _ _ (go (mapped n.op_map op_id == invalid_id))
      (move_ops-SameLengths m n ops _)
  where
    go :
        (b : Bool)
        → SameLengths a (
            if b
            then a
            else move_op n.value_map (mapped n.op_map op_id) (get_elem? m.ops.items op_id) a)
    go true = record { values_same = refl; ops_same = refl }
    go false =
        move_op-SameLengths n.value_map (mapped n.op_map op_id) (get_elem? m.ops.items op_id) a

move_blocks-SameLengths :
    (m : Module) (n : Numbering) (blocks : List BlockRec) (a : Moved)
    → SameLengths a (move_blocks m n blocks a).1
unfolding move_blocks
move_blocks-SameLengths m n [] a = record { values_same = refl; ops_same = refl }
move_blocks-SameLengths m n (block ∷ blocks) a =
    let after = move_ops m n block.ops.items a in
    let first = move_ops-SameLengths m n block.ops.items a in
    let next : Moved = record after {
      new_args = remap_term_args n.value_map block.term block.term.kind after.new_args;
    } in
    SameLengths-trans a next _
      (record { values_same = first.values_same; ops_same = first.ops_same })
      (move_blocks-SameLengths m n blocks next)

compacted-counts :
    (m : Module) (n : Numbering)
    → (count (compacted m n).values ≡ n.new_value_count)
      × (count (compacted m n).ops ≡ n.new_op_count)
unfolding compacted
compacted-counts m n =
    let start : Moved = record {
      new_values =
          move_values n.value_map 0 m.values.items (replicate n.new_value_count cleared_value);
      new_ops = replicate n.new_op_count cleared_op;
      new_args = m.term_args.items;
    } in
    let same = move_blocks-SameLengths m n m.blocks.items start in
    (
      same.values_same
          ∙ length-move_values n.value_map 0 m.values.items
              (replicate n.new_value_count cleared_value)
          ∙ length-replicate n.new_value_count cleared_value,
      same.ops_same ∙ length-replicate n.new_op_count cleared_op,
    )

compacted-entries : (m : Module) (n : Numbering) → (compacted m n).number_count ≡ m.number_count
unfolding compacted
compacted-entries m n = refl

-- What a successful removal of dead values leaves and reports.
record IsRemoved (m : Module) (stats : CanonStats) (stats' : CanonStats) (m' : Module)
    : Type 0 where
  values_before_same : stats'.values_before ≡ stats.values_before
  operations_before_same : stats'.operations_before ≡ stats.operations_before
  entries_before_same : stats'.value_number_entries_before ≡ stats.value_number_entries_before
  entries_same : m'.number_count ≡ m.number_count
  values_removed :
      stats.dead_values_removed ≡ 0
      → stats'.dead_values_removed ≡ sub64 (count m.values) (count m'.values)
  operations_removed :
      stats.dead_operations_removed ≡ 0
      → stats'.dead_operations_removed ≡ sub64 (count m.ops) (count m'.ops)

data Removes (m : Module) (stats : CanonStats) : Canon → Type 0 where
  removes :
      {stats' : CanonStats} {m' : Module}
      → IsRemoved m stats stats' m'
      → Removes m stats (ret stats', m')
  no_memory : Removes m stats (err oom, m)

if-Removes :
    {m : Module} {stats : CanonStats} (b : Bool) {x y : Canon}
    → Removes m stats x
    → Removes m stats y
    → Removes m stats (if b then x else y)
if-Removes true h k = h
if-Removes false h k = k

add64-zero : {a : ℕ} (d : ℕ) → a ≡ 0 → add64 a (d % 2 ^ 64) ≡ d % 2 ^ 64
add64-zero d e = omega arith

compact-Removes :
    (given : Allocations) (m : Module) (live : Marks) (stats : CanonStats)
    → Removes m stats (compact_live_values given m live stats)
unfolding compact_live_values
compact-Removes given m live stats =
    let n = number_live m live in
    let (values, ops) = compacted-counts m n in
    if-Removes (not given.maps_given) no_memory (
      if-Removes (keeps_all m n)
        (removes (record {
          values_before_same = refl;
          operations_before_same = refl;
          entries_before_same = refl;
          entries_same = refl;
          values_removed = λ e. omega arith;
          operations_removed = λ e. omega arith;
        }))
        (if-Removes (not given.arrays_given) no_memory (
          removes (record {
            values_before_same = refl;
            operations_before_same = refl;
            entries_before_same = refl;
            entries_same = compacted-entries m n;
            values_removed = λ e. add64-zero _ e ∙ ap (sub64 (count m.values)) (sym values);
            operations_removed = λ e. add64-zero _ e ∙ ap (sub64 (count m.ops)) (sym ops);
          }))))

-- On success the module is verified before and after, and the counts are those of the two modules.
pub record IsCanonical (calloc : ℕ → Bool) (m : Module) (stats : CanonStats) (m' : Module)
    : Type 0 where
  pub thawed : m.frozen ≡ false
  pub accepted : verify_module calloc m ≡ ret tt
  pub accepted_after : verify_module calloc m' ≡ ret tt
  pub values_before : stats.values_before ≡ count m.values
  pub values_after : stats.values_after ≡ count m'.values
  pub operations_before : stats.operations_before ≡ count m.ops
  pub operations_after : stats.operations_after ≡ count m'.ops
  pub entries_before : stats.value_number_entries_before ≡ m.number_count
  pub entries_after : stats.value_number_entries_after ≡ 0
  pub values_removed : stats.dead_values_removed ≡ sub64 (count m.values) (count m'.values)
  pub operations_removed : stats.dead_operations_removed ≡ sub64 (count m.ops) (count m'.ops)

stats_of : Canon → CanonStats → CanonStats
stats_of (err e, m) d = d
stats_of (ret stats, m) d = stats

report-eq :
    (s : CanonStats) (m : Module) (r : Result (Unit {0})) {stats : CanonStats} {m' : Module}
    → report s m r ≡ (ret stats, m')
    → (r ≡ ret tt) × (stats ≡ stats_after m s) × (m' ≡ m)
unfolding stats_of
report-eq s m (ret u) h = (refl, sym (ap (λ c. stats_of c s) h), sym (ap (λ c. c.1) h))
report-eq s m (err e) {stats} {m'} h = absurd (let bad : err e ≡ ret stats = ap (λ c. c.0) h in cc)

module _ (calloc : ℕ → Bool) (given : Allocations) where
  eliminate-Removes :
      (m : Module) (stats : CanonStats) → Removes m stats (eliminate_dead_values given m stats)
  unfolding eliminate_dead_values
  eliminate-Removes m stats =
      if-Removes (not given.live_given) no_memory (compact-Removes given m (live_values m) stats)

  removed-IsCanonical :
      (m m1 : Module) (s1 : CanonStats) (r : Canon) {stats : CanonStats} {m' : Module}
      → m.frozen ≡ false
      → verify_module calloc m ≡ ret tt
      → Unchanged (value_number_clear m, stats_before m) (m1, s1)
      → Removes m1 s1 r
      → verify_after calloc r ≡ (ret stats, m')
      → IsCanonical calloc m stats m'
  unfolding value_number_clear
  removed-IsCanonical m m1 s1 (err e, m2) {stats} {m'} f v l no_memory h =
      absurd (let bad : err oom ≡ ret stats = ap (λ c. c.0) h in cc)
  removed-IsCanonical m m1 s1 (ret s2, m2) {stats} {m'} f v l (removes k) h =
      let (v', e, same) = report-eq s2 m2 (verify_module calloc m2) h in
      let values : count m1.values ≡ count m.values = ap count l.values_same in
      subst (λ t. IsCanonical calloc m t m') (sym e)
        (subst (λ t. IsCanonical calloc m (stats_after m2 s2) t) (sym same)
          (record {
            thawed = f;
            accepted = v;
            accepted_after = v';
            values_before = k.values_before_same ∙ l.values_before_same;
            values_after = refl;
            operations_before = k.operations_before_same ∙ l.operations_before_same;
            operations_after = refl;
            entries_before = k.entries_before_same ∙ l.entries_before_same;
            entries_after = k.entries_same ∙ l.number_same;
            values_removed =
                k.values_removed (l.dead_values_same ∙ refl)
                ∙ ap (λ n. sub64 n (count m2.values)) values;
            operations_removed =
                k.operations_removed (l.dead_operations_same ∙ refl)
                ∙ ap (λ n. sub64 n (count m2.ops)) l.ops_same;
          }))

  verified-IsCanonical :
      (m : Module) (r : Result (Unit {0})) {stats : CanonStats} {m' : Module}
      → m.frozen ≡ false
      → verify_module calloc m ≡ r
      → if_verified calloc given m r ≡ (ret stats, m')
      → IsCanonical calloc m stats m'
  verified-IsCanonical m (err e) {stats} f v h =
      absurd (let bad : err e ≡ ret stats = ap (λ c. c.0) h in cc)
  verified-IsCanonical m (ret u) f v h =
      let p = canonicalize_local_ops (value_number_clear m, stats_before m) in
      removed-IsCanonical m p.0 p.1 (eliminate_dead_values given p.0 p.1) f v
        (local_ops-Unchanged (value_number_clear m, stats_before m)) (eliminate-Removes p.0 p.1) h

-- Where xair_canonicalize_module succeeds, the module was not frozen, it passes xair_verify_module before
-- and after, its value numbering is empty, and the counts that are reported are those of the module
-- before and after, with what was removed as their difference modulo 2 ^ 64.
pub canonicalize_module-IsCanonical :
    (calloc : ℕ → Bool) (given : Allocations) (m : Module) (stats : CanonStats) (m' : Module)
    → canonicalize_module calloc given m ≡ (ret stats, m')
    → IsCanonical calloc m stats m'
unfolding canonicalize_module
canonicalize_module-IsCanonical calloc given m stats m' h = go m.frozen refl h
  where
    go :
        (b : Bool)
        → m.frozen ≡ b
        → (if b then (err bad_arg, m) else if_verified calloc given m (verify_module calloc m))
          ≡ (ret stats, m')
        → IsCanonical calloc m stats m'
    go true e h = absurd (let bad : err bad_arg ≡ ret stats = ap (λ c. c.0) h in cc)
    go false e h = verified-IsCanonical calloc given m (verify_module calloc m) e refl h
