-- ===== src/Sound/State.antt =====
-- Values of the executor's state, of src/xair.c, on a verified module: which are defined, and with what
-- types.
use xair.Prelude.{
  ℕ, ◌<◌, ◌≡◌, refl, sym, ap, subst, ◌∙◌, true, Option, none, some, arith, ◌==◌, length, get_elem?,
  set, inl, inr, Bool-cases, get_elem?-lt, get_elem?-set_self, get_elem?-set_ne, length-set,
}
use xair.Status.{Result, ret}
use xair.Ir.Types.{IrType, type_equal_refl}
use xair.Module.Data.{Module, ValueRec, OpRec, count, valid_value, invalid_id}
use xair.Exec.Fold.{type_at, type_or_void}
use xair.Exec.State.{
  ExecValue, ExecState, exec_value_make, has_slot, expects, exec_define_value, exec_read_value,
  defined_or_const, global_const, const_of,
}
use xair.Verify.Blocks.{
  Marks, is_marked, mark_or_false, value_is_available, value_is_global_const, defined_by_const,
  is_const_op,
}

abbrev pub Defined : ExecState → ℕ → Type 0
Defined s v = (x : ExecValue) × (get_elem? s.values v ≡ some (some x))

-- There is a slot for each value of the module, and what is in it has the value's type.
pub record Typed (s : ExecState) : Type 0 where
  pub slots : length s.values ≡ count s.module'.values
  pub types :
      (v : ℕ) (x : ExecValue) → get_elem? s.values v ≡ some (some x) → x.type ≡ type_at s.module' v

-- A later state of the same module, where nothing has become undefined.
pub record Extends (s s' : ExecState) : Type 0 where
  pub module_same : s'.module' ≡ s.module'
  pub stays : (v : ℕ) → Defined s v → Defined s' v

pub Extends-refl : (s : ExecState) → Extends s s
Extends-refl s = record { module_same = refl; stays = λ v d. d }

pub Extends-trans : (s t u : ExecState) → Extends s t → Extends t u → Extends s u
Extends-trans s t u p q = record {
  module_same = q.module_same ∙ p.module_same;
  stays = λ v d. q.stays v (p.stays v d);
}

-- The marked values are defined.
pub record Holds (available : Marks) (s : ExecState) : Type 0 where
  pub typed : Typed s
  pub defined : (v : ℕ) → is_marked available v ≡ true → Defined s v

-- The reads that succeed, with a value of the type.
pub data Reads (type : IrType) : Result ExecValue → Type 0 where
  reads : {x : ExecValue} → x.type ≡ type → Reads type (ret x)

slot_eq : (s : ExecState) (v : ℕ) → Typed s → valid_value s.module' v ≡ true → has_slot s v ≡ true
slot_eq s v t h = let e = t.slots in ground arith

full_slot-Reads :
    (s : ExecState) (v : ℕ) (t : Typed s)
    → valid_value s.module' v ≡ true
    → Defined s v
    → Reads (type_at s.module' v) (exec_read_value s v)
unfolding exec_read_value
full_slot-Reads s v t h (x, e) =
    let slot : has_slot s v ≡ true = slot_eq s v t h in rw (slot, e) (reads (t.types v x e))

const_op-Reads :
    (m : Module) (r : ValueRec) (o : Option OpRec)
    → is_const_op o ≡ true
    → Reads r.type (const_of m r o)
unfolding exec_value_make
const_op-Reads m r none c = cc
const_op-Reads m r (some op) c = rw c (reads refl)

by_const-Reads :
    (m : Module) (o : Option ValueRec)
    → defined_by_const m o ≡ true
    → (r : ValueRec) × (o ≡ some r) × Reads r.type (global_const m o)
by_const-Reads m none c = cc
by_const-Reads m (some r) c = elim (Bool-cases (r.op == invalid_id)) [
  | inl e ↦ absurd (ground arith)
  | inr e ↦
      let made : is_const_op (get_elem? m.ops.items r.op) ≡ true = ground arith in
      (r, refl, rw e (const_op-Reads m r (get_elem? m.ops.items r.op) made))
]

const-Reads :
    (m : Module) (v : ℕ)
    → value_is_global_const m v ≡ true
    → Reads (type_at m v) (global_const m (get_elem? m.values.items v))
unfolding value_is_global_const
const-Reads m v k =
    let (r, e, h) = by_const-Reads m (get_elem? m.values.items v) k in
    let same : r.type ≡ type_at m v = sym (ap type_or_void e) in
    subst (λ t. Reads t (global_const m (get_elem? m.values.items v))) same h

slot-Reads :
    (s : ExecState) (v : ℕ)
    → Typed s
    → value_is_global_const s.module' v ≡ true
    → (o : Option (Option ExecValue)) → get_elem? s.values v ≡ o
    → Reads (type_at s.module' v) (defined_or_const s.module' v o)
slot-Reads s v t k (some (some x)) e = reads (t.types v x e)
slot-Reads s v t k (some none) e = const-Reads s.module' v k
slot-Reads s v t k none e = const-Reads s.module' v k

-- An available value is read, with its type.
pub available-Reads :
    (s : ExecState) (available : Marks) (v : ℕ)
    → Holds available s
    → value_is_available s.module' available v ≡ true
    → Reads (type_at s.module' v) (exec_read_value s v)
unfolding value_is_available exec_read_value
available-Reads s available v h k =
    let valid : valid_value s.module' v ≡ true = ground arith in
    elim (Bool-cases (is_marked available v)) [
      | inl m ↦ full_slot-Reads s v h.typed valid (h.defined v m)
      | inr m ↦
          let slot : has_slot s v ≡ true = slot_eq s v h.typed valid in
          let made : value_is_global_const s.module' v ≡ true = ground arith in
          rw slot (slot-Reads s v h.typed made (get_elem? s.values v) refl)
    ]

-- The definition of a valid value, of its type, succeeds.
pub data Defines (s : ExecState) (v : ℕ) : Result ExecState → Type 0 where
  defines : {s' : ExecState} → Typed s' → Extends s s' → Defined s' v → Defines s v (ret s')

set-Defined :
    (s : ExecState) (v w : ℕ) (x : ExecValue)
    → v < length s.values
    → Defined s w
    → Defined (record s { values = set s.values v (some x) }) w
set-Defined s v w x h (y, e) = elim (Bool-cases (v == w)) [
  | inl k ↦
      let same : v ≡ w = ground arith in
      (
        x,
        subst (λ u. get_elem? (set s.values v (some x)) u ≡ some (some x)) same
            (get_elem?-set_self s.values v (some x) h),
      )
  | inr k ↦ (y, get_elem?-set_ne s.values v w (some x) (λ same. ground arith) ∙ e)
]

set-types :
    (s : ExecState) (v : ℕ) (x : ExecValue)
    → Typed s
    → v < length s.values
    → x.type ≡ type_at s.module' v
    → (w : ℕ) (y : ExecValue) → get_elem? (set s.values v (some x)) w ≡ some (some y)
    → y.type ≡ type_at s.module' w
set-types s v x t h e w y k = elim (Bool-cases (v == w)) [
  | inl c ↦
      let same : v ≡ w = ground arith in
      let here : get_elem? (set s.values v (some x)) w ≡ some (some x) =
        subst (λ u. get_elem? (set s.values v (some x)) u ≡ some (some x)) same
          (get_elem?-set_self s.values v (some x) h) in
      let y_is_x : y ≡ x = cc in ap (λ z. z.type) y_is_x ∙ e ∙ ap (type_at s.module') same
  | inr c ↦ t.types w y (sym (get_elem?-set_ne s.values v w (some x) (λ same. ground arith)) ∙ k)
]

valid-expects :
    (m : Module) (v : ℕ) (type : IrType)
    → valid_value m v ≡ true
    → type ≡ type_at m v
    → expects (get_elem? m.values.items v) type ≡ true
valid-expects m v type h e =
    let (r, at) = get_elem?-lt m.values.items v (ground arith) in
    let same : r.type ≡ type = sym (e ∙ rw at refl) in rw (at, sym same) (type_equal_refl r.type)

pub define-Defines :
    (s : ExecState) (v : ℕ) (x : ExecValue)
    → Typed s
    → valid_value s.module' v ≡ true
    → x.type ≡ type_at s.module' v
    → Defines s v (exec_define_value s v x)
unfolding exec_define_value
define-Defines s v x t h e =
    let slot : has_slot s v ≡ true = slot_eq s v t h in
    let wanted = valid-expects s.module' v x.type h e in
    let below : v < length s.values = ground arith in
    rw (slot, wanted)
      (defines
        (record {
          slots = length-set s.values v (some x) ∙ t.slots;
          types = set-types s v x t below e;
        })
        (record { module_same = refl; stays = λ w d. set-Defined s v w x below d })
        (x, get_elem?-set_self s.values v (some x) below))

pub mark-Holds :
    (available : Marks) (s : ExecState) (v : ℕ)
    → Holds available s
    → Defined s v
    → Holds (set available v true) s
mark-Holds available s v h d = record {
  typed = h.typed;
  defined = λ w m. elim (Bool-cases (v == w)) [
    | inl c ↦ subst (Defined s) (let same : v ≡ w = ground arith in same) d
    | inr c ↦
        h.defined w
          (ap mark_or_false (sym (get_elem?-set_ne available v w true (λ same. ground arith))) ∙ m)
  ];
}

pub extend-Holds :
    (available : Marks) (s s' : ExecState)
    → Holds available s
    → Typed s'
    → Extends s s'
    → Holds available s'
extend-Holds available s s' h t e = record { typed = t; defined = λ v m. e.stays v (h.defined v m) }
