-- ===== src/Sound/Start.antt =====
-- The state that xair_exec_state_create and xair_exec_set_param of src/xair.c set up.
use xair.Prelude.{
  ℕ, zero, suc, ◌≡◌, refl, sym, true, false, Option, none, some, get_elem?, replicate, arith,
  length-replicate, ◌<◌, ◌≢◌, ap, ◌∙◌, subst, set, length-set, get_elem?-set_self, get_elem?-set_ne,
  lt_of_get_elem?, Bool-cases, inl, inr,
}
use xair.Status.{bad_arg, Result, ret, err}
use xair.Ir.Types.{IrType, eq_of_type_equal, type_equal_refl}
use xair.Module.Data.{Module, ValueRec, count, invalid_id}
use xair.Exec.Fold.{type_or_void}
use xair.Exec.State.{
  ExecValue, ExecState, new_state, has_slot, expects, is_param, exec_define_value, exec_set_param,
  exec_read_value,
}
use xair.Sound.State.{Typed, Extends, Defines, defines, define-Defines}

pub none-undefined :
    (n v : ℕ) {x : ExecValue}
    → get_elem? {A = Option ExecValue} (replicate n none) v ≡ some (some x)
    → ⊥
none-undefined zero v h = cc
none-undefined (suc n) zero h = cc
none-undefined (suc n) (suc v) h = none-undefined n v h

pub new_state-Typed : (m : Module) → Typed (new_state m)
new_state-Typed m = record {
  slots = length-replicate (count m.values) none;
  types = λ v x e. absurd (none-undefined (count m.values) v e);
}

expects-type : (o : Option ValueRec) (type : IrType) → expects o type ≡ true → type ≡ type_or_void o
expects-type none type h = cc
expects-type (some v) type h = sym (eq_of_type_equal v.type type h)

-- `value` is a parameter of this type: a value of the module that no operation defines.
pub record IsParam (m : Module) (value : ℕ) (type : IrType) : Type 0 where
  pub rec : ValueRec
  pub at : get_elem? m.values.items value ≡ some rec
  pub undefined : rec.op ≡ invalid_id
  pub typed : type ≡ rec.type

-- A parameter of the value's type is set: it reads as the value, and all else reads as before. Anything
-- else is refused.
pub data Sets (s : ExecState) (value : ℕ) (concrete : ExecValue) : Result ExecState → Type 0 where
  sets :
      {s' : ExecState}
      → IsParam s.module' value concrete.type
      → Typed s'
      → Extends s s'
      → exec_read_value s' value ≡ ret concrete
      → ((v : ℕ) → value ≢ v → exec_read_value s' v ≡ exec_read_value s v)
      → s'.pages ≡ s.pages
      → Sets s value concrete (ret s')
  refuses : ¬ IsParam s.module' value concrete.type → Sets s value concrete (err bad_arg)

param-found :
    (m : Module) (value : ℕ) (type : IrType) (o : Option ValueRec)
    → get_elem? m.values.items value ≡ o
    → is_param o ≡ true
    → expects o type ≡ true
    → IsParam m value type
param-found m value type none e f g = cc
param-found m value type (some rec) e f g = record {
  rec = rec;
  at = e;
  undefined = ground arith;
  typed = sym (eq_of_type_equal rec.type type g);
}

-- The three tests of a parameter.
param-has_slot :
    (s : ExecState) (value : ℕ) {type : IrType}
    → Typed s
    → IsParam s.module' value type
    → has_slot s value ≡ true
param-has_slot s value t p =
    let inside : value < count s.module'.values =
      lt_of_get_elem? s.module'.values.items value p.at in
    let slots = t.slots in ground arith

param-is_param :
    (m : Module) (value : ℕ) {type : IrType}
    → IsParam m value type
    → is_param (get_elem? m.values.items value) ≡ true
param-is_param m value p = rw p.at (let e = p.undefined in ground arith)

param-expects :
    (m : Module) (value : ℕ) {type : IrType}
    → IsParam m value type
    → expects (get_elem? m.values.items value) type ≡ true
param-expects m value p = rw (p.at, p.typed) (type_equal_refl p.rec.type)

-- The state in which the slot is set.
abbrev with_value : ExecState → ℕ → ExecValue → ExecState
with_value s value concrete = record s { values = set s.values value (some concrete) }

read-set :
    (s : ExecState) (value : ℕ) (concrete : ExecValue)
    → has_slot s value ≡ true
    → exec_read_value (with_value s value concrete) value ≡ ret concrete
unfolding exec_read_value
read-set s value concrete e =
    let slots = length-set s.values value (some concrete) in
    let has : has_slot (with_value s value concrete) value ≡ true = rw slots e in
    let slot = get_elem?-set_self s.values value (some concrete) (ground arith) in
    rw (has, slot) refl

read-set_ne :
    (s : ExecState) (value v : ℕ) (concrete : ExecValue)
    → value ≢ v
    → exec_read_value (with_value s value concrete) v ≡ exec_read_value s v
unfolding exec_read_value
read-set_ne s value v concrete n =
    rw
      (
        length-set s.values value (some concrete),
        get_elem?-set_ne s.values value v (some concrete) n,
      )
      refl

define-set :
    (s : ExecState) (value : ℕ) (concrete : ExecValue)
    → has_slot s value ≡ true
    → expects (get_elem? s.module'.values.items value) concrete.type ≡ true
    → exec_define_value s value concrete ≡ ret (with_value s value concrete)
unfolding exec_define_value
define-set s value concrete e g = rw (e, g) refl

define-refused :
    (s : ExecState) (value : ℕ) (concrete : ExecValue)
    → has_slot s value ≡ true
    → expects (get_elem? s.module'.values.items value) concrete.type ≡ false
    → exec_define_value s value concrete ≡ err bad_arg
unfolding exec_define_value
define-refused s value concrete e g = rw (e, g) refl

-- In a state whose values have their types, xair_exec_set_param succeeds exactly if the value is one of
-- the module's that no operation defines and the concrete value has its type. Then the parameter reads as
-- the concrete value, every other value reads as before, memory is the same, all values have their types
-- and what was defined still is. Otherwise the call is refused as a bad argument.
pub set_param-Sets :
    (s : ExecState) (value : ℕ) (concrete : ExecValue)
    → Typed s
    → Sets s value concrete (exec_set_param s value concrete)
unfolding exec_set_param
set_param-Sets s value concrete t = elim (Bool-cases (has_slot s value)) [
  | inr e ↦ rw e (refuses λ p. cc (param-has_slot s value t p))
  | inl e ↦ elim (Bool-cases (is_param (get_elem? s.module'.values.items value))) [
    | inr f ↦ rw (e, f) (refuses λ p. cc (param-is_param s.module' value p))
    | inl f ↦ elim (Bool-cases (expects (get_elem? s.module'.values.items value) concrete.type)) [
      | inr g ↦
          rw (e, f, define-refused s value concrete e g)
            (refuses λ p. cc (param-expects s.module' value p))
      | inl g ↦
          let typed = expects-type (get_elem? s.module'.values.items value) concrete.type g in
          rw (e, f, define-set s value concrete e g)
            (set (with_value s value concrete) refl
              (param-found s.module' value concrete.type _ refl f g) e
              (subst (Defines s value) (define-set s value concrete e g)
                (define-Defines s value concrete t (ground arith) typed)))
    ]
  ]
]
  where
    set :
        (s' : ExecState)
        → s' ≡ with_value s value concrete
        → IsParam s.module' value concrete.type
        → has_slot s value ≡ true
        → Defines s value (ret s')
        → Sets s value concrete (ret s')
    set s' same p e (defines t' x d) =
        sets p t' x (ap (λ q. exec_read_value q value) same ∙ read-set s value concrete e)
          (λ v n. ap (λ q. exec_read_value q v) same ∙ read-set_ne s value v concrete n)
          (ap (λ q. q.pages) same)
