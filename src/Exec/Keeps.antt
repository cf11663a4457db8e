-- ===== src/Exec/Keeps.antt =====
-- The module and the number of value slots under the steps of the executor of src/xair.c, for Exec/Resume.
use xair.Prelude.{
  ℕ, ◌≡◌, refl, subst, ◌∙◌, Bool, true, false, ◌||◌, not, Option, none, some, List, [], ◌∷◌, ltb,
  ◌==◌, length, get_elem?, length-set, Bool-cases, inl, inr, if◌then◌else◌,
}
use xair.Prelude.Words.{add64}
use xair.Status.{Error, bad_arg, Result, ret, err, ◌>>=◌, Result-cases, reject_if}
use xair.Ir.Types.{IrType, is_mem, is_addr}
use xair.Ir.Opcode
use xair.Ir.Opcode.{opcode_equal}
use xair.Module.Data.{OpRec, Endian}
use xair.Module.Grow.{Host, Array, grow_array}
use xair.Exec.State.{
  ExecValue, ExecState, Page, exec_value_make, has_slot, expects, exec_define_value,
  exec_read_value,
}
use xair.Exec.Memory.{
  page_of, offset_of, update_page, write_at, with_page, exec_range_wraps, store_byte,
  exec_get_or_create_page, exec_find_page, store_from, exec_store_bytes, exec_store_u64, bytes_from,
  exec_load_u64,
}
use xair.Exec.Fold.{type_at, first_src, second_src}
use xair.Exec.Op.{
  Status, or_keep, with_read, binary_result, unary_result, exec_binary_op, exec_unary_op, exec_load,
  exec_byte_sized_scalar, after_store, store_sized, store_read, exec_access, exec_memory_op,
  exec_op, third_of,
}

pub record Keeps (s s' : ExecState) : Type 0 where
  pub module_same : s'.module' ≡ s.module'
  pub slots_same : length s'.values ≡ length s.values

pub Keeps-refl : (s : ExecState) → Keeps s s
Keeps-refl s = record { module_same = refl; slots_same = refl }

pub Keeps-trans : (s t u : ExecState) → Keeps s t → Keeps t u → Keeps s u
Keeps-trans s t u p q = record {
  module_same = q.module_same ∙ p.module_same;
  slots_same = q.slots_same ∙ p.slots_same;
}

-- Where a result is a state, it keeps them.
pub data KeepsResult (s : ExecState) : Result ExecState → Type 0 where
  kept : {s' : ExecState} → Keeps s s' → KeepsResult s (ret s')
  refused : {e : Error} → KeepsResult s (err e)

KeepsResult-bind :
    {A : Type 0} {s : ExecState} (r : Result A) {k : A → Result ExecState}
    → ((a : A) → KeepsResult s (k a))
    → KeepsResult s (r >>= k)
KeepsResult-bind (err e) h = refused
KeepsResult-bind (ret a) h = h a

-- Whatever the status, the state that is left keeps them.
pub data KeepsStatus (s : ExecState) : Status → Type 0 where
  leaves : {r : Result (Unit {0})} {s' : ExecState} → Keeps s s' → KeepsStatus s (r, s')

pub unkept : {s s' : ExecState} → KeepsResult s (ret s') → Keeps s s'
unkept (kept h) = h

pub same_state : {s : ExecState} {r : Result (Unit {0})} → KeepsStatus s (r, s)
same_state {s} = leaves (Keeps-refl s)

pub KeepsStatus-trans :
    {s s' : ExecState} {r : Status} → Keeps s s' → KeepsStatus s' r → KeepsStatus s r
KeepsStatus-trans {s} {s'} p (leaves {s' = s''} q) = leaves (Keeps-trans s s' s'' p q)

or_keep-Keeps :
    {s : ExecState} {r : Result ExecState} → KeepsResult s r → KeepsStatus s (or_keep s r)
or_keep-Keeps refused = same_state
or_keep-Keeps (kept h) = leaves h

pub define_value-Keeps :
    (s : ExecState) (value : ℕ) (v : ExecValue) → KeepsResult s (exec_define_value s value v)
unfolding exec_define_value
define_value-Keeps s value v = KeepsResult-bind (reject_if (not (has_slot s value)) bad_arg) λ _.
    KeepsResult-bind
      (reject_if (not (expects (get_elem? s.module'.values.items value) v.type)) bad_arg)
      λ _. kept (record { module_same = refl; slots_same = length-set s.values value (some v) })

with_read-Keeps :
    {s : ExecState} (r : Result ExecValue) {k : ExecValue → Status}
    → ((v : ExecValue) → KeepsStatus s (k v))
    → KeepsStatus s (with_read s r k)
with_read-Keeps (err e) h = same_state
with_read-Keeps (ret v) h = h v

unary-Keeps :
    (s : ExecState) (op : OpRec) (out : IrType) (src : ExecValue)
    → KeepsResult s (exec_unary_op s op out src)
unfolding exec_unary_op
unary-Keeps s op out src =
    KeepsResult-bind (unary_result op.opcode out src.type src.lo)
      λ result. define_value-Keeps s op.dst _

binary-Keeps :
    (s : ExecState) (op : OpRec) (out : IrType) (lhs rhs : ExecValue)
    → KeepsResult s (exec_binary_op s op out lhs rhs)
unfolding exec_binary_op
binary-Keeps s op out lhs rhs =
    KeepsResult-bind (reject_if _ _)
      λ _. KeepsResult-bind (binary_result _ _ _ _ _ _) λ result. define_value-Keeps s op.dst _

load-Keeps :
    (s : ExecState) (op : OpRec) (out : IrType) (memory address : ExecValue)
    → KeepsResult s (exec_load s op out memory address)
unfolding exec_load
load-Keeps s op out memory address =
    KeepsResult-bind (exec_byte_sized_scalar out)
      λ size. KeepsResult-bind (exec_load_u64 s _ _ size _) λ loaded. define_value-Keeps s op.dst _

with_page-Keeps :
    (host : Host) (s : ExecState) (space number : ℕ) (o : Option Page)
    → KeepsResult s (with_page host s space number o)
unfolding with_page
with_page-Keeps host s space number none =
    KeepsResult-bind (grow_array host Array.pages s.page_cap _)
      λ cap. kept (record { module_same = refl; slots_same = refl })
with_page-Keeps host s space number (some p) = kept (Keeps-refl s)

pub if-Keeps :
    {s : ExecState} (b : Bool) {x y : Status}
    → KeepsStatus s x
    → KeepsStatus s y
    → KeepsStatus s (if b then x else y)
if-Keeps true h k = h
if-Keeps false h k = k

store_byte-Keeps :
    (host : Host) (s : ExecState) (space address byte : ℕ)
    → KeepsResult s (store_byte host s space address byte)
unfolding store_byte exec_get_or_create_page
store_byte-Keeps host s space address byte =
    go (with_page host s space (page_of address) (exec_find_page s.pages space (page_of address))) (
      with_page-Keeps host s space (page_of address)
        (exec_find_page s.pages space (page_of address)))
  where
    go :
        (r : Result ExecState)
        → KeepsResult s r
        → KeepsResult s (
            r >>= λ s'. ret (record s' {
              pages =
                  update_page s'.pages space (page_of address) (write_at (offset_of address) byte);
            }))
    go (err e) h = refused
    go (ret s') (kept h) = kept (record { module_same = h.module_same; slots_same = h.slots_same })

store_from-Keeps :
    (host : Host) (space address : ℕ) (bytes : List ℕ) (s : ExecState)
    → KeepsStatus s (store_from host space address bytes s)
unfolding store_from
store_from-Keeps host space address [] s = same_state
store_from-Keeps host space address (byte ∷ rest) s =
    elim (Result-cases (store_byte host s space address byte)) [
      | inl (e, f) ↦ rw (f, store_from) same_state
      | inr (s', f) ↦
          rw (f, store_from)
            (KeepsStatus-trans
              (unkept (subst (KeepsResult s) f (store_byte-Keeps host s space address byte)))
              (store_from-Keeps host space (add64 address 1) rest s'))
    ]

store_u64-Keeps :
    (host : Host) (s : ExecState) (space address value size : ℕ) (endian : Endian)
    → KeepsStatus s (exec_store_u64 host s space address value size endian)
unfolding exec_store_u64 exec_store_bytes
store_u64-Keeps host s space address value size endian = elim (Bool-cases (ltb 8 size)) [
  | inl e ↦ rw e same_state
  | inr e ↦
      rw e
        (elim (Bool-cases
          (exec_range_wraps address (length (bytes_from endian value size 0 size)))) [
            | inl f ↦ rw f same_state
            | inr f ↦ rw f (store_from-Keeps host space address _ s)
          ])
]

after_store-Keeps :
    (s : ExecState) (op : OpRec) (out : IrType) (r : Status)
    → KeepsStatus s r
    → KeepsStatus s (after_store op out r)
unfolding after_store
after_store-Keeps s op out (err e, s') (leaves h) = leaves h
after_store-Keeps s op out (ret u, s') (leaves h) =
    let counted : ExecState = record s' { mem_generation = add64 s'.mem_generation 1 } in
    let step : Keeps s counted = record {
      module_same = h.module_same;
      slots_same = h.slots_same;
    } in
    KeepsStatus-trans step (or_keep-Keeps (define_value-Keeps counted op.dst _))

access-Keeps :
    (host : Host) (s : ExecState) (op : OpRec) (out : IrType) (memory address : ExecValue)
    → KeepsStatus s (exec_access host s op out memory address)
unfolding exec_access
access-Keeps host s op out memory address =
    if-Keeps (not (is_mem memory.type) || not (is_addr address.type)) same_state (
      if-Keeps (opcode_equal op.opcode Opcode.load)
        (or_keep-Keeps (load-Keeps s op out memory address))
        (if-Keeps (opcode_equal op.opcode Opcode.store)
          (stored (exec_read_value s (third_of op.src))) same_state))
  where
    sized :
        (value : ExecValue) (r : Result ℕ)
        → KeepsStatus s (store_sized host s op out memory address value r)
    sized value (err e) = same_state
    sized value (ret size) =
        after_store-Keeps s op out _ (store_u64-Keeps host s _ address.lo value.lo size op.endian)

    stored : (r : Result ExecValue) → KeepsStatus s (store_read host s op out memory address r)
    stored (err e) = same_state
    stored (ret value) = sized value (exec_byte_sized_scalar value.type)

memory-Keeps :
    (host : Host) (s : ExecState) (op : OpRec) (out : IrType)
    → KeepsStatus s (exec_memory_op host s op out)
unfolding exec_memory_op
memory-Keeps host s op out = with_read-Keeps (exec_read_value s (first_src op)) λ memory.
    with_read-Keeps (exec_read_value s (second_src op))
      λ address. access-Keeps host s op out memory address

-- A step of the executor, whatever the operation, the state and the host, and whether it succeeds or
-- fails, leaves a state of the same module with as many value slots.
pub op-Keeps : (host : Host) (s : ExecState) (op : OpRec) → KeepsStatus s (exec_op host s op)
unfolding exec_op
op-Keeps host s op =
    let out = type_at s.module' op.dst in
    if-Keeps (opcode_equal op.opcode Opcode.const_u64)
      (or_keep-Keeps (define_value-Keeps s op.dst (exec_value_make out op.imm 0)))
      (if-Keeps (opcode_equal op.opcode Opcode.load || opcode_equal op.opcode Opcode.store)
        (memory-Keeps host s op out)
        (if-Keeps (length op.src == 1)
          (with_read-Keeps (exec_read_value s (first_src op))
            λ src. or_keep-Keeps (unary-Keeps s op out src))
          (if-Keeps (length op.src == 2)
            (with_read-Keeps (exec_read_value s (first_src op)) λ lhs.
              with_read-Keeps (exec_read_value s (second_src op))
                λ rhs. or_keep-Keeps (binary-Keeps s op out lhs rhs))
            same_state)))
