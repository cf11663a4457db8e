-- ===== src/Sound/Store.antt =====
-- A memory operation of a verified module in the executor of src/xair.c.
use xair.Prelude.{
  ℕ, ◌≡◌, ◌≤◌, refl, sym, ap, subst, ◌∙◌, Bool, true, false, arith, length, get_elem?,
}
use xair.Prelude.Words.{add64}
use xair.Status.{Error, oom, bad_arg, Result, ret, err}
use xair.Ir.Types.{IrType, is_mem, is_addr}
use xair.Ir.Opcode.{Opcode, opcode_equal}
use xair.Module.Data.{OpRec, count, valid_value}
use xair.Module.Grow.{Host}
use xair.Exec.Fold.{type_at, first_src, second_src}
use xair.Exec.State.{ExecValue, ExecState, exec_value_make, exec_define_value, exec_read_value}
use xair.Exec.Memory.{exec_range_wraps}
use xair.Exec.Op.{
  Status, or_keep, with_read, exec_byte_sized_scalar, after_store, store_sized, store_read,
  exec_access, exec_memory_op, third_of,
}
use xair.Sound.Errors.{is_oom}
use xair.Sound.Memory.{SameValues, Stores, breaks, wraps_at, store_u64-Stores}
use xair.Verify.Blocks.{Marks, verify_available}
use xair.Sound.Shape.{
  Shape, constant, one, two, loads, stores, first_available, second_available, third_available,
}
use xair.Exec.Agree.Constants.{plain}
use xair.Sound.State.{Holds, available-Reads, Typed, Extends, Extends-trans, Reads, reads}
use xair.Sound.Operation.{
  Step, steps, stops, fails, Failure, no_memory, wraps, is_access, IsAccessOf, define-Step,
  load-Step, IsSized, sized, unsized, byte_size-IsSized,
}

same-Typed : (s s' : ExecState) → SameValues s s' → Typed s → Typed s'
same-Typed s s' h t = record {
  slots = ap length h.values_same ∙ t.slots ∙ ap (λ m. count m.values) (sym h.module_same);
  types = λ v x e.
      t.types v x (ap (λ l. get_elem? l v) (sym h.values_same) ∙ e)
      ∙ ap (λ m. type_at m v) (sym h.module_same);
}

same-Extends : (s s' : ExecState) → SameValues s s' → Extends s s'
same-Extends s s' h = record {
  module_same = h.module_same;
  stays = λ v d. (d.0, ap (λ l. get_elem? l v) h.values_same ∙ d.1);
}

extend-Step :
    (op : OpRec) (s s' : ExecState) (r : Status) → Extends s s' → Step op s' r → Step op s r
extend-Step op s s' r h (steps {s' = u} t e d) = steps t (Extends-trans s s' u h e) d
extend-Step op s s' r h (stops t) = stops t
extend-Step op s s' r h (fails t f) = fails t f

const_access : (o : Opcode) → opcode_equal o Opcode.const_u64 ≡ true → is_access o ≡ true → ⊥
const_access o h k = ground arith

plain_access : (o : Opcode) → plain o ≡ true → is_access o ≡ true → ⊥
plain_access o h k = ground arith

store_no_load :
    (o : Opcode) → opcode_equal o Opcode.store ≡ true → opcode_equal o Opcode.load ≡ false
store_no_load o h = ground arith

module _ (s : ExecState) (op : OpRec) (t : Typed s)
    (valid : valid_value s.module' op.dst ≡ true) where
  -- The new generation of memory is defined after the bytes are stored.
  after_store-Step :
      (host : Host) (address : ExecValue) (b : Bool) (r : Status)
      → (b ≡ true → Failure s bad_arg)
      → Stores b s r
      → Step op s (after_store op (type_at s.module' op.dst) r)
  unfolding after_store
  after_store-Step host address b (ret u, s') w (Stores.stores h) =
      let s'' : ExecState = record s' { mem_generation = add64 s'.mem_generation 1 } in
      let same : SameValues s s'' = record {
        module_same = h.module_same;
        values_same = h.values_same;
      } in
      let out_same : type_at s''.module' op.dst ≡ type_at s.module' op.dst =
        ap (λ m. type_at m op.dst) h.module_same in
      let valid' : valid_value s''.module' op.dst ≡ true =
        ap (λ m. valid_value m op.dst) h.module_same ∙ valid in
      extend-Step op s s'' _ (same-Extends s s'' same) (
        subst
          (λ out.
            Step op s'' (
              or_keep s''
                (exec_define_value s'' op.dst (exec_value_make out s''.mem_generation 0))))
          out_same (define-Step s'' op (same-Typed s s'' same t) valid' s''.mem_generation))
  after_store-Step host address b (err e, s') w (breaks h k) =
      fails (same-Typed s s' h t) (oom_only e k)
    where
      oom_only : (e : Error) → is_oom e ≡ true → Failure s' e
      oom_only oom k = no_memory
      oom_only _ k = cc
  after_store-Step host address b (err e, s') w (wraps_at h) = fails t (w h)

  store_read-Step :
      (host : Host) (memory address : ExecValue) (type : IrType) (r : Result ExecValue)
      → IsAccessOf s op
      → exec_read_value s (second_src op) ≡ ret address
      → Reads type r
      → Step op s (store_read host s op (type_at s.module' op.dst) memory address r)
  store_read-Step host memory address type (ret value) access h (reads e) =
      go (exec_byte_sized_scalar value.type) (byte_size-IsSized value.type)
    where
      go :
          (r : Result ℕ)
          → IsSized r
          → Step op s (store_sized host s op (type_at s.module' op.dst) memory address value r)
      go (ret size) (sized small) =
          after_store-Step host address (exec_range_wraps address.lo size) _
            (λ k. wraps op address size access h small k)
            (store_u64-Stores host s memory.type.aux address.lo value.lo size op.endian small)
      go (err e) unsized = stops t
  store_read-Step host memory address type (err e) access h r = elim r [ ]

  pub with_read-Step :
      (type : IrType) (r : Result ExecValue) (k : ExecValue → Status)
      → Reads type r
      → ((x : ExecValue) → r ≡ ret x → x.type ≡ type → Step op s (k x))
      → Step op s (with_read s r k)
  with_read-Step type (ret x) k (reads e) h = h x refl e
  with_read-Step type (err e) k r h = elim r [ ]

  access-Step :
      (host : Host) (available : Marks) (memory address : ExecValue)
      → Holds available s
      → verify_available s.module' available op.src ≡ ret tt
      → Shape s.module' op op.opcode
      → IsAccessOf s op
      → memory.type ≡ type_at s.module' (first_src op)
      → address.type ≡ type_at s.module' (second_src op)
      → exec_read_value s (second_src op) ≡ ret address
      → Step op s (exec_access host s op (type_at s.module' op.dst) memory address)
  unfolding exec_access
  access-Step host available memory address h v (constant c) access me ae read =
      absurd (const_access op.opcode c access.accesses)
  access-Step host available memory address h v (one p n) access me ae read =
      absurd (plain_access op.opcode p access.accesses)
  access-Step host available memory address h v (two p n) access me ae read =
      absurd (plain_access op.opcode p access.accesses)
  access-Step host available memory address h v (loads o n k) access me ae read =
      let is_memory : is_mem memory.type ≡ true = ap is_mem me ∙ k.memory in
      let is_address : is_addr address.type ≡ true = ap is_addr ae ∙ k.address in
      rw (is_memory, is_address, o) (load-Step s op t valid memory address access read)
  access-Step host available memory address h v (stores o n k) access me ae read =
      let is_memory : is_mem memory.type ≡ true = ap is_mem me ∙ k.memory in
      let is_address : is_addr address.type ≡ true = ap is_addr ae ∙ k.address in
      let no_load : opcode_equal op.opcode Opcode.load ≡ false = store_no_load op.opcode o in
      rw (is_memory, is_address, no_load, o)
        (store_read-Step host memory address _ _ access read (
          available-Reads s available (third_of op.src) h
            (third_available s.module' available op.src v (omega arith))))

  pub memory-Step :
      (host : Host) (available : Marks)
      → Holds available s
      → verify_available s.module' available op.src ≡ ret tt
      → Shape s.module' op op.opcode
      → IsAccessOf s op
      → 2 ≤ length op.src
      → Step op s (exec_memory_op host s op (type_at s.module' op.dst))
  unfolding exec_memory_op
  memory-Step host available h v shape access n =
      with_read-Step _ _ _
        (available-Reads s available (first_src op) h
          (first_available s.module' available op.src v (omega arith)))
        λ memory _ me.
          with_read-Step _ _ _
            (available-Reads s available (second_src op) h
              (second_available s.module' available op.src v n))
            λ address read ae. access-Step host available memory address h v shape access me ae read
