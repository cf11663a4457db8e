-- ===== src/Sound/Shape.antt =====
-- What verify_op of src/xair.c has found of an operation that it accepts.
use xair.Prelude.{ℕ, ◌≡◌, ◌≤◌, refl, true, not, List, [], ◌∷◌, arith, leb, ◌==◌, length}
use xair.Status.{verify, Result, ret, reject_if-eq-ret}
use xair.Ir.Types.{is_mem, is_addr, is_value_type}
use xair.Ir.Opcode.{Opcode, opcode_equal}
use xair.Module.Data.{Module, OpRec, count, valid_value}
use xair.Exec.Fold.{type_at, first_src, second_src, second_of}
use xair.Exec.Op.{third_of}
use xair.Exec.Agree.Constants.{plain}
use xair.Verify.{verify_op, verify_sources, verify_memory_op, with_sources}
use xair.Verify.Blocks.{Marks, value_is_available, verify_available}

-- The memory and the address of an access are of such types.
pub record IsAccess (m : Module) (op : OpRec) : Type 0 where
  pub memory : is_mem (type_at m (first_src op)) ≡ true
  pub address : is_addr (type_at m (second_src op)) ≡ true

pub data Shape (m : Module) (op : OpRec) (opcode : Opcode) : Type 0 where
  constant : opcode_equal opcode Opcode.const_u64 ≡ true → Shape m op opcode
  one : plain opcode ≡ true → length op.src ≡ 1 → Shape m op opcode
  two : plain opcode ≡ true → length op.src ≡ 2 → Shape m op opcode
  loads :
      opcode_equal opcode Opcode.load ≡ true → length op.src ≡ 2 → IsAccess m op → Shape m op opcode
  stores :
      opcode_equal opcode Opcode.store ≡ true
      → length op.src ≡ 3
      → IsAccess m op
      → Shape m op opcode

module _ (m : Module) (op : OpRec) where
  pub with_sources-eq :
      (n : ℕ) (rest : Result (Unit {0}))
      → with_sources m op n rest ≡ ret tt
      → (length op.src ≡ n) × (rest ≡ ret tt)
  with_sources-eq n rest h =
      let (e, k) = reject_if-eq-ret (not (length op.src == n)) verify rest h in (ground arith, k)

  verify_memory_op-IsAccess : verify_memory_op m op ≡ ret tt → IsAccess m op
  unfolding verify_memory_op
  verify_memory_op-IsAccess h = record { memory = ground arith; address = ground arith }

  sources-Shape : (opcode : Opcode) → verify_sources m op opcode ≡ ret tt → Shape m op opcode
  unfolding verify_sources
  sources-Shape Opcode.const_u64 h = constant refl
  sources-Shape Opcode.zext h = one refl (with_sources-eq 1 _ h).0
  sources-Shape Opcode.sext h = one refl (with_sources-eq 1 _ h).0
  sources-Shape Opcode.trunc h = one refl (with_sources-eq 1 _ h).0
  sources-Shape Opcode.int_to_addr h = one refl (with_sources-eq 1 _ h).0
  sources-Shape Opcode.addr_to_int h = one refl (with_sources-eq 1 _ h).0
  sources-Shape Opcode.flags_logic h = one refl (with_sources-eq 1 _ h).0
  sources-Shape Opcode.flag_zf h = one refl (with_sources-eq 1 _ h).0
  sources-Shape Opcode.flag_cf h = one refl (with_sources-eq 1 _ h).0
  sources-Shape Opcode.flag_of h = one refl (with_sources-eq 1 _ h).0
  sources-Shape Opcode.flag_sf h = one refl (with_sources-eq 1 _ h).0
  sources-Shape Opcode.flag_pf h = one refl (with_sources-eq 1 _ h).0
  sources-Shape Opcode.flag_af h = one refl (with_sources-eq 1 _ h).0
  sources-Shape Opcode.load h =
      let (n, k) = with_sources-eq 2 _ h in loads refl n (verify_memory_op-IsAccess k)
  sources-Shape Opcode.store h =
      let (n, k) = with_sources-eq 3 _ h in stores refl n (verify_memory_op-IsAccess k)
  sources-Shape _ h = two refl (with_sources-eq 2 _ h).0

  pub verify_op-Shape :
      verify_op m op ≡ ret tt → (valid_value m op.dst ≡ true) × Shape m op op.opcode
  unfolding verify_op
  verify_op-Shape h =
      let (below, h1) = reject_if-eq-ret (leb (count m.values) op.dst) verify _ h in
      let (typed, h2) = reject_if-eq-ret (not (is_value_type (type_at m op.dst))) verify _ h1 in
      (ground arith, sources-Shape op.opcode h2)

module _ (m : Module) (available : Marks) where
  pub source_available :
      (value : ℕ) (values : List ℕ)
      → verify_available m available (value ∷ values) ≡ ret tt
      → (value_is_available m available value ≡ true)
        × (verify_available m available values ≡ ret tt)
  unfolding verify_available
  source_available value values h =
      let (e, k) = reject_if-eq-ret (not (value_is_available m available value)) verify _ h in
      (ground arith, k)

  pub first_available :
      (src : List ℕ)
      → verify_available m available src ≡ ret tt
      → 1 ≤ length src
      → value_is_available m available (elim src [ [] ↦ 0 | a ∷ _ ↦ a ]) ≡ true
  first_available [] h n = absurd (omega arith)
  first_available (a ∷ src) h n = (source_available a src h).0

  pub second_available :
      (src : List ℕ)
      → verify_available m available src ≡ ret tt
      → 2 ≤ length src
      → value_is_available m available (second_of src) ≡ true
  second_available [] h n = absurd (omega arith)
  second_available (a ∷ []) h n = absurd (omega arith)
  second_available (a ∷ b ∷ src) h n = (source_available b src (source_available a (b ∷ src) h).1).0

  pub third_available :
      (src : List ℕ)
      → verify_available m available src ≡ ret tt
      → 3 ≤ length src
      → value_is_available m available (third_of src) ≡ true
  third_available [] h n = absurd (omega arith)
  third_available (a ∷ []) h n = absurd (omega arith)
  third_available (a ∷ b ∷ []) h n = absurd (omega arith)
  third_available (a ∷ b ∷ c ∷ src) h n =
      (source_available c src
        (source_available b (c ∷ src) (source_available a (b ∷ c ∷ src) h).1).1).0
