-- ===== src/Module/Sharing.antt =====
-- The lookup of value numbering, of src/xair.c, returns a value only for an operation that is recorded
-- as asked.
use xair.Prelude.{
  ℕ, zero, suc, ◌+◌, ◌≡◌, refl, ◌≢◌, ◌⊎◌, true, Option, none, some, List, [], ◌∷◌, arith, length,
  get_elem?,
}
use xair.Ir.Types.{eq_of_type_equal}
use xair.Ir.Opcode.{const_u64, eq_of_opcode_equal}
use xair.Module.Data.{Endian, le, be, endian_code, Module, ValueRec, OpRec, invalid_id}
use xair.Module.Numbering.{
  Key, srcs_equal, op_matches, recorded_op, holds_op, value_rec_matches, holds_value,
  value_number_matches, next_index, lookup_from, value_number_lookup, first_index,
}

-- The value holds the operation that the key describes, in its own block unless it is a constant.
pub record Records (m : Module) (key : Key) (v : ℕ) : Type 0 where
  pub value : ValueRec
  pub op : OpRec
  pub at_value : get_elem? m.values.items v ≡ some value
  pub at_op : get_elem? m.ops.items value.op ≡ some op
  pub has_op : value.op ≢ invalid_id
  pub type : value.type ≡ key.type
  pub scope : (key.opcode ≡ const_u64) ⊎ (value.block ≡ key.block)
  pub opcode : op.opcode ≡ key.opcode
  pub src : op.src ≡ key.srcs
  pub imm : op.imm ≡ key.imm
  pub endian : op.endian ≡ key.endian

endian_code_injective : (a b : Endian) → endian_code a ≡ endian_code b → a ≡ b
endian_code_injective le le h = refl
endian_code_injective le be h = absurd (omega arith)
endian_code_injective be le h = absurd (omega arith)
endian_code_injective be be h = refl

eq_of_srcs_equal : (as' bs : List ℕ) → srcs_equal as' bs ≡ true → as' ≡ bs
eq_of_srcs_equal [] [] h = refl
eq_of_srcs_equal [] (b ∷ bs) h = cc
eq_of_srcs_equal (a ∷ as') [] h = cc
eq_of_srcs_equal (a ∷ as') (b ∷ bs) h = ground (arith, eq_of_srcs_equal as' bs)

op_matches_fields :
    (op : OpRec) (key : Key)
    → op_matches op key ≡ true
    → (op.opcode ≡ key.opcode) × (op.imm ≡ key.imm) × (op.endian ≡ key.endian) × (op.src ≡ key.srcs)
unfolding op_matches
op_matches_fields op key h = ground (
  arith,
  eq_of_opcode_equal op.opcode key.opcode,
  endian_code_injective op.endian key.endian,
  eq_of_srcs_equal op.src key.srcs,
)

value_rec_matches_fields :
    (m : Module) (value : ValueRec) (key : Key)
    → value_rec_matches m value key ≡ true
    → (value.type ≡ key.type)
      × ((key.opcode ≡ const_u64) ⊎ (value.block ≡ key.block))
      × (holds_op (recorded_op m value) key ≡ true)
unfolding value_rec_matches
value_rec_matches_fields m value key h =
    ground (arith, eq_of_type_equal value.type key.type, eq_of_opcode_equal key.opcode const_u64)

holds_op_lem :
    (key : Key) (o : Option OpRec)
    → holds_op o key ≡ true
    → (op : OpRec) × (o ≡ some op) × (op_matches op key ≡ true)
holds_op_lem key none h = cc
holds_op_lem key (some op) h = (op, refl, h)

recorded_op_lem :
    (m : Module) (value : ValueRec) {op : OpRec}
    → recorded_op m value ≡ some op
    → (value.op ≢ invalid_id) × (get_elem? m.ops.items value.op ≡ some op)
unfolding recorded_op
recorded_op_lem m value h = ground arith

-- A match is a record of the operation.
pub matches-Records :
    (m : Module) (v : ℕ) (key : Key) → value_number_matches m v key ≡ true → Records m key v
unfolding value_number_matches
matches-Records m v key h = go (get_elem? m.values.items v) refl h
  where
    go :
        (o : Option ValueRec)
        → get_elem? m.values.items v ≡ o
        → holds_value m o key ≡ true
        → Records m key v
    go none e h = cc
    go (some value) e h =
        let (type, scope, held) = value_rec_matches_fields m value key h in
        let (op, at, fits) = holds_op_lem key (recorded_op m value) held in
        let (has, at_op) = recorded_op_lem m value at in
        let (opcode, imm, endian, src) = op_matches_fields op key fits in
        record {
          value = value;
          op = op;
          at_value = e;
          at_op = at_op;
          has_op = has;
          type = type;
          scope = scope;
          opcode = opcode;
          src = src;
          imm = imm;
          endian = endian;
        }

lookup_from_sound :
    (m : Module) (key : Key) (hash probes index collisions v : ℕ)
    → (lookup_from m key hash probes index collisions).value ≡ some v
    → value_number_matches m v key ≡ true
unfolding lookup_from
lookup_from_sound m key hash zero index collisions v h = cc
lookup_from_sound m key hash (suc probes) index collisions v h =
    ground
      (arith, lookup_from_sound m key hash probes (next_index m.slots index) (collisions + 1) v)

pub lookup_sound :
    (m : Module) (key : Key) (hash v : ℕ)
    → (value_number_lookup m key hash).value ≡ some v
    → value_number_matches m v key ≡ true
unfolding value_number_lookup
lookup_sound m key hash v h = ground (
  arith,
  lookup_from_sound m key hash (length m.slots) (first_index m.slots hash) m.stats.collisions v,
)
