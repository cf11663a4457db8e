-- ===== src/Module/Numbering.antt =====
-- Structural value numbering, of src/xair.c: the hash, the match against a recorded operation, and
-- the open-addressing table with linear probing.
use xair.Prelude.{
  ℕ, zero, suc, ◌+◌, ◌-◌, ◌*◌, ◌/◌, Bool, true, false, ◌&&◌, ◌||◌, not, Option, none, some, List,
  [], ◌∷◌, bit_and, bit_xor, ltb, ◌==◌, length, get_elem?, set, replicate, if◌then◌else◌,
}
use xair.Prelude.Words.{size_max, u64, add64, shl64, shr}
use xair.Status.{oom, Result, ret, ◌>>◌, reject_if}
use xair.Ir.Types.{IrType, kind_code, type_equal}
use xair.Ir.Opcode.{Opcode, const_u64, opcode_code, opcode_equal}
use xair.Module.Data.{Endian, endian_code, Module, ValueRec, OpRec, Entry, invalid_id}
use xair.Module.Grow.{Host, Array}

-- What identifies an operation: the arguments that the functions below share.
pub record Key : Type 0 where
  pub block : ℕ
  pub opcode : Opcode
  pub type : IrType
  pub srcs : List ℕ
  pub imm : ℕ
  pub endian : Endian

unfoldable pub hash_mix_u64 : ℕ → ℕ → ℕ
hash_mix_u64 hash value =
    let hash' =
      bit_xor hash (add64 (add64 (add64 value 0x9e3779b97f4a7c15) (shl64 hash 6)) (shr hash 2)) in
    if hash' == 0 then 0x9e3779b97f4a7c15 else hash'

abbrev pub hash_type : ℕ → IrType → ℕ
hash_type hash type =
    hash_mix_u64 (hash_mix_u64 (hash_mix_u64 hash (kind_code type.kind)) type.bits) type.aux

abbrev pub value_number_is_global : Opcode → Bool
value_number_is_global opcode = opcode_equal opcode const_u64

abbrev pub hash_all : ℕ → List ℕ → ℕ
hash_all hash [] = hash
hash_all hash (src ∷ srcs) = hash_all (hash_mix_u64 hash src) srcs

unfoldable pub value_number_hash : Key → ℕ
value_number_hash key =
    let scope = if value_number_is_global key.opcode then size_max else key.block in
    let h0 = hash_mix_u64 1469598103934665603 scope in
    let h1 = hash_mix_u64 h0 (opcode_code key.opcode) in
    let h2 = hash_mix_u64 (hash_type h1 key.type) (length key.srcs) in
    let h3 = hash_mix_u64 (hash_all h2 key.srcs) key.imm in hash_mix_u64 h3 (endian_code key.endian)

abbrev pub srcs_equal : List ℕ → List ℕ → Bool
srcs_equal [] [] = true
srcs_equal [] (b ∷ bs) = false
srcs_equal (a ∷ as') [] = false
srcs_equal (a ∷ as') (b ∷ bs) = a == b && srcs_equal as' bs

unfoldable pub op_matches : OpRec → Key → Bool
op_matches op key =
    opcode_equal op.opcode key.opcode
    && (op.imm == key.imm
        && (endian_code op.endian == endian_code key.endian && srcs_equal op.src key.srcs))

unfoldable pub recorded_op : Module → ValueRec → Option OpRec
recorded_op m value = if value.op == invalid_id then none else get_elem? m.ops.items value.op

abbrev pub holds_op : Option OpRec → Key → Bool
holds_op none key = false
holds_op (some op) key = op_matches op key

unfoldable pub value_rec_matches : Module → ValueRec → Key → Bool
value_rec_matches m value key =
    type_equal value.type key.type
    && ((value_number_is_global key.opcode || value.block == key.block)
        && holds_op (recorded_op m value) key)

abbrev pub holds_value : Module → Option ValueRec → Key → Bool
holds_value m none key = false
holds_value m (some value) key = value_rec_matches m value key

unfoldable pub value_number_matches : Module → ℕ → Key → Bool
value_number_matches m value key = holds_value m (get_elem? m.values.items value) key

abbrev pub first_index : List (Option Entry) → ℕ → ℕ
first_index slots hash = bit_and hash (length slots - 1)

abbrev pub next_index : List (Option Entry) → ℕ → ℕ
next_index slots index = bit_and (index + 1) (length slots - 1)

-- The index is masked by the length less 1; past the table there is nothing.
abbrev pub slot_or_none : Option (Option Entry) → Option Entry
slot_or_none none = none
slot_or_none (some slot) = slot

abbrev pub slot_at : List (Option Entry) → ℕ → Option Entry
slot_at slots index = slot_or_none (get_elem? slots index)

pub record Found : Type 0 where
  pub value : Option ℕ
  pub collisions : ℕ

-- The probes of value_number_lookup that are left, from `index` on.
unfoldable pub lookup_from : Module → Key → (hash probes index collisions : ℕ) → Found
lookup_from m key hash zero index collisions = record { value = none; collisions = collisions }
lookup_from m key hash (suc probes) index collisions = elim (slot_at m.slots index) [
  | none ↦ record { value = none; collisions = collisions }
  | some entry ↦
      let next = lookup_from m key hash probes (next_index m.slots index) (collisions + 1) in
      if entry.hash == hash && value_number_matches m entry.value key
      then record { value = some entry.value; collisions = collisions }
      else next
]

unfoldable pub value_number_lookup : Module → Key → ℕ → Found
value_number_lookup m key hash =
    if length m.slots == 0
    then record { value = none; collisions = m.stats.collisions }
    else lookup_from m key hash (length m.slots) (first_index m.slots hash) m.stats.collisions

-- `while (slots[index].used)`, on as many rounds as there are slots; `none` means that all are used.
unfoldable pub find_free : List (Option Entry) → (rounds index : ℕ) → Option ℕ
find_free slots zero index = none
find_free slots (suc rounds) index = elim (slot_at slots index) [
  | none ↦ some index
  | some entry ↦ find_free slots rounds (next_index slots index)
]

abbrev pub put_at : List (Option Entry) → Option ℕ → Entry → List (Option Entry)
put_at slots none entry = slots
put_at slots (some index) entry = set slots index (some entry)

unfoldable pub place : List (Option Entry) → Entry → List (Option Entry)
place slots entry =
    put_at slots (find_free slots (length slots) (first_index slots entry.hash)) entry

-- The loop of value_number_grow over the old table, with the count of the entries moved.
unfoldable pub move_all : (old slots : List (Option Entry)) → ℕ → List (Option Entry) × ℕ
move_all [] slots moved = (slots, moved)
move_all (none ∷ old) slots moved = move_all old slots moved
move_all (some entry ∷ old) slots moved = move_all old (place slots entry) (moved + 1)

unfoldable pub value_number_grow : Host → Module → ℕ → Result Module
value_number_grow host m next_cap = do
  reject_if (not (host.realloc Array.slots (next_cap * host.size_of Array.slots))) oom
  let (slots, moved) = move_all m.slots (replicate next_cap none) 0
  ret (record m { slots = slots; number_count = moved })

unfoldable pub value_number_prepare_insert : Host → Module → Result Module
value_number_prepare_insert host m =
    let cap = length m.slots in
    if not (cap == 0) && ltb ((m.number_count + 1) * 2) cap then ret m else do
      let next_cap = if cap == 0 then 64 else u64 (cap * 2)
      reject_if (ltb next_cap cap || ltb (size_max / host.size_of Array.slots) next_cap) oom
      value_number_grow host m next_cap

unfoldable pub value_number_insert : Module → (hash value : ℕ) → Module
value_number_insert m hash value = record m {
  slots = place m.slots (record { hash = hash; value = value });
  number_count = m.number_count + 1;
  stats = record m.stats { created = m.stats.created + 1 };
}

unfoldable pub value_number_clear : Module → Module
value_number_clear m = record m { slots = []; number_count = 0 }
