-- ===== src/Module/Data.antt =====
-- The records of src/xair.c. An array with its count and its capacity is a `Buffer`; its count is
-- the length of the list.
use xair.Prelude.{
  ℕ, zero, suc, ◌+◌, ◌/◌, ◌%◌, Bool, Option, List, [], ◌∷◌, ◌++◌, ltb, ◌==◌, length, take,
  if◌then◌else◌,
}
use xair.Prelude.Words.{uint32_max}
use xair.Ir.Types.{IrType}
use xair.Ir.Opcode.{Opcode}

pub data TermKind : Type 0 where
  unterminated jump cbranch return trap fault : TermKind

abbrev pub term_kind_code : TermKind → ℕ
term_kind_code unterminated = 0
term_kind_code jump = 1
term_kind_code cbranch = 2
term_kind_code return = 3
term_kind_code trap = 4
term_kind_code fault = 5

pub data Endian : Type 0 where
  le be : Endian

abbrev pub endian_code : Endian → ℕ
endian_code le = 0
endian_code be = 1

pub record Buffer (A : Type 0) : Type 0 where
  pub items : List A
  pub cap : ℕ

abbrev pub count : {A : Type 0} → Buffer A → ℕ
count b = length b.items

abbrev pub empty_buffer : {A : Type 0} → Buffer A
empty_buffer = record { items = []; cap = 0 }

-- A name is the characters before the NUL.
pub record ValueRec : Type 0 where
  pub type : IrType
  pub block : ℕ
  pub op : ℕ
  pub name : List ℕ

-- `src` holds the first `src_count` sources.
pub record OpRec : Type 0 where
  pub opcode : Opcode
  pub dst : ℕ
  pub src : List ℕ
  pub endian : Endian
  pub imm : ℕ

pub record TermRec : Type 0 where
  pub kind : TermKind
  pub condition : ℕ
  pub true_target : ℕ
  pub false_target : ℕ
  pub true_arg_offset : ℕ
  pub true_arg_count : ℕ
  pub false_arg_offset : ℕ
  pub false_arg_count : ℕ
  pub code : ℕ

pub record BlockRec : Type 0 where
  pub name : List ℕ
  pub params : Buffer ℕ
  pub ops : Buffer ℕ
  pub term : TermRec

-- A used entry of the value numbering table.
pub record Entry : Type 0 where
  pub hash : ℕ
  pub value : ℕ

-- The field `entries` is filled in by xair_get_value_numbering_stats alone.
pub record NumberingStats : Type 0 where
  pub created : ℕ
  pub reused : ℕ
  pub collisions : ℕ

-- `slots` is the table: its length is the capacity, and `none` is an entry that is not used.
pub record Module : Type 0 where
  pub values : Buffer ValueRec
  pub ops : Buffer OpRec
  pub blocks : Buffer BlockRec
  pub term_args : Buffer ℕ
  pub slots : List (Option Entry)
  pub number_count : ℕ
  pub stats : NumberingStats
  pub frozen : Bool

-- XAIR_INVALID_ID
abbrev pub invalid_id : ℕ
invalid_id = uint32_max

-- xair_module_create: calloc
abbrev pub new_module : Module
new_module = record {
  values = empty_buffer;
  ops = empty_buffer;
  blocks = empty_buffer;
  term_args = empty_buffer;
  slots = [];
  number_count = 0;
  stats = record { created = 0; reused = 0; collisions = 0 };
  frozen = Bool.false;
}

abbrev pub valid_block : Module → ℕ → Bool
valid_block m block = ltb block (count m.blocks)

abbrev pub valid_value : Module → ℕ → Bool
valid_value m value = ltb value (count m.values)

-- The decimal digits of a number below 10 ^ fuel, most significant first, as `%u` prints them.
unfoldable pub decimal : ℕ → ℕ → List ℕ
decimal zero n = []
decimal (suc fuel) n =
    let rest = decimal fuel (n / 10) in
    if ltb n 10 then (b'0' + n) ∷ [] else rest ++ (b'0' + n % 10) ∷ []

-- snprintf into 32 characters. An absent name is an empty one; ids have at most ten digits.
unfoldable pub copy_name : (src prefix : List ℕ) → ℕ → List ℕ
copy_name src prefix id = take 31 (if length src == 0 then prefix ++ decimal 10 id else src)
