-- ===== src/Ir/Types.antt =====
-- xair_type, its constructors and its tests, of include/xair/xair.h and src/xair.c. An enum value is
-- a constructor, and `kind_code` is its number.
use xair.Prelude.{
  ℕ, ◌≡◌, refl, sym, ap, ◌∙◌, Bool, true, false, ◌&&◌, ◌||◌, not, ltb, leb, ◌==◌, if◌then◌else◌,
  arith,
}

pub data TypeKind : Type 0 where
  invalid void int addr flags mem label8 labelset : TypeKind

abbrev pub kind_code : TypeKind → ℕ
kind_code invalid = 0
kind_code void = 1
kind_code int = 2
kind_code addr = 3
kind_code flags = 4
kind_code mem = 5
kind_code label8 = 6
kind_code labelset = 7

-- `bits` and `aux` are uint16_t.
pub record IrType : Type 0 where
  pub kind : TypeKind
  pub bits : ℕ
  pub aux : ℕ

abbrev pub ir_type : TypeKind → ℕ → ℕ → IrType
ir_type kind bits aux = record { kind = kind; bits = bits; aux = aux }

abbrev pub type_void : IrType
type_void = ir_type void 0 0

abbrev pub type_i : ℕ → IrType
type_i bits = ir_type int bits 0

abbrev pub type_addr : ℕ → IrType
type_addr bits = ir_type addr bits 0

abbrev pub type_flags : ℕ → IrType
type_flags count = ir_type flags count 0

abbrev pub type_mem : (space addr_bits : ℕ) → IrType
type_mem space addr_bits = ir_type mem addr_bits space

abbrev pub type_label8 : IrType
type_label8 = ir_type label8 8 0

abbrev pub type_labelset : IrType
type_labelset = ir_type labelset 0 0

abbrev pub kind_equal : TypeKind → TypeKind → Bool
kind_equal a b = kind_code a == kind_code b

unfoldable pub type_equal : IrType → IrType → Bool
type_equal lhs rhs = kind_equal lhs.kind rhs.kind && (lhs.bits == rhs.bits && lhs.aux == rhs.aux)

abbrev pub is_int : IrType → Bool
is_int type = kind_equal type.kind int

abbrev pub is_addr : IrType → Bool
is_addr type = kind_equal type.kind addr

abbrev pub is_mem : IrType → Bool
is_mem type = kind_equal type.kind mem

abbrev pub is_flags : IrType → Bool
is_flags type = kind_equal type.kind flags

abbrev pub is_i1 : IrType → Bool
is_i1 type = kind_equal type.kind int && type.bits == 1

abbrev pub valid_int_bits : ℕ → Bool
valid_int_bits bits =
    bits == 1 || (bits == 8 || (bits == 16 || (bits == 32 || (bits == 64 || bits == 128))))

abbrev pub valid_addr_bits : ℕ → Bool
valid_addr_bits bits = bits == 32 || bits == 64

abbrev valid_fields : TypeKind → ℕ → ℕ → Bool
valid_fields invalid bits aux = false
valid_fields void bits aux = bits == 0 && aux == 0
valid_fields int bits aux = valid_int_bits bits && aux == 0
valid_fields addr bits aux = valid_addr_bits bits && aux == 0
valid_fields flags bits aux = ltb 0 bits && (leb bits 32 && aux == 0)
valid_fields mem bits aux = valid_addr_bits bits
valid_fields label8 bits aux = bits == 8 && aux == 0
valid_fields labelset bits aux = bits == 0 && aux == 0

unfoldable pub type_is_valid : IrType → Bool
type_is_valid type = valid_fields type.kind type.bits type.aux

unfoldable pub is_value_type : IrType → Bool
is_value_type type =
    type_is_valid type && (not (kind_equal type.kind void) && not (kind_equal type.kind invalid))

kind_of_code : ℕ → TypeKind
kind_of_code code =
    if code == 0
    then invalid
    else if code == 1
    then void
    else if code == 2
    then int
    else if code == 3
    then addr
    else if code == 4
    then flags
    else if code == 5
    then mem
    else if code == 6
    then label8
    else labelset

kind_of_code-kind_code : (k : TypeKind) → kind_of_code (kind_code k) ≡ k
unfolding kind_of_code
kind_of_code-kind_code invalid = refl
kind_of_code-kind_code _ = refl

pub kind_code_injective : (a b : TypeKind) → kind_code a ≡ kind_code b → a ≡ b
kind_code_injective a b h =
    sym (kind_of_code-kind_code a) ∙ ap kind_of_code h ∙ kind_of_code-kind_code b

pub eq_of_type_equal : (a b : IrType) → type_equal a b ≡ true → a ≡ b
unfolding type_equal
eq_of_type_equal a b h = ground (arith, kind_code_injective a.kind b.kind)

pub type_equal_refl : (a : IrType) → type_equal a a ≡ true
unfolding type_equal
type_equal_refl a = ground arith
