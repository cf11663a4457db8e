-- ===== src/Ir/Opcode.antt =====
-- xair_opcode of include/xair/xair.h; `opcode_code` is the number of an enum value.
use xair.Prelude.{
  ℕ, ◌≡◌, refl, sym, ap, ◌∙◌, Bool, true, List, [], ◌∷◌, Option, none, some, get_elem?, ◌==◌, arith,
}

pub data Opcode : Type 0 where
  const_u64 add sub mul and or xor shl : Opcode
  lshr ashr eq ne ult ule slt sle : Opcode
  zext sext trunc concat addr_add addr_sub int_to_addr addr_to_int : Opcode
  flags_add flags_sub flags_logic flags_shl flag_zf flag_cf flag_of flag_sf : Opcode
  flag_pf flag_af load store : Opcode

abbrev pub opcode_code : Opcode → ℕ
opcode_code const_u64 = 0
opcode_code add = 1
opcode_code sub = 2
opcode_code mul = 3
opcode_code and = 4
opcode_code or = 5
opcode_code xor = 6
opcode_code shl = 7
opcode_code lshr = 8
opcode_code ashr = 9
opcode_code eq = 10
opcode_code ne = 11
opcode_code ult = 12
opcode_code ule = 13
opcode_code slt = 14
opcode_code sle = 15
opcode_code zext = 16
opcode_code sext = 17
opcode_code trunc = 18
opcode_code concat = 19
opcode_code addr_add = 20
opcode_code addr_sub = 21
opcode_code int_to_addr = 22
opcode_code addr_to_int = 23
opcode_code flags_add = 24
opcode_code flags_sub = 25
opcode_code flags_logic = 26
opcode_code flags_shl = 27
opcode_code flag_zf = 28
opcode_code flag_cf = 29
opcode_code flag_of = 30
opcode_code flag_sf = 31
opcode_code flag_pf = 32
opcode_code flag_af = 33
opcode_code load = 34
opcode_code store = 35

abbrev pub opcode_equal : Opcode → Opcode → Bool
opcode_equal a b = opcode_code a == opcode_code b

abbrev opcodes : List Opcode
opcodes =
    const_u64 ∷ add ∷ sub ∷ mul ∷ and ∷ or ∷ xor ∷ shl ∷ lshr ∷ ashr ∷ eq ∷ ne ∷ ult ∷ ule ∷ slt
    ∷ sle ∷ zext ∷ sext ∷ trunc ∷ concat ∷ addr_add ∷ addr_sub ∷ int_to_addr ∷ addr_to_int
    ∷ flags_add ∷ flags_sub ∷ flags_logic ∷ flags_shl ∷ flag_zf ∷ flag_cf ∷ flag_of ∷ flag_sf
    ∷ flag_pf ∷ flag_af ∷ load ∷ store ∷ []

opcodes-opcode_code : (o : Opcode) → get_elem? opcodes (opcode_code o) ≡ some o
opcodes-opcode_code const_u64 = refl
opcodes-opcode_code _ = refl

or_const : Option Opcode → Opcode
or_const none = const_u64
or_const (some o) = o

pub opcode_code_injective : (a b : Opcode) → opcode_code a ≡ opcode_code b → a ≡ b
unfolding or_const
opcode_code_injective a b h =
    ap or_const (sym (opcodes-opcode_code a) ∙ ap (get_elem? opcodes) h ∙ opcodes-opcode_code b)

pub eq_of_opcode_equal : (a b : Opcode) → opcode_equal a b ≡ true → a ≡ b
eq_of_opcode_equal a b h =
    opcode_code_injective a b ((xair.Prelude.==_iff (opcode_code a) (opcode_code b)).0 h)

-- op_is_commutative of src/xair.c
abbrev pub op_is_commutative : Opcode → Bool
op_is_commutative add = true
op_is_commutative mul = true
op_is_commutative and = true
op_is_commutative or = true
op_is_commutative xor = true
op_is_commutative eq = true
op_is_commutative ne = true
op_is_commutative flags_add = true
op_is_commutative _ = xair.Prelude.false
