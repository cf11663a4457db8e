-- ===== src/X86/Reader.antt =====
-- The reads of src/xair_x86_decode.c. A decoder takes the bytes and the offset, and returns a value
-- with the offset after what it has read.
use xair.Prelude.{
  ℕ, ◌+◌, ◌-◌, ◌*◌, ◌^◌, Option, none, some, List, bit_or, get_elem?, ltb, if◌then◌else◌,
}
use xair.Prelude.Words.{u32, u64}

-- XAIR_ERR_RANGE is `short`. XAIR_ERR_UNSUPPORTED leaves the two opcode bytes in the instruction.
pub data Outcome (A : Type 0) : Type 0 where
  done : A → (offset : ℕ) → Outcome A
  unsupported : (opcode opcode2 : ℕ) → Outcome A
  short : Outcome A
  bad_arg : Outcome A

abbrev pub Decoder : Type 0 → Type 0
Decoder A = List ℕ → (offset : ℕ) → Outcome A

abbrev pub and_decode : {A B : Type 0} → List ℕ → Outcome A → (A → Decoder B) → Outcome B
and_decode bytes (done a offset) next = next a bytes offset
and_decode bytes (unsupported opcode opcode2) next = unsupported opcode opcode2
and_decode bytes short next = short
and_decode bytes bad_arg next = bad_arg

infixl 5 ◌>>=◌
abbrev pub ◌>>=◌ : {A B : Type 0} → Decoder A → (A → Decoder B) → Decoder B
◌>>=◌ read next bytes offset = and_decode bytes (read bytes offset) next

abbrev pub give : {A : Type 0} → A → Decoder A
give a bytes offset = done a offset

abbrev pub refuse : {A : Type 0} → (opcode opcode2 : ℕ) → Decoder A
refuse opcode opcode2 bytes offset = unsupported opcode opcode2

abbrev pub taken : {A : Type 0} → Option A → (offset : ℕ) → Outcome A
taken none offset = short
taken (some a) offset = done a (offset + 1)

unfoldable pub read_u8 : Decoder ℕ
read_u8 bytes offset = taken (get_elem? bytes offset) offset

-- The test for four bytes fails exactly if one of the four reads does.
unfoldable pub read_le32 : Decoder ℕ
read_le32 = do
  b0 ← read_u8
  b1 ← read_u8
  b2 ← read_u8
  b3 ← read_u8
  give (u32 (bit_or (bit_or (bit_or b0 (b1 * 2 ^ 8)) (b2 * 2 ^ 16)) (b3 * 2 ^ 24)))

unfoldable pub read_le64 : Decoder ℕ
read_le64 = do lo ← read_le32; hi ← read_le32; give (u64 (bit_or lo (hi * 2 ^ 32)))

abbrev pub sign_extend8 : ℕ → ℕ
sign_extend8 value = if ltb value 0x80 then value else value + 2 ^ 64 - 2 ^ 8

abbrev pub sign_extend32 : ℕ → ℕ
sign_extend32 value = if ltb value 0x8000_0000 then value else value + 2 ^ 64 - 2 ^ 32
