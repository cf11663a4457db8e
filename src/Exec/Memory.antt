-- ===== src/Exec/Memory.antt =====
-- The paged memory of the executor, of src/xair.c.
use xair.Prelude.{
  ℕ, zero, suc, ◌+◌, ◌-◌, ◌*◌, Bool, ◌&&◌, not, Option, none, some, List, [], ◌∷◌, ◌++◌, bit_and,
  bit_or, ltb, ◌==◌, length, if◌then◌else◌,
}
use xair.Prelude.Words.{size_max, add64, shl64, shr}
use xair.Status.{bad_arg, range, unsupported, Result, ret, err, ◌>>=◌, ◌>>◌, reject_if}
use xair.Module.Data.{Endian, le, be}
use xair.Module.Grow.{Host, Array, grow_array}
use xair.Exec.State.{Page, ExecState}

-- XAIR_EXEC_PAGE_BITS and XAIR_EXEC_PAGE_MASK
abbrev pub page_bits : ℕ
page_bits = 12

abbrev pub page_mask : ℕ
page_mask = 4095

abbrev pub is_page : Page → (space number : ℕ) → Bool
is_page p space number = p.space == space && p.number == number

unfoldable pub exec_find_page : List Page → (space number : ℕ) → Option Page
exec_find_page [] space number = none
exec_find_page (p ∷ pages) space number =
    if is_page p space number then some p else exec_find_page pages space number

-- The write through the pointer that exec_find_page_mut returns.
unfoldable pub update_page : List Page → (space number : ℕ) → (Page → Page) → List Page
update_page [] space number f = []
update_page (p ∷ pages) space number f =
    if is_page p space number then f p ∷ pages else p ∷ update_page pages space number f

abbrev pub new_page : (space number : ℕ) → Page
new_page space number = record { space = space; number = number; bytes = λ _. none }

-- The page is there afterwards.
unfoldable pub with_page : Host → ExecState → (space number : ℕ) → Option Page → Result ExecState
with_page host s space number (some p) = ret s
with_page host s space number none = do
  cap ← grow_array host Array.pages s.page_cap (length s.pages + 1)
  ret (record s { pages = s.pages ++ new_page space number ∷ []; page_cap = cap })

unfoldable pub exec_get_or_create_page : Host → ExecState → (space number : ℕ) → Result ExecState
exec_get_or_create_page host s space number =
    with_page host s space number (exec_find_page s.pages space number)

abbrev pub write_at : (offset byte : ℕ) → Page → Page
write_at offset byte p = record p { bytes = λ i. if i == offset then some byte else p.bytes i }

abbrev pub page_of : ℕ → ℕ
page_of address = shr address page_bits

abbrev pub offset_of : ℕ → ℕ
offset_of address = bit_and address page_mask

abbrev pub exec_range_wraps : (address size : ℕ) → Bool
exec_range_wraps address size = not (size == 0) && ltb (size_max - address) (size - 1)

unfoldable pub store_byte : Host → ExecState → (space address byte : ℕ) → Result ExecState
store_byte host s space address byte = do
  s' ← exec_get_or_create_page host s space (page_of address)
  ret (record s' {
    pages = update_page s'.pages space (page_of address) (write_at (offset_of address) byte);
  })

-- The loop keeps what it has stored where it fails.
unfoldable pub store_from :
    Host → (space address : ℕ) → List ℕ → ExecState → Result (Unit {0}) × ExecState
store_from host space address [] s = (ret tt, s)
store_from host space address (byte ∷ rest) s = elim (store_byte host s space address byte) [
  | err e ↦ (err e, s)
  | ret s' ↦ store_from host space (add64 address 1) rest s'
]

unfoldable pub exec_store_bytes :
    Host → ExecState → (space address : ℕ) → List ℕ → Result (Unit {0}) × ExecState
exec_store_bytes host s space address bytes =
    if exec_range_wraps address (length bytes)
    then (err bad_arg, s)
    else store_from host space address bytes s

abbrev pub byte_of : Option Page → ℕ → Option ℕ
byte_of none offset = none
byte_of (some p) offset = p.bytes offset

unfoldable pub load_byte : ExecState → (space address : ℕ) → Option ℕ
load_byte s space address =
    byte_of (exec_find_page s.pages space (page_of address)) (offset_of address)

abbrev pub or_range : Option ℕ → Result ℕ
or_range none = err range
or_range (some byte) = ret byte

-- `size` bytes from `address` on.
unfoldable pub load_from : ExecState → (space address size : ℕ) → Result (List ℕ)
load_from s space address zero = ret []
load_from s space address (suc size) = do
  byte ← or_range (load_byte s space address)
  rest ← load_from s space (add64 address 1) size
  ret (byte ∷ rest)

unfoldable pub exec_load_bytes : ExecState → (space address size : ℕ) → Result (List ℕ)
exec_load_bytes s space address size = do
  reject_if (exec_range_wraps address size) bad_arg
  load_from s space address size

-- The byte at each index, least significant first for little endian.
abbrev pub shift_index : Endian → (size i : ℕ) → ℕ
shift_index le size i = i
shift_index be size i = size - 1 - i

unfoldable pub bytes_from : Endian → (value size i left : ℕ) → List ℕ
bytes_from endian value size i zero = []
bytes_from endian value size i (suc left) =
    bit_and (shr value (shift_index endian size i * 8)) 0xff
    ∷ bytes_from endian value size (i + 1) left

unfoldable pub exec_store_u64 :
    Host → ExecState → (space address value size : ℕ) → Endian → Result (Unit {0}) × ExecState
exec_store_u64 host s space address value size endian =
    if ltb 8 size
    then (err unsupported, s)
    else exec_store_bytes host s space address (bytes_from endian value size 0 size)

unfoldable pub join_from : Endian → (size i value : ℕ) → List ℕ → ℕ
join_from endian size i value [] = value
join_from endian size i value (byte ∷ rest) =
    join_from endian size (i + 1) (bit_or value (shl64 byte (shift_index endian size i * 8))) rest

unfoldable pub exec_load_u64 : ExecState → (space address size : ℕ) → Endian → Result ℕ
exec_load_u64 s space address size endian = do
  reject_if (ltb 8 size) bad_arg
  bytes ← exec_load_bytes s space address size
  ret (join_from endian size 0 0 bytes)
