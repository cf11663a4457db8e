-- ===== src/Binary/Elf.antt =====
-- parse_elf_view, parse_elf64_view and parse_elf32_view of src/xair_binary.c.
use xair.Prelude.{
  ℕ, zero, suc, ◌+◌, ◌/◌, ◌||◌, not, List, [], ◌∷◌, ltb, ◌==◌, length, if◌then◌else◌,
}
use xair.Prelude.Words.{add64, mul64, size_max}
use xair.Status.{range, unsupported}
use xair.Binary.Bytes.{
  Parse, ret, err, ◌>>=◌, ◌>>◌, reject_if, at, matches, read_le16, read_le32, read_le64, range_ok,
}
use xair.Binary.View.{Host, View, x86_32, x86_64, elf, append_segment, elf_segment_perms}

module _ (host : Host) (bytes : List ℕ) where
  -- The body of the loop of parse_elf64_view, at the program header at `off`.
  unfoldable pub elf64_segment : (off i : ℕ) → View → Parse View
  elf64_segment off i view = do
    type ← read_le32 bytes off
    flags ← read_le32 bytes (add64 off 4)
    file_offset ← read_le64 bytes (add64 off 8)
    vaddr ← read_le64 bytes (add64 off 16)
    filesz ← read_le64 bytes (add64 off 32)
    memsz ← read_le64 bytes (add64 off 40)
    if type == 1
        then append_segment host view bytes vaddr memsz file_offset filesz (elf_segment_perms flags)
            i
        else ret view

  -- The body of the loop of parse_elf32_view.
  unfoldable pub elf32_segment : (off i : ℕ) → View → Parse View
  elf32_segment off i view = do
    type ← read_le32 bytes off
    file_offset ← read_le32 bytes (add64 off 4)
    vaddr ← read_le32 bytes (add64 off 8)
    filesz ← read_le32 bytes (add64 off 16)
    memsz ← read_le32 bytes (add64 off 20)
    flags ← read_le32 bytes (add64 off 24)
    if type == 1
        then append_segment host view bytes vaddr memsz file_offset filesz (elf_segment_perms flags)
            i
        else ret view

  -- Both loops: the program headers from the `i`-th on, `k` of them left.
  unfoldable pub elf_segments :
      (segment : ℕ → ℕ → View → Parse View) (phoff phentsize k i : ℕ) → View → Parse View
  elf_segments segment phoff phentsize zero i view = ret view
  elf_segments segment phoff phentsize (suc k) i view = do
    view' ← segment (add64 phoff (mul64 i phentsize)) i view
    elf_segments segment phoff phentsize k (i + 1) view'

  -- Both from the checks on the program header table on.
  unfoldable pub elf_table :
      (segment : ℕ → ℕ → View → Parse View) (phoff phentsize phnum : ℕ) → View → Parse View
  elf_table segment phoff phentsize phnum view = do
    reject_if (ltb (size_max / phentsize) phnum) range
    reject_if (not (range_ok (length bytes) phoff (mul64 phentsize phnum))) range
    view' ← elf_segments segment phoff phentsize phnum 0 view
    reject_if (length view'.segments == 0) range
    ret view'

  unfoldable pub parse_elf64_view : View → Parse View
  parse_elf64_view view = do
    reject_if (not (range_ok (length bytes) 0 64)) range
    machine ← read_le16 bytes 18
    reject_if (not (machine == 62)) unsupported
    entry ← read_le64 bytes 24
    phoff ← read_le64 bytes 32
    phentsize ← read_le16 bytes 54
    phnum ← read_le16 bytes 56
    reject_if (ltb size_max phoff || ltb phentsize 56) range
    elf_table elf64_segment phoff phentsize phnum
        (record view { format = elf; arch = x86_64; entry = entry; image_base = 0 })

  unfoldable pub parse_elf32_view : View → Parse View
  parse_elf32_view view = do
    reject_if (not (range_ok (length bytes) 0 52)) range
    machine ← read_le16 bytes 18
    reject_if (not (machine == 3)) unsupported
    entry ← read_le32 bytes 24
    phoff ← read_le32 bytes 28
    phentsize ← read_le16 bytes 42
    phnum ← read_le16 bytes 44
    reject_if (ltb phentsize 32) range
    elf_table elf32_segment phoff phentsize phnum
        (record view { format = elf; arch = x86_32; entry = entry; image_base = 0 })

  unfoldable pub parse_elf_view : View → Parse View
  parse_elf_view view = do
    reject_if (not (range_ok (length bytes) 0 16)) unsupported
    magic ← matches bytes 0 (0x7f ∷ b'E' ∷ b'L' ∷ b'F' ∷ [])
    reject_if (not magic) unsupported
    order ← at bytes 5
    reject_if (not (order == 1)) unsupported
    class ← at bytes 4
    if class == 1
        then parse_elf32_view view
        else if class == 2
        then parse_elf64_view view
        else err unsupported
