-- ===== src/Binary/Pe.antt =====
-- parse_pe_view of src/xair_binary.c. `size_t` has 64 bits, so the test under
-- `#if SIZE_MAX < UINT32_MAX` is absent.
use xair.Prelude.{
  ℕ, zero, suc, ◌+◌, ◌&&◌, ◌||◌, not, List, [], ◌∷◌, ltb, ◌==◌, length, if◌then◌else◌,
}
use xair.Prelude.Words.{add64, mul64}
use xair.Status.{range, unsupported}
use xair.Binary.Bytes.{
  Parse, ret, err, ◌>>=◌, ◌>>◌, reject_if, matches, read_le16, read_le32, read_le64, range_ok,
}
use xair.Binary.View.{Host, View, Arch, x86_32, x86_64, pe, append_segment, pe_section_perms}

abbrev pub max_u64 : ℕ → ℕ → ℕ
max_u64 lhs rhs = if ltb rhs lhs then lhs else rhs

module _ (host : Host) (bytes : List ℕ) where
  -- The body of the loop over the section table, at the header at `off`.
  unfoldable pub pe_section : (image_base off i : ℕ) → View → Parse View
  pe_section image_base off i view = do
    virtual_size ← read_le32 bytes (add64 off 8)
    virtual_address ← read_le32 bytes (add64 off 12)
    raw_size ← read_le32 bytes (add64 off 16)
    raw_offset ← read_le32 bytes (add64 off 20)
    characteristics ← read_le32 bytes (add64 off 36)
    append_segment host view bytes (add64 image_base virtual_address)
        (max_u64 virtual_size raw_size) raw_offset raw_size (pe_section_perms characteristics) i

  -- The sections from the `i`-th on, `k` of them left.
  unfoldable pub pe_sections : (image_base section_offset k i : ℕ) → View → Parse View
  pe_sections image_base section_offset zero i view = ret view
  pe_sections image_base section_offset (suc k) i view = do
    view' ← pe_section image_base (add64 section_offset (mul64 i 40)) i view
    pe_sections image_base section_offset k (i + 1) view'

  -- The architecture and the image base, from the machine and the optional header's magic.
  unfoldable pub pe_target : (machine magic optional_offset : ℕ) → Parse (Arch × ℕ)
  pe_target machine magic optional_offset =
      if (machine == 0x8664) && (magic == 0x20b)
      then (do base ← read_le64 bytes (add64 optional_offset 24); ret (x86_64, base))
      else if (machine == 0x014c) && (magic == 0x10b)
      then (do base ← read_le32 bytes (add64 optional_offset 28); ret (x86_32, base))
      else err unsupported

  -- From the checks on the section table on.
  unfoldable pub pe_table :
      (arch : Arch) (image_base entry section_offset section_count : ℕ) → View → Parse View
  pe_table arch image_base entry section_offset section_count view = do
    reject_if (not (range_ok (length bytes) section_offset (mul64 section_count 40))) range
    view' ←
        pe_sections image_base section_offset section_count 0
          (record view { format = pe; arch = arch; image_base = image_base; entry = entry })
    reject_if (length view'.segments == 0) range
    ret view'

  -- From the COFF header on.
  unfoldable pub pe_headers : (coff_offset : ℕ) → View → Parse View
  pe_headers coff_offset view = do
    machine ← read_le16 bytes coff_offset
    section_count ← read_le16 bytes (add64 coff_offset 2)
    optional_size ← read_le16 bytes (add64 coff_offset 16)
    let optional_offset = add64 coff_offset 20
    reject_if (not (range_ok (length bytes) optional_offset optional_size) || ltb optional_size 32)
        range
    magic ← read_le16 bytes optional_offset
    entry_rva ← read_le32 bytes (add64 optional_offset 16)
    (arch, image_base) ← pe_target machine magic optional_offset
    pe_table arch image_base (add64 image_base entry_rva) (add64 optional_offset optional_size)
        section_count view

  unfoldable pub parse_pe_view : View → Parse View
  parse_pe_view view = do
    reject_if (not (range_ok (length bytes) 0 0x40)) unsupported
    mz ← matches bytes 0 (b'M' ∷ b'Z' ∷ [])
    reject_if (not mz) unsupported
    pe_offset ← read_le32 bytes 0x3c
    reject_if (not (range_ok (length bytes) pe_offset 24)) unsupported
    signature ← matches bytes pe_offset (b'P' ∷ b'E' ∷ 0 ∷ 0 ∷ [])
    reject_if (not signature) unsupported
    pe_headers (add64 pe_offset 4) view
