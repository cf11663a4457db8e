-- ===== src/Binary/View.antt =====
-- Segments, the view, append_segment and the permission bits of src/xair_binary.c. Whether an
-- allocation succeeds is the host's choice, a parameter.
use xair.Prelude.{
  ℕ, ◌+◌, Bool, ◌||◌, not, List, [], ◌∷◌, ◌++◌, bit_and, bit_or, ltb, ◌==◌, length, if◌then◌else◌,
}
use xair.Prelude.Words.{size_max, uint32_max}
use xair.Status.{oom, range}
use xair.Binary.Bytes.{Parse, ret, ◌>>=◌, ◌>>◌, reject_if, range_ok, copy}

-- realloc of the segment array to a number of elements, and malloc of a number of bytes
pub record Host : Type 0 where
  pub realloc : ℕ → Bool
  pub malloc : ℕ → Bool

pub data Format : Type 0 where
  unknown elf pe : Format

pub data Arch : Type 0 where
  x86_32 x86_64 : Arch

pub record Segment : Type 0 where
  pub va : ℕ
  pub mem_size : ℕ
  pub file_size : ℕ
  pub file_offset : ℕ
  pub perms : ℕ
  pub section_id : ℕ
  pub bytes : List ℕ

pub record View : Type 0 where
  pub format : Format
  pub arch : Arch
  pub entry : ℕ
  pub image_base : ℕ
  pub segments : List Segment

-- XAIR_BINARY_PERM_READ, XAIR_BINARY_PERM_WRITE, XAIR_BINARY_PERM_EXEC
abbrev pub perm_read : ℕ
perm_read = 1

abbrev pub perm_write : ℕ
perm_write = 2

abbrev pub perm_exec : ℕ
perm_exec = 4

abbrev pub when : Bool → ℕ → ℕ → ℕ
when b perm perms = if b then bit_or perms perm else perms

unfoldable pub pe_section_perms : ℕ → ℕ
pe_section_perms characteristics =
    let r = when (not (bit_and characteristics 0x40000000 == 0)) perm_read 0 in
    let w = when (not (bit_and characteristics 0x80000000 == 0)) perm_write r in
    when (not (bit_and characteristics 0x20000000 == 0)) perm_exec w

unfoldable pub elf_segment_perms : ℕ → ℕ
elf_segment_perms flags =
    let r = when (not (bit_and flags 4 == 0)) perm_read 0 in
    let w = when (not (bit_and flags 2 == 0)) perm_write r in
    when (not (bit_and flags 1 == 0)) perm_exec w

unfoldable pub append_segment :
    Host
    → View
    → List ℕ
    → (va mem_size file_offset segment_file_size perms section_id : ℕ) → Parse View
append_segment host view file_bytes va mem_size file_offset segment_file_size perms section_id =
    if mem_size == 0 then ret view else do
      reject_if (ltb size_max file_offset || ltb size_max segment_file_size) range
      reject_if (not (range_ok (length file_bytes) file_offset segment_file_size)) range
      reject_if ((length view.segments == uint32_max) || (length view.segments == size_max)) range
      reject_if (not (host.realloc (length view.segments + 1))) oom
      reject_if (not (host.malloc (if segment_file_size == 0 then 1 else segment_file_size))) oom
      segment_bytes ← copy file_bytes file_offset segment_file_size
      ret (record view {
        segments =
            view.segments
            ++ record {
              va = va;
              mem_size = mem_size;
              file_size = segment_file_size;
              file_offset = file_offset;
              perms = perms;
              section_id = section_id;
              bytes = segment_bytes;
            }
              ∷ [];
      })
