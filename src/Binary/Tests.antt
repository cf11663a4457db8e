-- ===== src/Binary/Tests.antt =====
-- A small ELF32 file, and the theorems of src/xair_binary.c at it.
use xair.Prelude.{
  ℕ, ◌^◌, ◌<◌, ◌≡◌, refl, true, Option, List, [], ◌∷◌, ◌++◌, arith, length, replicate,
}
use xair.Binary.Bytes.{ret, Ensures, reject_if, matches, read_le16, read_le32, copy}
use xair.Binary.View.{Host, View, Segment, elf, x86_32, append_segment, elf_segment_perms}
use xair.Binary.Elf.{elf32_segment, elf_segments, elf_table, parse_elf32_view, parse_elf_view}
use xair.Binary.Load.{or_pe, view_load, find_segment, view_read, load}
use xair.Binary.Safety.{IsImage, AllLoaded}
use xair.Binary.Safety.Elf.{view_load-IsImage}
use xair.Binary.Lookup.{
  read_outcome, IsEntryImage, IsFirst, find_segment-IsFirst, view_read_lem, load-IsEntryImage,
}

abbrev generous : Host
generous = record { realloc = λ _. true; malloc = λ _. true }

-- 52 bytes of header, a program header at 52, and four bytes of code at 84, mapped at 0x1000.
abbrev tiny : List ℕ
tiny =
    (0x7f ∷ b'E' ∷ b'L' ∷ b'F' ∷ 1 ∷ 1 ∷ [])
    ++ replicate 12 0
    ++ (3 ∷ 0 ∷ 1 ∷ 0 ∷ 0 ∷ 0 ∷ [])
    ++ (0 ∷ 0x10 ∷ 0 ∷ 0 ∷ 52 ∷ 0 ∷ 0 ∷ 0 ∷ [])
    ++ replicate 10 0
    ++ (32 ∷ 0 ∷ 1 ∷ 0 ∷ [])
    ++ replicate 6 0
    ++ (1 ∷ 0 ∷ 0 ∷ 0 ∷ 84 ∷ 0 ∷ 0 ∷ 0 ∷ 0 ∷ 0x10 ∷ 0 ∷ 0 ∷ [])
    ++ (0 ∷ 0 ∷ 0 ∷ 0 ∷ 4 ∷ 0 ∷ 0 ∷ 0 ∷ 8 ∷ 0 ∷ 0 ∷ 0 ∷ 5 ∷ 0 ∷ 0 ∷ 0 ∷ 0 ∷ 0 ∷ 0 ∷ 0 ∷ [])
    ++ (0x90 ∷ 0x90 ∷ 0xc3 ∷ 0xcc ∷ [])

abbrev text : Segment
text = record {
  va = 0x1000;
  mem_size = 8;
  file_size = 4;
  file_offset = 84;
  perms = 5;
  section_id = 0;
  bytes = 0x90 ∷ 0x90 ∷ 0xc3 ∷ 0xcc ∷ [];
}

abbrev tiny_view : View
tiny_view = record {
  format = elf;
  arch = x86_32;
  entry = 0x1000;
  image_base = 0;
  segments = text ∷ [];
}

view_load-tiny : view_load generous tiny ≡ ret tiny_view
unfolding view_load or_pe parse_elf_view parse_elf32_view elf_table elf_segments elf32_segment
    append_segment elf_segment_perms reject_if matches read_le16 read_le32 copy
view_load-tiny = refl

tiny_small : length tiny < 2 ^ 64
tiny_small = omega arith

view_load-IsImage_example : Ensures (IsImage tiny) (view_load generous tiny)
view_load-IsImage_example = view_load-IsImage generous tiny tiny_small

load-IsEntryImage_example :
    Ensures
      (λ image. (view : View) × (view_load generous tiny ≡ ret view) × IsEntryImage tiny view image)
      (load generous tiny)
load-IsEntryImage_example = load-IsEntryImage generous tiny tiny_small

tiny_view-AllLoaded : AllLoaded tiny tiny_view
tiny_view-AllLoaded = (record { in_file = omega arith; copied = refl; occupies = omega arith }, tt)

view_read_lem_example :
    (first : Option Segment) × IsFirst 0x1001 0 (text ∷ []) first
    × (view_read tiny_view 0x1001 2 ≡ read_outcome tiny first 0x1001 2)
view_read_lem_example = view_read_lem tiny tiny_view 0x1001 2 tiny_view-AllLoaded

find_segment-IsFirst_example : IsFirst 0x1001 0 (text ∷ []) (find_segment tiny_view 0x1001 0)
find_segment-IsFirst_example = find_segment-IsFirst tiny_view 0x1001 0
