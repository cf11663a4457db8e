-- ===== src/Binary/Safety.antt =====
-- The PE parser of src/xair_binary.c never reads outside the file, and every segment of a view that
-- it returns is a slice of it.
pub mod Elf
use xair.Prelude.{
  ℕ, zero, suc, ◌+◌, ◌-◌, ◌*◌, ◌/◌, ◌^◌, ◌≤◌, ◌<◌, ◌≡◌, refl, ◌≢◌, Bool-cases, inl, inr, ◌||◌, ◌&&◌,
  not, List, [], ◌∷◌, true, arith, leb, ltb, ◌==◌, length, take, drop, All, All-append_one,
}
use xair.Prelude.Words.{add64, mul64, size_max}
use xair.Status.{unsupported}
use xair.Binary.Bytes.{
  Parse, Ensures, returns, refuses, Ensures-bind, Ensures-cases, Ensures-reject, copy, range_ok,
  matches-Ensures, at-Ensures, read_le16-Ensures, read_le32-Ensures, read_le64-Ensures,
}
use xair.Binary.View.{
  Host, Segment, View, Arch, append_segment, pe_section_perms, elf_segment_perms,
}
use xair.Binary.Pe.{
  max_u64, pe_section, pe_sections, pe_target, pe_table, pe_headers, parse_pe_view,
}

-- A segment that occupies memory and holds the bytes of the file at its offset.
pub record IsLoaded (bytes : List ℕ) (s : Segment) : Type 0 where
  pub in_file : s.file_offset + s.file_size ≤ length bytes
  pub copied : s.bytes ≡ take s.file_size (drop s.file_offset bytes)
  pub occupies : s.mem_size ≢ 0

abbrev pub AllLoaded : List ℕ → View → Type 0
AllLoaded bytes v = All (IsLoaded bytes) v.segments

-- What a parser promises of a view: slices of the file, and at least one.
abbrev pub IsImage : List ℕ → View → Type 0
IsImage bytes v = AllLoaded bytes v × (0 < length v.segments)

pub copy-Ensures :
    (bytes : List ℕ) (o n : ℕ)
    → o + n ≤ length bytes
    → Ensures (λ out. out ≡ take n (drop o bytes)) (copy bytes o n)
unfolding copy
copy-Ensures bytes o n h =
    let fits : range_ok (length bytes) o n ≡ true = ground arith in rw fits (returns refl)

module _ (host : Host) (bytes : List ℕ) where
  pub append_segment-AllLoaded :
      (v : View) (va mem_size file_offset size perms id : ℕ)
      → AllLoaded bytes v
      → Ensures
          (AllLoaded bytes)
          (append_segment host v bytes va mem_size file_offset size perms id)
  unfolding append_segment
  append_segment-AllLoaded v va mem_size file_offset size perms id h =
      Ensures-cases (mem_size == 0) (λ e. rw e (returns h))
        λ occupied. rw occupied (
          Ensures-reject _ _ λ _.
            Ensures-reject (not (range_ok (length bytes) file_offset size)) _ λ fits.
              Ensures-reject _ _ λ _. Ensures-reject _ _ λ _. Ensures-reject _ _ λ _.
                Ensures-bind (copy-Ensures bytes file_offset size (ground arith)) λ out e. returns (
                  All-append_one (IsLoaded bytes) v.segments _ h
                    (record { in_file = ground arith; copied = e; occupies = ground arith })))

  module _ (small : length bytes < 2 ^ 64) where
    pe_section-AllLoaded :
        (image_base off i : ℕ) (v : View)
        → off + 40 ≤ length bytes
        → AllLoaded bytes v
        → Ensures (AllLoaded bytes) (pe_section host bytes image_base off i v)
    unfolding pe_section
    pe_section-AllLoaded image_base off i v fits h =
        Ensures-bind (read_le32-Ensures bytes small (add64 off 8) (omega arith)) λ _ _.
          Ensures-bind (read_le32-Ensures bytes small (add64 off 12) (omega arith)) λ _ _.
            Ensures-bind (read_le32-Ensures bytes small (add64 off 16) (omega arith)) λ _ _.
              Ensures-bind (read_le32-Ensures bytes small (add64 off 20) (omega arith)) λ _ _.
                Ensures-bind (read_le32-Ensures bytes small (add64 off 36) (omega arith))
                  λ _ _. append_segment-AllLoaded v _ _ _ _ _ i h

    -- The table of sections that are left lies in the file.
    pe_sections-AllLoaded :
        (image_base offset k i : ℕ) (v : View)
        → offset + (i + k) * 40 ≤ length bytes
        → AllLoaded bytes v
        → Ensures (AllLoaded bytes) (pe_sections host bytes image_base offset k i v)
    unfolding pe_sections
    pe_sections-AllLoaded image_base offset zero i v fits h = returns h
    pe_sections-AllLoaded image_base offset (suc k) i v fits h =
        Ensures-bind
          (pe_section-AllLoaded image_base (add64 offset (mul64 i 40)) i v (omega arith) h)
          λ v' h'. pe_sections-AllLoaded image_base offset k (i + 1) v' (omega arith) h'

    pe_target-Ensures :
        (machine magic o : ℕ)
        → o + 32 ≤ length bytes
        → Ensures (λ _. Unit {0}) (pe_target host bytes machine magic o)
    unfolding pe_target
    pe_target-Ensures machine magic o h =
        Ensures-cases ((machine == 0x8664) && (magic == 0x20b))
          (λ e. rw e (
            Ensures-bind (read_le64-Ensures bytes small (add64 o 24) (omega arith))
              λ _ _. returns tt))
          λ e. rw e (
            Ensures-cases ((machine == 0x014c) && (magic == 0x10b))
              (λ f. rw f (
                Ensures-bind (read_le32-Ensures bytes small (add64 o 28) (omega arith))
                  λ _ _. returns tt))
              λ f. rw f refuses)

    pe_table-AllLoaded :
        (arch : Arch) (image_base entry offset count : ℕ) (v : View)
        → count < 2 ^ 16
        → AllLoaded bytes v
        → Ensures (IsImage bytes) (pe_table host bytes arch image_base entry offset count v)
    unfolding pe_table
    pe_table-AllLoaded arch image_base entry offset count v few h =
        Ensures-reject (not (range_ok (length bytes) offset (mul64 count 40))) _ λ inside.
          Ensures-bind (pe_sections-AllLoaded image_base offset count 0 _ (ground arith) h)
            λ v' h'. Ensures-reject (length v'.segments == 0) _ λ some. returns (h', ground arith)

    pe_headers-AllLoaded :
        (coff_offset : ℕ) (v : View)
        → coff_offset + 20 ≤ length bytes
        → AllLoaded bytes v
        → Ensures (IsImage bytes) (pe_headers host bytes coff_offset v)
    unfolding pe_headers
    pe_headers-AllLoaded o v fits h =
        Ensures-bind (read_le16-Ensures bytes small o (omega arith)) λ machine _.
          Ensures-bind (read_le16-Ensures bytes small (add64 o 2) (omega arith)) λ count few.
            Ensures-bind (read_le16-Ensures bytes small (add64 o 16) (omega arith)) λ size _.
              let opt = add64 o 20 in
              Ensures-reject (not (range_ok (length bytes) opt size) || ltb size 32) _ λ inside.
                let room : opt + size ≤ length bytes = ground arith in
                let wide : 32 ≤ size = ground arith in
                Ensures-bind (read_le16-Ensures bytes small opt (omega arith)) λ magic _.
                  Ensures-bind (read_le32-Ensures bytes small (add64 opt 16) (omega arith)) λ _ _.
                    Ensures-bind (pe_target-Ensures machine magic opt (omega arith)) λ target _.
                      pe_table-AllLoaded target.0 target.1 _ (add64 opt size) count v few h

    pub parse_pe_view-IsImage :
        (v : View) → AllLoaded bytes v → Ensures (IsImage bytes) (parse_pe_view host bytes v)
    unfolding parse_pe_view
    parse_pe_view-IsImage v h = Ensures-reject (not (range_ok (length bytes) 0 0x40)) _ λ header.
        let long : 0x40 ≤ length bytes = ground arith in
        Ensures-bind (matches-Ensures bytes small 0 _ (omega arith)) λ mz _. Ensures-reject _ _ λ _.
          Ensures-bind (read_le32-Ensures bytes small 0x3c (omega arith)) λ pe_offset _.
            Ensures-reject (not (range_ok (length bytes) pe_offset 24)) _ λ inside.
              let room : pe_offset + 24 ≤ length bytes = ground arith in
              Ensures-bind (matches-Ensures bytes small pe_offset _ (omega arith)) λ _ _.
                Ensures-reject _ _ λ _. pe_headers-AllLoaded (add64 pe_offset 4) v (omega arith) h
