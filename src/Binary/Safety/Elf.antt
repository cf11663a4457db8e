-- ===== src/Binary/Safety/Elf.antt =====
-- The ELF parser and the loader of src/xair_binary.c: no access outside the file, and views of it.
use xair.Prelude.{
  ℕ, zero, suc, ◌+◌, ◌*◌, ◌/◌, ◌^◌, ◌≤◌, ◌<◌, ◌||◌, not, List, arith, ltb, ◌==◌, length,
}
use xair.Prelude.Words.{add64, mul64, size_max}
use xair.Status.{oom, bad_arg, range, verify, unsupported}
use xair.Binary.Bytes.{
  Parse, Ensures, returns, refuses, Ensures-bind, Ensures-cases, Ensures-reject, range_ok,
  matches-Ensures, at-Ensures, read_le16-Ensures, read_le32-Ensures, read_le64-Ensures,
}
use xair.Binary.View.{Host, View}
use xair.Binary.Elf.{
  elf64_segment, elf32_segment, elf_segments, elf_table, parse_elf64_view, parse_elf32_view,
  parse_elf_view,
}
use xair.Binary.Load.{empty_view, or_pe, view_load}
use xair.Binary.Safety.{AllLoaded, IsImage, append_segment-AllLoaded, parse_pe_view-IsImage}

module _ (host : Host) (bytes : List ℕ) (small : length bytes < 2 ^ 64) where
  elf64_segment-AllLoaded :
      (off i : ℕ) (v : View)
      → off + 56 ≤ length bytes
      → AllLoaded bytes v
      → Ensures (AllLoaded bytes) (elf64_segment host bytes off i v)
  unfolding elf64_segment
  elf64_segment-AllLoaded off i v fits h =
      Ensures-bind (read_le32-Ensures bytes small off (omega arith)) λ type _.
        Ensures-bind (read_le32-Ensures bytes small (add64 off 4) (omega arith)) λ _ _.
          Ensures-bind (read_le64-Ensures bytes small (add64 off 8) (omega arith)) λ _ _.
            Ensures-bind (read_le64-Ensures bytes small (add64 off 16) (omega arith)) λ _ _.
              Ensures-bind (read_le64-Ensures bytes small (add64 off 32) (omega arith)) λ _ _.
                Ensures-bind (read_le64-Ensures bytes small (add64 off 40) (omega arith)) λ _ _.
                  Ensures-cases (type == 1)
                    (λ e. rw e (append_segment-AllLoaded host bytes v _ _ _ _ _ i h))
                    λ e. rw e (returns h)

  elf32_segment-AllLoaded :
      (off i : ℕ) (v : View)
      → off + 32 ≤ length bytes
      → AllLoaded bytes v
      → Ensures (AllLoaded bytes) (elf32_segment host bytes off i v)
  unfolding elf32_segment
  elf32_segment-AllLoaded off i v fits h =
      Ensures-bind (read_le32-Ensures bytes small off (omega arith)) λ type _.
        Ensures-bind (read_le32-Ensures bytes small (add64 off 4) (omega arith)) λ _ _.
          Ensures-bind (read_le32-Ensures bytes small (add64 off 8) (omega arith)) λ _ _.
            Ensures-bind (read_le32-Ensures bytes small (add64 off 16) (omega arith)) λ _ _.
              Ensures-bind (read_le32-Ensures bytes small (add64 off 20) (omega arith)) λ _ _.
                Ensures-bind (read_le32-Ensures bytes small (add64 off 24) (omega arith)) λ _ _.
                  Ensures-cases (type == 1)
                    (λ e. rw e (append_segment-AllLoaded host bytes v _ _ _ _ _ i h))
                    λ e. rw e (returns h)

  -- A loop over headers of `entsize` bytes, given that its body is safe at each header.
  module _ (segment : ℕ → ℕ → View → Parse View) (entsize : ℕ)
      (body : (off i : ℕ) (v : View)
        → off + entsize ≤ length bytes
        → AllLoaded bytes v
        → Ensures (AllLoaded bytes) (segment off i v)) where
    elf_segments-AllLoaded :
        (phoff k i : ℕ) (v : View)
        → phoff + (i + k) * entsize ≤ length bytes
        → AllLoaded bytes v
        → Ensures (AllLoaded bytes) (elf_segments host bytes segment phoff entsize k i v)
    unfolding elf_segments
    elf_segments-AllLoaded phoff zero i v fits h = returns h
    elf_segments-AllLoaded phoff (suc k) i v fits h =
        let split : phoff + i * entsize + entsize + k * entsize ≤ length bytes = omega arith in
        Ensures-bind (body (add64 phoff (mul64 i entsize)) i v (omega arith) h)
          λ v' h'. elf_segments-AllLoaded phoff k (i + 1) v' (omega arith) h'

    elf_table-IsImage :
        (phoff phnum : ℕ) (v : View)
        → 0 < entsize
        → AllLoaded bytes v
        → Ensures (IsImage bytes) (elf_table host bytes segment phoff entsize phnum v)
    unfolding elf_table
    elf_table-IsImage phoff phnum v pos h = Ensures-reject (ltb (size_max / entsize) phnum) _ λ few.
        Ensures-reject (not (range_ok (length bytes) phoff (mul64 entsize phnum))) _ λ inside.
          let bound : phnum ≤ size_max / entsize = ground arith in
          let exact : entsize * phnum < 2 ^ 64 = grind arith in
          let room : phoff + (0 + phnum) * entsize ≤ length bytes = ground arith in
          Ensures-bind (elf_segments-AllLoaded phoff phnum 0 v room h)
            λ v' h'. Ensures-reject (length v'.segments == 0) _ λ some. returns (h', ground arith)

  parse_elf64_view-IsImage :
      (v : View) → AllLoaded bytes v → Ensures (IsImage bytes) (parse_elf64_view host bytes v)
  unfolding parse_elf64_view
  parse_elf64_view-IsImage v h = Ensures-reject (not (range_ok (length bytes) 0 64)) _ λ header.
      let long : 64 ≤ length bytes = ground arith in
      Ensures-bind (read_le16-Ensures bytes small 18 (omega arith)) λ machine _.
        Ensures-reject _ _ λ _. Ensures-bind (read_le64-Ensures bytes small 24 (omega arith)) λ _ _.
          Ensures-bind (read_le64-Ensures bytes small 32 (omega arith)) λ phoff _.
            Ensures-bind (read_le16-Ensures bytes small 54 (omega arith)) λ entsize _.
              Ensures-bind (read_le16-Ensures bytes small 56 (omega arith)) λ phnum _.
                Ensures-reject (ltb size_max phoff || ltb entsize 56) _ λ wide.
                  let room : 56 ≤ entsize = ground arith in
                  elf_table-IsImage (elf64_segment host bytes) entsize
                    (λ off i w fits. elf64_segment-AllLoaded off i w (omega arith)) phoff phnum _
                    (omega arith) h

  parse_elf32_view-IsImage :
      (v : View) → AllLoaded bytes v → Ensures (IsImage bytes) (parse_elf32_view host bytes v)
  unfolding parse_elf32_view
  parse_elf32_view-IsImage v h = Ensures-reject (not (range_ok (length bytes) 0 52)) _ λ header.
      let long : 52 ≤ length bytes = ground arith in
      Ensures-bind (read_le16-Ensures bytes small 18 (omega arith)) λ machine _.
        Ensures-reject _ _ λ _. Ensures-bind (read_le32-Ensures bytes small 24 (omega arith)) λ _ _.
          Ensures-bind (read_le32-Ensures bytes small 28 (omega arith)) λ phoff _.
            Ensures-bind (read_le16-Ensures bytes small 42 (omega arith)) λ entsize _.
              Ensures-bind (read_le16-Ensures bytes small 44 (omega arith)) λ phnum _.
                Ensures-reject (ltb entsize 32) _ λ wide.
                  let room : 32 ≤ entsize = ground arith in
                  elf_table-IsImage (elf32_segment host bytes) entsize
                    (λ off i w fits. elf32_segment-AllLoaded off i w (omega arith)) phoff phnum _
                    (omega arith) h

  parse_elf_view-IsImage :
      (v : View) → AllLoaded bytes v → Ensures (IsImage bytes) (parse_elf_view host bytes v)
  unfolding parse_elf_view
  parse_elf_view-IsImage v h = Ensures-reject (not (range_ok (length bytes) 0 16)) _ λ header.
      let long : 16 ≤ length bytes = ground arith in
      Ensures-bind (matches-Ensures bytes small 0 _ (omega arith)) λ magic _.
        Ensures-reject _ _ λ _. Ensures-bind (at-Ensures bytes small 5 (omega arith)) λ order _.
          Ensures-reject _ _ λ _. Ensures-bind (at-Ensures bytes small 4 (omega arith)) λ class _.
            Ensures-cases (class == 1) (λ e. rw e (parse_elf32_view-IsImage v h))
              λ e. rw e (
                Ensures-cases (class == 2) (λ f. rw f (parse_elf64_view-IsImage v h))
                  λ f. rw f refuses)

  retry-IsImage :
      (m : Parse View) → Ensures (IsImage bytes) m → Ensures (IsImage bytes) (or_pe host bytes m)
  unfolding or_pe
  retry-IsImage _ (returns p) = returns p
  retry-IsImage _ (refuses {e = unsupported}) = parse_pe_view-IsImage host bytes small empty_view tt
  retry-IsImage _ (refuses {e = oom}) = refuses
  retry-IsImage _ (refuses {e = bad_arg}) = refuses
  retry-IsImage _ (refuses {e = range}) = refuses
  retry-IsImage _ (refuses {e = verify}) = refuses

-- For every file shorter than 2 ^ 64 bytes and every behaviour of the allocator, the loader makes no
-- access outside the file's bytes; and if it succeeds, the view has at least one segment, and every
-- segment lies in the file, occupies memory and holds exactly the file's bytes at its offset.
pub view_load-IsImage :
    (host : Host) (bytes : List ℕ)
    → length bytes < 2 ^ 64
    → Ensures (IsImage bytes) (view_load host bytes)
unfolding view_load
view_load-IsImage host bytes small =
    retry-IsImage host bytes small _ (parse_elf_view-IsImage host bytes small empty_view tt)
