-- ===== src/Binary/Lookup.antt =====
-- Lookup of segments by address, reads from a view, and the image of the entry's segment, in
-- src/xair_binary.c.
use xair.Prelude.{
  if◌then◌else◌, leb, ℕ, ◌+◌, ◌-◌, ◌^◌, ◌≤◌, ◌<◌, ◌≡◌, refl, ap, ◌∙◌, ◌||◌, true, false, Option,
  none, some, List, [], ◌∷◌, ◌++◌, bit_and, arith, ltb, length, length-take, length-drop, take,
  drop, take-drop-take, drop-drop, All, ◌⊎◌, inl, inr, Option-cases, Bool-cases,
}
use mathlib.Core.Path.{subst}
use xair.Status.{range}
use xair.Binary.Bytes.{
  Parse, ret, err, fault, Ensures, returns, refuses, Ensures-mono, Ensures-reject, ◌>>=◌, reject_if,
  copy, range_ok,
}
use xair.Binary.View.{Host, Segment, View, perm_exec}
use xair.Binary.Load.{
  segment_has, find_in, find_segment, or_else, read_segment, view_read, Image, image_of, image_at,
  entry_segment, load, view_load,
}
use xair.Binary.Safety.{IsLoaded, AllLoaded, IsImage}
use xair.Binary.Safety.Elf.{view_load-IsImage}

-- The address lies in the segment's memory, and the segment has the permissions.
pub record Covers (va perms : ℕ) (s : Segment) : Type 0 where
  pub from : s.va ≤ va
  pub to : va < s.va + s.mem_size
  pub allowed : bit_and s.perms perms ≡ perms

-- The first segment that covers the address, or the absence of any.
abbrev pub IsFirst : ℕ → ℕ → List Segment → Option Segment → Type 0
IsFirst va perms segments none = All (λ s. ¬ Covers va perms s) segments
IsFirst va perms segments (some s) =
    (before : List Segment) × (after : List Segment) × (segments ≡ before ++ s ∷ after)
    × All (λ b. ¬ Covers va perms b) before
    × Covers va perms s

Covers-of_test : (s : Segment) (va perms : ℕ) → segment_has s va perms ≡ true → Covers va perms s
Covers-of_test s va perms h = record {
  from = ground arith;
  to = ground arith;
  allowed = ground arith;
}

not-Covers-of_test :
    (s : Segment) (va perms : ℕ) → segment_has s va perms ≡ false → ¬ Covers va perms s
not-Covers-of_test s va perms h c =
    let a = c.from in let b = c.to in let e = c.allowed in ground arith

IsFirst-cons :
    (s : Segment) (rest : List Segment) (va perms : ℕ) (o : Option Segment)
    → ¬ Covers va perms s
    → IsFirst va perms rest o
    → IsFirst va perms (s ∷ rest) o
IsFirst-cons s rest va perms none n f = (n, f)
IsFirst-cons s rest va perms (some t) n (before, after, e, none_before, covers) =
    (s ∷ before, after, ap (λ l. s ∷ l) e, (n, none_before), covers)

find_in-IsFirst :
    (segments : List Segment) (va perms : ℕ) → IsFirst va perms segments (find_in segments va perms)
unfolding find_in
find_in-IsFirst [] va perms = tt
find_in-IsFirst (s ∷ rest) va perms = elim (Bool-cases (segment_has s va perms)) [
  | inl e ↦ rw e ([], rest, refl, tt, Covers-of_test s va perms e)
  | inr e ↦ rw e (
      IsFirst-cons s rest va perms _ (not-Covers-of_test s va perms e)
        (find_in-IsFirst rest va perms))
]

-- xair_binary_view_find_segment returns the first segment in the view's order whose memory holds the
-- address and whose permissions include the required ones, and nothing exactly if there is none.
pub find_segment-IsFirst :
    (view : View) (va perms : ℕ) → IsFirst va perms view.segments (find_segment view va perms)
unfolding find_segment
find_segment-IsFirst view va perms = find_in-IsFirst view.segments va perms

-- What a read at `va` must return: the file's bytes at the place of `va` in the segment.
abbrev pub file_slice : List ℕ → Segment → ℕ → ℕ → List ℕ
file_slice bytes s va size = take size (drop (s.file_offset + (va - s.va)) bytes)

module _ {bytes : List ℕ} {s : Segment} (loaded : IsLoaded bytes s) where
  length-bytes : length s.bytes ≡ s.file_size
  length-bytes =
      ap length loaded.copied
      ∙ omega (
        arith,
        loaded.in_file,
        length-take s.file_size (drop s.file_offset bytes),
        length-drop s.file_offset bytes,
      )

  copy-eq :
      (o n : ℕ)
      → o + n ≤ s.file_size
      → copy s.bytes o n ≡ ret (take n (drop (s.file_offset + o) bytes))
  unfolding copy
  copy-eq o n h =
      let fits : range_ok (length s.bytes) o n ≡ true = ground (arith, length-bytes) in
      rw fits (
        ap ret (
          ap (λ l. take n (drop o l)) loaded.copied
          ∙ take-drop-take n o s.file_size (drop s.file_offset bytes) h
          ∙ ap (take n) (drop-drop o s.file_offset bytes)))

  length-file_slice :
      (va size : ℕ) → va - s.va + size ≤ s.file_size → length (file_slice bytes s va size) ≡ size
  length-file_slice va size h = omega (
    arith,
    loaded.in_file,
    length-take size (drop (s.file_offset + (va - s.va)) bytes),
    length-drop (s.file_offset + (va - s.va)) bytes,
  )

  read_segment-eq :
      (va size : ℕ)
      → va - s.va + size ≤ s.file_size
      → read_segment s va size ≡ ret (file_slice bytes s va size)
  unfolding read_segment reject_if
  read_segment-eq va size h =
      let inside : (ltb s.file_size (va - s.va) || ltb (s.file_size - (va - s.va)) size) ≡ false =
        ground arith in
      rw inside (copy-eq (va - s.va) size h)

  read_segment-refuses :
      (va size : ℕ) → s.file_size < va - s.va + size → read_segment s va size ≡ err range
  unfolding read_segment reject_if
  read_segment-refuses va size h =
      let outside : (ltb s.file_size (va - s.va) || ltb (s.file_size - (va - s.va)) size) ≡ true =
        ground arith in
      rw outside

All-of_split :
    (P : Segment → Type 0) (before : List Segment) {s : Segment} (after : List Segment)
    → All P (before ++ s ∷ after)
    → P s
All-of_split P [] after h = h.0
All-of_split P (b ∷ before) after h = All-of_split P before after h.1

found-IsLoaded :
    {bytes : List ℕ} (view : View) (va perms : ℕ) {s : Segment}
    → AllLoaded bytes view
    → find_segment view va perms ≡ some s
    → IsLoaded bytes s
found-IsLoaded {bytes} view va perms {s} h e = pick (find_segment-IsFirst view va perms)
  where
    pick : IsFirst va perms view.segments (find_segment view va perms) → IsLoaded bytes s
    pick f =
        let (before, after, split, _, _) = subst (IsFirst va perms view.segments) e f in
        All-of_split (IsLoaded bytes) before after (subst (All (IsLoaded bytes)) split h)

-- What a read must give whose address has `first` for its first segment: without one a range error,
-- with one the file's bytes there, or a range error where the file holds fewer of the segment.
abbrev pub read_outcome : List ℕ → Option Segment → (va size : ℕ) → Parse (List ℕ)
read_outcome bytes none va size = err range
read_outcome bytes (some s) va size =
    if leb (va - s.va + size) s.file_size then ret (file_slice bytes s va size) else err range

-- A read from a loaded view, whatever the address and the size. If no segment of the view covers the
-- address, the error is XAIR_ERR_RANGE. Otherwise it is decided by the first one that does: if the file
-- holds `size` bytes of that segment from the address on, exactly those bytes of the file are returned;
-- if it holds fewer, the error is XAIR_ERR_RANGE. In no case is there an access out of bounds.
pub view_read_lem :
    (bytes : List ℕ) (view : View) (va size : ℕ)
    → AllLoaded bytes view
    → (first : Option Segment) × IsFirst va 0 view.segments first
      × (view_read view va size ≡ read_outcome bytes first va size)
unfolding view_read
view_read_lem bytes view va size h = go (find_segment view va 0) refl
  where
    go :
        (o : Option Segment)
        → find_segment view va 0 ≡ o
        → (first : Option Segment) × IsFirst va 0 view.segments first
          × (view_read view va size ≡ read_outcome bytes first va size)
    go none e = (
      none,
      subst (IsFirst va 0 view.segments) e (find_segment-IsFirst view va 0),
      rw (view_read, e) refl,
    )
    go (some s) e =
        let loaded = found-IsLoaded view va 0 h e in
        (
          some s,
          subst (IsFirst va 0 view.segments) e (find_segment-IsFirst view va 0),
          elim (Bool-cases (leb (va - s.va + size) s.file_size)) [
            | inl f ↦ rw (e, f, view_read) (read_segment-eq loaded va size (ground arith))
            | inr f ↦ rw (e, f, view_read) (read_segment-refuses loaded va size (ground arith))
          ],
        )

-- The segment of an entry point: the first that covers it and may be executed (permission 4), or where
-- none does, the first that covers it.
abbrev pub IsEntrySegment : View → Segment → Type 0
IsEntrySegment view s =
    IsFirst view.entry 4 view.segments (some s)
    ⊎ (IsFirst view.entry 4 view.segments none × IsFirst view.entry 0 view.segments (some s))

entry_segment-IsEntrySegment :
    (view : View) {s : Segment} → entry_segment view ≡ some s → IsEntrySegment view s
unfolding entry_segment
entry_segment-IsEntrySegment view {s} e =
    elim (Option-cases (find_segment view view.entry perm_exec)) [
      | inl absent ↦ inr (
        subst (IsFirst view.entry 4 view.segments) absent (find_segment-IsFirst view view.entry 4),
        subst (IsFirst view.entry 0 view.segments) {y = some s}
            (cc (ap (λ o. or_else o (find_segment view view.entry 0)) absent))
            (find_segment-IsFirst view view.entry 0),
      )
      | inr (t, present) ↦ inl (
          subst (IsFirst view.entry 4 view.segments) {y = some s}
            (cc (ap (λ o. or_else o (find_segment view view.entry 0)) present))
            (find_segment-IsFirst view view.entry 4))
    ]

entry_segment-IsLoaded :
    {bytes : List ℕ} (view : View) {s : Segment}
    → AllLoaded bytes view
    → entry_segment view ≡ some s
    → IsLoaded bytes s
unfolding entry_segment
entry_segment-IsLoaded {bytes} view {s} h e =
    elim (Option-cases (find_segment view view.entry perm_exec)) [
      | inl absent ↦
          found-IsLoaded view view.entry 0 h
            (cc (ap (λ o. or_else o (find_segment view view.entry 0)) absent))
      | inr (t, present) ↦
          found-IsLoaded view view.entry perm_exec h
            (cc (ap (λ o. or_else o (find_segment view view.entry 0)) present))
    ]

-- The image has the view's format, architecture, entry and image base, and the base and the file's bytes of the entry's segment.
pub record IsEntryImage (bytes : List ℕ) (view : View) (image : Image) : Type 0 where
  pub format : image.format ≡ view.format
  pub arch : image.arch ≡ view.arch
  pub entry : image.entry ≡ view.entry
  pub image_base : image.image_base ≡ view.image_base
  pub segment :
      (s : Segment) × IsLoaded bytes s
      × IsEntrySegment view s
      × (image.segment_base ≡ s.va)
      × (image.segment_bytes ≡ take s.file_size (drop s.file_offset bytes))
      × (image.segment_size ≡ s.file_size)

image_of-IsEntryImage :
    (host : Host) (bytes : List ℕ) (view : View) (s : Segment)
    → IsLoaded bytes s
    → entry_segment view ≡ some s
    → Ensures (IsEntryImage bytes view) (image_of host view s)
unfolding image_of
image_of-IsEntryImage host bytes view s loaded e = Ensures-reject _ _ λ _. Ensures-reject _ _ λ _.
    rw (copy-eq loaded 0 s.file_size (omega arith)) (
      returns (record {
        format = refl;
        arch = refl;
        entry = refl;
        image_base = refl;
        segment = (
          s,
          loaded,
          entry_segment-IsEntrySegment view e,
          refl,
          ap (λ k. take s.file_size (drop k bytes)) (omega arith),
          refl,
        );
      }))

found_image :
    (host : Host) (bytes : List ℕ) (view : View) (o : Option Segment)
    → AllLoaded bytes view
    → entry_segment view ≡ o
    → Ensures (IsEntryImage bytes view) (image_at host view o)
unfolding image_at
found_image host bytes view none h e = refuses
found_image host bytes view (some s) h e =
    image_of-IsEntryImage host bytes view s (entry_segment-IsLoaded view h e) e

load_view :
    (host : Host) (bytes : List ℕ) (m : Parse View)
    → view_load host bytes ≡ m
    → Ensures (IsImage bytes) m
    → Ensures
        (λ image. (view : View) × (view_load host bytes ≡ ret view) × IsEntryImage bytes view image)
        (m >>= λ view. image_at host view (entry_segment view))
load_view host bytes (ret view) e (returns p) =
    Ensures-mono (found_image host bytes view (entry_segment view) p.0 refl) λ image q. (view, e, q)
load_view host bytes (err code) e refuses = refuses
load_view host bytes fault e h = elim h [ ]

-- Loading a file shorter than 2 ^ 64 bytes never faults; and if it returns an image, the loader
-- returns a view, and the image has its format, architecture, entry and image base, and the base and
-- bytes of one of its segments: the first that covers the entry with the permission to execute, or if
-- there is none, the first that covers it.
-- The bytes are all those of the file that belong to the segment.
pub load-IsEntryImage :
    (host : Host) (bytes : List ℕ)
    → length bytes < 2 ^ 64
    → Ensures
        (λ image. (view : View) × (view_load host bytes ≡ ret view) × IsEntryImage bytes view image)
        (load host bytes)
unfolding load
load-IsEntryImage host bytes small =
    load_view host bytes (view_load host bytes) refl (view_load-IsImage host bytes small)
