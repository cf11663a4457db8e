-- ===== src/Binary/Load.antt =====
-- xair_binary_view_load_path, xair_binary_view_find_segment, xair_binary_view_read and
-- xair_binary_load_path of src/xair_binary.c. The file's bytes, which read_file fetches, are an
-- argument.
use xair.Prelude.{
  ℕ, ◌+◌, ◌-◌, ◌&&◌, ◌||◌, not, Option, none, some, List, [], ◌∷◌, bit_and, ltb, leb, ◌==◌, length,
  if◌then◌else◌,
}
use xair.Prelude.Words.{size_max}
use xair.Status.{oom, range, unsupported}
use xair.Binary.Bytes.{Parse, ret, err, fault, ◌>>=◌, ◌>>◌, reject_if, copy}
use xair.Binary.View.{Host, Segment, View, Format, unknown, Arch, x86_32, perm_exec}
use xair.Binary.Pe.{parse_pe_view}
use xair.Binary.Elf.{parse_elf_view}

-- What memset leaves in the caller's view; 0 is not the number of an architecture that a parser
-- leaves in place.
abbrev pub empty_view : View
empty_view = record { format = unknown; arch = x86_32; entry = 0; image_base = 0; segments = [] }

-- The ELF parser returns XAIR_ERR_UNSUPPORTED before its first write to the view, so the PE parser
-- starts from the empty view too. On an error the view is destroyed.
unfoldable pub or_pe : Host → List ℕ → Parse View → Parse View
or_pe host file_bytes (err unsupported) = parse_pe_view host file_bytes empty_view
or_pe host file_bytes (err e) = err e
or_pe host file_bytes fault = fault
or_pe host file_bytes (ret view) = ret view

unfoldable pub view_load : Host → List ℕ → Parse View
view_load host file_bytes = or_pe host file_bytes (parse_elf_view host file_bytes empty_view)

abbrev pub segment_has : Segment → ℕ → ℕ → xair.Prelude.Bool
segment_has s va required_perms =
    (bit_and s.perms required_perms == required_perms)
    && (leb s.va va && ltb (va - s.va) s.mem_size)

unfoldable pub find_in : List Segment → ℕ → ℕ → Option Segment
find_in [] va required_perms = none
find_in (s ∷ rest) va required_perms =
    if segment_has s va required_perms then some s else find_in rest va required_perms

unfoldable pub find_segment : View → ℕ → ℕ → Option Segment
find_segment view va required_perms = find_in view.segments va required_perms

-- Within a segment that was found, `va` is not below the segment's start.
unfoldable pub read_segment : Segment → ℕ → ℕ → Parse (List ℕ)
read_segment s va size =
    let offset = va - s.va in
    reject_if (ltb s.file_size offset || ltb (s.file_size - offset) size) range
    >> copy s.bytes offset size

unfoldable pub read_found : Option Segment → ℕ → ℕ → Parse (List ℕ)
read_found none va size = err range
read_found (some s) va size = read_segment s va size

unfoldable pub view_read : View → ℕ → ℕ → Parse (List ℕ)
unfolding read_found
view_read view va size = read_found (find_segment view va 0) va size

pub record Image : Type 0 where
  pub format : Format
  pub arch : Arch
  pub entry : ℕ
  pub image_base : ℕ
  pub segment_base : ℕ
  pub segment_bytes : List ℕ
  pub segment_size : ℕ

abbrev pub or_else : {A : Type 0} → Option A → Option A → Option A
or_else none b = b
or_else (some a) b = some a

unfoldable pub image_of : Host → View → Segment → Parse Image
image_of host view s = do
  reject_if (ltb size_max s.file_size) range
  reject_if (not (host.malloc (if s.file_size == 0 then 1 else s.file_size))) oom
  bytes ← copy s.bytes 0 s.file_size
  ret (record {
    format = view.format;
    arch = view.arch;
    entry = view.entry;
    image_base = view.image_base;
    segment_base = s.va;
    segment_bytes = bytes;
    segment_size = s.file_size;
  })

unfoldable pub entry_segment : View → Option Segment
entry_segment view =
    or_else (find_segment view view.entry perm_exec) (find_segment view view.entry 0)

unfoldable pub image_at : Host → View → Option Segment → Parse Image
image_at host view none = err range
image_at host view (some s) = image_of host view s

unfoldable pub load : Host → List ℕ → Parse Image
load host file_bytes = do view ← view_load host file_bytes; image_at host view (entry_segment view)
