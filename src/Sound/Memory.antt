-- ===== src/Sound/Memory.antt =====
-- What the memory operations of src/xair.c can fail with, and that they leave the values.
use xair.Prelude.{
  ℕ, zero, suc, ◌+◌, ◌≡◌, refl, ap, ◌∙◌, Bool, true, false, Option, none, some, List, [], ◌∷◌,
  arith, ◌*◌, ◌==◌, ltb, length, if◌then◌else◌,
}
use xair.Prelude.Words.{add64}
use xair.Status.{Error, bad_arg, range, Result, ret, err, ◌>>=◌, reject_if}
use xair.Module.Data.{Endian}
use xair.Module.Grow.{Host, Array, grow_array, grow_cap}
use xair.Exec.State.{ExecState, Page}
use xair.Exec.Op.{Status}
use xair.Sound.Errors.{fails_in, is_oom, is_range, access_error}
use xair.Exec.Memory.{
  page_of, offset_of, update_page, write_at, with_page, exec_range_wraps, store_byte,
  exec_get_or_create_page, exec_find_page, store_from, exec_store_bytes, exec_store_u64, bytes_from,
  exec_load_u64, exec_load_bytes, load_from, join_from,
}

-- The module and the values are as they were.
pub record SameValues (s s' : ExecState) : Type 0 where
  pub module_same : s'.module' ≡ s.module'
  pub values_same : s'.values ≡ s.values

SameValues-refl : (s : ExecState) → SameValues s s
SameValues-refl s = record { module_same = refl; values_same = refl }

SameValues-trans : (s t u : ExecState) → SameValues s t → SameValues t u → SameValues s u
SameValues-trans s t u p q = record {
  module_same = q.module_same ∙ p.module_same;
  values_same = q.values_same ∙ p.values_same;
}

grow_cap-fails : (fuel next_cap need : ℕ) → fails_in is_oom (grow_cap fuel next_cap need) ≡ true
unfolding grow_cap
grow_cap-fails zero next_cap need = refl
grow_cap-fails (suc fuel) next_cap need =
    let later = grow_cap-fails fuel (next_cap * 2) need in ground arith

grow_array-fails :
    (host : Host) (array : Array) (have need : ℕ)
    → fails_in is_oom (grow_array host array have need) ≡ true
unfolding grow_array
grow_array-fails host array have need =
    let first = grow_cap-fails need (if have == 0 then 8 else have) need in ground arith

data Pages (s : ExecState) : Result ExecState → Type 0 where
  pages : {s' : ExecState} → SameValues s s' → Pages s (ret s')
  no_page : {e : Error} → is_oom e ≡ true → Pages s (err e)

grown-Pages :
    (s : ExecState) (r : Result ℕ) (k : ℕ → ExecState)
    → fails_in is_oom r ≡ true
    → ((n : ℕ) → SameValues s (k n))
    → Pages s (r >>= λ n. ret (k n))
grown-Pages s (ret n) k e h = pages (h n)
grown-Pages s (err e) k p h = no_page p

with_page-Pages :
    (host : Host) (s : ExecState) (space number : ℕ) (o : Option Page)
    → Pages s (with_page host s space number o)
unfolding with_page
with_page-Pages host s space number none =
    grown-Pages s (grow_array host Array.pages s.page_cap (length s.pages + 1)) _
      (grow_array-fails host Array.pages s.page_cap (length s.pages + 1))
      λ n. record { module_same = refl; values_same = refl }
with_page-Pages host s space number (some p) = pages (SameValues-refl s)

store_byte-Pages :
    (host : Host) (s : ExecState) (space address byte : ℕ)
    → Pages s (store_byte host s space address byte)
unfolding store_byte exec_get_or_create_page
store_byte-Pages host s space address byte =
    go (with_page host s space (page_of address) (exec_find_page s.pages space (page_of address))) (
      with_page-Pages host s space (page_of address)
        (exec_find_page s.pages space (page_of address)))
  where
    go :
        (r : Result ExecState)
        → Pages s r
        → Pages s (
            r >>= λ s'. ret (record s' {
              pages =
                  update_page s'.pages space (page_of address) (write_at (offset_of address) byte);
            }))
    go (err e) (no_page p) = no_page p
    go (ret s') (pages h) =
        pages (record { module_same = h.module_same; values_same = h.values_same })

-- Stores leave the values, whatever their status; they break where memory is short, or at once where
-- the bytes wrap.
pub data Stores (wraps : Bool) (s : ExecState) : Status → Type 0 where
  stores : {s' : ExecState} → SameValues s s' → Stores wraps s (ret tt, s')
  breaks :
      {s' : ExecState} {e : Error} → SameValues s s' → is_oom e ≡ true → Stores wraps s (err e, s')
  wraps_at : wraps ≡ true → Stores wraps s (err bad_arg, s)

store_from-Stores :
    (host : Host) (space address : ℕ) (bytes : List ℕ) (s : ExecState)
    → Stores false s (store_from host space address bytes s)
unfolding store_from
store_from-Stores host space address [] s = stores (SameValues-refl s)
store_from-Stores host space address (byte ∷ rest) s =
    go (store_byte host s space address byte) (store_byte-Pages host s space address byte)
      λ s'. store_from-Stores host space (add64 address 1) rest s'
  where
    later : (s' : ExecState) (r : Status) → SameValues s s' → Stores false s' r → Stores false s r
    later s' r h (stores {s' = t} k) = stores (SameValues-trans s s' t h k)
    later s' r h (breaks {s' = t} k e) = breaks (SameValues-trans s s' t h k) e
    later s' r h (wraps_at e) = cc

    go :
        (r : Result ExecState)
        → Pages s r
        → ((s' : ExecState) → Stores false s' (store_from host space (add64 address 1) rest s'))
        → Stores false s (elim r [
          | err e ↦ (err e, s)
          | ret s' ↦ store_from host space (add64 address 1) rest s'
        ])
    go (err e) (no_page p) k = breaks (SameValues-refl s) p
    go (ret s') (pages h) k = later s' _ h (k s')

length-bytes_from :
    (endian : Endian) (value size i left : ℕ) → length (bytes_from endian value size i left) ≡ left
unfolding bytes_from
length-bytes_from endian value size i zero = refl
length-bytes_from endian value size i (suc left) =
    ap suc (length-bytes_from endian value size (i + 1) left)

pub store_u64-Stores :
    (host : Host) (s : ExecState) (space address value size : ℕ) (endian : Endian)
    → ltb 8 size ≡ false
    → Stores
        (exec_range_wraps address size)
        s
        (exec_store_u64 host s space address value size endian)
unfolding exec_store_u64 exec_store_bytes
store_u64-Stores host s space address value size endian h =
    rw (h, length-bytes_from endian value size 0 size)
      (branch (exec_range_wraps address size)
        (store_from-Stores host space address (bytes_from endian value size 0 size) s))
  where
    any : (b : Bool) (r : Status) → Stores false s r → Stores b s r
    any b r (stores k) = stores k
    any b r (breaks k e) = breaks k e
    any b r (wraps_at e) = cc

    branch :
        (b : Bool) {r : Status} → Stores false s r → Stores b s (if b then (err bad_arg, s) else r)
    branch true h = wraps_at refl
    branch false h = h

load_from-fails :
    (s : ExecState) (space address size : ℕ)
    → fails_in is_range (load_from s space address size) ≡ true
unfolding load_from
load_from-fails s space address zero = refl
load_from-fails s space address (suc size) =
    let rest = load_from-fails s space (add64 address 1) size in ground arith

pub load_u64-fails :
    (s : ExecState) (space address size : ℕ) (endian : Endian)
    → ltb 8 size ≡ false
    → fails_in
        (access_error (exec_range_wraps address size))
        (exec_load_u64 s space address size endian)
      ≡ true
unfolding exec_load_u64 exec_load_bytes
load_u64-fails s space address size endian h = rw h (
    go (exec_range_wraps address size) (load_from s space address size)
      (load_from-fails s space address size))
  where
    go :
        (b : Bool) (r : Result (List ℕ))
        → fails_in is_range r ≡ true
        → fails_in
            (access_error b)
            ((reject_if b bad_arg >>= λ _. r) >>= λ bytes. ret (join_from endian size 0 0 bytes))
          ≡ true
    go true r e = refl
    go false (ret bytes) e = refl
    go false (err range) e = refl
    go false (err _) e = cc
