-- ===== src/Exec/Bytes.antt =====
-- The pages of the executor's memory, of src/xair.c, hold a map from spaces and addresses to bytes.
use xair.Prelude.{
  suc, ◌-◌, get_elem?, ℕ, ◌+◌, ◌^◌, ◌≤◌, ◌<◌, ◌≡◌, refl, sym, ap, ◌∙◌, Bool, true, false, ◌&&◌,
  ◌||◌, not, Option, none, some, List, [], ◌∷◌, ◌++◌, arith, ltb, leb, ◌==◌, length, Bool-cases,
  inl, inr, if◌then◌else◌,
}
use xair.Prelude.Bits.{bit_and-mask}
use xair.Prelude.Words.{add64}
use xair.Status.{Result, ret, err, >>=-eq-ret, Result-cases}
use xair.Module.Grow.{Host, Array, grow_array}
use xair.Exec.State.{Page, ExecState}
use xair.Exec.Memory.{
  page_of, offset_of, exec_find_page, update_page, write_at, new_page, with_page,
  exec_get_or_create_page, store_byte, store_from, exec_store_bytes, exec_range_wraps, byte_of,
  load_byte, load_from, exec_load_bytes,
}

-- The byte at a page's space, number and offset.
abbrev peek : List Page → (space number offset : ℕ) → Option ℕ
peek pages space number offset = byte_of (exec_find_page pages space number) offset

-- A write to a page that is there changes the byte at its offset, and nothing else.
update-peek :
    (pages : List Page) (space number offset byte space' number' offset' : ℕ)
    → (p : Page) → exec_find_page pages space number ≡ some p
    → peek (update_page pages space number (write_at offset byte)) space' number' offset' ≡ (
        if space' == space && (number' == number && offset' == offset)
        then some byte
        else peek pages space' number' offset')
unfolding update_page exec_find_page
update-peek [] space number offset byte space' number' offset' p h = cc
update-peek (q ∷ pages) space number offset byte space' number' offset' p h =
    ground (arith, update-peek pages space number offset byte space' number' offset' p)

-- A new page is found, and holds no byte that was not there.
append-found :
    (pages : List Page) (space number : ℕ)
    → exec_find_page pages space number ≡ none
    → exec_find_page (pages ++ new_page space number ∷ []) space number
      ≡ some (new_page space number)
unfolding exec_find_page
append-found [] space number h = ground arith
append-found (p ∷ pages) space number h = ground (arith, append-found pages space number)

append-peek :
    (pages : List Page) (space number space' number' offset' : ℕ)
    → peek (pages ++ new_page space number ∷ []) space' number' offset'
      ≡ peek pages space' number' offset'
unfolding exec_find_page
append-peek [] space number space' number' offset' = ground arith
append-peek (p ∷ pages) space number space' number' offset' =
    ground (arith, append-peek pages space number space' number' offset')

-- An address is the number of its page and its offset in it.
split-address : (a b : ℕ) → (page_of a == page_of b && offset_of a == offset_of b) ≡ (a == b)
split-address a b = rw (bit_and-mask 12 a, bit_and-mask 12 b) (ground arith)

abbrev pages_of : Result ExecState → List Page
pages_of (err e) = []
pages_of (ret t) = t.pages

-- The pages once the address's page is there: it is found, and no byte has changed.
with_page-peek :
    (host : Host) (s : ExecState) (space number : ℕ) (o : Option Page) {s' : ExecState}
    → exec_find_page s.pages space number ≡ o
    → with_page host s space number o ≡ ret s'
    → ((p : Page) × (exec_find_page s'.pages space number ≡ some p))
      × ((space' number' offset' : ℕ)
          → peek s'.pages space' number' offset' ≡ peek s.pages space' number' offset')
unfolding with_page
with_page-peek host s space number none e h =
    let (cap, _, f) =
      >>=-eq-ret (grow_array host Array.pages s.page_cap (length s.pages + 1)) _ h in
    let same : s.pages ++ new_page space number ∷ [] ≡ _ = ap (λ r. pages_of r) f in
    (
      (
        new_page space number,
        ap (λ l. exec_find_page l space number) (sym same) ∙ append-found s.pages space number e,
      ),
      λ space' number' offset'.
          ap (λ l. peek l space' number' offset') (sym same)
          ∙ append-peek s.pages space number space' number' offset',
    )
with_page-peek host s space number (some p) e h =
    let same : s.pages ≡ _ = ap (λ r. pages_of r) h in
    (
      (p, ap (λ l. exec_find_page l space number) (sym same) ∙ e),
      λ space' number' offset'. ap (λ l. peek l space' number' offset') (sym same),
    )

-- A store of one byte changes the map from spaces and addresses to bytes at its own address alone.
pub store_byte-load_byte :
    (host : Host) (s : ExecState) (space address byte : ℕ) {s' : ExecState}
    → store_byte host s space address byte ≡ ret s'
    → (space' address' : ℕ)
    → load_byte s' space' address'
      ≡ (if space' == space && address' == address then some byte else load_byte s space' address')
unfolding store_byte exec_get_or_create_page load_byte
store_byte-load_byte host s space address byte h space' address' =
    let number = page_of address in
    let (t, there, f) =
      >>=-eq-ret (with_page host s space number (exec_find_page s.pages space number)) _ h in
    let ((p, found), same) =
      with_page-peek host s space number (exec_find_page s.pages space number) refl there in
    ap (λ r. peek (pages_of r) space' (page_of address') (offset_of address')) (sym f)
    ∙ update-peek t.pages space number (offset_of address) byte space' (page_of address')
        (offset_of address') p found
    ∙ ap
        (λ b.
          if space' == space && b
          then some byte
          else peek t.pages space' (page_of address') (offset_of address'))
        (split-address address' address)
    ∙ ap (λ old. if space' == space && address' == address then some byte else old)
        (same space' (page_of address') (offset_of address'))

-- Outside of `count` bytes from `address` on in `space`.
abbrev pub outside : (space address count space' address' : ℕ) → Bool
outside space address count space' address' =
    not (space' == space) || (ltb address' address || leb (address + count) address')

store_from-outside :
    (host : Host) (space address : ℕ) (bytes : List ℕ) (s s' : ExecState)
    → address + length bytes ≤ 2 ^ 64
    → store_from host space address bytes s ≡ (ret tt, s')
    → (space' address' : ℕ) → outside space address (length bytes) space' address' ≡ true
    → load_byte s' space' address' ≡ load_byte s space' address'
unfolding store_from
store_from-outside host space address [] s s' fits h space' address' o =
    ap (λ r. load_byte r space' address') (sym (ap (λ r. r.1) h))
store_from-outside host space address (byte ∷ rest) s s' fits h space' address' o =
    elim (Result-cases (store_byte host s space address byte)) [
      | inl (e, f) ↦ absurd (cc)
      | inr (t, f) ↦
          let g : store_from host space (add64 address 1) rest t ≡ (ret tt, s') = cc in
          let o' : outside space (add64 address 1) (length rest) space' address' ≡ true =
            ground arith in
          let elsewhere : (space' == space && address' == address) ≡ false = ground arith in
          store_from-outside host space (add64 address 1) rest t s' (omega arith) g space' address'
            o'
          ∙ store_byte-load_byte host s space address byte f space' address'
          ∙ (rw elsewhere refl)
    ]

store_from-load_from :
    (host : Host) (space address : ℕ) (bytes : List ℕ) (s s' : ExecState)
    → address + length bytes ≤ 2 ^ 64
    → store_from host space address bytes s ≡ (ret tt, s')
    → load_from s' space address (length bytes) ≡ ret bytes
unfolding store_from load_from
store_from-load_from host space address [] s s' fits h = refl
store_from-load_from host space address (byte ∷ rest) s s' fits h =
    elim (Result-cases (store_byte host s space address byte)) [
      | inl (e, f) ↦ absurd (cc)
      | inr (t, f) ↦
          let g : store_from host space (add64 address 1) rest t ≡ (ret tt, s') = cc in
          let o : outside space (add64 address 1) (length rest) space address ≡ true =
            ground arith in
          let here : (space == space && address == address) ≡ true = ground arith in
          let first : load_byte s' space address ≡ some byte =
            store_from-outside host space (add64 address 1) rest t s' (omega arith) g space address
              o
            ∙ store_byte-load_byte host s space address byte f space address
            ∙ (rw here refl) in
          rw (first, store_from-load_from host space (add64 address 1) rest t s' (omega arith) g)
            refl
    ]

-- The byte at `address` over the bytes after it.
overlay-cons :
    (address byte : ℕ) (rest : List ℕ) (old : Option ℕ) (space' address' space : ℕ)
    → address + suc (length rest) ≤ 2 ^ 64
    → (if outside space (add64 address 1) (length rest) space' address'
        then (if space' == space && address' == address then some byte else old)
        else get_elem? rest (address' - add64 address 1))
      ≡ (if outside space address (suc (length rest)) space' address'
          then old
          else get_elem? (byte ∷ rest) (address' - address))
overlay-cons address byte rest old space' address' space fits =
    elim (Bool-cases (outside space address (suc (length rest)) space' address')) [
      | inl e ↦
          let out : outside space (add64 address 1) (length rest) space' address' ≡ true =
            ground arith in
          let here : (space' == space && address' == address) ≡ false = ground arith in
          rw (e, out, here) refl
      | inr e ↦ elim (Bool-cases (address' == address)) [
        | inl f ↦
            let out : outside space (add64 address 1) (length rest) space' address' ≡ true =
              ground arith in
            let here : (space' == space && address' == address) ≡ true = ground arith in
            let first : address' - address ≡ 0 = ground arith in rw (e, out, here, first) refl
        | inr f ↦
            let inside : outside space (add64 address 1) (length rest) space' address' ≡ false =
              ground arith in
            let next : address' - address ≡ suc (address' - add64 address 1) = ground arith in
            rw (e, inside, next) refl
      ]
    ]

store_from-load_byte :
    (host : Host) (space address : ℕ) (bytes : List ℕ) (s s' : ExecState)
    → address + length bytes ≤ 2 ^ 64
    → store_from host space address bytes s ≡ (ret tt, s')
    → (space' address' : ℕ)
    → load_byte s' space' address' ≡ (
        if outside space address (length bytes) space' address'
        then load_byte s space' address'
        else get_elem? bytes (address' - address))
unfolding store_from
store_from-load_byte host space address [] s s' fits h space' address' =
    let all : outside space address 0 space' address' ≡ true = ground arith in
    rw all (ap (λ r. load_byte r space' address') (sym (ap (λ r. r.1) h)))
store_from-load_byte host space address (byte ∷ rest) s s' fits h space' address' =
    elim (Result-cases (store_byte host s space address byte)) [
      | inl (e, f) ↦ absurd (cc)
      | inr (t, f) ↦
          let g : store_from host space (add64 address 1) rest t ≡ (ret tt, s') = cc in
          store_from-load_byte host space (add64 address 1) rest t s' (omega arith) g space'
            address'
          ∙ rw (store_byte-load_byte host s space address byte f space' address') (
              overlay-cons address byte rest (load_byte s space' address') space' address' space
                fits)
    ]

-- A store of bytes at a 64-bit address that succeeds is read back whole by a load of as many bytes at
-- the same space and address; and afterwards memory holds, at each space and address, the stored byte
-- if it lies in the stored range and otherwise what it held before, defined or not.
pub store_bytes-load_bytes :
    (host : Host) (s s' : ExecState) (space address : ℕ) (bytes : List ℕ)
    → address < 2 ^ 64
    → exec_store_bytes host s space address bytes ≡ (ret tt, s')
    → (exec_load_bytes s' space address (length bytes) ≡ ret bytes)
      × ((space' address' : ℕ)
          → load_byte s' space' address' ≡ (
              if outside space address (length bytes) space' address'
              then load_byte s space' address'
              else get_elem? bytes (address' - address)))
unfolding exec_store_bytes exec_load_bytes
store_bytes-load_bytes host s s' space address bytes small h =
    elim (Bool-cases (exec_range_wraps address (length bytes))) [
      | inl e ↦ absurd (cc)
      | inr e ↦
          let fits : address + length bytes ≤ 2 ^ 64 = ground arith in
          let g : store_from host space address bytes s ≡ (ret tt, s') = cc in
          (
            rw e (store_from-load_from host space address bytes s s' fits g),
            store_from-load_byte host space address bytes s s' fits g,
          )
    ]
