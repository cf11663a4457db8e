-- ===== src/X86/Stream.antt =====
-- What xair_x86_decode_mode of src/xair_x86_decode.c returns for a stream of bytes.
use xair.Prelude.{
  ℕ, zero, suc, ◌+◌, ◌≤◌, ◌<◌, ◌≡◌, refl, sym, ap, ◌∙◌, true, false, List, [], ◌∷◌, arith,
  get_elem?, length, take, All, length-take, ◌==◌, if◌then◌else◌,
}
use xair.Prelude.Words.{u8}
use xair.X86.Inst.{Inst, Mode, mode32}
use xair.X86.Reader.{done, short, bad_arg}
use xair.X86.Decode.{is_rex, decode_prefixed, decode_mode, decode32}
use xair.X86.Reads.{Agree}
use xair.X86.Form.{Form}
use xair.X86.Prefixes.{Prefixed, decode_prefixed-Prefixed}

-- The instruction that ends at `end`, behind `count` prefixes.
pub record IsDecoded (mode : Mode) (bytes : List ℕ) (inst : Inst) (end : ℕ) : Type 0 where
  pub count : ℕ
  pub prefixes : All (λ byte. is_rex mode byte ≡ true) (take count bytes)
  pub from : count + 1 ≤ end
  pub upto : end ≤ count + 11
  pub inside : end ≤ length bytes
  pub ends : inst.length' ≡ u8 end
  pub form : Form mode inst.mnemonic inst.operands

if_suc : {A : Type 0} (n : ℕ) (a b : A) → (if suc n == 0 then a else b) ≡ b
if_suc n a b = ap (λ t. if t then a else b) (let e : (suc n == 0) ≡ false = ground arith in e)

module _ (mode : Mode) where
  decode_mode-empty : (bytes : List ℕ) → length bytes ≡ 0 → decode_mode mode bytes ≡ bad_arg
  unfolding decode_mode
  decode_mode-empty [] h = refl
  decode_mode-empty (x ∷ xs) h = absurd (omega arith)

  pub decode_mode-prefixed :
      (bytes : List ℕ)
      → 1 ≤ length bytes
      → decode_mode mode bytes ≡ decode_prefixed (length bytes + 1) mode 0 bytes 0
  unfolding decode_mode
  decode_mode-prefixed [] h = absurd (omega arith)
  decode_mode-prefixed (x ∷ xs) h = if_suc (length xs) bad_arg _

  decode_mode-Prefixed :
      (bytes : List ℕ) (inst : Inst) (end : ℕ)
      → decode_mode mode bytes ≡ done inst end
      → Prefixed mode 0 bytes 0 inst end
  decode_mode-Prefixed [] inst end h =
      absurd (let bad : bad_arg ≡ done inst end = sym (decode_mode-empty [] refl) ∙ h in cc)
  decode_mode-Prefixed (x ∷ xs) inst end h =
      decode_prefixed-Prefixed mode (length (x ∷ xs) + 1) 0 (x ∷ xs) 0 inst end
        (sym (decode_mode-prefixed (x ∷ xs) (omega arith)) ∙ h)

get_elem?-take : (n i : ℕ) (xs : List ℕ) → i < n → get_elem? (take n xs) i ≡ get_elem? xs i
get_elem?-take zero i xs h = absurd (omega arith)
get_elem?-take (suc n) i [] h = refl
get_elem?-take (suc n) zero (x ∷ xs) h = refl
get_elem?-take (suc n) (suc i) (x ∷ xs) h = get_elem?-take n i xs (omega arith)

take-Agree : (n : ℕ) (xs ys : List ℕ) → take n xs ≡ take n ys → Agree n xs ys
take-Agree n xs ys e i h =
    sym (get_elem?-take n i xs h) ∙ ap (λ l. get_elem? l i) e ∙ get_elem?-take n i ys h

-- A decoded instruction lies within the bytes, behind a run of REX prefixes, and takes at most eleven
-- bytes after them. Its length is the end modulo 256, and it has the operands that its mnemonic takes,
-- with registers of the mode.
pub decode_mode-IsDecoded :
    (mode : Mode) (bytes : List ℕ) (inst : Inst) (end : ℕ)
    → decode_mode mode bytes ≡ done inst end
    → IsDecoded mode bytes inst end
decode_mode-IsDecoded mode bytes inst end h =
    let d = decode_mode-Prefixed mode bytes inst end h in
    record {
      count = d.count;
      prefixes = d.prefixes;
      from = omega (arith, d.from);
      upto = omega (arith, d.upto);
      inside = d.inside;
      ends = d.is_inst.ends;
      form = d.is_inst.form;
    }

-- Bytes that begin with a decoded instruction decode to it, whatever follows it.
pub decode_mode-take :
    (mode : Mode) (bytes bytes' : List ℕ) (inst : Inst) (end : ℕ)
    → decode_mode mode bytes ≡ done inst end
    → take end bytes ≡ take end bytes'
    → decode_mode mode bytes' ≡ done inst end
decode_mode-take mode bytes bytes' inst end h same =
    let d = decode_mode-Prefixed mode bytes inst end h in
    let long : end ≤ length bytes' =
      omega (arith, d.inside, length-take end bytes, length-take end bytes', ap length same) in
    decode_mode-prefixed mode bytes' (omega (arith, d.from))
    ∙ d.local (length bytes' + 1) bytes' (omega arith) (take-Agree end bytes bytes' same)

-- An instruction of which only the first `n` bytes are there is an error: a bad argument if none is
-- there, else a range error.
pub decode_mode-truncated :
    (mode : Mode) (bytes : List ℕ) (inst : Inst) (end n : ℕ)
    → decode_mode mode bytes ≡ done inst end
    → n < end
    → decode_mode mode (take n bytes) ≡ (if n == 0 then bad_arg else short)
decode_mode-truncated mode bytes inst end zero h before = decode_mode-empty mode [] refl
decode_mode-truncated mode bytes inst end (suc n) h before =
    let d = decode_mode-Prefixed mode bytes inst end h in
    let size : length (take (suc n) bytes) ≡ suc n =
      omega (arith, d.inside, length-take (suc n) bytes) in
    decode_mode-prefixed mode (take (suc n) bytes) (omega arith)
    ∙ d.cut _ (take (suc n) bytes) (λ i below. sym (get_elem?-take (suc n) i bytes (omega arith)))
        (omega arith) (omega arith)
    ∙ sym (if_suc n bad_arg short)

-- In the 32-bit mode an instruction has one to eleven bytes, and its length field is their number.
pub decode32-length :
    (bytes : List ℕ) (inst : Inst) (end : ℕ)
    → decode32 bytes ≡ done inst end
    → (1 ≤ end) × (end ≤ 11) × (inst.length' ≡ end)
decode32-length bytes inst end h =
    let d = decode_mode-IsDecoded mode32 bytes inst end h in
    let none_of : d.count ≡ 0 =
      no_prefix d.count bytes d.prefixes (omega (arith, d.from, d.inside)) in
    (omega (arith, d.from), omega (arith, d.upto), omega (arith, d.ends, d.upto))
  where
    no_prefix :
        (n : ℕ) (xs : List ℕ)
        → All (λ byte. is_rex mode32 byte ≡ true) (take n xs)
        → n < suc (length xs)
        → n ≡ 0
    no_prefix zero xs h below = refl
    no_prefix (suc n) [] h below = absurd (omega arith)
    no_prefix (suc n) (x ∷ xs) h below = absurd (let bad : false ≡ true = h.0 in cc)
