-- ===== src/X86/Padding.antt =====
-- Runs of REX prefixes before an instruction, in src/xair_x86_decode.c.
use xair.Prelude.{
  ℕ, zero, suc, ◌+◌, ◌≤◌, ◌≡◌, All, refl, ap, ◌∙◌, true, false, List, [], ◌∷◌, ◌++◌, arith, some,
  get_elem?, length, drop, length-append,
}
use xair.Prelude.Words.{u8}
use xair.X86.Inst.{Mnemonic, Inst, mode64}
use xair.X86.Reader.{done, taken, read_u8}
use xair.X86.Decode.{decode_opcode, is_rex, decode_switch, decode_prefixed, decode64}
use xair.X86.Prefixes.{decode_prefixed-step}
use xair.X86.Stream.{decode_mode-prefixed}

-- NOP, of the length that the decoder gives it at `end`.
abbrev pub nop_at : ℕ → Inst
nop_at end = record {
  mnemonic = Mnemonic.nop;
  length' = u8 end;
  raw_opcode = 0x90;
  raw_opcode2 = 0;
  operands = [];
}

-- The bytes 0x40 to 0x4f.
abbrev pub IsRex : ℕ → Type 0
IsRex byte = (0x40 ≤ byte) × (byte ≤ 0x4f)

rex-is_rex : (byte : ℕ) → IsRex byte → is_rex mode64 byte ≡ true
rex-is_rex byte (from, upto) = ground arith

drop-at : (xs : List ℕ) (i : ℕ) {x : ℕ} {ys : List ℕ} → drop i xs ≡ x ∷ ys → get_elem? xs i ≡ some x
drop-at [] zero h = cc
drop-at [] (suc i) h = cc
drop-at (y ∷ ys) zero h = ap (λ l. get_elem? l 0) h
drop-at (y ∷ ys) (suc i) h = drop-at ys i h

drop-suc : (xs : List ℕ) (i : ℕ) {x : ℕ} {ys : List ℕ} → drop i xs ≡ x ∷ ys → drop (suc i) xs ≡ ys
drop-suc [] zero h = cc
drop-suc [] (suc i) h = cc
drop-suc (y ∷ ys) zero h = ap (drop 1) h
drop-suc (y ∷ ys) (suc i) h = drop-suc ys i h

read_at :
    (bytes : List ℕ) (offset : ℕ) {x : ℕ} {ys : List ℕ}
    → drop offset bytes ≡ x ∷ ys
    → read_u8 bytes offset ≡ done x (suc offset)
unfolding read_u8
read_at bytes offset {x} h =
    ap (λ o. taken o offset) (drop-at bytes offset h)
    ∙ ap (done x) (let e : offset + 1 ≡ suc offset = omega arith in e)

decode_opcode-nop :
    (rex : ℕ) (bytes : List ℕ) (offset : ℕ)
    → decode_opcode 0x90 rex mode64 bytes offset ≡ done (nop_at offset) offset
unfolding decode_opcode decode_switch
decode_opcode-nop rex bytes offset = refl

decode_prefixed-padded :
    (prefixes rest : List ℕ)
    → All IsRex prefixes
    → (fuel rex : ℕ) (bytes : List ℕ) (offset : ℕ) → drop offset bytes ≡ prefixes ++ 0x90 ∷ rest
    → decode_prefixed (suc (length prefixes) + fuel) mode64 rex bytes offset
      ≡ done (nop_at (offset + (length prefixes + 1))) (offset + (length prefixes + 1))
decode_prefixed-padded [] rest all fuel rex bytes offset h =
    ap (λ f. decode_prefixed f mode64 rex bytes offset)
      (let e : suc 0 + fuel ≡ suc fuel = omega arith in e)
    ∙ decode_prefixed-step mode64 fuel rex bytes offset {b = false} (read_at bytes offset h) refl
    ∙ decode_opcode-nop rex bytes (suc offset)
    ∙ ap (λ e. done (nop_at e) e) (let e : suc offset ≡ offset + (0 + 1) = omega arith in e)
decode_prefixed-padded (p ∷ prefixes) rest (is, all) fuel rex bytes offset h =
    let n = length prefixes in
    ap (λ f. decode_prefixed f mode64 rex bytes offset)
      (let e : suc (suc n) + fuel ≡ suc (suc n + fuel) = omega arith in e)
    ∙ decode_prefixed-step mode64 (suc n + fuel) rex bytes offset {b = true}
        (read_at bytes offset h) (rex-is_rex p is)
    ∙ decode_prefixed-padded prefixes rest all fuel p bytes (suc offset) (drop-suc bytes offset h)
    ∙ ap (λ e. done (nop_at e) e)
        (let e : suc offset + (n + 1) ≡ offset + (suc n + 1) = omega arith in e)

-- In the 64-bit mode, any number of REX prefixes, the bytes 0x40 to 0x4f in any order, are taken as part
-- of a NOP that follows them, whatever comes after it. The instruction ends right after the NOP, and its
-- length field is the number of its bytes modulo 256.
pub decode64-padded :
    (prefixes rest : List ℕ)
    → All IsRex prefixes
    → decode64 (prefixes ++ 0x90 ∷ rest) ≡ done (nop_at (length prefixes + 1)) (length prefixes + 1)
decode64-padded prefixes rest all =
    let bytes = prefixes ++ 0x90 ∷ rest in
    let n = length prefixes in
    let size : length bytes ≡ n + suc (length rest) = length-append prefixes (0x90 ∷ rest) in
    decode_mode-prefixed mode64 bytes (omega arith)
    ∙ ap (λ f. decode_prefixed f mode64 0 bytes 0)
        (let e : length bytes + 1 ≡ suc n + (length rest + 1) = omega arith in e)
    ∙ decode_prefixed-padded prefixes rest all (length rest + 1) 0 bytes 0 refl
    ∙ ap (λ e. done (nop_at e) e) (let e : 0 + (n + 1) ≡ n + 1 = omega arith in e)
