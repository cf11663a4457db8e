-- ===== src/X86/Prefixes.antt =====
-- The loop over REX prefixes of xair_x86_decode_mode, in src/xair_x86_decode.c.
use xair.Prelude.{
  ℕ, zero, suc, ◌+◌, ◌≤◌, ◌<◌, ◌≡◌, refl, sym, ap, subst, ◌∙◌, Bool, true, false, List, [], ◌∷◌,
  arith, some, get_elem?, length, take, drop, All, Bool-cases, inl, inr, lt_of_get_elem?,
}
use xair.X86.Inst.{Inst, Mode}
use xair.X86.Reader.{Outcome, done, short, Decoder, and_decode, read_u8}
use xair.X86.Decode.{decode_opcode, is_rex, decode_prefixed}
use xair.X86.Reads.{Agree, Agree-le, read_u8-Reads, and_decode-eq, taken-eq, lt_cases}
use xair.X86.Instruction.{IsInst}
use xair.X86.Switch.{decode_opcode-Reads}

module _ (mode : Mode) where
  pub record Prefixed (rex : ℕ) (bytes : List ℕ) (offset : ℕ) (inst : Inst) (end : ℕ) : Type 0 where
    pub count : ℕ
    pub prefixes : All (λ byte. is_rex mode byte ≡ true) (take count (drop offset bytes))
    pub is_inst : IsInst mode inst end
    pub from : offset + count + 1 ≤ end
    pub upto : end ≤ offset + count + 11
    pub inside : end ≤ length bytes
    pub local :
        (fuel : ℕ) (bytes' : List ℕ)
        → end ≤ offset + fuel
        → Agree end bytes bytes'
        → decode_prefixed fuel mode rex bytes' offset ≡ done inst end
    pub cut :
        (fuel : ℕ) (bytes' : List ℕ)
        → Agree (length bytes') bytes bytes'
        → offset ≤ length bytes'
        → length bytes' < end
        → decode_prefixed fuel mode rex bytes' offset ≡ short

  -- What follows the byte that is read.
  abbrev pub after : (fuel rex opcode : ℕ) → Bool → Decoder Inst
  after fuel rex opcode b = elim b [
    | true ↦ decode_prefixed fuel mode opcode
    | false ↦ decode_opcode opcode rex mode
  ]

  module _ (fuel rex : ℕ) (bytes : List ℕ) (offset : ℕ) where
    decode_prefixed-suc :
        decode_prefixed (suc fuel) mode rex bytes offset
        ≡ and_decode bytes
            (read_u8 bytes offset)
            (λ opcode. after fuel rex opcode (is_rex mode opcode))
    unfolding decode_prefixed
    decode_prefixed-suc = refl

    pub decode_prefixed-step :
        {opcode mid : ℕ} {b : Bool}
        → read_u8 bytes offset ≡ done opcode mid
        → is_rex mode opcode ≡ b
        → decode_prefixed (suc fuel) mode rex bytes offset ≡ after fuel rex opcode b bytes mid
    decode_prefixed-step {opcode} {mid} h r =
        decode_prefixed-suc
        ∙ ap (λ o. and_decode bytes o (λ opcode. after fuel rex opcode (is_rex mode opcode))) h
        ∙ ap (λ b. after fuel rex opcode b bytes mid) r

    decode_prefixed-short :
        read_u8 bytes offset ≡ short → decode_prefixed (suc fuel) mode rex bytes offset ≡ short
    decode_prefixed-short h =
        decode_prefixed-suc
        ∙ ap (λ o. and_decode bytes o (λ opcode. after fuel rex opcode (is_rex mode opcode))) h

  decode_prefixed-zero :
      (rex : ℕ) (bytes : List ℕ) (offset : ℕ) → decode_prefixed zero mode rex bytes offset ≡ short
  unfolding decode_prefixed
  decode_prefixed-zero rex bytes offset = refl

  drop-at :
      (xs : List ℕ) (i : ℕ) {x : ℕ} → get_elem? xs i ≡ some x → drop i xs ≡ x ∷ drop (suc i) xs
  drop-at [] i h = cc
  drop-at (y ∷ ys) zero h = ap (λ z. z ∷ ys) (let e : some y ≡ some _ = h in cc)
  drop-at (y ∷ ys) (suc i) h = drop-at ys i h

  -- One byte is read, and what follows it decides.
  module _ (rex : ℕ) (bytes : List ℕ) (offset : ℕ) {opcode : ℕ} {b : Bool} where
    step-local :
        (fuel end : ℕ) (bytes' : List ℕ) (o : Outcome Inst)
        → read_u8 bytes offset ≡ done opcode (suc offset)
        → is_rex mode opcode ≡ b
        → suc offset ≤ end
        → end ≤ offset + fuel
        → Agree end bytes bytes'
        → ((f : ℕ) → fuel ≡ suc f → after f rex opcode b bytes' (suc offset) ≡ o)
        → decode_prefixed fuel mode rex bytes' offset ≡ o
    step-local zero end bytes' o h r from enough agree next = absurd (omega arith)
    step-local (suc f) end bytes' o h r from enough agree next =
        decode_prefixed-step f rex bytes' offset
          ((read_u8-Reads.run bytes offset opcode (suc offset) h).local bytes'
            (Agree-le (suc offset) end bytes bytes' from agree))
          r
        ∙ next f refl

    step-cut :
        (fuel : ℕ) (bytes' : List ℕ)
        → read_u8 bytes offset ≡ done opcode (suc offset)
        → is_rex mode opcode ≡ b
        → Agree (length bytes') bytes bytes'
        → offset ≤ length bytes'
        → ((f : ℕ) → suc offset ≤ length bytes' → after f rex opcode b bytes' (suc offset) ≡ short)
        → decode_prefixed fuel mode rex bytes' offset ≡ short
    step-cut zero bytes' h r agree start next = decode_prefixed-zero rex bytes' offset
    step-cut (suc f) bytes' h r agree start next =
        let read = read_u8-Reads.run bytes offset opcode (suc offset) h in
        elim (lt_cases (length bytes') (suc offset)) [
          | inl before ↦
              decode_prefixed-short f rex bytes' offset (read.cut bytes' agree start before)
          | inr past ↦
              decode_prefixed-step f rex bytes' offset
                (read.local bytes' (Agree-le (suc offset) (length bytes') bytes bytes' past agree))
                r
              ∙ next f past
        ]

  opcode-Prefixed :
      (rex : ℕ) (bytes : List ℕ) (offset opcode : ℕ) (inst : Inst) (end : ℕ)
      → read_u8 bytes offset ≡ done opcode (suc offset)
      → is_rex mode opcode ≡ false
      → decode_opcode opcode rex mode bytes (suc offset) ≡ done inst end
      → offset < length bytes
      → Prefixed rex bytes offset inst end
  opcode-Prefixed rex bytes offset opcode inst end h r e below =
      let rest = (decode_opcode-Reads mode opcode rex).run bytes (suc offset) inst end e in
      record {
        count = 0;
        prefixes = tt;
        is_inst = rest.holds;
        from = omega (arith, rest.forward);
        upto = omega (arith, rest.bounded);
        inside = rest.inside (omega arith);
        local = λ fuel bytes' enough agree.
            step-local rex bytes offset fuel end bytes' _ h r rest.forward enough agree
              λ f _. rest.local bytes' agree;
        cut = λ fuel bytes' agree start ends.
            step-cut rex bytes offset fuel bytes' h r agree start
              λ f past. rest.cut bytes' agree past ends;
      }

  rex-Prefixed :
      (rex : ℕ) (bytes : List ℕ) (offset opcode : ℕ) (inst : Inst) (end : ℕ)
      → read_u8 bytes offset ≡ done opcode (suc offset)
      → get_elem? bytes offset ≡ some opcode
      → is_rex mode opcode ≡ true
      → Prefixed opcode bytes (suc offset) inst end
      → Prefixed rex bytes offset inst end
  rex-Prefixed rex bytes offset opcode inst end h at r rest = record {
    count = suc rest.count;
    prefixes =
        subst (λ l. All (λ byte. is_rex mode byte ≡ true) (take (suc rest.count) l))
          (sym (drop-at bytes offset at)) (r, rest.prefixes);
    is_inst = rest.is_inst;
    from = omega (arith, rest.from);
    upto = omega (arith, rest.upto);
    inside = rest.inside;
    local = λ fuel bytes' enough agree.
        step-local rex bytes offset fuel end bytes' _ h r (omega (arith, rest.from)) enough agree
          λ f e. rest.local f bytes' (omega arith) agree;
    cut = λ fuel bytes' agree start ends.
        step-cut rex bytes offset fuel bytes' h r agree start
          λ f past. rest.cut f bytes' agree past ends;
  }

  pub decode_prefixed-Prefixed :
      (fuel rex : ℕ) (bytes : List ℕ) (offset : ℕ) (inst : Inst) (end : ℕ)
      → decode_prefixed fuel mode rex bytes offset ≡ done inst end
      → Prefixed rex bytes offset inst end
  unfolding read_u8
  decode_prefixed-Prefixed zero rex bytes offset inst end e =
      absurd
        (let bad : short ≡ done inst end = sym (decode_prefixed-zero rex bytes offset) ∙ e in cc)
  decode_prefixed-Prefixed (suc fuel) rex bytes offset inst end e =
      let (opcode, mid, e1, e2) =
        and_decode-eq bytes (read_u8 bytes offset) _
          (sym (decode_prefixed-suc fuel rex bytes offset) ∙ e) in
      let (at, next) = taken-eq (get_elem? bytes offset) offset e1 in
      let h : read_u8 bytes offset ≡ done opcode (suc offset) =
        e1 ∙ ap (done opcode) (let s : mid ≡ suc offset = omega arith in s) in
      let go : (b : Bool)
          → is_rex mode opcode ≡ b
          → after fuel rex opcode b bytes (suc offset) ≡ done inst end =
        λ b r. sym (decode_prefixed-step fuel rex bytes offset h r) ∙ e in
      elim (Bool-cases (is_rex mode opcode)) [
        | inl r ↦
            rex-Prefixed rex bytes offset opcode inst end h at r
              (decode_prefixed-Prefixed fuel opcode bytes (suc offset) inst end (go true r))
        | inr r ↦
            opcode-Prefixed rex bytes offset opcode inst end h r (go false r)
              (lt_of_get_elem? bytes offset at)
      ]
