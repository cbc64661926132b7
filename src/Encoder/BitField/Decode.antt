-- ===== src/Encoder/BitField/Decode.antt =====
-- What the encoders of bit fields emit, read back by the decoder.
use bcpl.Prelude.{
  ℕ, ◌+◌, ◌-◌, ◌*◌, ◌^◌, ◌%◌, ◌<◌, ◌≤◌, ◌≡◌, ◌∙◌, ap, arith, Bool, true, false, not, same, sym,
  subst, inl, inr, refl, ◌⊎◌, Text, codes, ok, >>=-eq-ok, ok-injective, some, throw_if,
  invalid_argument, throw_if-eq-ok, if◌then◌else◌,
}
use bcpl.Prelude.Int.{ℤ, pos, negsuc, pos_part, neg_part, wrap, sub_ℕ}
use bcpl.BitPatcher.Fields.{patch_fresh}
use bcpl.Instruction.{Instruction, OpType}
use bcpl.Arm64.{Asm, ubfm, sbfm, decode, decode_at, class_decode, bitfield}
use bcpl.Encoder.Registers.{get_reg_encoding, get_reg_encoding-le}
use bcpl.Encoder.Operands.Fits.{bit, bit-le, patch_sf_lem}
use bcpl.Encoder.Branch.{starts_with_x}
use bcpl.Encoder.BitField.{
  datasize, add_ℤ, not_position, not_width, patch_bit_field, finish_bit_field, extract_bit_field,
  opt_create_ubfx, opt_create_sbfx, opt_create_asr_imm,
}

unfoldable pub field_word : ℕ → Bool → ℕ → ℕ → ℕ → ℕ → ℕ
field_word base sf immr imms rn rd =
    base + bit sf * 2 ^ 31 + bit sf * 2 ^ 22 + immr * 2 ^ 16 + imms * 2 ^ 10 + rn * 2 ^ 5 + rd

module _ (sf : Bool) (immr imms rn rd : ℕ) (hr : immr < 64) (hs : imms < 64) (hn : rn ≤ 31)
    (hd : rd ≤ 31) where
  pub decode_ubfm :
      decode (field_word 0x53000000 sf immr imms rn rd) ≡ some (ubfm sf rd rn immr imms)
  unfolding field_word class_decode bitfield
  decode_ubfm =
      decode_at (field_word 0x53000000 sf immr imms rn rd) 38 (omega (arith, bit-le)) ∙ ground arith

  decode_sbfm : decode (field_word 0x13000000 sf immr imms rn rd) ≡ some (sbfm sf rd rn immr imms)
  unfolding field_word class_decode bitfield
  decode_sbfm =
      decode_at (field_word 0x13000000 sf immr imms rn rd) 38 (omega (arith, bit-le)) ∙ ground arith

  -- The fields of both base opcodes are zero.
  patch_bit_field_lem :
      (base : ℕ)
      → (base ≡ 0x53000000) ⊎ (base ≡ 0x13000000)
      → patch_bit_field base sf immr imms rn rd ≡ ok (field_word base sf immr imms rn rd)
  unfolding patch_bit_field field_word
  patch_bit_field_lem base known =
      let b : (if sf then 1 else 0) ≡ bit sf = ground arith in
      let small : base < 2 ^ 31 = ground arith in
      let clear : base % 2 ^ 23 ≡ 0 = ground arith in
      let w0 = base + bit sf * 2 ^ 31 in
      let w1 = w0 + bit sf * 2 ^ 22 in
      let w2 = w1 + immr * 2 ^ 16 in
      let w3 = w2 + imms * 2 ^ 10 in
      let w4 = w3 + rn * 2 ^ 5 in
      rw
        (
          patch_sf_lem sf base small,
          b,
          patch_fresh w0 (bit sf) 22 1 (omega (arith, bit-le)) (omega arith) (omega arith)
              (omega (arith, bit-le)) (omega (arith, bit-le)),
          patch_fresh w1 immr 16 6 (omega (arith, bit-le)) (omega arith) (omega arith) hr
              (omega (arith, bit-le)),
          patch_fresh w2 imms 10 6 (omega (arith, bit-le)) (omega arith) (omega arith) hs
              (omega (arith, bit-le)),
          patch_fresh w3 rn 5 5 (omega (arith, bit-le)) (omega arith) (omega arith) (omega arith)
              (omega (arith, bit-le)),
          patch_fresh w4 rd 0 5 (omega (arith, bit-le)) (omega arith) (omega arith) (omega arith)
              (omega (arith, bit-le)),
        )
        (ap ok (omega arith))

pub position_lem :
    (sf : Bool) (v : ℤ)
    → not_position sf v ≡ false
    → (v ≡ pos (pos_part v)) × (pos_part v < datasize sf) × (wrap 32 v ≡ pos_part v)
position_lem true (pos n) h = ground arith
position_lem false (pos n) h = ground arith
position_lem sf (negsuc n) h = absurd (ground arith)

last_position : ℤ → ℤ → ℕ
last_position lsb width =
    wrap 32 (sub_ℕ (pos_part (add_ℤ lsb width)) (neg_part (add_ℤ lsb width) + 1))

-- A field that the checks let through lies inside the register.
width_lem :
    (sf : Bool) (l : ℕ) (width : ℤ)
    → l < datasize sf
    → not_width sf (pos l) width ≡ false
    → (width ≡ pos (pos_part width))
      × (1 ≤ pos_part width)
      × (l + pos_part width ≤ datasize sf)
      × (last_position (pos l) width ≡ l + pos_part width - 1)
unfolding last_position
width_lem true l (pos w) small h = ground arith
width_lem false l (pos w) small h = ground arith
width_lem sf l (negsuc w) small h = absurd (ground arith)

pub datasize-le : (sf : Bool) → datasize sf ≤ 64
datasize-le sf = ground arith

pub finish_bit_field-encoding :
    (op : OpType) (xd xn : Text) (i : ℤ) (word : ℕ) (text : Text) {instr : Instruction}
    → finish_bit_field op xd xn i word text ≡ ok instr
    → instr.encoding ≡ word
unfolding finish_bit_field
finish_bit_field-encoding op xd xn i word text e =
    let (a, ea, e1) = >>=-eq-ok (get_reg_encoding xd) _ e in
    let (b, eb, e2) = >>=-eq-ok (get_reg_encoding xn) _ e1 in
    ap (λ (j : Instruction). j.encoding) (sym (ok-injective e2))

-- The field from bit `lsb` on lies inside the register, and the word holds its first and last bit.
pub Extracts : (ℕ → ℕ → ℕ → ℕ → Asm) → Text → Text → ℤ → ℤ → Instruction → Type 0
Extracts asm xd xn lsb width instr =
    (rd rn : ℕ) × (get_reg_encoding xd ≡ ok rd)
    × (get_reg_encoding xn ≡ ok rn)
    × (lsb ≡ pos (pos_part lsb))
    × (width ≡ pos (pos_part width))
    × (1 ≤ pos_part width)
    × (pos_part lsb + pos_part width ≤ datasize (starts_with_x xd))
    × (decode instr.encoding ≡ some (asm rd rn (pos_part lsb) (pos_part lsb + pos_part width - 1)))

pub word_lem :
    (base : ℕ) (sf : Bool) (immr imms rn rd : ℕ) {a b word : ℕ}
    → immr < 64
    → imms < 64
    → rn ≤ 31
    → rd ≤ 31
    → (base ≡ 0x53000000) ⊎ (base ≡ 0x13000000)
    → a ≡ immr
    → b ≡ imms
    → patch_bit_field base sf a b rn rd ≡ ok word
    → word ≡ field_word base sf immr imms rn rd
word_lem base sf immr imms rn rd hr hs hn hd known ea eb e =
    ok-injective
      (sym e ∙ rw (ea, eb) (patch_bit_field_lem sf immr imms rn rd hr hs hn hd base known))

extract_lem :
    (base : ℕ) (op : OpType) (mnemonic xd xn : Text) (lsb width : ℤ) (asm : ℕ → ℕ → ℕ → ℕ → Asm)
    {instr : Instruction}
    → (base ≡ 0x53000000) ⊎ (base ≡ 0x13000000)
    → ((immr imms rn rd : ℕ)
        → immr < 64
        → imms < 64
        → rn ≤ 31
        → rd ≤ 31
        → decode (field_word base (starts_with_x xd) immr imms rn rd) ≡ some (asm rd rn immr imms))
    → extract_bit_field base op mnemonic xd xn lsb width ≡ ok instr
    → Extracts asm xd xn lsb width instr
unfolding extract_bit_field Extracts last_position
extract_lem base op mnemonic xd xn lsb width asm known decoded e =
    let sf = starts_with_x xd in
    let (rd, ed, e1) = >>=-eq-ok (get_reg_encoding xd) _ e in
    let (rn, en, e2) = >>=-eq-ok (get_reg_encoding xn) _ e1 in
    let (u, eu, e3) =
      >>=-eq-ok (throw_if (not (same sf (starts_with_x xn))) invalid_argument) _ e2 in
    let (v, ev, e4) = >>=-eq-ok (throw_if (not_position sf lsb) invalid_argument) _ e3 in
    let (w, ew, e5) = >>=-eq-ok (throw_if (not_width sf lsb width) invalid_argument) _ e4 in
    let (el, small, wl) =
      position_lem sf lsb (throw_if-eq-ok (not_position sf lsb) invalid_argument ev) in
    let (ewd, one, inside, last) = width_lem sf (pos_part lsb) width small (
      subst (λ (i : ℤ). not_width sf i width ≡ false) el
        (throw_if-eq-ok (not_width sf lsb width) invalid_argument ew)) in
    let last' =
      subst (λ (i : ℤ). last_position i width ≡ pos_part lsb + pos_part width - 1) (sym el) last in
    let (word, ep, e6) =
      >>=-eq-ok (patch_bit_field base sf (wrap 32 lsb) (last_position lsb width) rn rd) _ e5 in
    let hd = get_reg_encoding-le xd ed in
    let hn = get_reg_encoding-le xn en in
    let size = datasize-le sf in
    let first = pos_part lsb in
    let final = pos_part lsb + pos_part width - 1 in
    let hf : first < 64 = omega (arith, small, size) in
    let hl : final < 64 = omega (arith, one, inside, size) in
    let same_word = word_lem base sf first final rn rd hf hl hn hd known wl last' ep in
    (
      rd,
      rn,
      ed,
      en,
      el,
      ewd,
      one,
      inside,
      ap decode (finish_bit_field-encoding op xd xn lsb word _ e6 ∙ same_word)
          ∙ decoded first final rn rd hf hl hn hd,
    )

-- Every word that the UBFX encoder makes decodes to UBFM of its two operands, at their size, with the
-- first and the last bit of the field that was asked for, which lies inside the register.
pub opt_create_ubfx-decode :
    (xd xn : Text) (lsb width : ℤ) {instr : Instruction}
    → opt_create_ubfx xd xn lsb width ≡ ok instr
    → Extracts (ubfm (starts_with_x xd)) xd xn lsb width instr
unfolding opt_create_ubfx
opt_create_ubfx-decode xd xn lsb width e =
    extract_lem 0x53000000 OpType.ubfx (codes "UBFX") xd xn lsb width (ubfm (starts_with_x xd))
      (inl refl) (decode_ubfm (starts_with_x xd)) e

-- The same for SBFX and SBFM.
pub opt_create_sbfx-decode :
    (xd xn : Text) (lsb width : ℤ) {instr : Instruction}
    → opt_create_sbfx xd xn lsb width ≡ ok instr
    → Extracts (sbfm (starts_with_x xd)) xd xn lsb width instr
unfolding opt_create_sbfx
opt_create_sbfx-decode xd xn lsb width e =
    extract_lem 0x13000000 OpType.sbfx (codes "SBFX") xd xn lsb width (sbfm (starts_with_x xd))
      (inr refl) (decode_sbfm (starts_with_x xd)) e

-- Every word that the ASR (immediate) encoder makes decodes to SBFM of its two operands, at their
-- size, from the bit that was asked for to the highest bit of the register.
pub opt_create_asr_imm-decode :
    (xd xn : Text) (shift_amount : ℤ) {instr : Instruction}
    → opt_create_asr_imm xd xn shift_amount ≡ ok instr
    → (rd rn : ℕ) × (get_reg_encoding xd ≡ ok rd)
      × (get_reg_encoding xn ≡ ok rn)
      × (shift_amount ≡ pos (pos_part shift_amount))
      × (pos_part shift_amount < datasize (starts_with_x xd))
      × (decode instr.encoding
          ≡ some (
              sbfm
                (starts_with_x xd)
                rd
                rn
                (pos_part shift_amount)
                (datasize (starts_with_x xd) - 1)))
unfolding opt_create_asr_imm
opt_create_asr_imm-decode xd xn shift_amount e =
    let sf = starts_with_x xd in
    let (rd, ed, e1) = >>=-eq-ok (get_reg_encoding xd) _ e in
    let (rn, en, e2) = >>=-eq-ok (get_reg_encoding xn) _ e1 in
    let (u, eu, e3) =
      >>=-eq-ok (throw_if (not (same sf (starts_with_x xn))) invalid_argument) _ e2 in
    let (v, ev, e4) = >>=-eq-ok (throw_if (not_position sf shift_amount) invalid_argument) _ e3 in
    let (el, small, wl) =
      position_lem sf shift_amount
        (throw_if-eq-ok (not_position sf shift_amount) invalid_argument ev) in
    let (word, ep, e6) =
      >>=-eq-ok (patch_bit_field 0x13000000 sf (wrap 32 shift_amount) (datasize sf - 1) rn rd) _
        e4 in
    let hd = get_reg_encoding-le xd ed in
    let hn = get_reg_encoding-le xn en in
    let first = pos_part shift_amount in
    let hf : first < 64 = omega (arith, small, datasize-le sf) in
    let hl : datasize sf - 1 < 64 = omega (arith, datasize-le sf) in
    let same_word =
      word_lem 0x13000000 sf first (datasize sf - 1) rn rd hf hl hn hd (inr refl) wl refl ep in
    (
      rd,
      rn,
      ed,
      en,
      el,
      small,
      ap decode (finish_bit_field-encoding OpType.asr xd xn shift_amount word _ e6 ∙ same_word)
          ∙ decode_sbfm sf first (datasize sf - 1) rn rd hf hl hn hd,
    )
