-- ===== src/Encoder/AddSub/Decode.antt =====
-- What the encoders of this family emit, read back by the decoder.
use bcpl.Prelude.{
  ℕ, ◌+◌, ◌*◌, ◌^◌, ◌<◌, ◌≡◌, ◌∙◌, ap, arith, false, Text, codes, ok, >>=-eq-ok, some, throw_if,
  invalid_argument, throw_if-eq-ok,
}
use bcpl.Prelude.Int.{ℤ, pos, negsuc, pos_part, wrap}
use bcpl.BitPatcher.Fields.{patch_fresh, patch_again}
use bcpl.Instruction.{Instruction, OpType}
use bcpl.Arm64.{add_imm, sub_imm, decode, decode_at, class_decode, add_sub_imm}
use bcpl.Encoder.Operands.{Pair, parse_two}
use bcpl.Encoder.Operands.Fits.{bit, bit-le, PairFits, parse_two-Fits, patch_sf_lem}
use bcpl.Encoder.AddSub.{not_imm12, finish_imm, create_add_imm, create_sub_imm}

-- An immediate that the check lets through is a number below 4096, and its own 32-bit pattern.
imm12_lem :
    (i : ℤ)
    → not_imm12 i ≡ false
    → (i ≡ pos (pos_part i)) × (pos_part i < 4096) × (wrap 32 i ≡ pos_part i)
imm12_lem (pos n) h = ground arith
imm12_lem (negsuc n) h = ground arith

finish_imm-encoding :
    (op : OpType) (m xd xn : Text) (i : ℤ) (word : ℕ) {instr : Instruction}
    → finish_imm op m xd xn i word ≡ ok instr
    → instr.encoding ≡ word
unfolding finish_imm
finish_imm-encoding op m xd xn i word e = ground arith

imm_word : ℕ → Pair → ℕ → ℕ
imm_word base t imm = base + bit t.sf * 2 ^ 31 + imm * 2 ^ 10 + t.rn * 2 ^ 5 + t.rd

decode_add_imm :
    (t : Pair) (imm : ℕ)
    → PairFits t
    → imm < 4096
    → decode (imm_word 0x11000000 t imm) ≡ some (add_imm t.sf t.rd t.rn imm)
unfolding imm_word class_decode add_sub_imm
decode_add_imm t imm f h =
    decode_at (imm_word 0x11000000 t imm) 34 (omega (arith, bit-le)) ∙ ground arith

decode_sub_imm :
    (t : Pair) (imm : ℕ)
    → PairFits t
    → imm < 4096
    → decode (imm_word 0x51000000 t imm) ≡ some (sub_imm t.sf t.rd t.rn imm)
unfolding imm_word class_decode add_sub_imm
decode_sub_imm t imm f h =
    decode_at (imm_word 0x51000000 t imm) 34 (omega (arith, bit-le)) ∙ ground arith

-- Every word that the ADD (immediate) encoder makes decodes to ADD of its two operands, at their size,
-- with the given immediate, which lies between 0 and 4095.
pub create_add_imm-decode :
    (xd xn : Text) (i : ℤ) {instr : Instruction}
    → create_add_imm xd xn i ≡ ok instr
    → (t : Pair) × (parse_two 31 xd xn ≡ ok t)
      × (i ≡ pos (pos_part i))
      × (pos_part i < 4096)
      × (decode instr.encoding ≡ some (add_imm t.sf t.rd t.rn (pos_part i)))
unfolding create_add_imm imm_word
create_add_imm-decode xd xn i e =
    let (u, eu, e1) = >>=-eq-ok (throw_if (not_imm12 i) invalid_argument) _ e in
    let (ei, small, ew) = imm12_lem i (throw_if-eq-ok (not_imm12 i) invalid_argument eu) in
    let (t, et, e2) = >>=-eq-ok (parse_two 31 xd xn) _ e1 in
    let f = parse_two-Fits 31 xd xn (omega arith) et in
    let w0 = 0x11000000 + bit t.sf * 2 ^ 31 in
    let w1 = w0 + pos_part i * 2 ^ 10 in
    let w2 = w1 + t.rn * 2 ^ 5 in
    let e3 =
      rw
        (
          patch_sf_lem t.sf 0x11000000 (omega arith),
          ew,
          patch_fresh w0 (pos_part i) 10 12 (omega (arith, bit-le)) (omega arith) (omega arith)
              small (omega (arith, bit-le)),
          patch_fresh w1 t.rn 5 5 (omega (arith, bit-le)) (omega arith) (omega arith) (omega arith)
              (omega (arith, bit-le)),
          patch_again w2 t.rn 5 5 (omega (arith, bit-le)) (omega arith) (omega arith)
              (omega (arith, bit-le)),
          patch_fresh w2 t.rd 0 5 (omega (arith, bit-le)) (omega arith) (omega arith) (omega arith)
              (omega (arith, bit-le)),
        )
        at e2 in
    let regroup : w2 + t.rd * 2 ^ 0 ≡ imm_word 0x11000000 t (pos_part i) = omega arith in
    (
      t,
      et,
      ei,
      small,
      ap decode
            (finish_imm-encoding OpType.add (codes "ADD") xd xn i (w2 + t.rd * 2 ^ 0) e3 ∙ regroup)
          ∙ decode_add_imm t (pos_part i) f small,
    )

-- The same for SUB (immediate).
pub create_sub_imm-decode :
    (xd xn : Text) (i : ℤ) {instr : Instruction}
    → create_sub_imm xd xn i ≡ ok instr
    → (t : Pair) × (parse_two 31 xd xn ≡ ok t)
      × (i ≡ pos (pos_part i))
      × (pos_part i < 4096)
      × (decode instr.encoding ≡ some (sub_imm t.sf t.rd t.rn (pos_part i)))
unfolding create_sub_imm imm_word
create_sub_imm-decode xd xn i e =
    let (u, eu, e1) = >>=-eq-ok (throw_if (not_imm12 i) invalid_argument) _ e in
    let (ei, small, ew) = imm12_lem i (throw_if-eq-ok (not_imm12 i) invalid_argument eu) in
    let (t, et, e2) = >>=-eq-ok (parse_two 31 xd xn) _ e1 in
    let f = parse_two-Fits 31 xd xn (omega arith) et in
    let w0 = 0x51000000 + bit t.sf * 2 ^ 31 in
    let w1 = w0 + pos_part i * 2 ^ 10 in
    let w2 = w1 + t.rn * 2 ^ 5 in
    let e3 =
      rw
        (
          patch_sf_lem t.sf 0x51000000 (omega arith),
          ew,
          patch_fresh w0 (pos_part i) 10 12 (omega (arith, bit-le)) (omega arith) (omega arith)
              small (omega (arith, bit-le)),
          patch_fresh w1 t.rn 5 5 (omega (arith, bit-le)) (omega arith) (omega arith) (omega arith)
              (omega (arith, bit-le)),
          patch_fresh w2 t.rd 0 5 (omega (arith, bit-le)) (omega arith) (omega arith) (omega arith)
              (omega (arith, bit-le)),
        )
        at e2 in
    let regroup : w2 + t.rd * 2 ^ 0 ≡ imm_word 0x51000000 t (pos_part i) = omega arith in
    (
      t,
      et,
      ei,
      small,
      ap decode
            (finish_imm-encoding OpType.sub (codes "SUB") xd xn i (w2 + t.rd * 2 ^ 0) e3 ∙ regroup)
          ∙ decode_sub_imm t (pos_part i) f small,
    )
