-- ===== src/Encoder/AddSub/Registers.antt =====
-- The encoders of CMP, MOV and MVN of registers.
use bcpl.Prelude.{ℕ, ◌+◌, ◌*◌, ◌%◌, ◌^◌, ◌≡◌, ◌∙◌, ap, arith, Bool, Text, ok, >>=-eq-ok, some}
use bcpl.BitPatcher.Fields.{patch_fresh, patch_zero}
use bcpl.Instruction.{Instruction}
use bcpl.Arm64.{
  subs_reg, orr_reg, orn_reg, decode, decode_at, class_decode, add_sub_reg, logical_reg,
}
use bcpl.Encoder.Registers.{parse_register_unchecked}
use bcpl.Encoder.Operands.{Pair, parse_two}
use bcpl.Encoder.Operands.Fits.{bit, bit-le, PairFits, parse_two-Fits, patch_sf_lem}
use bcpl.Encoder.AddSub.{create_cmp_reg, create_mov_reg, create_mvn_reg}

cmp_word : Pair → ℕ
cmp_word t = 0x6B000000 + bit t.sf * 2 ^ 31 + t.rn * 2 ^ 16 + t.rd * 2 ^ 5 + 31

decode_cmp : (t : Pair) → PairFits t → decode (cmp_word t) ≡ some (subs_reg t.sf 31 t.rd t.rn 0)
unfolding cmp_word class_decode add_sub_reg
decode_cmp t f = decode_at (cmp_word t) 22 (omega (arith, bit-le)) ∙ ground arith

-- Every word that the CMP (register) encoder makes decodes to SUBS of its two operands, at their size,
-- into the zero register.
pub create_cmp_reg-decode :
    (xn xm : Text) {instr : Instruction}
    → create_cmp_reg xn xm ≡ ok instr
    → (t : Pair) × (parse_two 31 xn xm ≡ ok t)
      × (decode instr.encoding ≡ some (subs_reg t.sf 31 t.rd t.rn 0))
unfolding create_cmp_reg cmp_word
create_cmp_reg-decode xn xm {instr} e =
    let (t, et, e1) = >>=-eq-ok (parse_two 31 xn xm) _ e in
    let f = parse_two-Fits 31 xn xm (omega arith) et in
    let w0 = 0x6B000000 + bit t.sf * 2 ^ 31 in
    let w1 = w0 + t.rn * 2 ^ 16 in
    let w2 = w1 + t.rd * 2 ^ 5 in
    let e2 =
      rw
        (
          patch_sf_lem t.sf 0x6B000000 (omega arith),
          patch_fresh w0 t.rn 16 5 (omega (arith, bit-le)) (omega arith) (omega arith) (omega arith)
              (omega (arith, bit-le)),
          patch_fresh w1 t.rd 5 5 (omega (arith, bit-le)) (omega arith) (omega arith) (omega arith)
              (omega (arith, bit-le)),
          patch_fresh w2 31 0 5 (omega (arith, bit-le)) (omega arith) (omega arith) (omega arith)
              (omega (arith, bit-le)),
        )
        at e1 in
    let same_word : instr.encoding ≡ cmp_word t = ground arith in
    (t, et, ap decode same_word ∙ decode_cmp t f)

mov_word : Pair → ℕ
mov_word t = 0x2A000000 + bit t.sf * 2 ^ 31 + t.rd + t.rn * 2 ^ 16 + 31 * 2 ^ 5

decode_mov : (t : Pair) → PairFits t → decode (mov_word t) ≡ some (orr_reg t.sf t.rd 31 t.rn 0)
unfolding mov_word class_decode logical_reg
decode_mov t f = decode_at (mov_word t) 20 (omega (arith, bit-le)) ∙ ground arith

-- Every word that the MOV (register) encoder makes decodes to ORR of the zero register and its source,
-- at the operands' size.
pub create_mov_reg-decode :
    (xd xn : Text) {instr : Instruction}
    → create_mov_reg xd xn ≡ ok instr
    → (t : Pair) × (parse_two 31 xd xn ≡ ok t)
      × (decode instr.encoding ≡ some (orr_reg t.sf t.rd 31 t.rn 0))
unfolding create_mov_reg mov_word
create_mov_reg-decode xd xn {instr} e =
    let (t, et, e1) = >>=-eq-ok (parse_two 31 xd xn) _ e in
    let f = parse_two-Fits 31 xd xn (omega arith) et in
    let w0 = 0x2A000000 + bit t.sf * 2 ^ 31 in
    let w1 = w0 + t.rd * 2 ^ 0 in
    let w2 = w1 + t.rn * 2 ^ 16 in
    let e2 =
      rw
        (
          patch_sf_lem t.sf 0x2A000000 (omega arith),
          patch_fresh w0 t.rd 0 5 (omega (arith, bit-le)) (omega arith) (omega arith) (omega arith)
              (omega (arith, bit-le)),
          patch_fresh w1 t.rn 16 5 (omega (arith, bit-le)) (omega arith) (omega arith) (omega arith)
              (omega (arith, bit-le)),
          patch_fresh w2 31 5 5 (omega (arith, bit-le)) (omega arith) (omega arith) (omega arith)
              (omega (arith, bit-le)),
        )
        at e1 in
    let same_word : instr.encoding ≡ mov_word t = ground arith in
    (t, et, ap decode same_word ∙ decode_mov t f)

mvn_word : Bool → ℕ → ℕ → ℕ
mvn_word sf rd rm = 0x2A200800 + bit sf * 2 ^ 31 + rd % 2 ^ 5 + 31 * 2 ^ 5 + rm % 2 ^ 5 * 2 ^ 16

decode_mvn :
    (sf : Bool) (rd rm : ℕ)
    → decode (mvn_word sf rd rm) ≡ some (orn_reg sf (rd % 32) 31 (rm % 32) 2)
unfolding mvn_word class_decode logical_reg
decode_mvn sf rd rm = decode_at (mvn_word sf rd rm) 20 (omega (arith, bit-le)) ∙ ground arith

-- Every word that the MVN encoder makes decodes to ORN of the zero register and the source shifted left
-- by 2 places, at the size of the destination.
pub create_mvn_reg-decode :
    (xd xm : Text) {instr : Instruction}
    → create_mvn_reg xd xm ≡ ok instr
    → (d : ℕ × Bool) × (m : ℕ × Bool) × (parse_register_unchecked xd ≡ ok d)
      × (parse_register_unchecked xm ≡ ok m)
      × (decode instr.encoding ≡ some (orn_reg d.1 (d.0 % 32) 31 (m.0 % 32) 2))
unfolding create_mvn_reg mvn_word
create_mvn_reg-decode xd xm {instr} e =
    let (d, ed, e1) = >>=-eq-ok (parse_register_unchecked xd) _ e in
    let (m, em, e2) = >>=-eq-ok (parse_register_unchecked xm) _ e1 in
    let w0 = 0x2A200800 + bit d.1 * 2 ^ 31 in
    let w1 = w0 + d.0 % 2 ^ 5 * 2 ^ 0 in
    let w2 = w1 + 31 * 2 ^ 5 in
    let e3 =
      rw
        (
          patch_sf_lem d.1 0x2A200800 (omega arith),
          patch_zero w0 d.0 0 5 (omega (arith, bit-le)) (omega arith) (omega arith)
              (omega (arith, bit-le)),
          patch_fresh w1 31 5 5 (omega (arith, bit-le)) (omega arith) (omega arith) (omega arith)
              (omega (arith, bit-le)),
          patch_zero w2 m.0 16 5 (omega (arith, bit-le)) (omega arith) (omega arith)
              (omega (arith, bit-le)),
        )
        at e2 in
    let same_word : instr.encoding ≡ mvn_word d.1 d.0 m.0 = ground arith in
    (d, m, ed, em, ap decode same_word ∙ decode_mvn d.1 d.0 m.0)
