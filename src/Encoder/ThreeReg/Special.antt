-- ===== src/Encoder/ThreeReg/Special.antt =====
-- The three-register encoders with steps of their own: ORR, MUL and SDIV.
use bcpl.Prelude.{
  ℕ, ◌+◌, ◌*◌, ◌^◌, ◌≡◌, ◌∙◌, ap, arith, Bool, false, Text, codes, ok, >>=-eq-ok, some,
  if◌then◌else◌,
}
use bcpl.BitPatcher.Fields.{patch_fresh}
use bcpl.Instruction.{Instruction, OpType}
use bcpl.Arm64.{orr_reg, madd, sdiv, decode, decode_at, class_decode, logical_reg, other_reg}
use bcpl.Encoder.Operands.{Triple, parse_three}
use bcpl.Encoder.ThreeReg.{finish_three, create_orr_reg, create_mul_reg, create_sdiv_reg}
use bcpl.Encoder.Operands.Fits.{Fits, bit, bit-le, parse_three-Fits, patch_sf_lem}
use bcpl.Encoder.ThreeReg.Decode.{three_word, patch_three_lem, finish_three-encoding}

orr_word : Triple → ℕ
orr_word t = 0x2A000000 + t.rd + t.rn * 2 ^ 5 + t.rm * 2 ^ 16

decode_orr : (t : Triple) → Fits t → decode (orr_word t) ≡ some (orr_reg false t.rd t.rn t.rm 0)
unfolding orr_word class_decode logical_reg
decode_orr t f = decode_at (orr_word t) 20 (omega arith) ∙ ground arith

-- Every word that the ORR encoder makes decodes to the 32-bit ORR of its operands' numbers, also where
-- all operands are 64-bit registers: the encoder never sets the size bit.
pub create_orr_reg-decode :
    (xd xn xm : Text) {instr : Instruction}
    → create_orr_reg xd xn xm ≡ ok instr
    → (t : Triple) × (parse_three 31 xd xn xm ≡ ok t)
      × (decode instr.encoding ≡ some (orr_reg false t.rd t.rn t.rm 0))
unfolding create_orr_reg orr_word
create_orr_reg-decode xd xn xm e =
    let (t, et, e1) = >>=-eq-ok (parse_three 31 xd xn xm) _ e in
    let f = parse_three-Fits 31 xd xn xm (omega arith) et in
    let e2 = rw (patch_three_lem t 0x2A000000 f (omega arith) (omega arith) (omega arith)) at e1 in
    (
      t,
      et,
      ap decode (finish_three-encoding OpType.orr (codes "ORR") xd xn xm (orr_word t) e2)
          ∙ decode_orr t f,
    )

mul_word : Triple → ℕ
mul_word t = three_word 0x1B000000 t + 31 * 2 ^ 10

decode_mul : (t : Triple) → Fits t → decode (mul_word t) ≡ some (madd t.sf t.rd t.rn t.rm 31)
unfolding mul_word class_decode other_reg
decode_mul t f = decode_at (mul_word t) 54 (omega (arith, bit-le)) ∙ ground arith

-- Every word that the MUL encoder makes decodes to MADD of its operands with the zero register, at the
-- operands' size.
pub create_mul_reg-decode :
    (xd xn xm : Text) {instr : Instruction}
    → create_mul_reg xd xn xm ≡ ok instr
    → (t : Triple) × (parse_three 31 xd xn xm ≡ ok t)
      × (decode instr.encoding ≡ some (madd t.sf t.rd t.rn t.rm 31))
unfolding create_mul_reg mul_word
create_mul_reg-decode xd xn xm e =
    let (t, et, e1) = >>=-eq-ok (parse_three 31 xd xn xm) _ e in
    let f = parse_three-Fits 31 xd xn xm (omega arith) et in
    let e2 = rw (patch_sf_lem t.sf 0x1B000000 (omega arith)) at e1 in
    let e3 =
      rw
        (patch_three_lem t (0x1B000000 + bit t.sf * 2 ^ 31) f (omega (arith, bit-le))
          (omega (arith, bit-le)) (omega (arith, bit-le)))
        at e2 in
    let e4 =
      rw
        (patch_fresh (three_word 0x1B000000 t) 31 10 5 (omega (arith, bit-le)) (omega arith)
          (omega arith) (omega arith) (omega (arith, bit-le)))
        at e3 in
    let (instr', ei, e5) =
      >>=-eq-ok (finish_three OpType.mul (codes "MUL") xd xn xm (mul_word t)) _ e4 in
    let same_word = finish_three-encoding OpType.mul (codes "MUL") xd xn xm (mul_word t) ei in
    (t, et, ap decode (ground (arith, same_word)) ∙ decode_mul t f)

decode_sdiv :
    (t : Triple) → Fits t → decode (three_word 0x1AC00C00 t) ≡ some (sdiv t.sf t.rd t.rn t.rm)
unfolding class_decode other_reg
decode_sdiv t f = decode_at (three_word 0x1AC00C00 t) 53 (omega (arith, bit-le)) ∙ ground arith

sdiv_base : (sf : Bool) → (if sf then 0x9AC00C00 else 0x1AC00C00) ≡ 0x1AC00C00 + bit sf * 2 ^ 31
sdiv_base sf = ground arith

-- Every word that the SDIV encoder makes decodes to SDIV of its operands, at their size.
pub create_sdiv_reg-decode :
    (xd xn xm : Text) {instr : Instruction}
    → create_sdiv_reg xd xn xm ≡ ok instr
    → (t : Triple) × (parse_three 31 xd xn xm ≡ ok t)
      × (decode instr.encoding ≡ some (sdiv t.sf t.rd t.rn t.rm))
unfolding create_sdiv_reg
create_sdiv_reg-decode xd xn xm e =
    let (t, et, e1) = >>=-eq-ok (parse_three 31 xd xn xm) _ e in
    let f = parse_three-Fits 31 xd xn xm (omega arith) et in
    let w0 = 0x1AC00C00 + bit t.sf * 2 ^ 31 in
    let e2 =
      rw
        (
          sdiv_base t.sf,
          patch_fresh w0 t.rm 16 5 (omega (arith, bit-le)) (omega arith) (omega arith) (omega arith)
              (omega (arith, bit-le)),
          patch_fresh (w0 + t.rm * 2 ^ 16) t.rn 5 5 (omega (arith, bit-le)) (omega arith)
              (omega arith) (omega arith) (omega (arith, bit-le)),
          patch_fresh (w0 + t.rm * 2 ^ 16 + t.rn * 2 ^ 5) t.rd 0 5 (omega (arith, bit-le))
              (omega arith) (omega arith) (omega arith) (omega (arith, bit-le)),
        )
        at e1 in
    let word = w0 + t.rm * 2 ^ 16 + t.rn * 2 ^ 5 + t.rd * 2 ^ 0 in
    let regroup : word ≡ three_word 0x1AC00C00 t = omega arith in
    (
      t,
      et,
      ap decode (finish_three-encoding OpType.sdiv (codes "SDIV") xd xn xm word e2 ∙ regroup)
          ∙ decode_sdiv t f,
    )
