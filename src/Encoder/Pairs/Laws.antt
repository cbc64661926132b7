-- ===== src/Encoder/Pairs/Laws.antt =====
-- The encoders of register pairs make the instructions that they are named after, but for one.
use bcpl.Prelude.{
  ℕ, ◌+◌, ◌*◌, ◌^◌, ◌≡◌, ◌∙◌, ap, arith, Text, ok, invalid_argument, if◌then◌else◌, throw_if,
  >>=-eq-ok, throw_if-eq-ok, some,
}
use bcpl.Prelude.Int.{ℤ}
use bcpl.Instruction.{Instruction}
use bcpl.Arm64.{stp_pre, stp_offset, ldp_offset, ldnp, decode}
use bcpl.Encoder.Operands.Fits.{bit, bit-le}
use bcpl.Encoder.Pairs.{
  PairOperands, parse_pair, not_pair_offset, imm7_of, create_stp_pre_imm, create_stp_imm,
  create_ldp_imm, create_ldp_post_imm,
}
use bcpl.Encoder.Pairs.Decode.{
  parse_pair-PairFits, pair_offset, imm7_lem, unsigned_lem, or_pair_lem, imm7_of-lt, pair_word,
  patch_pair_lem, decode_stp_pre, decode_stp_offset, decode_ldp_offset, decode_ldnp,
}

-- Every word that the STP (pre-index) encoder makes decodes to STP (pre-index) of its two registers and base, at their size,
-- with the byte offset that was asked for.
pub create_stp_pre_imm-decode :
    (xt1 xt2 xn : Text) (immediate : ℤ) {instr : Instruction}
    → create_stp_pre_imm xt1 xt2 xn immediate ≡ ok instr
    → (t : PairOperands) × (i : ℕ) × (parse_pair xt1 xt2 xn ≡ ok t)
      × (pair_offset t.sf i ≡ immediate)
      × (decode instr.encoding ≡ some (stp_pre t.sf t.rt1 t.rt2 t.rn i))
unfolding create_stp_pre_imm
create_stp_pre_imm-decode xt1 xt2 xn immediate {instr} e =
    let (t, et, e1) = >>=-eq-ok (parse_pair xt1 xt2 xn) _ e in
    let (u, e2, e3) = >>=-eq-ok (throw_if (not_pair_offset t.sf immediate) invalid_argument) _ e1 in
    let f = parse_pair-PairFits xt1 xt2 xn et in
    let inside = throw_if-eq-ok (not_pair_offset t.sf immediate) invalid_argument e2 in
    let i = imm7_of t.sf immediate in
    let small = imm7_of-lt t.sf immediate in
    let base : (if t.sf then 0xA9800000 else 0x29800000) ≡ 0x29800000 + bit t.sf * 2 ^ 31 =
      ground arith in
    let e4 =
      rw
        (
          base,
          patch_pair_lem t i (0x29800000 + bit t.sf * 2 ^ 31) f small (omega (arith, bit-le))
              (omega (arith, bit-le)),
        )
        at e3 in
    let same_word : instr.encoding ≡ pair_word (0x29800000 + bit t.sf * 2 ^ 31) t i =
      ground arith in
    (t, i, et, imm7_lem t.sf immediate inside, ap decode same_word ∙ decode_stp_pre t i f small)

-- Every word that the STP (offset) encoder makes decodes to STP (offset) of its two registers and base, at their size,
-- with the byte offset that was asked for.
pub create_stp_imm-decode :
    (xt1 xt2 xn : Text) (immediate : ℤ) {instr : Instruction}
    → create_stp_imm xt1 xt2 xn immediate ≡ ok instr
    → (t : PairOperands) × (i : ℕ) × (parse_pair xt1 xt2 xn ≡ ok t)
      × (pair_offset t.sf i ≡ immediate)
      × (decode instr.encoding ≡ some (stp_offset t.sf t.rt1 t.rt2 t.rn i))
unfolding create_stp_imm
create_stp_imm-decode xt1 xt2 xn immediate {instr} e =
    let (t, et, e1) = >>=-eq-ok (parse_pair xt1 xt2 xn) _ e in
    let (u, e2, e3) = >>=-eq-ok (throw_if (not_pair_offset t.sf immediate) invalid_argument) _ e1 in
    let f = parse_pair-PairFits xt1 xt2 xn et in
    let inside = throw_if-eq-ok (not_pair_offset t.sf immediate) invalid_argument e2 in
    let i = imm7_of t.sf immediate in
    let small = imm7_of-lt t.sf immediate in
    let base : (if t.sf then 0xA9000000 else 0x29000000) ≡ 0x29000000 + bit t.sf * 2 ^ 31 =
      ground arith in
    let e4 =
      rw
        (
          base,
          patch_pair_lem t i (0x29000000 + bit t.sf * 2 ^ 31) f small (omega (arith, bit-le))
              (omega (arith, bit-le)),
        )
        at e3 in
    let same_word : instr.encoding ≡ pair_word (0x29000000 + bit t.sf * 2 ^ 31) t i =
      ground arith in
    (t, i, et, imm7_lem t.sf immediate inside, ap decode same_word ∙ decode_stp_offset t i f small)

-- Every word that the LDP (offset) encoder makes decodes to LDP (offset) of its two registers and base, at their size,
-- with the byte offset that was asked for.
pub create_ldp_imm-decode :
    (xt1 xt2 xn : Text) (immediate : ℤ) {instr : Instruction}
    → create_ldp_imm xt1 xt2 xn immediate ≡ ok instr
    → (t : PairOperands) × (i : ℕ) × (parse_pair xt1 xt2 xn ≡ ok t)
      × (pair_offset t.sf i ≡ immediate)
      × (decode instr.encoding ≡ some (ldp_offset t.sf t.rt1 t.rt2 t.rn i))
unfolding create_ldp_imm
create_ldp_imm-decode xt1 xt2 xn immediate {instr} e =
    let (t, et, e1) = >>=-eq-ok (parse_pair xt1 xt2 xn) _ e in
    let (u, e2, e3) = >>=-eq-ok (throw_if (not_pair_offset t.sf immediate) invalid_argument) _ e1 in
    let f = parse_pair-PairFits xt1 xt2 xn et in
    let inside = throw_if-eq-ok (not_pair_offset t.sf immediate) invalid_argument e2 in
    let i = imm7_of t.sf immediate in
    let small = imm7_of-lt t.sf immediate in
    let base : (if t.sf then 0xA9400000 else 0x29400000) ≡ 0x29400000 + bit t.sf * 2 ^ 31 =
      ground arith in
    let e4 =
      rw
        (
          base,
          patch_pair_lem t i (0x29400000 + bit t.sf * 2 ^ 31) f small (omega (arith, bit-le))
              (omega (arith, bit-le)),
        )
        at e3 in
    let same_word : instr.encoding ≡ pair_word (0x29400000 + bit t.sf * 2 ^ 31) t i =
      ground arith in
    (t, i, et, imm7_lem t.sf immediate inside, ap decode same_word ∙ decode_ldp_offset t i f small)

-- Every word that the LDP (post-index) encoder makes decodes to LDNP, the no-allocate load that does not move
-- its base, of its two registers and base, at their size, with the byte offset that was asked for.
pub create_ldp_post_imm-decode :
    (xt1 xt2 xn : Text) (immediate : ℤ) {instr : Instruction}
    → create_ldp_post_imm xt1 xt2 xn immediate ≡ ok instr
    → (t : PairOperands) × (i : ℕ) × (parse_pair xt1 xt2 xn ≡ ok t)
      × (pair_offset t.sf i ≡ immediate)
      × (decode instr.encoding ≡ some (ldnp t.sf t.rt1 t.rt2 t.rn i))
unfolding create_ldp_post_imm
create_ldp_post_imm-decode xt1 xt2 xn immediate {instr} e =
    let (t, et, e1) = >>=-eq-ok (parse_pair xt1 xt2 xn) _ e in
    let (u, e2, e3) = >>=-eq-ok (throw_if (not_pair_offset t.sf immediate) invalid_argument) _ e1 in
    let f = parse_pair-PairFits xt1 xt2 xn et in
    let inside = throw_if-eq-ok (not_pair_offset t.sf immediate) invalid_argument e2 in
    let i = imm7_of t.sf immediate in
    let small = imm7_of-lt t.sf immediate in
    let base : (if t.sf then 0xA8400000 else 0x28400000) ≡ 0x28400000 + bit t.sf * 2 ^ 31 =
      ground arith in
    let e4 =
      rw
        (
          base,
          unsigned_lem t.sf immediate inside,
          or_pair_lem t i (0x28400000 + bit t.sf * 2 ^ 31) f small (omega (arith, bit-le)),
        )
        at e3 in
    let same_word : instr.encoding ≡ pair_word (0x28400000 + bit t.sf * 2 ^ 31) t i =
      ground arith in
    (t, i, et, imm7_lem t.sf immediate inside, ap decode same_word ∙ decode_ldnp t i f small)
