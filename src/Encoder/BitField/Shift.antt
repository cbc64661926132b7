-- ===== src/Encoder/BitField/Shift.antt =====
-- What the encoder of LSL by an immediate emits, and what it computes.
use bcpl.Prelude.{
  ℕ, ◌-◌, ◌%◌, ◌<◌, ◌≤◌, ◌≡◌, ◌∙◌, ap, arith, Bool, true, false, inl, refl, Text, ok, >>=-eq-ok,
  some, throw_if, invalid_argument, throw_if-eq-ok,
}
use bcpl.Prelude.Int.{ℤ, pos, pos_part}
use bcpl.Instruction.{Instruction, OpType}
use bcpl.Arm64.{ubfm, decode}
use bcpl.Encoder.Operands.{Pair, parse_two}
use bcpl.Encoder.Operands.Fits.{parse_two-Fits}
use bcpl.Encoder.BitField.{datasize, not_position, patch_bit_field, create_lsl_imm, shift_left}
use bcpl.Encoder.BitField.Decode.{
  word_lem, position_lem, datasize-le, finish_bit_field-encoding, decode_ubfm,
}

immr_small : (sf : Bool) (n : ℕ) → (datasize sf - n) % datasize sf < 64
immr_small true n = omega arith
immr_small false n = omega arith

-- Every word that the LSL (immediate) encoder makes decodes to the UBFM of its two operands, at their
-- size, that shifts left: it rotates right by the rest of the size and keeps the bits below it.
pub create_lsl_imm-decode :
    (xd xn : Text) (shift_amount : ℤ) {instr : Instruction}
    → create_lsl_imm xd xn shift_amount ≡ ok instr
    → (t : Pair) × (parse_two 30 xd xn ≡ ok t)
      × (shift_amount ≡ pos (pos_part shift_amount))
      × (pos_part shift_amount < datasize t.sf)
      × (decode instr.encoding
          ≡ some (
              ubfm t.sf t.rd t.rn
                ((datasize t.sf - pos_part shift_amount) % datasize t.sf)
                (datasize t.sf - 1 - pos_part shift_amount)))
unfolding create_lsl_imm shift_left
create_lsl_imm-decode xd xn shift_amount e =
    let (t, et, e1) = >>=-eq-ok (parse_two 30 xd xn) _ e in
    let (u, eu, e2) = >>=-eq-ok (throw_if (not_position t.sf shift_amount) invalid_argument) _ e1 in
    let (el, small, wl) =
      position_lem t.sf shift_amount
        (throw_if-eq-ok (not_position t.sf shift_amount) invalid_argument eu) in
    let f = parse_two-Fits 30 xd xn (omega arith) et in
    let immr = (datasize t.sf - pos_part shift_amount) % datasize t.sf in
    let imms = datasize t.sf - 1 - pos_part shift_amount in
    let (word, ep, e3) = >>=-eq-ok (patch_bit_field 0x53000000 t.sf immr imms t.rn t.rd) _ e2 in
    let hr = immr_small t.sf (pos_part shift_amount) in
    let hs : imms < 64 = omega (arith, datasize-le t.sf) in
    let hn : t.rn ≤ 31 = omega (arith, f.rn_fits) in
    let hd : t.rd ≤ 31 = omega (arith, f.rd_fits) in
    let same_word =
      word_lem 0x53000000 t.sf immr imms t.rn t.rd hr hs hn hd (inl refl) refl refl ep in
    (
      t,
      et,
      el,
      small,
      ap decode (finish_bit_field-encoding OpType.lsl xd xn shift_amount word _ e3 ∙ same_word)
          ∙ decode_ubfm t.sf immr imms t.rn t.rd hr hs hn hd,
    )
