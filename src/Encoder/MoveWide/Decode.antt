-- ===== src/Encoder/MoveWide/Decode.antt =====
-- What the MOVZ and MOVK encoders make, by the instruction set.
use bcpl.Prelude.{
  ℕ, ◌+◌, ◌*◌, ◌/◌, ◌%◌, ◌^◌, ◌<◌, ◌≡◌, ◌∙◌, ap, arith, Bool, false, true, not, ◌&&◌, Text, codes,
  ok, invalid_argument, throw_if, >>=-eq-ok, throw_if-eq-ok, some,
}
use bcpl.Prelude.Int.{ℤ, pos, negsuc, quot, wrap}
use bcpl.BitPatcher.Fields.{patch_fresh}
use bcpl.Instruction.{Instruction, OpType}
use bcpl.Arm64.{movz, movk, decode, decode_at, class_decode, move_wide}
use bcpl.Encoder.Registers.{parse_register, parse_register-le}
use bcpl.Encoder.Operands.Fits.{bit, bit-le, patch_sf_lem}
use bcpl.Encoder.MoveWide.{is_shift, is_high_shift, move_wide_imm, create_movz_imm, create_movk_imm}

shift_cases : (shift : ℤ) → is_shift shift ≡ true → (hw : ℕ) × (hw < 4) × (shift ≡ pos (16 * hw))
shift_cases (pos n) h = (n / 16, ground arith, ap pos (ground arith))
shift_cases (negsuc n) h = absurd (ground arith)

abbrev wide_word : ℕ → Bool → ℕ → ℕ → ℕ → ℕ
wide_word base sf rd imm hw = base + bit sf * 2 ^ 31 + hw * 2 ^ 21 + imm * 2 ^ 5 + rd

-- The parts of an instruction that a move-wide encoder made.
pub record Wide (base : ℕ) (xd : Text) (imm : ℕ) (shift : ℤ) (instr : Instruction) : Type 0 where
  pub sf : Bool
  pub rd : ℕ
  pub hw : ℕ
  pub register : parse_register false 31 xd ≡ ok (rd, sf)
  pub rd_fits : rd < 32
  pub hw_fits : hw < 4
  pub amount : shift ≡ pos (16 * hw)
  pub high_is_64 : (not sf && is_high_shift shift) ≡ false
  pub word : instr.encoding ≡ wide_word base sf rd imm hw

move_wide_imm-Wide :
    (base : ℕ) (op : OpType) (mnemonic xd : Text) (imm : ℕ) (shift : ℤ) {instr : Instruction}
    → base % 2 ^ 23 ≡ 0
    → base < 2 ^ 31
    → imm < 2 ^ 16
    → move_wide_imm base op mnemonic xd imm shift ≡ ok instr
    → Wide base xd imm shift instr
unfolding move_wide_imm
move_wide_imm-Wide base op mnemonic xd imm shift {instr} hb hs hi e =
    let (u, e0, e1) = >>=-eq-ok (throw_if (not (is_shift shift)) invalid_argument) _ e in
    let (d, ed, e2) = >>=-eq-ok (parse_register false 31 xd) _ e1 in
    let (u', e3, e4) =
      >>=-eq-ok (throw_if (not d.1 && is_high_shift shift) invalid_argument) _ e2 in
    let fits = parse_register-le false 31 xd (omega arith) ed in
    let (hw, hh, es) =
      shift_cases shift
        (ground (arith, throw_if-eq-ok (not (is_shift shift)) invalid_argument e0)) in
    let same_hw : wrap 32 (quot shift 16) ≡ hw = rw es (omega arith) in
    let w0 = base + bit d.1 * 2 ^ 31 in
    let w1 = w0 + hw * 2 ^ 21 in
    let w2 = w1 + imm * 2 ^ 5 in
    let e5 =
      rw
        (
          same_hw,
          patch_sf_lem d.1 base hs,
          patch_fresh w0 hw 21 2 (omega (arith, bit-le)) (omega arith) (omega arith) (omega arith)
              (omega (arith, bit-le)),
          patch_fresh w1 imm 5 16 (omega (arith, bit-le)) (omega arith) (omega arith) (omega arith)
              (omega (arith, bit-le)),
          patch_fresh w2 d.0 0 5 (omega (arith, bit-le)) (omega arith) (omega arith) (omega arith)
              (omega (arith, bit-le)),
        )
        at e4 in
    let same_word : instr.encoding ≡ wide_word base d.1 d.0 imm hw = ground arith in
    record {
      sf = d.1;
      rd = d.0;
      hw = hw;
      register = ed;
      rd_fits = omega arith;
      hw_fits = hh;
      amount = es;
      high_is_64 = throw_if-eq-ok (not d.1 && is_high_shift shift) invalid_argument e3;
      word = same_word;
    }

decode_movz :
    (sf : Bool) (rd imm hw : ℕ)
    → rd < 32
    → imm < 2 ^ 16
    → hw < 4
    → decode (wide_word 0x52800000 sf rd imm hw) ≡ some (movz sf rd imm hw)
unfolding class_decode move_wide
decode_movz sf rd imm hw a b c =
    decode_at (wide_word 0x52800000 sf rd imm hw) 37 (omega (arith, bit-le)) ∙ ground arith

decode_movk :
    (sf : Bool) (rd imm hw : ℕ)
    → rd < 32
    → imm < 2 ^ 16
    → hw < 4
    → decode (wide_word 0x72800000 sf rd imm hw) ≡ some (movk sf rd imm hw)
unfolding class_decode move_wide
decode_movk sf rd imm hw a b c =
    decode_at (wide_word 0x72800000 sf rd imm hw) 37 (omega (arith, bit-le)) ∙ ground arith

-- The operands that MOVZ and MOVK were given, as fields.
pub record Operands (xd : Text) (shift : ℤ) : Type 0 where
  pub sf : Bool
  pub rd : ℕ
  pub hw : ℕ
  pub register : parse_register false 31 xd ≡ ok (rd, sf)
  pub hw_fits : hw < 4
  pub amount : shift ≡ pos (16 * hw)
  pub high_is_64 : (not sf && is_high_shift shift) ≡ false

-- Every word that the MOVZ encoder makes of a 16-bit immediate decodes to MOVZ of its destination and
-- immediate, shifted by the amount that was asked for, which is 0, 16, 32 or 48, and no more than 16 for a W
-- register.
pub create_movz_imm-decode :
    (xd : Text) (imm : ℕ) (shift : ℤ) {instr : Instruction}
    → imm < 2 ^ 16
    → create_movz_imm xd imm shift ≡ ok instr
    → (o : Operands xd shift) × (decode instr.encoding ≡ some (movz o.sf o.rd imm o.hw))
unfolding create_movz_imm
create_movz_imm-decode xd imm shift hi e =
    let w =
      move_wide_imm-Wide 0x52800000 OpType.movz (codes "MOVZ") xd imm shift (omega arith)
        (omega arith) hi e in
    (
      record {
        sf = w.sf;
        rd = w.rd;
        hw = w.hw;
        register = w.register;
        hw_fits = w.hw_fits;
        amount = w.amount;
        high_is_64 = w.high_is_64;
      },
      ap decode w.word ∙ decode_movz w.sf w.rd imm w.hw w.rd_fits hi w.hw_fits,
    )

-- Every word that the MOVK encoder makes of a 16-bit immediate decodes to MOVK of its destination and
-- immediate, shifted by the amount that was asked for, which is 0, 16, 32 or 48, and no more than 16 for a W
-- register.
pub create_movk_imm-decode :
    (xd : Text) (imm : ℕ) (shift : ℤ) {instr : Instruction}
    → imm < 2 ^ 16
    → create_movk_imm xd imm shift ≡ ok instr
    → (o : Operands xd shift) × (decode instr.encoding ≡ some (movk o.sf o.rd imm o.hw))
unfolding create_movk_imm
create_movk_imm-decode xd imm shift hi e =
    let w =
      move_wide_imm-Wide 0x72800000 OpType.movk (codes "MOVK") xd imm shift (omega arith)
        (omega arith) hi e in
    (
      record {
        sf = w.sf;
        rd = w.rd;
        hw = w.hw;
        register = w.register;
        hw_fits = w.hw_fits;
        amount = w.amount;
        high_is_64 = w.high_is_64;
      },
      ap decode w.word ∙ decode_movk w.sf w.rd imm w.hw w.rd_fits hi w.hw_fits,
    )
