-- ===== src/Encoder/Memory/Decode.antt =====
-- The LDR and STR encoders make the loads and stores that they are named after.
use bcpl.Prelude.{
  ℕ, ◌+◌, ◌*◌, ◌%◌, ◌^◌, ◌<◌, ◌≡◌, ◌∙◌, ap, arith, Bool, false, true, Text, ok, invalid_argument,
  if◌then◌else◌, throw_if, >>=-eq-ok, throw_if-eq-ok, some, bit_or,
}
use bcpl.Prelude.Int.{ℤ, pos, negsuc, quot, wrap}
use bcpl.Prelude.Bits.{bit_or_fresh}
use bcpl.BitPatcher.Fields.{patch_fresh}
use bcpl.Instruction.{Instruction}
use bcpl.Arm64.{ldr_uimm, str_uimm, decode, decode_at, class_decode, load_store_uimm}
use bcpl.Encoder.Registers.{parse_register, parse_register-le}
use bcpl.Encoder.Operands.Fits.{bit, bit-le}
use bcpl.Encoder.Memory.{
  Access, parse_access, access_scale, not_offset, create_ldr_imm, create_str_imm,
}

record AccessFits (t : Access) : Type 0 where
  rt_fits : t.rt < 32
  rn_fits : t.rn < 32

parse_access-AccessFits : (xt xn : Text) {t : Access} → parse_access xt xn ≡ ok t → AccessFits t
unfolding parse_access
parse_access-AccessFits xt xn e =
    let (d, ed, e1) = >>=-eq-ok (parse_register true 31 xt) _ e in
    let (m, em, e2) = >>=-eq-ok (parse_register true 31 xn) _ e1 in
    ground (
      arith,
      parse_register-le true 31 xt (omega arith) ed,
      parse_register-le true 31 xn (omega arith) em,
    )

-- The byte offset of an immediate, and that it fits its twelve bits.
offset_lem :
    (sf : Bool) (immediate : ℤ)
    → not_offset sf immediate ≡ false
    → (let i = wrap 32 (quot immediate (access_scale sf)) in
        (i < 2 ^ 12) × (pos (access_scale sf * i) ≡ immediate))
offset_lem true (pos n) h = (ground arith, ap pos (ground arith))
offset_lem true (negsuc n) h = absurd (ground arith)
offset_lem false (pos n) h = (ground arith, ap pos (ground arith))
offset_lem false (negsuc n) h = absurd (ground arith)

access_word : ℕ → Access → ℕ → ℕ
access_word base t i = base + bit t.sf * 2 ^ 30 + i * 2 ^ 10 + t.rn * 2 ^ 5 + t.rt

decode_ldr :
    (t : Access) (i : ℕ)
    → AccessFits t
    → i < 2 ^ 12
    → decode (access_word 0xB9400000 t i) ≡ some (ldr_uimm t.sf t.rt t.rn i)
unfolding access_word class_decode load_store_uimm
decode_ldr t i f hi =
    let a = f.rt_fits in
    let b = f.rn_fits in
    decode_at (access_word 0xB9400000 t i) 50 (omega (arith, bit-le)) ∙ ground arith

decode_str :
    (t : Access) (i : ℕ)
    → AccessFits t
    → i < 2 ^ 12
    → decode (access_word 0xB9000000 t i) ≡ some (str_uimm t.sf t.rt t.rn i)
unfolding access_word class_decode load_store_uimm
decode_str t i f hi =
    let a = f.rt_fits in
    let b = f.rn_fits in
    decode_at (access_word 0xB9000000 t i) 50 (omega (arith, bit-le)) ∙ ground arith

-- Every word that the LDR (unsigned offset) encoder makes decodes to LDR of its register and base, at the
-- register's size, with the byte offset that was asked for.
pub create_ldr_imm-decode :
    (xt xn : Text) (immediate : ℤ) (variable_name : Text) {instr : Instruction}
    → create_ldr_imm xt xn immediate variable_name ≡ ok instr
    → (t : Access) × (i : ℕ) × (parse_access xt xn ≡ ok t)
      × (pos (access_scale t.sf * i) ≡ immediate)
      × (decode instr.encoding ≡ some (ldr_uimm t.sf t.rt t.rn i))
unfolding create_ldr_imm access_word
create_ldr_imm-decode xt xn immediate variable_name {instr} e =
    let (t, et, e1) = >>=-eq-ok (parse_access xt xn) _ e in
    let (u, e2, e3) = >>=-eq-ok (throw_if (not_offset t.sf immediate) invalid_argument) _ e1 in
    let f = parse_access-AccessFits xt xn et in
    let a = f.rt_fits in
    let b = f.rn_fits in
    let i = wrap 32 (quot immediate (access_scale t.sf)) in
    let (small, offset) =
      offset_lem t.sf immediate (throw_if-eq-ok (not_offset t.sf immediate) invalid_argument e2) in
    let base : (if t.sf then 0xF9400000 else 0xB9400000) ≡ 0xB9400000 + bit t.sf * 2 ^ 30 =
      ground arith in
    let shifted : i * 2 ^ 10 % 2 ^ 32 ≡ i * 2 ^ 10 = omega arith in
    let w0 = 0xB9400000 + bit t.sf * 2 ^ 30 in
    let w1 = w0 + i * 2 ^ 10 in
    let w2 = w1 + t.rn * 2 ^ 5 in
    let last : bit_or w2 t.rt ≡ w2 + t.rt =
      ap (λ v. bit_or w2 v) (omega arith)
      ∙ bit_or_fresh w2 t.rt 0 5 (omega (arith, bit-le)) a
      ∙ omega arith in
    let e4 =
      rw
        (
          base,
          shifted,
          bit_or_fresh w0 i 10 12 (omega (arith, bit-le)) small,
          bit_or_fresh w1 t.rn 5 5 (omega (arith, bit-le)) b,
          last,
        )
        at e3 in
    let same_word : instr.encoding ≡ access_word 0xB9400000 t i = ground arith in
    (t, i, et, offset, ap decode same_word ∙ decode_ldr t i f small)

-- Every word that the STR (unsigned offset) encoder makes decodes to STR of its register and base, at the
-- register's size, with the byte offset that was asked for.
pub create_str_imm-decode :
    (xt xn : Text) (immediate : ℤ) (variable_name : Text) {instr : Instruction}
    → create_str_imm xt xn immediate variable_name ≡ ok instr
    → (t : Access) × (i : ℕ) × (parse_access xt xn ≡ ok t)
      × (pos (access_scale t.sf * i) ≡ immediate)
      × (decode instr.encoding ≡ some (str_uimm t.sf t.rt t.rn i))
unfolding create_str_imm access_word
create_str_imm-decode xt xn immediate variable_name {instr} e =
    let (t, et, e1) = >>=-eq-ok (parse_access xt xn) _ e in
    let (u, e2, e3) = >>=-eq-ok (throw_if (not_offset t.sf immediate) invalid_argument) _ e1 in
    let f = parse_access-AccessFits xt xn et in
    let a = f.rt_fits in
    let b = f.rn_fits in
    let i = wrap 32 (quot immediate (access_scale t.sf)) in
    let (small, offset) =
      offset_lem t.sf immediate (throw_if-eq-ok (not_offset t.sf immediate) invalid_argument e2) in
    let base : (if t.sf then 0xF9000000 else 0xB9000000) ≡ 0xB9000000 + bit t.sf * 2 ^ 30 =
      ground arith in
    let w0 = 0xB9000000 + bit t.sf * 2 ^ 30 in
    let w1 = w0 + i * 2 ^ 10 in
    let w2 = w1 + t.rn * 2 ^ 5 in
    let e4 =
      rw
        (
          base,
          patch_fresh w0 i 10 12 (omega (arith, bit-le)) (omega arith) (omega arith) small
              (omega (arith, bit-le)),
          patch_fresh w1 t.rn 5 5 (omega (arith, bit-le)) (omega arith) (omega arith) b
              (omega (arith, bit-le)),
          patch_fresh w2 t.rt 0 5 (omega (arith, bit-le)) (omega arith) (omega arith) a
              (omega (arith, bit-le)),
        )
        at e3 in
    let same_word : instr.encoding ≡ access_word 0xB9000000 t i = ground arith in
    (t, i, et, offset, ap decode same_word ∙ decode_str t i f small)
