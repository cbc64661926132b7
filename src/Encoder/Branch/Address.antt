-- ===== src/Encoder/Branch/Address.antt =====
-- ADRP and the ADD behind it: encoding and relocation together make the address of the target.
use bcpl.Prelude.{
  ℕ, ◌+◌, ◌*◌, ◌/◌, ◌%◌, ◌^◌, ◌<◌, ◌≤◌, ◌≡◌, ◌∙◌, arith, true, Text, ok, >>=-eq-ok, some, [], ◌∷◌,
}
use bcpl.BitPatcher.Fields.{patch_fresh}
use bcpl.Instruction.{Instruction, RelocationType}
use bcpl.Arm64.{
  adrp, add_imm, decode, decode_at, decode-pc_relative, class_decode, pc_relative, add_sub_imm,
}
use bcpl.Linker.{relocate_word}
use bcpl.Linker.RelocateAddress.{adrp_page, adrp_imm, relocate_word-adrp_add}
use bcpl.Encoder.Branch.{
  parse_x_register, parse_address_register, parse_address_register-le, create_adrp,
  create_add_literal,
}
use bcpl.Encoder.Branch.Reach.{unrelocated}

decode_adrp :
    (w rd : ℕ)
    → w / 2 ^ 31 ≡ 1
    → w / 2 ^ 24 % 2 ^ 5 ≡ 16
    → w % 2 ^ 5 ≡ rd
    → decode w ≡ some (adrp rd (adrp_imm w))
unfolding pc_relative
decode_adrp w rd ha hb hr = decode-pc_relative w hb ∙ ground arith

decode_add :
    (x rd rn : ℕ)
    → x / 2 ^ 22 ≡ 0x244
    → x % 2 ^ 10 ≡ rn * 2 ^ 5 + rd
    → rd < 32
    → rn < 32
    → decode x ≡ some (add_imm true rd rn (x / 2 ^ 10 % 2 ^ 12))
unfolding class_decode add_sub_imm
decode_add x rd rn hx hl hd hn = decode_at x 34 (omega arith) ∙ ground arith

parse_x_register-le : (s : Text) {n : ℕ} → parse_x_register 30 s ≡ ok n → n ≤ 31
unfolding parse_x_register
parse_x_register-le [] e = ground arith
parse_x_register-le (c ∷ s) e = ground arith

create_adrp-word :
    (xd label_name : Text) {instr : Instruction}
    → create_adrp xd label_name ≡ ok instr
    → (rd : ℕ) × (parse_x_register 30 xd ≡ ok rd)
      × (rd < 32)
      × (instr.encoding ≡ 0x90000000 + rd)
      × (instr.relocation ≡ RelocationType.page_21_bit_pc_relative)
unfolding create_adrp
create_adrp-word xd label_name e =
    let (rd, er, e1) = >>=-eq-ok (parse_x_register 30 xd) _ e in
    let small = parse_x_register-le xd er in
    let e2 =
      rw
        (patch_fresh 0x90000000 rd 0 5 (omega arith) (omega arith) (omega arith) (omega arith)
          (omega arith))
        at e1 in
    (rd, er, omega arith, ground arith, ground arith)

create_add_literal-word :
    (xd xn label_name : Text) {instr : Instruction}
    → create_add_literal xd xn label_name ≡ ok instr
    → (rd : ℕ) × (rn : ℕ) × (parse_address_register xd ≡ ok rd)
      × (parse_address_register xn ≡ ok rn)
      × (rd < 32)
      × (rn < 32)
      × (instr.encoding ≡ 0x91000000 + rn * 2 ^ 5 + rd)
      × (instr.relocation ≡ RelocationType.add_12_bit_unsigned_offset)
unfolding create_add_literal
create_add_literal-word xd xn label_name e =
    let (rd, ed, e1) = >>=-eq-ok (parse_address_register xd) _ e in
    let (rn, en, e2) = >>=-eq-ok (parse_address_register xn) _ e1 in
    let sd = parse_address_register-le xd ed in
    let sn = parse_address_register-le xn en in
    let w0 = 0x91000000 + rn * 2 ^ 5 in
    let e3 =
      rw
        (
          patch_fresh 0x91000000 rn 5 5 (omega arith) (omega arith) (omega arith) (omega arith)
              (omega arith),
          patch_fresh w0 rd 0 5 (omega arith) (omega arith) (omega arith) (omega arith)
              (omega arith),
        )
        at e2 in
    (rd, rn, ed, en, omega arith, omega arith, ground arith, ground arith)

-- An ADRP and an ADD (literal) that were encoded, relocated against one target, decode to ADRP and to a
-- 64-bit ADD of an immediate, of the registers that they were given, and the ADRP's page and the ADD's
-- immediate add up to the target. The addresses are below 2^64, and the target's page is less than
-- 2^20 pages forward or at most 2^20 back from the ADRP's.
pub create_adrp-create_add_literal :
    (xd label_name xe xn label_name' : Text) (address add_address target : ℕ)
    {instr add_instr : Instruction} {w x : ℕ}
    → address < 2 ^ 64
    → target < 2 ^ 64
    → target / 2 ^ 12 < address / 2 ^ 12 + 2 ^ 20
    → address / 2 ^ 12 ≤ target / 2 ^ 12 + 2 ^ 20
    → create_adrp xd label_name ≡ ok instr
    → create_add_literal xe xn label_name' ≡ ok add_instr
    → relocate_word instr.relocation instr.encoding address target ≡ ok w
    → relocate_word add_instr.relocation add_instr.encoding add_address target ≡ ok x
    → (rd : ℕ) × (re : ℕ) × (rn : ℕ) × (page : ℕ) × (low : ℕ) × (parse_x_register 30 xd ≡ ok rd)
      × (parse_address_register xe ≡ ok re)
      × (parse_address_register xn ≡ ok rn)
      × (decode w ≡ some (adrp rd page))
      × (decode x ≡ some (add_imm true re rn low))
      × (adrp_page address page + low ≡ target)
create_adrp-create_add_literal xd label_name xe xn label_name' address add_address target {instr}
      {add_instr} {w} {x} la lt near far e f ew ex =
    let (rd, er, sd, vw, kw) = create_adrp-word xd label_name e in
    let (re, rn, ee, en, se, sn, vx, kx) = create_add_literal-word xe xn label_name' f in
    let (sum, ha, hb, hc, hd, he) =
      relocate_word-adrp_add (0x90000000 + rd) (0x91000000 + rn * 2 ^ 5 + re) address add_address
        target (omega arith) (omega arith) la lt near far
        (unrelocated instr address target kw vw ew)
        (unrelocated add_instr add_address target kx vx ex) in
    (
      rd,
      re,
      rn,
      adrp_imm w,
      x / 2 ^ 10 % 2 ^ 12,
      er,
      ee,
      en,
      decode_adrp w rd (omega (arith, hc)) (omega (arith, hb)) (omega (arith, ha)),
      decode_add x re rn (omega (arith, he)) (omega (arith, hd)) se sn,
      sum,
    )
