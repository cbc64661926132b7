-- ===== src/Encoder/Branch/Register.antt =====
-- Branches to a register.
use bcpl.Prelude.{
  ℕ, ◌+◌, ◌*◌, ◌%◌, ◌^◌, ◌<◌, ◌≤◌, ◌≡◌, ◌∙◌, ap, arith, Text, codes, ok, >>=-eq-ok, some, [], ◌∷◌,
}
use bcpl.BitPatcher.Fields.{patch_fresh}
use bcpl.Instruction.{Instruction, OpType}
use bcpl.Arm64.{br, blr, decode, decode-branch, branch}
use bcpl.Encoder.Branch.{
  parse_x_register, branch_register, create_br_reg, create_branch_with_link_register,
}

parse_x_register-le : (s : Text) {n : ℕ} → parse_x_register 31 s ≡ ok n → n ≤ 31
unfolding parse_x_register
parse_x_register-le [] e = ground arith
parse_x_register-le (c ∷ s) e = ground arith

branch_register-word :
    (base : ℕ) (op : OpType) (mnemonic xn : Text) {instr : Instruction}
    → base % 2 ^ 10 ≡ 0
    → base < 2 ^ 32
    → branch_register base op mnemonic xn ≡ ok instr
    → (n : ℕ) × (parse_x_register 31 xn ≡ ok n) × (n < 32) × (instr.encoding ≡ base + n * 2 ^ 5)
unfolding branch_register
branch_register-word base op mnemonic xn {instr} hb hs e =
    let (n, en, e1) = >>=-eq-ok (parse_x_register 31 xn) _ e in
    let small = parse_x_register-le xn en in
    let e2 =
      rw (patch_fresh base n 5 5 (omega arith) (omega arith) (omega arith) (omega arith) hs) at
        e1 in
    (n, en, omega arith, ground arith)

decode_br : (n : ℕ) → n < 32 → decode (0xD61F0000 + n * 2 ^ 5) ≡ some (br n)
unfolding branch
decode_br n h = decode-branch (0xD61F0000 + n * 2 ^ 5) (omega arith) ∙ ground arith

decode_blr : (n : ℕ) → n < 32 → decode (0xD63F0000 + n * 2 ^ 5) ≡ some (blr n)
unfolding branch
decode_blr n h = decode-branch (0xD63F0000 + n * 2 ^ 5) (omega arith) ∙ ground arith

-- Every word that the BR encoder makes decodes to BR of its register.
pub create_br_reg-decode :
    (xn : Text) {instr : Instruction}
    → create_br_reg xn ≡ ok instr
    → (n : ℕ) × (parse_x_register 31 xn ≡ ok n) × (decode instr.encoding ≡ some (br n))
unfolding create_br_reg
create_br_reg-decode xn e =
    let (n, en, small, same_word) =
      branch_register-word 0xD61F0000 OpType.br (codes "BR") xn (omega arith) (omega arith) e in
    (n, en, ap decode same_word ∙ decode_br n small)

-- Every word that the BLR encoder makes decodes to BLR of its register.
pub create_branch_with_link_register-decode :
    (xn : Text) {instr : Instruction}
    → create_branch_with_link_register xn ≡ ok instr
    → (n : ℕ) × (parse_x_register 31 xn ≡ ok n) × (decode instr.encoding ≡ some (blr n))
unfolding create_branch_with_link_register
create_branch_with_link_register-decode xn e =
    let (n, en, small, same_word) =
      branch_register-word 0xD63F0000 OpType.blr (codes "BLR") xn (omega arith) (omega arith) e in
    (n, en, ap decode same_word ∙ decode_blr n small)
