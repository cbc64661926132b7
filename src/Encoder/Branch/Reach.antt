-- ===== src/Encoder/Branch/Reach.antt =====
-- Encoding and relocation together: the linked word of a branch or of an address goes to the target.
use bcpl.Prelude.{
  ℕ, ◌+◌, ◌-◌, ◌*◌, ◌/◌, ◌%◌, ◌^◌, ◌<◌, ◌≤◌, ◌≡◌, sym, ◌∙◌, ap, arith, Bool, Text, codes, ok,
  >>=-eq-ok, some,
}
use bcpl.BitPatcher.Fields.{patch_fresh}
use bcpl.Instruction.{Instruction, OpType, RelocationType}
use bcpl.Arm64.{b, bl, b_cond, cbz, cbnz, decode, decode-branch, branch}
use bcpl.Linker.{relocate_word}
use bcpl.Linker.Relocate.{branch_to, relocate_word-branch_26, relocate_word-branch_19}
use bcpl.Encoder.Registers.{get_reg_encoding, get_reg_encoding-le}
use bcpl.Encoder.Operands.Fits.{bit, bit-le, patch_sf_lem}
use bcpl.Encoder.Branch.{
  create_branch_unconditional, create_branch_with_link, create_branch_conditional,
  get_condition_code, get_condition_code-lt, opt_create_cbz, opt_create_cbnz, compare_and_branch,
  starts_with_x,
}

decode_b : (w : ℕ) → w / 2 ^ 26 ≡ 5 → decode w ≡ some (b (w % 2 ^ 26))
unfolding branch
decode_b w h = decode-branch w (omega arith) ∙ ground arith

decode_bl : (w : ℕ) → w / 2 ^ 26 ≡ 37 → decode w ≡ some (bl (w % 2 ^ 26))
unfolding branch
decode_bl w h = decode-branch w (omega arith) ∙ ground arith

decode_b_cond :
    (w c : ℕ)
    → w / 2 ^ 24 ≡ 0x54
    → w % 2 ^ 5 ≡ c
    → c < 16
    → decode w ≡ some (b_cond c (w / 2 ^ 5 % 2 ^ 19))
unfolding branch
decode_b_cond w c h hc lc = decode-branch w (omega arith) ∙ ground arith

decode_cbz :
    (sf : Bool) (w rt : ℕ)
    → w / 2 ^ 24 ≡ 0x34 + bit sf * 128
    → w % 2 ^ 5 ≡ rt
    → decode w ≡ some (cbz sf rt (w / 2 ^ 5 % 2 ^ 19))
unfolding branch
decode_cbz sf w rt h hr = decode-branch w (omega (arith, bit-le)) ∙ ground arith

decode_cbnz :
    (sf : Bool) (w rt : ℕ)
    → w / 2 ^ 24 ≡ 0x35 + bit sf * 128
    → w % 2 ^ 5 ≡ rt
    → decode w ≡ some (cbnz sf rt (w / 2 ^ 5 % 2 ^ 19))
unfolding branch
decode_cbnz sf w rt h hr = decode-branch w (omega (arith, bit-le)) ∙ ground arith

-- The relocation of an instruction whose kind and word are known.
pub relocated :
    (instr : Instruction) (address target : ℕ) {kind : RelocationType} {v w : ℕ}
    → instr.relocation ≡ kind
    → instr.encoding ≡ v
    → relocate_word kind v address target ≡ ok w
    → relocate_word instr.relocation instr.encoding address target ≡ ok w
relocated instr address target {kind} ek ev er =
    ap (λ k. relocate_word k instr.encoding address target) ek
    ∙ ap (λ v. relocate_word kind v address target) ev
    ∙ er

pub unrelocated :
    (instr : Instruction) (address target : ℕ) {kind : RelocationType} {v w : ℕ}
    → instr.relocation ≡ kind
    → instr.encoding ≡ v
    → relocate_word instr.relocation instr.encoding address target ≡ ok w
    → relocate_word kind v address target ≡ ok w
unrelocated instr address target {kind} ek ev er =
    sym (
      ap (λ k. relocate_word k instr.encoding address target) ek
      ∙ ap (λ v. relocate_word kind v address target) ev)
    ∙ er

module _ (address target : ℕ) (address_aligned : address % 4 ≡ 0) (target_aligned : target % 4 ≡ 0)
    (address_fits : address < 2 ^ 64) (target_fits : target < 2 ^ 64) where
  module _ (near : target ≤ address + 4 * (2 ^ 25 - 1)) (far : address ≤ target + 4 * 2 ^ 25) where
    -- A B instruction, relocated with a target at most 2^25 words back or 2^25 - 1 words forward, decodes to
    -- a B that goes to the target. Both addresses are multiples of 4 below 2^64.
    pub create_branch_unconditional-reaches :
        (label_name : Text)
        → (w : ℕ) × (imm : ℕ) × (let instr = create_branch_unconditional label_name in
            relocate_word instr.relocation instr.encoding address target ≡ ok w)
          × (decode w ≡ some (b imm))
          × (branch_to 26 address imm ≡ target)
    unfolding create_branch_unconditional
    create_branch_unconditional-reaches label_name =
        let (w, e, reached, kept) =
          relocate_word-branch_26 0x14000000 address target (omega arith) address_aligned
            target_aligned address_fits target_fits near far in
        (w, w % 2 ^ 26, e, decode_b w (omega (arith, kept)), reached)

    -- A BL instruction, relocated with a target at most 2^25 words back or 2^25 - 1 words forward, decodes
    -- to a BL that goes to the target. Both addresses are multiples of 4 below 2^64.
    pub create_branch_with_link-reaches :
        (label_name : Text)
        → (w : ℕ) × (imm : ℕ) × (let instr = create_branch_with_link label_name in
            relocate_word instr.relocation instr.encoding address target ≡ ok w)
          × (decode w ≡ some (bl imm))
          × (branch_to 26 address imm ≡ target)
    unfolding create_branch_with_link
    create_branch_with_link-reaches label_name =
        let (w, e, reached, kept) =
          relocate_word-branch_26 0x94000000 address target (omega arith) address_aligned
            target_aligned address_fits target_fits near far in
        (w, w % 2 ^ 26, e, decode_bl w (omega (arith, kept)), reached)

  module _ (near : target ≤ address + 4 * (2 ^ 18 - 1)) (far : address ≤ target + 4 * 2 ^ 18) where
    -- A conditional branch that was encoded, relocated with a target at most 2^18 words back or 2^18 - 1
    -- words forward, decodes to a B.cond with the code of its condition that goes to the target. Both
    -- addresses are multiples of 4 below 2^64.
    pub create_branch_conditional-reaches :
        (condition label_name : Text) {instr : Instruction}
        → create_branch_conditional condition label_name ≡ ok instr
        → (w : ℕ) × (c : ℕ) × (imm : ℕ) × (relocate_word instr.relocation instr.encoding address
              target
            ≡ ok w)
          × (get_condition_code condition ≡ ok c)
          × (decode w ≡ some (b_cond c imm))
          × (branch_to 19 address imm ≡ target)
    unfolding create_branch_conditional
    create_branch_conditional-reaches condition label_name {instr} e =
        let (c, ec, e1) = >>=-eq-ok (get_condition_code condition) _ e in
        let small = get_condition_code-lt condition ec in
        let e2 =
          rw
            (patch_fresh 0x54000000 c 0 4 (omega arith) (omega arith) (omega arith) (omega arith)
              (omega arith))
            at e1 in
        let same_word : instr.encoding ≡ 0x54000000 + c = ground arith in
        let same_kind : instr.relocation ≡ RelocationType.pc_relative_19_bit_offset =
          ground arith in
        let (w, er, reached, high, low) =
          relocate_word-branch_19 (0x54000000 + c) address target (omega arith) address_aligned
            target_aligned address_fits target_fits near far in
        (
          w,
          c,
          w / 2 ^ 5 % 2 ^ 19,
          relocated instr address target same_kind same_word er,
          ec,
          decode_b_cond w c (omega (arith, high)) (omega (arith, low)) small,
          reached,
        )

    compare_and_branch-reaches :
        (base : ℕ) (op : OpType) (mnemonic xt label_name : Text) {instr : Instruction}
        → base % 2 ^ 5 ≡ 0
        → base < 2 ^ 31
        → compare_and_branch base op mnemonic xt label_name ≡ ok instr
        → (w : ℕ) × (rt : ℕ) × (relocate_word instr.relocation instr.encoding address target ≡ ok w)
          × (get_reg_encoding xt ≡ ok rt)
          × (branch_to 19 address (w / 2 ^ 5 % 2 ^ 19) ≡ target)
          × (w / 2 ^ 24 ≡ (base + bit (starts_with_x xt) * 2 ^ 31) / 2 ^ 24)
          × (w % 2 ^ 5 ≡ rt)
    unfolding compare_and_branch
    compare_and_branch-reaches base op mnemonic xt label_name {instr} hb hs e =
        let (rt, et, e1) = >>=-eq-ok (get_reg_encoding xt) _ e in
        let small = get_reg_encoding-le xt et in
        let w0 = base + bit (starts_with_x xt) * 2 ^ 31 in
        let e2 =
          rw
            (
              patch_sf_lem (starts_with_x xt) base hs,
              patch_fresh w0 rt 0 5 (omega (arith, bit-le)) (omega arith) (omega arith)
                  (omega arith) (omega (arith, bit-le)),
            )
            at e1 in
        let same_word : instr.encoding ≡ w0 + rt = ground arith in
        let same_kind : instr.relocation ≡ RelocationType.pc_relative_19_bit_offset =
          ground arith in
        let (w, er, reached, high, low) =
          relocate_word-branch_19 (w0 + rt) address target (omega (arith, bit-le)) address_aligned
            target_aligned address_fits target_fits near far in
        (
          w,
          rt,
          relocated instr address target same_kind same_word er,
          et,
          reached,
          omega (arith, high, bit-le),
          omega (arith, low, bit-le),
        )

    -- A CBZ that was encoded, relocated with a target at most 2^18 words back or 2^18 - 1 words forward,
    -- decodes to a CBZ of its register that goes to the target, of 64 bits exactly when the register's name
    -- starts with an x. Both addresses are multiples of 4 below 2^64.
    pub opt_create_cbz-reaches :
        (xt label_name : Text) {instr : Instruction}
        → opt_create_cbz xt label_name ≡ ok instr
        → (w : ℕ) × (rt : ℕ) × (imm : ℕ) × (relocate_word instr.relocation instr.encoding address
              target
            ≡ ok w)
          × (get_reg_encoding xt ≡ ok rt)
          × (decode w ≡ some (cbz (starts_with_x xt) rt imm))
          × (branch_to 19 address imm ≡ target)
    unfolding opt_create_cbz
    opt_create_cbz-reaches xt label_name e =
        let (w, rt, er, et, reached, high, low) =
          compare_and_branch-reaches 0x34000000 OpType.cbz (codes "CBZ") xt label_name (omega arith)
            (omega arith) e in
        (
          w,
          rt,
          w / 2 ^ 5 % 2 ^ 19,
          er,
          et,
          decode_cbz (starts_with_x xt) w rt (omega (arith, high, bit-le)) low,
          reached,
        )

    -- A CBNZ that was encoded, relocated with a target at most 2^18 words back or 2^18 - 1 words forward,
    -- decodes to a CBNZ of its register that goes to the target, of 64 bits exactly when the register's
    -- name starts with an x. Both addresses are multiples of 4 below 2^64.
    pub opt_create_cbnz-reaches :
        (xt label_name : Text) {instr : Instruction}
        → opt_create_cbnz xt label_name ≡ ok instr
        → (w : ℕ) × (rt : ℕ) × (imm : ℕ) × (relocate_word instr.relocation instr.encoding address
              target
            ≡ ok w)
          × (get_reg_encoding xt ≡ ok rt)
          × (decode w ≡ some (cbnz (starts_with_x xt) rt imm))
          × (branch_to 19 address imm ≡ target)
    unfolding opt_create_cbnz
    opt_create_cbnz-reaches xt label_name e =
        let (w, rt, er, et, reached, high, low) =
          compare_and_branch-reaches 0x35000000 OpType.cbnz (codes "CBNZ") xt label_name
            (omega arith) (omega arith) e in
        (
          w,
          rt,
          w / 2 ^ 5 % 2 ^ 19,
          er,
          et,
          decode_cbnz (starts_with_x xt) w rt (omega (arith, high, bit-le)) low,
          reached,
        )
