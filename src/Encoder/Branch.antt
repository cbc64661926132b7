-- ===== src/Encoder/Branch.antt =====
-- Instructions that the linker completes: branches (B, BL, B.cond, CBZ, CBNZ) and the pair ADRP, ADD
-- that makes an address; and branches to a register (BR, BLR, RET).
pub mod Address
pub mod Reach
pub mod Register
use bcpl.Prelude.{
  ℕ, Bool-cases, inl, inr, ◌≤◌, ◌<◌, ◌≡◌, refl, arith, Bool, true, false, ltb, ◌&&◌, [], ◌∷◌, ◌++◌,
  map, Option, none, some, ◌==◌, ◌||◌, Text, codes, text_eq, if◌then◌else◌, Result, ok, err,
  invalid_argument, ◌>>=◌,
}
use bcpl.Prelude.Int.{pos}
use bcpl.Prelude.Decimal.{stoul}
use bcpl.Prelude.Dict.{Dict, lookup}
use bcpl.BitPatcher.{patch}
use bcpl.Instruction.{Instruction, instruction, OpType, RelocationType, ConditionCode}
use bcpl.RuntimeManager.{to_upper}
use bcpl.Encoder.Registers.{lower, register_number, get_reg_encoding}
use bcpl.Encoder.Operands.{patch_sf}

unfoldable pub create_branch_unconditional : Text → Instruction
create_branch_unconditional label_name =
    record (instruction 0x14000000 (codes "B " ++ label_name)) {
      opcode = OpType.b;
      relocation = RelocationType.pc_relative_26_bit_offset;
      target_label = label_name;
    }

unfoldable pub create_branch_with_link : Text → Instruction
create_branch_with_link label_name = record (instruction 0x94000000 (codes "BL " ++ label_name)) {
  opcode = OpType.bl;
  relocation = RelocationType.pc_relative_26_bit_offset;
  target_label = label_name;
}

-- The table of get_condition_code.
abbrev pub cond_map : Dict ℕ
cond_map =
    (codes "EQ", 0)
    ∷ (codes "NE", 1)
    ∷ (codes "CS", 2)
    ∷ (codes "HS", 2)
    ∷ (codes "CC", 3)
    ∷ (codes "LO", 3)
    ∷ (codes "MI", 4)
    ∷ (codes "PL", 5)
    ∷ (codes "VS", 6)
    ∷ (codes "VC", 7)
    ∷ (codes "HI", 8)
    ∷ (codes "LS", 9)
    ∷ (codes "GE", 10)
    ∷ (codes "LT", 11)
    ∷ (codes "GT", 12)
    ∷ (codes "LE", 13)
    ∷ (codes "AL", 14)
    ∷ []

abbrev pub found_code : Option ℕ → Result ℕ
found_code none = err invalid_argument
found_code (some n) = ok n

unfoldable pub get_condition_code : Text → Result ℕ
get_condition_code cond = found_code (lookup (to_upper cond) cond_map)

abbrev all_lt : ℕ → Dict ℕ → Bool
all_lt bound [] = true
all_lt bound ((k, v) ∷ m) = ltb v bound && all_lt bound m

lookup-lt :
    (bound : ℕ) (k : Text) (m : Dict ℕ) {v : ℕ}
    → all_lt bound m ≡ true
    → lookup k m ≡ some v
    → v < bound
unfolding lookup
lookup-lt bound k [] h e = ground arith
lookup-lt bound k ((j, w) ∷ m) h e = elim (Bool-cases (text_eq j k)) [
  | inl t ↦ let here : some w ≡ some _ = rw t at e in ground arith
  | inr t ↦ lookup-lt bound k m (ground arith) (rw t at e)
]

found_code-eq : (o : Option ℕ) {c : ℕ} → found_code o ≡ ok c → o ≡ some c
found_code-eq none e = cc
found_code-eq (some n) e = cc

-- A condition code fits its four bits.
pub get_condition_code-lt : (cond : Text) {c : ℕ} → get_condition_code cond ≡ ok c → c < 16
unfolding get_condition_code
get_condition_code-lt cond e =
    lookup-lt 16 (to_upper cond) cond_map refl (found_code-eq (lookup (to_upper cond) cond_map) e)

-- The names that `stringToConditionCode` knows.
abbrev pub condition_names : Dict ConditionCode
condition_names =
    (codes "EQ", ConditionCode.eq)
    ∷ (codes "NE", ConditionCode.ne)
    ∷ (codes "CS", ConditionCode.cs)
    ∷ (codes "CC", ConditionCode.cc_)
    ∷ (codes "MI", ConditionCode.mi)
    ∷ (codes "PL", ConditionCode.pl)
    ∷ (codes "VS", ConditionCode.vs)
    ∷ (codes "VC", ConditionCode.vc)
    ∷ (codes "HI", ConditionCode.hi)
    ∷ (codes "LS", ConditionCode.ls)
    ∷ (codes "GE", ConditionCode.ge)
    ∷ (codes "LT", ConditionCode.lt)
    ∷ (codes "GT", ConditionCode.gt)
    ∷ (codes "LE", ConditionCode.le)
    ∷ (codes "AL", ConditionCode.al)
    ∷ (codes "NV", ConditionCode.nv)
    ∷ []

abbrev pub or_unknown : Option ConditionCode → ConditionCode
or_unknown none = ConditionCode.unknown
or_unknown (some c) = c

unfoldable pub string_to_condition_code : Text → ConditionCode
string_to_condition_code cond = or_unknown (lookup (to_upper cond) condition_names)

unfoldable pub create_branch_conditional : Text → Text → Result Instruction
unfolding get_condition_code string_to_condition_code
create_branch_conditional condition label_name = do
  cond_code ← get_condition_code condition
  word ← patch 0x54000000 cond_code (pos 0) (pos 4)
  ok (record (instruction word (codes "B." ++ (to_upper condition ++ (codes " " ++ label_name)))) {
    opcode = OpType.b_cond;
    relocation = RelocationType.pc_relative_19_bit_offset;
    target_label = label_name;
    cond = string_to_condition_code condition;
  })

-- `xt[0] == 'x' || xt[0] == 'X'`
abbrev pub starts_with_x : Text → Bool
starts_with_x [] = false
starts_with_x (c ∷ cs) = c == b'x' || c == b'X'

-- CBZ and CBNZ differ in their base opcode and their name.
unfoldable pub compare_and_branch : ℕ → OpType → Text → Text → Text → Result Instruction
unfolding patch_sf
compare_and_branch base op mnemonic xt label_name = do
  rt_num ← get_reg_encoding xt
  sized ← patch_sf (starts_with_x xt) base
  word ← patch sized rt_num (pos 0) (pos 5)
  src1 ← get_reg_encoding xt
  ok (record (instruction word (mnemonic ++ (codes " " ++ (xt ++ (codes ", " ++ label_name))))) {
    opcode = op;
    src_reg1 = pos src1;
    relocation = RelocationType.pc_relative_19_bit_offset;
    target_label = label_name;
  })

unfoldable pub opt_create_cbz : Text → Text → Result Instruction
unfolding compare_and_branch
opt_create_cbz = compare_and_branch 0x34000000 OpType.cbz (codes "CBZ")

unfoldable pub opt_create_cbnz : Text → Text → Result Instruction
unfolding compare_and_branch
opt_create_cbnz = compare_and_branch 0x35000000 OpType.cbnz (codes "CBNZ")

-- The lambda of ADRP, BR and BLR: an X register with a number up to `limit`.
unfoldable pub parse_x_register : ℕ → Text → Result ℕ
unfolding lower
parse_x_register limit [] = err invalid_argument
parse_x_register limit (c ∷ digits) =
    if lower c == b'x'
    then register_number limit (stoul (map lower digits))
    else err invalid_argument

unfoldable pub create_adrp : Text → Text → Result Instruction
unfolding parse_x_register
create_adrp xd label_name = do
  rd_num ← parse_x_register 30 xd
  word ← patch 0x90000000 rd_num (pos 0) (pos 5)
  dest ← get_reg_encoding xd
  ok (record (instruction word (codes "ADRP " ++ (xd ++ (codes ", " ++ label_name)))) {
    opcode = OpType.adrp;
    dest_reg = pos dest;
    relocation = RelocationType.page_21_bit_pc_relative;
    target_label = label_name;
  })

prefixed_x : Text → Result ℕ
prefixed_x [] = err invalid_argument
prefixed_x (c ∷ digits) =
    if lower c == b'x' then register_number 31 (stoul digits) else err invalid_argument

-- The lambda of create_add_literal: an X register, XZR or SP.
unfoldable pub parse_address_register : Text → Result ℕ
unfolding lower prefixed_x
parse_address_register reg_str =
    let lower_reg = map lower reg_str in
    if text_eq lower_reg (codes "xzr") || text_eq lower_reg (codes "sp")
    then ok 31
    else prefixed_x reg_str

prefixed_x-le : (s : Text) {n : ℕ} → prefixed_x s ≡ ok n → n ≤ 31
unfolding prefixed_x
prefixed_x-le [] e = ground arith
prefixed_x-le (c ∷ s) e = ground arith

pub parse_address_register-le : (s : Text) {n : ℕ} → parse_address_register s ≡ ok n → n ≤ 31
unfolding parse_address_register
parse_address_register-le s e = ground (arith, prefixed_x-le s)

unfoldable pub create_add_literal : Text → Text → Text → Result Instruction
unfolding parse_address_register
create_add_literal xd xn label_name = do
  rd_num ← parse_address_register xd
  rn_num ← parse_address_register xn
  with_rn ← patch 0x91000000 rn_num (pos 5) (pos 5)
  word ← patch with_rn rd_num (pos 0) (pos 5)
  dest ← get_reg_encoding xd
  src1 ← get_reg_encoding xn
  ok
      (record (instruction word
        (codes "ADD " ++ (xd ++ (codes ", " ++ (xn ++ (codes ", #:lo12:" ++ label_name)))))) {
          opcode = OpType.add;
          dest_reg = pos dest;
          src_reg1 = pos src1;
          uses_immediate = true;
          relocation = RelocationType.add_12_bit_unsigned_offset;
          target_label = label_name;
        })

unfoldable pub branch_register : ℕ → OpType → Text → Text → Result Instruction
unfolding parse_x_register
branch_register base op mnemonic xn = do
  rn_num ← parse_x_register 31 xn
  word ← patch base rn_num (pos 5) (pos 5)
  src1 ← get_reg_encoding xn
  ok (record (instruction word (mnemonic ++ (codes " " ++ xn))) {
    opcode = op;
    src_reg1 = pos src1;
  })

unfoldable pub create_br_reg : Text → Result Instruction
unfolding branch_register
create_br_reg = branch_register 0xD61F0000 OpType.br (codes "BR")

unfoldable pub create_branch_with_link_register : Text → Result Instruction
unfolding branch_register
create_branch_with_link_register = branch_register 0xD63F0000 OpType.blr (codes "BLR")

unfoldable pub create_return : Result Instruction
create_return = do
  word ← patch 0xD65F0000 30 (pos 5) (pos 5)
  ok (record (instruction word (codes "RET")) { opcode = OpType.ret; src_reg1 = pos 30 })
