-- ===== src/Encoder/Conditional.antt =====
-- Conditional selects: encoders/enc_create_cset.cpp, enc_create_csetm.cpp, the abbreviations
-- enc_create_cset_eq.cpp, enc_create_csetm_eq.cpp and enc_create_csetm_ne.cpp, and
-- opt_create_csinv.cpp; and the fixed words of enc_create_nop.cpp and enc_create_dmb.cpp.
use bcpl.Prelude.{
  ℕ, ◌+◌, ◌-◌, ◌%◌, Bool, false, not, same, ◌&&◌, ◌||◌, ◌==◌, ◌++◌, Text, codes, text_eq,
  if◌then◌else◌, Result, ok, invalid_argument, ◌>>=◌, ◌>>◌, throw_if,
}
use bcpl.Prelude.Int.{pos}
use bcpl.BitPatcher.{patch}
use bcpl.Instruction.{Instruction, instruction, OpType}
use bcpl.RuntimeManager.{to_upper}
use bcpl.Encoder.Registers.{parse_register, get_reg_encoding}
use bcpl.Encoder.Operands.{patch_sf}
use bcpl.Encoder.Branch.{get_condition_code, string_to_condition_code, starts_with_x}

-- `cond ^ 1` flips the lowest bit.
abbrev pub invert_condition_code : ℕ → ℕ
invert_condition_code cond = if cond % 2 == 0 then cond + 1 else cond - 1

-- CSET and CSETM differ in their base opcode and their name.
unfoldable pub conditional_set : ℕ → OpType → Text → Text → Text → Result Instruction
unfolding get_condition_code parse_register patch_sf string_to_condition_code
conditional_set base op mnemonic rd cond = do
  cond_code ← get_condition_code cond
  (rd_num, rd_is_64) ← parse_register false 31 rd
  sized ← patch_sf rd_is_64 base
  with_rd ← patch sized rd_num (pos 0) (pos 5)
  with_rn ← patch with_rd 31 (pos 5) (pos 5)
  with_rm ← patch with_rn 31 (pos 16) (pos 5)
  word ← patch with_rm (invert_condition_code cond_code) (pos 12) (pos 4)
  dest ← get_reg_encoding rd
  ok (record (instruction word (mnemonic ++ (codes " " ++ (rd ++ (codes ", " ++ to_upper cond))))) {
    opcode = op;
    dest_reg = pos dest;
    cond = string_to_condition_code cond;
  })

unfoldable pub create_cset : Text → Text → Result Instruction
unfolding conditional_set
create_cset = conditional_set 0x1A800400 OpType.cset (codes "CSET")

unfoldable pub create_csetm : Text → Text → Result Instruction
unfolding conditional_set
create_csetm = conditional_set 0x5A800000 OpType.csetm (codes "CSETM")

pub create_cset_eq : Text → Result Instruction
unfolding create_cset
create_cset_eq xd = create_cset xd (codes "EQ")

pub create_csetm_eq : Text → Result Instruction
unfolding create_csetm
create_csetm_eq xd = create_csetm xd (codes "EQ")

pub create_csetm_ne : Text → Result Instruction
unfolding create_csetm
create_csetm_ne xd = create_csetm xd (codes "NE")

-- The two tests that compare the sizes; either size is taken when a zero register is named.
abbrev pub sizes_differ : Text → Text → Text → Bool
sizes_differ rd rn rm =
    (not (same (starts_with_x rd) (starts_with_x rn))
      || not (same (starts_with_x rd) (starts_with_x rm)))
    && not (
        text_eq rn (codes "wzr")
        || text_eq rn (codes "xzr")
        || text_eq rm (codes "wzr")
        || text_eq rm (codes "xzr"))

-- The metadata has no condition.
unfoldable pub opt_create_csinv : Text → Text → Text → Text → Result Instruction
unfolding get_condition_code patch_sf
opt_create_csinv rd rn rm cond = do
  rd_num ← get_reg_encoding rd
  rn_num ← get_reg_encoding rn
  rm_num ← get_reg_encoding rm
  throw_if (sizes_differ rd rn rm) invalid_argument
  cond_code ← get_condition_code cond
  sized ← patch_sf (starts_with_x rd) 0x5A800000
  with_rm ← patch sized rm_num (pos 16) (pos 5)
  with_cond ← patch with_rm cond_code (pos 12) (pos 4)
  with_rn ← patch with_cond rn_num (pos 5) (pos 5)
  word ← patch with_rn rd_num (pos 0) (pos 5)
  dest ← get_reg_encoding rd
  src1 ← get_reg_encoding rn
  src2 ← get_reg_encoding rm
  ok
      (record (instruction word (
        codes "CSINV "
        ++ (rd ++ (codes ", " ++ (rn ++ (codes ", " ++ (rm ++ (codes ", " ++ cond)))))))) {
          opcode = OpType.csinv;
          dest_reg = pos dest;
          src_reg1 = pos src1;
          src_reg2 = pos src2;
        })

pub create_nop : Instruction
create_nop = record (instruction 0xD503201F (codes "NOP")) { opcode = OpType.nop }

pub create_dmb : Instruction
create_dmb = record (instruction 0xD5033BFF (codes "DMB ISH")) { opcode = OpType.dmb }
