-- ===== src/Encoder/FloatingPoint.antt =====
-- Arithmetic and conversions on doubles: encoders/enc_create_fadd_reg.cpp, enc_create_fsub_reg.cpp,
-- enc_create_fmul_reg.cpp, enc_create_fdiv_reg.cpp, enc_create_fcmp_reg.cpp,
-- enc_create_fcvtzs_reg.cpp, enc_create_fcvtms_reg.cpp, enc_create_scvtf_reg.cpp,
-- enc_create_fsqrt_reg.cpp and enc_create_fneg_reg.cpp.
use bcpl.Prelude.{ℕ, ◌+◌, ◌*◌, ◌^◌, bit_or, ◌++◌, Text, codes, Result, ok, ◌>>=◌}
use bcpl.Prelude.Int.{pos}
use bcpl.BitPatcher.{patch}
use bcpl.Instruction.{Instruction, instruction, OpType}
use bcpl.Encoder.Registers.{get_reg_encoding}
use bcpl.Encoder.ThreeReg.{finish_three}

-- `base | (rm << 16) | (rn << 5) | rd`; the numbers of registers are below 32.
abbrev pub or_three : ℕ → ℕ → ℕ → ℕ → ℕ
or_three base rm rn rd = bit_or (bit_or (bit_or base (rm * 2 ^ 16)) (rn * 2 ^ 5)) rd

-- FADD and FDIV put the fields in by shifts.
unfoldable pub or_reg : ℕ → OpType → Text → Text → Text → Text → Result Instruction
unfolding finish_three
or_reg base op mnemonic dd dn dm = do
  rd ← get_reg_encoding dd
  rn ← get_reg_encoding dn
  rm ← get_reg_encoding dm
  finish_three op mnemonic dd dn dm (or_three base rm rn rd)

-- FSUB and FMUL patch them in.
unfoldable pub patch_reg : ℕ → OpType → Text → Text → Text → Text → Result Instruction
unfolding finish_three
patch_reg base op mnemonic dd dn dm = do
  rd ← get_reg_encoding dd
  rn ← get_reg_encoding dn
  rm ← get_reg_encoding dm
  with_rm ← patch base rm (pos 16) (pos 5)
  with_rn ← patch with_rm rn (pos 5) (pos 5)
  word ← patch with_rn rd (pos 0) (pos 5)
  finish_three op mnemonic dd dn dm word

pub create_fadd_reg : Text → Text → Text → Result Instruction
unfolding or_reg
create_fadd_reg = or_reg 0x1E602800 OpType.fadd (codes "FADD")

pub create_fdiv_reg : Text → Text → Text → Result Instruction
unfolding or_reg
create_fdiv_reg = or_reg 0x1E601800 OpType.fdiv (codes "FDIV")

pub create_fsub_reg : Text → Text → Text → Result Instruction
unfolding patch_reg
create_fsub_reg = patch_reg 0x1E203800 OpType.fsub (codes "FSUB")

pub create_fmul_reg : Text → Text → Text → Result Instruction
unfolding patch_reg
create_fmul_reg = patch_reg 0x1E600800 OpType.fmul (codes "FMUL")

pub create_fcmp_reg : Text → Text → Result Instruction
create_fcmp_reg dn dm = do
  rn ← get_reg_encoding dn
  rm ← get_reg_encoding dm
  src1 ← get_reg_encoding dn
  src2 ← get_reg_encoding dm
  ok
      (record (instruction (bit_or (bit_or 0x1E602008 (rm * 2 ^ 16)) (rn * 2 ^ 5))
        (codes "FCMP " ++ (dn ++ (codes ", " ++ dm)))) {
          opcode = OpType.fcmp;
          src_reg1 = pos src1;
          src_reg2 = pos src2;
        })

abbrev pub two_operands : Text → Text → Text → Text
two_operands mnemonic dd dn = mnemonic ++ (codes " " ++ (dd ++ (codes ", " ++ dn)))

-- FCVTZS puts the fields in by shifts.
pub create_fcvtzs_reg : Text → Text → Result Instruction
create_fcvtzs_reg xd dn = do
  rd ← get_reg_encoding xd
  rn ← get_reg_encoding dn
  dest ← get_reg_encoding xd
  src1 ← get_reg_encoding dn
  ok
      (record (instruction (bit_or (bit_or 0x9E780000 (rn * 2 ^ 5)) rd)
        (two_operands (codes "FCVTZS") xd dn)) {
          opcode = OpType.fcvtzs;
          dest_reg = pos dest;
          src_reg1 = pos src1;
        })

-- The others patch two fields; `offset` is what FSQRT adds to the numbers in its metadata.
unfoldable pub patch_two : ℕ → OpType → ℕ → Text → Text → Text → Result Instruction
patch_two base op offset mnemonic dd dn = do
  rd ← get_reg_encoding dd
  rn ← get_reg_encoding dn
  with_rn ← patch base rn (pos 5) (pos 5)
  word ← patch with_rn rd (pos 0) (pos 5)
  ok (record (instruction word (two_operands mnemonic dd dn)) {
    opcode = op;
    dest_reg = pos (rd + offset);
    src_reg1 = pos (rn + offset);
  })

pub create_fcvtms_reg : Text → Text → Result Instruction
unfolding patch_two
create_fcvtms_reg = patch_two 0x9E780000 OpType.fcvtms 0 (codes "FCVTMS")

pub create_scvtf_reg : Text → Text → Result Instruction
unfolding patch_two
create_scvtf_reg = patch_two 0x9E620000 OpType.scvtf 0 (codes "SCVTF")

pub create_fsqrt_reg : Text → Text → Result Instruction
unfolding patch_two
create_fsqrt_reg = patch_two 0x1E61C000 OpType.fsqrt 32 (codes "FSQRT")

-- The code gives FNEG the kind FMOV.
pub create_fneg_reg : Text → Text → Result Instruction
unfolding patch_two
create_fneg_reg = patch_two 0x1E614000 OpType.fmov 0 (codes "FNEG")
