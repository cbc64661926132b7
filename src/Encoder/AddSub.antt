-- ===== src/Encoder/AddSub.antt =====
-- ADD, SUB and CMP with an immediate, CMP and MOV and MVN of registers, and the two moves between the
-- stack pointer and the frame pointer.
pub mod Decode
pub mod Registers
use bcpl.Prelude.{
  ℕ, Bool, false, true, ◌++◌, ◌||◌, Text, codes, if◌then◌else◌, Result, ok, invalid_argument, ◌>>=◌,
  ◌>>◌, throw_if,
}
use bcpl.Prelude.Int.{ℤ, pos, negsuc, ltb_ℤ, wrap}
use bcpl.Prelude.Decimal.{to_string}
use bcpl.BitPatcher.{patch}
use bcpl.Instruction.{Instruction, instruction, OpType}
use bcpl.Encoder.Registers.{parse_register, parse_register_unchecked, get_reg_encoding}
use bcpl.Encoder.Operands.{Pair, parse_two, patch_sf}

-- `immediate < 0 || immediate > 4095`
abbrev pub not_imm12 : ℤ → Bool
not_imm12 immediate = ltb_ℤ immediate (pos 0) || ltb_ℤ (pos 4095) immediate

-- `instr.dest_reg`, `instr.src_reg1`, `instr.immediate` of an instruction with two registers and an
-- immediate, and its text.
unfoldable pub finish_imm : OpType → Text → Text → Text → ℤ → ℕ → Result Instruction
finish_imm op mnemonic xd xn immediate word = do
  dest ← get_reg_encoding xd
  src1 ← get_reg_encoding xn
  let text =
      mnemonic
      ++ (codes " " ++ (xd ++ (codes ", " ++ (xn ++ (codes ", #" ++ to_string immediate)))))
  ok (record (instruction word text) {
    opcode = op;
    dest_reg = pos dest;
    src_reg1 = pos src1;
    immediate = immediate;
    uses_immediate = true;
  })

-- The source register is patched twice.
unfoldable pub create_add_imm : Text → Text → ℤ → Result Instruction
unfolding finish_imm parse_two patch_sf
create_add_imm xd xn immediate = do
  throw_if (not_imm12 immediate) invalid_argument
  t ← parse_two 31 xd xn
  sized ← patch_sf t.sf 0x11000000
  with_imm ← patch sized (wrap 32 immediate) (pos 10) (pos 12)
  with_rn ← patch with_imm t.rn (pos 5) (pos 5)
  with_rn_again ← patch with_rn t.rn (pos 5) (pos 5)
  word ← patch with_rn_again t.rd (pos 0) (pos 5)
  finish_imm OpType.add (codes "ADD") xd xn immediate word

unfoldable pub create_sub_imm : Text → Text → ℤ → Result Instruction
unfolding finish_imm parse_two patch_sf
create_sub_imm xd xn imm = do
  throw_if (not_imm12 imm) invalid_argument
  t ← parse_two 31 xd xn
  sized ← patch_sf t.sf 0x51000000
  with_imm ← patch sized (wrap 32 imm) (pos 10) (pos 12)
  with_rn ← patch with_imm t.rn (pos 5) (pos 5)
  word ← patch with_rn t.rd (pos 0) (pos 5)
  finish_imm OpType.sub (codes "SUB") xd xn imm word

-- CMP is SUBS into the zero register.
unfoldable pub create_cmp_imm : Text → ℤ → Result Instruction
unfolding patch_sf
create_cmp_imm xn immediate = do
  throw_if (not_imm12 immediate) invalid_argument
  (rn_num, rn_is_64) ← parse_register true 31 xn
  sized ← patch_sf rn_is_64 0x71000000
  with_imm ← patch sized (wrap 32 immediate) (pos 10) (pos 12)
  with_rn ← patch with_imm rn_num (pos 5) (pos 5)
  word ← patch with_rn 31 (pos 0) (pos 5)
  src1 ← get_reg_encoding xn
  ok (record (instruction word (codes "CMP " ++ (xn ++ (codes ", #" ++ to_string immediate)))) {
    opcode = OpType.cmp;
    src_reg1 = pos src1;
    immediate = immediate;
    uses_immediate = true;
  })

unfoldable pub create_cmp_reg : Text → Text → Result Instruction
unfolding parse_two patch_sf
create_cmp_reg xn xm = do
  t ← parse_two 31 xn xm
  sized ← patch_sf t.sf 0x6B000000
  with_rm ← patch sized t.rn (pos 16) (pos 5)
  with_rn ← patch with_rm t.rd (pos 5) (pos 5)
  word ← patch with_rn 31 (pos 0) (pos 5)
  src1 ← get_reg_encoding xn
  src2 ← get_reg_encoding xm
  ok (record (instruction word (codes "CMP " ++ (xn ++ (codes ", " ++ xm)))) {
    opcode = OpType.cmp;
    src_reg1 = pos src1;
    src_reg2 = pos src2;
  })

-- MOV is ORR with the zero register.
unfoldable pub create_mov_reg : Text → Text → Result Instruction
unfolding parse_two patch_sf
create_mov_reg xd xn = do
  t ← parse_two 31 xd xn
  sized ← patch_sf t.sf 0x2A000000
  with_rd ← patch sized t.rd (pos 0) (pos 5)
  with_rm ← patch with_rd t.rn (pos 16) (pos 5)
  word ← patch with_rm 31 (pos 5) (pos 5)
  dest ← get_reg_encoding xd
  src1 ← get_reg_encoding xn
  ok (record (instruction word (codes "MOV " ++ (xd ++ (codes ", " ++ xn)))) {
    opcode = OpType.mov;
    dest_reg = pos dest;
    src_reg1 = pos src1;
  })

-- The sizes of the operands are not compared.
unfoldable pub create_mvn_reg : Text → Text → Result Instruction
unfolding patch_sf
create_mvn_reg xd xm = do
  (rd_num, rd_is_64) ← parse_register_unchecked xd
  (rm_num, rm_is_64) ← parse_register_unchecked xm
  sized ← patch_sf rd_is_64 0x2A200800
  with_rd ← patch sized rd_num (pos 0) (pos 5)
  with_rn ← patch with_rd 31 (pos 5) (pos 5)
  word ← patch with_rn rm_num (pos 16) (pos 5)
  dest ← get_reg_encoding xd
  src1 ← get_reg_encoding (codes "XZR")
  src2 ← get_reg_encoding xm
  ok (record (instruction word (codes "MVN " ++ (xd ++ (codes ", " ++ xm)))) {
    opcode = OpType.orr;
    dest_reg = pos dest;
    src_reg1 = pos src1;
    src_reg2 = pos src2;
  })

unfoldable pub create_mov_fp_sp : Result Instruction
create_mov_fp_sp = do
  with_rn ← patch 0x91000000 31 (pos 5) (pos 5)
  word ← patch with_rn 29 (pos 0) (pos 5)
  ok (record (instruction word (codes "MOV X29, SP")) {
    opcode = OpType.mov;
    dest_reg = pos 29;
    src_reg1 = pos 31;
  })

unfoldable pub create_mov_sp_fp : Result Instruction
create_mov_sp_fp = do
  with_rn ← patch 0x91000000 29 (pos 5) (pos 5)
  word ← patch with_rn 31 (pos 0) (pos 5)
  ok (record (instruction word (codes "MOV SP, X29")) {
    opcode = OpType.mov;
    dest_reg = pos 31;
    src_reg1 = pos 29;
  })
