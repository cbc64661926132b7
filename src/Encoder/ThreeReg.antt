-- ===== src/Encoder/ThreeReg.antt =====
-- Instructions with three register operands: ADD, SUB, AND, ORR, MUL, SDIV, LSL, LSR and ASR
-- (register). Each file has the same steps; `three_reg` is what they share.
pub mod Decode
pub mod Laws
pub mod Special
use bcpl.Prelude.{ℕ, Bool, false, true, ◌++◌, Text, codes, if◌then◌else◌, Result, ok, ◌>>=◌}
use bcpl.Prelude.Int.{ℤ, pos}
use bcpl.BitPatcher.{patch}
use bcpl.Instruction.{Instruction, instruction, OpType}
use bcpl.Encoder.Registers.{get_reg_encoding}
use bcpl.Encoder.Operands.{Triple, parse_three, patch_sf}

-- `patcher.patch(rd_num, 0, 5); patcher.patch(rn_num, 5, 5); patcher.patch(rm_num, 16, 5);`
unfoldable pub patch_three : Triple → ℕ → Result ℕ
patch_three t word = do
  with_rd ← patch word t.rd (pos 0) (pos 5)
  with_rn ← patch with_rd t.rn (pos 5) (pos 5)
  patch with_rn t.rm (pos 16) (pos 5)

-- The finished instruction, with the register fields of its metadata.
unfoldable pub finish_three : OpType → Text → Text → Text → Text → ℕ → Result Instruction
finish_three op mnemonic xd xn xm word = do
  dest ← get_reg_encoding xd
  src1 ← get_reg_encoding xn
  src2 ← get_reg_encoding xm
  let text = mnemonic ++ (codes " " ++ (xd ++ (codes ", " ++ (xn ++ (codes ", " ++ xm)))))
  ok (record (instruction word text) {
    opcode = op;
    dest_reg = pos dest;
    src_reg1 = pos src1;
    src_reg2 = pos src2;
  })

-- The steps of those encoders that patch the size bit and the three registers into a base opcode.
unfoldable pub three_reg : ℕ → ℕ → OpType → Text → Text → Text → Text → Result Instruction
unfolding patch_three finish_three parse_three patch_sf
three_reg limit base op mnemonic xd xn xm = do
  t ← parse_three limit xd xn xm
  sized ← patch_sf t.sf base
  word ← patch_three t sized
  finish_three op mnemonic xd xn xm word

unfoldable pub create_add_reg : Text → Text → Text → Result Instruction
unfolding three_reg
create_add_reg = three_reg 30 0x0B000000 OpType.add (codes "ADD")

unfoldable pub create_sub_reg : Text → Text → Text → Result Instruction
unfolding three_reg
create_sub_reg = three_reg 31 0x4B000000 OpType.sub (codes "SUB")

unfoldable pub create_and_reg : Text → Text → Text → Result Instruction
unfolding three_reg
create_and_reg = three_reg 30 0x0A000000 OpType.and (codes "AND")

unfoldable pub create_lsl_reg : Text → Text → Text → Result Instruction
unfolding three_reg
create_lsl_reg = three_reg 31 0x1AC02000 OpType.lsl (codes "LSL")

unfoldable pub create_lsr_reg : Text → Text → Text → Result Instruction
unfolding three_reg
create_lsr_reg = three_reg 31 0x1AC02400 OpType.lsr (codes "LSR")

unfoldable pub opt_create_asr_reg : Text → Text → Text → Result Instruction
unfolding three_reg
opt_create_asr_reg = three_reg 31 0x1AC01000 OpType.asr (codes "ASR")

-- ORR has no patch of the size bit.
unfoldable pub create_orr_reg : Text → Text → Text → Result Instruction
unfolding patch_three finish_three parse_three
create_orr_reg xd xn xm = do
  t ← parse_three 31 xd xn xm
  word ← patch_three t 0x2A000000
  finish_three OpType.orr (codes "ORR") xd xn xm word

-- MUL is MADD with the zero register.
unfoldable pub create_mul_reg : Text → Text → Text → Result Instruction
unfolding patch_three finish_three parse_three patch_sf
create_mul_reg xd xn xm = do
  t ← parse_three 31 xd xn xm
  sized ← patch_sf t.sf 0x1B000000
  with_regs ← patch_three t sized
  word ← patch with_regs 31 (pos 10) (pos 5)
  instr ← finish_three OpType.mul (codes "MUL") xd xn xm word
  ok (record instr { ra_reg = pos 31 })

-- SDIV selects the base opcode by the size, and patches the registers in the other order.
unfoldable pub create_sdiv_reg : Text → Text → Text → Result Instruction
unfolding finish_three parse_three
create_sdiv_reg xd xn xm = do
  t ← parse_three 31 xd xn xm
  with_rm ← patch (if t.sf then 0x9AC00C00 else 0x1AC00C00) t.rm (pos 16) (pos 5)
  with_rn ← patch with_rm t.rn (pos 5) (pos 5)
  word ← patch with_rn t.rd (pos 0) (pos 5)
  finish_three OpType.sdiv (codes "SDIV") xd xn xm word
