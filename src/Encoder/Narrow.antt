-- ===== src/Encoder/Narrow.antt =====
-- Loads and stores of words and bytes: encoders/enc_create_ldrb_imm.cpp, enc_create_ldr_word_imm.cpp
-- and enc_create_str_word_imm.cpp; and loads of doubles: enc_create_ldr_fp_imm.cpp.
use bcpl.Prelude.{
  ℕ, ◌%◌, true, ◌||◌, not, ◌++◌, Text, codes, Result, ok, runtime_error, invalid_argument, ◌>>=◌,
  ◌>>◌, throw_if,
}
use bcpl.Prelude.Int.{ℤ, pos, ltb_ℤ, divides, quot, wrap}
use bcpl.Prelude.Decimal.{to_string}
use bcpl.BitPatcher.{patch}
use bcpl.Instruction.{Instruction, instruction, OpType}
use bcpl.Encoder.Registers.{get_reg_encoding}
use bcpl.Encoder.Memory.{parse_access, offset_text}

unfoldable pub patch_access : ℕ → ℕ → ℕ → ℕ → Result ℕ
patch_access base imm12 rn rt = do
  with_imm ← patch base imm12 (pos 10) (pos 12)
  with_rn ← patch with_imm rn (pos 5) (pos 5)
  patch with_rn rt (pos 0) (pos 5)

unfoldable pub finish_narrow_load : OpType → Text → Text → ℤ → ℕ → Text → Result Instruction
finish_narrow_load op xt xn immediate word text = do
  dest ← get_reg_encoding xt
  base ← get_reg_encoding xn
  ok (record (instruction word text) {
    opcode = op;
    dest_reg = pos dest;
    base_reg = pos base;
    immediate = immediate;
    uses_immediate = true;
    is_mem_op = true;
  })

pub create_ldrb_imm : Text → Text → ℤ → Result Instruction
unfolding patch_access finish_narrow_load parse_access
create_ldrb_imm xt xn immediate = do
  throw_if (ltb_ℤ immediate (pos 0) || ltb_ℤ (pos 4095) immediate) invalid_argument
  a ← parse_access xt xn
  word ← patch_access 0x39400000 (wrap 32 immediate) a.rn a.rt
  finish_narrow_load OpType.ldrb xt xn immediate word
      (codes "LDRB " ++ (xt ++ (codes ", [" ++ (xn ++ (offset_text immediate ++ codes "]")))))

pub create_ldr_word_imm : Text → Text → ℤ → Result Instruction
unfolding patch_access finish_narrow_load parse_access
create_ldr_word_imm wt xn immediate = do
  throw_if (ltb_ℤ immediate (pos 0) || ltb_ℤ (pos 4095) immediate) invalid_argument
  a ← parse_access wt xn
  throw_if a.sf invalid_argument
  word ← patch_access 0xB9400000 (wrap 32 immediate) a.rn a.rt
  finish_narrow_load OpType.ldr wt xn immediate word
      (codes "LDR " ++ (wt ++ (codes ", [" ++ (xn ++ (offset_text immediate ++ codes "]")))))

pub create_ldr_fp_imm : Text → Text → ℤ → Result Instruction
unfolding patch_access finish_narrow_load
create_ldr_fp_imm dt xn immediate = do
  throw_if (ltb_ℤ immediate (pos 0) || ltb_ℤ (pos 32760) immediate || not (divides 8 immediate))
      runtime_error
  rt ← get_reg_encoding dt
  rn ← get_reg_encoding xn
  word ← patch_access 0xFD400000 (wrap 32 (quot immediate 8)) rn rt
  finish_narrow_load OpType.ldr_fp dt xn immediate word (
      codes "LDR "
      ++ (dt ++ (codes ", [" ++ (xn ++ (codes ", #" ++ (to_string immediate ++ codes "]"))))))

-- `static_cast<uint32_t>(immediate) & 0xFFF`: no offset is refused.
pub create_str_word_imm : Text → Text → ℤ → Result Instruction
unfolding patch_access
create_str_word_imm wt xn immediate = do
  rn ← get_reg_encoding xn
  rt ← get_reg_encoding wt
  word ← patch_access 0xB9000000 (wrap 32 immediate % 4096) rn rt
  src1 ← get_reg_encoding wt
  base ← get_reg_encoding xn
  ok
      (record (instruction word (
        codes "STR "
        ++ (wt ++ (codes ", [" ++ (xn ++ (codes ", #" ++ (to_string immediate ++ codes "]"))))))) {
          opcode = OpType.str;
          src_reg1 = pos src1;
          base_reg = pos base;
          immediate = immediate;
          uses_immediate = true;
          is_mem_op = true;
        })
