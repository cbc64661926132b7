-- ===== src/Encoder/BitField.antt =====
-- Bit fields and shifts by an immediate: encoders/opt_create_ubfx.cpp, opt_create_sbfx.cpp and
-- opt_create_asr_imm.cpp, create_lsl_imm.cpp and opt_create_lsl_imm.cpp.
pub mod Decode
pub mod Shift
use bcpl.Prelude.{
  ℕ, ◌+◌, ◌-◌, ◌%◌, Bool, true, false, not, ◌||◌, same, ◌++◌, Text, codes, if◌then◌else◌, Result,
  ok, invalid_argument, ◌>>=◌, ◌>>◌, throw_if,
}
use bcpl.Prelude.Int.{ℤ, pos, pos_part, neg_part, ltb_ℤ, sub_ℕ, wrap}
use bcpl.Prelude.Decimal.{to_string}
use bcpl.BitPatcher.{patch}
use bcpl.Instruction.{Instruction, instruction, OpType}
use bcpl.Encoder.Registers.{get_reg_encoding}
use bcpl.Encoder.Operands.{parse_two, patch_sf}
use bcpl.Encoder.Branch.{starts_with_x}

abbrev pub datasize : Bool → ℕ
datasize is_64bit = if is_64bit then 64 else 32

-- a + b of two `int`s.
abbrev pub add_ℤ : ℤ → ℤ → ℤ
add_ℤ a b = sub_ℕ (pos_part a + pos_part b) (neg_part a + neg_part b)

-- `value < 0 || value >= datasize`
abbrev pub not_position : Bool → ℤ → Bool
not_position is_64bit value = ltb_ℤ value (pos 0) || not (ltb_ℤ value (pos (datasize is_64bit)))

-- `width < 1 || (lsb + width) > datasize`
abbrev pub not_width : Bool → ℤ → ℤ → Bool
not_width is_64bit lsb width =
    ltb_ℤ width (pos 1) || ltb_ℤ (pos (datasize is_64bit)) (add_ℤ lsb width)

-- The patches of the three files. The two immediates are `uint32_t`s.
unfoldable pub patch_bit_field : ℕ → Bool → ℕ → ℕ → ℕ → ℕ → Result ℕ
unfolding patch_sf
patch_bit_field base is_64bit immr_val imms_val rn_num rd_num = do
  sized ← patch_sf is_64bit base
  with_n ← patch sized (if is_64bit then 1 else 0) (pos 22) (pos 1)
  with_immr ← patch with_n immr_val (pos 16) (pos 6)
  with_imms ← patch with_immr imms_val (pos 10) (pos 6)
  with_rn ← patch with_imms rn_num (pos 5) (pos 5)
  patch with_rn rd_num (pos 0) (pos 5)

unfoldable pub finish_bit_field : OpType → Text → Text → ℤ → ℕ → Text → Result Instruction
finish_bit_field op xd xn immediate word text = do
  dest ← get_reg_encoding xd
  src1 ← get_reg_encoding xn
  ok (record (instruction word text) {
    opcode = op;
    dest_reg = pos dest;
    src_reg1 = pos src1;
    immediate = immediate;
    uses_immediate = true;
  })

-- UBFX and SBFX differ in their base opcode and their name.
unfoldable pub extract_bit_field : ℕ → OpType → Text → Text → Text → ℤ → ℤ → Result Instruction
unfolding patch_bit_field finish_bit_field
extract_bit_field base op mnemonic xd xn lsb width = do
  rd_num ← get_reg_encoding xd
  rn_num ← get_reg_encoding xn
  let is_64bit = starts_with_x xd
  throw_if (not (same is_64bit (starts_with_x xn))) invalid_argument
  throw_if (not_position is_64bit lsb) invalid_argument
  throw_if (not_width is_64bit lsb width) invalid_argument
  let last = wrap 32 (sub_ℕ (pos_part (add_ℤ lsb width)) (neg_part (add_ℤ lsb width) + 1))
  word ← patch_bit_field base is_64bit (wrap 32 lsb) last rn_num rd_num
  finish_bit_field op xd xn lsb word (
      mnemonic
      ++ (codes " "
          ++ (xd
              ++ (codes ", "
                  ++ (xn
                      ++ (codes ", #" ++ (to_string lsb ++ (codes ", #" ++ to_string width))))))))

unfoldable pub opt_create_ubfx : Text → Text → ℤ → ℤ → Result Instruction
unfolding extract_bit_field
opt_create_ubfx = extract_bit_field 0x53000000 OpType.ubfx (codes "UBFX")

unfoldable pub opt_create_sbfx : Text → Text → ℤ → ℤ → Result Instruction
unfolding extract_bit_field
opt_create_sbfx = extract_bit_field 0x13000000 OpType.sbfx (codes "SBFX")

unfoldable pub opt_create_asr_imm : Text → Text → ℤ → Result Instruction
unfolding patch_bit_field finish_bit_field
opt_create_asr_imm xd xn shift_amount = do
  rd_num ← get_reg_encoding xd
  rn_num ← get_reg_encoding xn
  let is_64bit = starts_with_x xd
  throw_if (not (same is_64bit (starts_with_x xn))) invalid_argument
  throw_if (not_position is_64bit shift_amount) invalid_argument
  word ←
      patch_bit_field 0x13000000 is_64bit (wrap 32 shift_amount) (datasize is_64bit - 1) rn_num
        rd_num
  finish_bit_field OpType.asr xd xn shift_amount word
      (codes "ASR " ++ (xd ++ (codes ", " ++ (xn ++ (codes ", #" ++ to_string shift_amount)))))

-- The two files create_lsl_imm.cpp and opt_create_lsl_imm.cpp have one body.
unfoldable pub shift_left : Text → Text → ℤ → Result Instruction
unfolding patch_bit_field finish_bit_field parse_two
shift_left xd xn shift_amount = do
  t ← parse_two 30 xd xn
  throw_if (not_position t.sf shift_amount) invalid_argument
  let immr = (datasize t.sf - pos_part shift_amount) % datasize t.sf
  word ← patch_bit_field 0x53000000 t.sf immr (datasize t.sf - 1 - pos_part shift_amount) t.rn t.rd
  finish_bit_field OpType.lsl xd xn shift_amount word
      (codes "LSL " ++ (xd ++ (codes ", " ++ (xn ++ (codes ", #" ++ to_string shift_amount)))))

unfoldable pub create_lsl_imm : Text → Text → ℤ → Result Instruction
unfolding shift_left
create_lsl_imm = shift_left

unfoldable pub opt_create_lsl_imm : Text → Text → ℤ → Result Instruction
unfolding shift_left
opt_create_lsl_imm = shift_left
