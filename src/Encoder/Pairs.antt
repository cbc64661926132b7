-- ===== src/Encoder/Pairs.antt =====
-- Loads and stores of register pairs: encoders/enc_create_stp_pre_imm.cpp, enc_create_stp_imm.cpp,
-- enc_create_ldp_imm.cpp and enc_create_ldp_post_imm.cpp.
pub mod Decode
pub mod Laws
use bcpl.Prelude.{
  ℕ, zero, ◌+◌, ◌-◌, ◌*◌, ◌/◌, ◌%◌, ◌^◌, Bool, true, false, not, ◌||◌, same, [], ◌++◌, bit_or, Text,
  codes, if◌then◌else◌, Result, ok, invalid_argument, ◌>>=◌, ◌>>◌, throw_if,
}
use bcpl.Prelude.Int.{ℤ, pos, negsuc, ltb_ℤ, quot, divides, wrap}
use bcpl.Prelude.Decimal.{to_string}
use bcpl.BitPatcher.{patch}
use bcpl.Instruction.{Instruction, instruction, OpType}
use bcpl.Encoder.Registers.{parse_register, get_reg_encoding}

-- The two registers of a pair, its base register, and their common size.
pub record PairOperands : Type 0 where
  pub rt1 : ℕ
  pub rt2 : ℕ
  pub rn : ℕ
  pub sf : Bool

unfoldable pub parse_pair : Text → Text → Text → Result PairOperands
parse_pair xt1 xt2 xn = do
  (rt1_num, rt1_is_64) ← parse_register true 31 xt1
  (rt2_num, rt2_is_64) ← parse_register true 31 xt2
  (rn_num, rn_is_64) ← parse_register true 31 xn
  throw_if (not (same rt1_is_64 rt2_is_64)) invalid_argument
  throw_if (not rn_is_64) invalid_argument
  ok (record { rt1 = rt1_num; rt2 = rt2_num; rn = rn_num; sf = rt1_is_64 })

-- `scale` by the size.
abbrev pub pair_scale : Bool → ℕ
pair_scale sf = if sf then 8 else 4

-- `immediate < min_offset || immediate > max_offset || immediate % scale != 0`: from -512 to 504 in
-- steps of 8, or from -256 to 252 in steps of 4.
abbrev pub not_pair_offset : Bool → ℤ → Bool
not_pair_offset true immediate =
    ltb_ℤ immediate (negsuc 511) || ltb_ℤ (pos 504) immediate || not (divides 8 immediate)
not_pair_offset false immediate =
    ltb_ℤ immediate (negsuc 255) || ltb_ℤ (pos 252) immediate || not (divides 4 immediate)

-- `(immediate / scale) & 0x7F`
abbrev pub imm7_of : Bool → ℤ → ℕ
imm7_of sf immediate = wrap 7 (quot immediate (pair_scale sf))

unfoldable pub patch_pair : PairOperands → ℕ → ℕ → Result ℕ
patch_pair t imm7 base = do
  with_imm ← patch base imm7 (pos 15) (pos 7)
  with_rt2 ← patch with_imm t.rt2 (pos 10) (pos 5)
  with_rn ← patch with_rt2 t.rn (pos 5) (pos 5)
  patch with_rn t.rt1 (pos 0) (pos 5)

-- `assembly_text` up to the base register.
abbrev pub pair_text : Text → Text → Text → Text → Text
pair_text mnemonic xt1 xt2 xn =
    mnemonic ++ (codes " " ++ (xt1 ++ (codes ", " ++ (xt2 ++ (codes ", [" ++ xn)))))

-- `", #" + std::to_string(immediate)` unless it is zero.
abbrev pub offset_text : ℤ → Text
offset_text (pos zero) = []
offset_text immediate = codes ", #" ++ to_string immediate

unfoldable pub finish_store : Text → Text → Text → ℤ → ℕ → Text → Result Instruction
finish_store xt1 xt2 xn immediate word text = do
  src1 ← get_reg_encoding xt1
  src2 ← get_reg_encoding xt2
  base ← get_reg_encoding xn
  ok (record (instruction word text) {
    opcode = OpType.stp;
    src_reg1 = pos src1;
    src_reg2 = pos src2;
    base_reg = pos base;
    immediate = immediate;
    uses_immediate = true;
    is_mem_op = true;
  })

-- The second register of a load is kept as a source.
unfoldable pub finish_load : Text → Text → Text → ℤ → ℕ → Text → Result Instruction
finish_load xt1 xt2 xn immediate word text = do
  dest ← get_reg_encoding xt1
  src1 ← get_reg_encoding xt2
  base ← get_reg_encoding xn
  ok (record (instruction word text) {
    opcode = OpType.ldp;
    dest_reg = pos dest;
    src_reg1 = pos src1;
    base_reg = pos base;
    immediate = immediate;
    uses_immediate = true;
    is_mem_op = true;
  })

unfoldable pub create_stp_pre_imm : Text → Text → Text → ℤ → Result Instruction
unfolding parse_pair patch_pair finish_store
create_stp_pre_imm xt1 xt2 xn immediate = do
  t ← parse_pair xt1 xt2 xn
  throw_if (not_pair_offset t.sf immediate) invalid_argument
  word ← patch_pair t (imm7_of t.sf immediate) (if t.sf then 0xA9800000 else 0x29800000)
  finish_store xt1 xt2 xn immediate word
      (pair_text (codes "STP") xt1 xt2 xn ++ (codes ", #" ++ (to_string immediate ++ codes "]!")))

unfoldable pub create_stp_imm : Text → Text → Text → ℤ → Result Instruction
unfolding parse_pair patch_pair finish_store
create_stp_imm xt1 xt2 xn immediate = do
  t ← parse_pair xt1 xt2 xn
  throw_if (not_pair_offset t.sf immediate) invalid_argument
  word ← patch_pair t (imm7_of t.sf immediate) (if t.sf then 0xA9000000 else 0x29000000)
  finish_store xt1 xt2 xn immediate word
      (pair_text (codes "STP") xt1 xt2 xn ++ (offset_text immediate ++ codes "]"))

unfoldable pub create_ldp_imm : Text → Text → Text → ℤ → Result Instruction
unfolding parse_pair patch_pair finish_load
create_ldp_imm xt1 xt2 xn immediate = do
  t ← parse_pair xt1 xt2 xn
  throw_if (not_pair_offset t.sf immediate) invalid_argument
  word ← patch_pair t (imm7_of t.sf immediate) (if t.sf then 0xA9400000 else 0x29400000)
  finish_load xt1 xt2 xn immediate word
      (pair_text (codes "LDP") xt1 xt2 xn ++ (offset_text immediate ++ codes "]"))

-- `(static_cast<uint32_t>(immediate) / scale) & 0x7F`
abbrev pub unsigned_imm7 : Bool → ℤ → ℕ
unsigned_imm7 sf immediate = wrap 32 immediate / pair_scale sf % 2 ^ 7

-- The fields are or-ed into the base opcode, with no BitPatcher.
unfoldable pub create_ldp_post_imm : Text → Text → Text → ℤ → Result Instruction
unfolding parse_pair finish_load
create_ldp_post_imm xt1 xt2 xn immediate = do
  t ← parse_pair xt1 xt2 xn
  throw_if (not_pair_offset t.sf immediate) invalid_argument
  let base = if t.sf then 0xA8400000 else 0x28400000
  let word =
      bit_or
        (bit_or (bit_or (bit_or base (unsigned_imm7 t.sf immediate * 2 ^ 15)) (t.rt2 * 2 ^ 10))
          (t.rn * 2 ^ 5))
        t.rt1
  finish_load xt1 xt2 xn immediate word
      (pair_text (codes "LDP") xt1 xt2 xn ++ (codes "], #" ++ to_string immediate))
