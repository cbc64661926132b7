-- ===== src/Encoder/Memory.antt =====
-- LDR and STR with an unsigned offset: encoders/enc_create_ldr_imm.cpp and enc_create_str_imm.cpp.
pub mod Decode
use bcpl.Prelude.{
  ℕ, zero, ◌*◌, ◌/◌, ◌%◌, ◌^◌, bit_or, Bool, true, false, not, ◌||◌, ◌&&◌, ◌==◌, [], ◌∷◌, ◌++◌,
  is_empty, Text, codes, if◌then◌else◌, Result, ok, invalid_argument, ◌>>=◌, ◌>>◌, throw_if,
}
use bcpl.Prelude.Int.{ℤ, pos, negsuc, pos_part, ltb_ℤ, quot, divides, wrap}
use bcpl.Prelude.Decimal.{to_string}
use bcpl.BitPatcher.{patch}
use bcpl.Instruction.{Instruction, instruction, OpType}
use bcpl.Encoder.Registers.{parse_register, get_reg_encoding}

-- A data register, the base register, and the size of the data register.
pub record Access : Type 0 where
  pub rt : ℕ
  pub rn : ℕ
  pub sf : Bool

unfoldable pub parse_access : Text → Text → Result Access
parse_access xt xn = do
  (rt_num, rt_is_64) ← parse_register true 31 xt
  (rn_num, rn_is_64) ← parse_register true 31 xn
  throw_if (not rn_is_64) invalid_argument
  ok (record { rt = rt_num; rn = rn_num; sf = rt_is_64 })

abbrev pub access_scale : Bool → ℕ
access_scale sf = if sf then 8 else 4

-- `immediate < 0 || immediate > max_offset || immediate % scale != 0`
abbrev pub not_offset : Bool → ℤ → Bool
not_offset true immediate =
    ltb_ℤ immediate (pos 0) || ltb_ℤ (pos 32760) immediate || not (divides 8 immediate)
not_offset false immediate =
    ltb_ℤ immediate (pos 0) || ltb_ℤ (pos 16380) immediate || not (divides 4 immediate)

-- `text.find(part) != npos`
abbrev starts_with : Text → Text → Bool
starts_with [] text = true
starts_with (p ∷ part) [] = false
starts_with (p ∷ part) (c ∷ text) = p == c && starts_with part text

unfoldable pub has_part : Text → Text → Bool
has_part part [] = is_empty part
has_part part (c ∷ text) = starts_with part (c ∷ text) || has_part part text

abbrev pub offset_text : ℤ → Text
offset_text (pos zero) = []
offset_text immediate = codes ", #" ++ to_string immediate

-- `assembly_text`, with the variable's name behind a semicolon where it does not occur yet.
unfoldable pub access_text : Text → Text → Text → ℤ → Text → Text
unfolding has_part
access_text mnemonic xt xn immediate variable_name =
    let text =
      mnemonic
      ++ (codes " " ++ (xt ++ (codes ", [" ++ (xn ++ (offset_text immediate ++ codes "]"))))) in
    if not (is_empty variable_name) && not (has_part variable_name text)
    then text ++ (codes " ; " ++ variable_name)
    else text

-- The fields are or-ed into the base opcode.
unfoldable pub create_ldr_imm : Text → Text → ℤ → Text → Result Instruction
unfolding parse_access access_text
create_ldr_imm xt xn immediate variable_name = do
  t ← parse_access xt xn
  throw_if (not_offset t.sf immediate) invalid_argument
  let base = if t.sf then 0xF9400000 else 0xB9400000
  let imm12 = wrap 32 (quot immediate (access_scale t.sf))
  let word = bit_or (bit_or (bit_or base (imm12 * 2 ^ 10 % 2 ^ 32)) (t.rn * 2 ^ 5)) t.rt
  dest ← get_reg_encoding xt
  base_register ← get_reg_encoding xn
  ok (record (instruction word (access_text (codes "LDR") xt xn immediate variable_name)) {
    opcode = OpType.ldr;
    dest_reg = pos dest;
    base_reg = pos base_register;
    immediate = immediate;
    uses_immediate = true;
    is_mem_op = true;
  })

unfoldable pub create_str_imm : Text → Text → ℤ → Text → Result Instruction
unfolding parse_access access_text
create_str_imm xt xn immediate variable_name = do
  t ← parse_access xt xn
  throw_if (not_offset t.sf immediate) invalid_argument
  with_imm ←
      patch (if t.sf then 0xF9000000 else 0xB9000000) (wrap 32 (quot immediate (access_scale t.sf)))
        (pos 10) (pos 12)
  with_rn ← patch with_imm t.rn (pos 5) (pos 5)
  word ← patch with_rn t.rt (pos 0) (pos 5)
  src1 ← get_reg_encoding xt
  base_register ← get_reg_encoding xn
  ok (record (instruction word (access_text (codes "STR") xt xn immediate variable_name)) {
    opcode = OpType.str;
    src_reg1 = pos src1;
    base_reg = pos base_register;
    immediate = immediate;
    uses_immediate = true;
    is_mem_op = true;
  })
