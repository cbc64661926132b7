-- ===== src/Encoder/MoveWide.antt =====
-- MOVZ and MOVK, and the two sequences of them that load a 64-bit address:
-- encoders/create_movz_imm.cpp, create_movk_imm.cpp, enc_create_movz_movk_abs64.cpp and
-- enc_create_movz_movk_jit_addr.cpp. The immediate is a `uint16_t`. The relocation and the target
-- that MOVZ and MOVK are given are not used, so they are no arguments here.
pub mod Decode
pub mod Value
use bcpl.Prelude.{
  ℕ, zero, suc, ◌+◌, ◌*◌, ◌/◌, ◌%◌, ◌^◌, Bool, true, false, not, ◌&&◌, ◌||◌, ◌==◌, List, [], ◌∷◌,
  ◌++◌, Text, codes, if◌then◌else◌, Result, ok, invalid_argument, ◌>>=◌, ◌>>◌, throw_if,
}
use bcpl.Prelude.Int.{ℤ, pos, pos_part, negsuc, ltb_ℤ, quot, wrap}
use bcpl.Prelude.Decimal.{to_string}
use bcpl.BitPatcher.{patch}
use bcpl.Instruction.{Instruction, instruction, OpType, JitAttribute}
use bcpl.Encoder.Registers.{parse_register, get_reg_encoding}
use bcpl.Encoder.Operands.{patch_sf}

-- `shift == n` for an `int`.
abbrev pub is_ℤ : ℕ → ℤ → Bool
is_ℤ n (pos k) = k == n
is_ℤ n (negsuc k) = false

abbrev pub is_shift : ℤ → Bool
is_shift shift = is_ℤ 0 shift || is_ℤ 16 shift || is_ℤ 32 shift || is_ℤ 48 shift

abbrev pub is_high_shift : ℤ → Bool
is_high_shift shift = is_ℤ 32 shift || is_ℤ 48 shift

-- The two encoders differ in their base opcode and their name.
unfoldable pub move_wide_imm : ℕ → OpType → Text → Text → ℕ → ℤ → Result Instruction
unfolding patch_sf
move_wide_imm base op mnemonic xd immediate shift = do
  throw_if (not (is_shift shift)) invalid_argument
  (rd_num, rd_is_64) ← parse_register false 31 xd
  throw_if (not rd_is_64 && is_high_shift shift) invalid_argument
  sized ← patch_sf rd_is_64 base
  with_hw ← patch sized (wrap 32 (quot shift 16)) (pos 21) (pos 2)
  with_imm ← patch with_hw immediate (pos 5) (pos 16)
  word ← patch with_imm rd_num (pos 0) (pos 5)
  dest ← get_reg_encoding xd
  let shifted = if ltb_ℤ (pos 0) shift then codes ", LSL #" ++ to_string shift else []
  let text =
      mnemonic ++ (codes " " ++ (xd ++ (codes ", #" ++ (to_string (pos immediate) ++ shifted))))
  ok (record (instruction word text) {
    opcode = op;
    dest_reg = pos dest;
    immediate = pos immediate;
    uses_immediate = true;
  })

unfoldable pub create_movz_imm : Text → ℕ → ℤ → Result Instruction
unfolding move_wide_imm
create_movz_imm = move_wide_imm 0x52800000 OpType.movz (codes "MOVZ")

unfoldable pub create_movk_imm : Text → ℕ → ℤ → Result Instruction
unfolding move_wide_imm
create_movk_imm = move_wide_imm 0x72800000 OpType.movk (codes "MOVK")

-- The loop over the chunks of an address that are not zero, from chunk `i` on: `is_first` tells
-- whether the next one is the first. `left` counts the chunks to come.
unfoldable pub movz_movk_chunks : Text → ℕ → Bool → ℕ → ℕ → Result (List Instruction)
unfolding create_movz_imm create_movk_imm
movz_movk_chunks xd address is_first i zero = ok []
movz_movk_chunks xd address is_first i (suc left) =
    let chunk = address / 2 ^ (16 * i) % 2 ^ 16 in
    let shift = pos (i * 16) in
    let skipped = movz_movk_chunks xd address is_first (i + 1) left in
    let rest = movz_movk_chunks xd address false (i + 1) left in
    if chunk == 0 then skipped else (do
      instr ← (if is_first then create_movz_imm xd chunk shift else create_movk_imm xd chunk shift)
      others ← rest
      ok (instr ∷ others))

unfoldable pub create_movz_movk_abs64 : Text → ℕ → Result (List Instruction)
unfolding movz_movk_chunks create_movz_imm
create_movz_movk_abs64 xd address =
    if address == 0
    then (do instr ← create_movz_imm xd 0 (pos 0); ok (instr ∷ []))
    else movz_movk_chunks xd address true 0 4

abbrev pub jit_address : Instruction → Instruction
jit_address instr = record instr { jit_attribute = JitAttribute.jit_address }

unfoldable pub create_movz_movk_jit_addr : Text → ℕ → Result (List Instruction)
unfolding create_movz_imm create_movk_imm
create_movz_movk_jit_addr xd address = do
  i0 ← create_movz_imm xd (address % 2 ^ 16) (pos 0)
  i1 ← create_movk_imm xd (address / 2 ^ 16 % 2 ^ 16) (pos 16)
  i2 ← create_movk_imm xd (address / 2 ^ 32 % 2 ^ 16) (pos 32)
  i3 ← create_movk_imm xd (address / 2 ^ 48 % 2 ^ 16) (pos 48)
  ok (jit_address i0 ∷ jit_address i1 ∷ jit_address i2 ∷ jit_address i3 ∷ [])
