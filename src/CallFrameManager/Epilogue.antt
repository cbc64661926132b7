-- ===== src/CallFrameManager/Epilogue.antt =====
-- cf_generate_epilogue.cpp and encoders/enc_create_brk.cpp: the code that leaves a function.
use bcpl.Prelude.{
  ℕ, true, not, List, [], ◌∷◌, ◌++◌, Text, codes, if◌then◌else◌, Result, ok, runtime_error, ◌>>=◌,
  ◌>>◌, throw_if,
}
use bcpl.Prelude.Int.{pos}
use bcpl.Prelude.Decimal.{to_string}
use bcpl.Prelude.Dict.{Dict, lookup}
use bcpl.BitPatcher.{patch}
use bcpl.Instruction.{Instruction, instruction, OpType, SegmentType, as_label}
use bcpl.Encoder.AddSub.{create_add_imm, create_cmp_reg, create_mov_sp_fp}
use bcpl.Encoder.MoveWide.{create_movz_movk_abs64}
use bcpl.Encoder.Branch.{create_branch_conditional, create_return}
use bcpl.Encoder.Memory.{create_ldr_imm}
use bcpl.CallFrameManager.{CallFrameManager}
use bcpl.CallFrameManager.Prologue.{
  comment, comment_last, or_out_of_range, register_comment, upper_canary_value, lower_canary_value,
  upper_canary_offset, lower_canary_offset,
}

unfoldable pub create_brk : ℕ → Result Instruction
create_brk imm = do
  word ← patch 0xD4200000 imm (pos 5) (pos 16)
  ok (record (instruction word (codes "BRK #" ++ to_string (pos imm))) {
    opcode = OpType.brk;
    immediate = pos imm;
    uses_immediate = true;
  })

unfoldable pub restore_registers : Dict ℕ → List Text → Result (List Instruction)
unfolding create_ldr_imm comment
restore_registers offsets [] = ok []
restore_registers offsets (reg ∷ regs) = do
  offset ← or_out_of_range (lookup reg offsets)
  instr ← create_ldr_imm reg (codes "X29") (pos offset) []
  others ← restore_registers offsets regs
  ok (comment (register_comment (codes "Restored Reg: ") reg offset) instr ∷ others)

-- One of the two checks; the code repeats it.
unfoldable pub check_canary : Text → Text → ℕ → ℕ → Text → Result (List Instruction)
unfolding create_ldr_imm comment comment_last create_movz_movk_abs64 create_cmp_reg
    create_branch_conditional
check_canary upper_or_lower constant offset value handler = do
  load ← create_ldr_imm (codes "X10") (codes "X29") (pos offset) []
  expected ← create_movz_movk_abs64 (codes "X11") value
  compare_them ← create_cmp_reg (codes "X10") (codes "X11")
  leave ← create_branch_conditional (codes "NE") handler
  ok (
      comment (codes "Load " ++ (upper_or_lower ++ codes " Stack Canary for check")) load
      ∷ (comment_last (codes "Load Expected " ++ constant) expected
          ++ (comment (codes "Compare " ++ (upper_or_lower ++ codes " Canary")) compare_them
              ∷ comment (codes "Branch if " ++ (upper_or_lower ++ codes " Canary Corrupted")) leave
              ∷ [])))

abbrev pub upper_handler : CallFrameManager → Text
upper_handler m = m.function_name ++ codes "_stackprot_upper"

abbrev pub lower_handler : CallFrameManager → Text
lower_handler m = m.function_name ++ codes "_stackprot_lower"

unfoldable pub check_canaries : CallFrameManager → Result (List Instruction)
unfolding check_canary
check_canaries m = do
  upper ←
      check_canary (codes "Upper") (codes "UPPER_CANARY_VALUE") upper_canary_offset
        upper_canary_value (upper_handler m)
  lower ←
      check_canary (codes "Lower") (codes "LOWER_CANARY_VALUE") lower_canary_offset
        lower_canary_value (lower_handler m)
  ok (upper ++ lower)

unfoldable pub tear_down : Result (List Instruction)
unfolding create_mov_sp_fp create_ldr_imm create_add_imm create_return comment
tear_down = do
  free ← create_mov_sp_fp
  frame ← create_ldr_imm (codes "X29") (codes "SP") (pos 0) []
  link ← create_ldr_imm (codes "X30") (codes "SP") (pos 8) []
  pop ← create_add_imm (codes "SP") (codes "SP") (pos 16)
  back ← create_return
  ok (
      comment (codes "Deallocate frame by moving FP to SP") free
      ∷ comment (codes "Restore caller's Frame Pointer") frame
      ∷ comment (codes "Restore Link Register") link
      ∷ comment (codes "Deallocate space for saved FP/LR") pop
      ∷ back
      ∷ [])

unfoldable pub handlers : CallFrameManager → Result (List Instruction)
unfolding create_brk comment
handlers m = do
  upper ← create_brk 0
  lower ← create_brk 0
  ok (
      as_label (upper_handler m) SegmentType.code
      ∷ comment (codes "Stack Corruption Detected for Upper Canary!") upper
      ∷ as_label (lower_handler m) SegmentType.code
      ∷ comment (codes "Stack Corruption Detected for Lower Canary!") lower
      ∷ [])

unfoldable pub generate_epilogue : CallFrameManager → Result (List Instruction)
unfolding restore_registers check_canaries tear_down handlers
generate_epilogue m = do
  throw_if (not m.is_prologue_generated) runtime_error
  restores ← restore_registers m.variable_offsets m.callee_saved_registers_to_save
  checks ← (if m.enable_stack_canaries then check_canaries m else ok [])
  leave ← tear_down
  traps ← (if m.enable_stack_canaries then handlers m else ok [])
  ok (restores ++ (checks ++ (leave ++ traps)))
