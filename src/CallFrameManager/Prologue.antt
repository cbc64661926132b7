-- ===== src/CallFrameManager/Prologue.antt =====
-- cf_generate_prologue.cpp and cf_generate_epilogue.cpp: the layout of the frame and its code.
use bcpl.Prelude.{
  ℕ, ◌+◌, ◌-◌, ◌*◌, ◌^◌, bit_and, ltb, Bool, true, false, Option, none, some, List, [], ◌∷◌, ◌++◌,
  length, Text, codes, ◌==◌, if◌then◌else◌, Result, ok, err, runtime_error, out_of_range, ◌>>=◌,
}
use bcpl.Prelude.Int.{pos, negate}
use bcpl.Prelude.Decimal.{to_string}
use bcpl.Prelude.Dict.{Dict, lookup, insert, contains}
use bcpl.Instruction.{Instruction}
use bcpl.Encoder.AddSub.{create_mov_fp_sp}
use bcpl.Encoder.MoveWide.{create_movz_movk_abs64}
use bcpl.Encoder.Pairs.{create_stp_pre_imm}
use bcpl.Encoder.Memory.{create_str_imm}
use bcpl.CallFrameManager.{CallFrameManager, LocalVar, canary_size, canary_space, add_once}

-- `(size + 15) & ~15` on an `int`.
unfoldable pub align_to_16 : ℕ → ℕ
align_to_16 size = bit_and (size + 15) (2 ^ 32 - 1 - 15)

-- `operator<` of std::string.
unfoldable pub text_lt : Text → Text → Bool
text_lt s [] = false
text_lt [] (d ∷ t) = true
text_lt (c ∷ s) (d ∷ t) = if ltb c d then true else (if c == d then text_lt s t else false)

-- `std::sort` of names: equal names cannot be told apart, so any sort gives this list.
unfoldable pub insert_sorted : Text → List Text → List Text
insert_sorted r [] = r ∷ []
insert_sorted r (s ∷ ss) = if text_lt s r then s ∷ insert_sorted r ss else r ∷ s ∷ ss

unfoldable pub sort : List Text → List Text
sort [] = []
sort (r ∷ rs) = insert_sorted r (sort rs)

-- The offsets in the making, and where the next slot starts.
pub record Slots : Type 0 where
  pub offsets : Dict ℕ
  pub next : ℕ

unfoldable pub place_locals : List LocalVar → Slots → Slots
place_locals [] s = s
place_locals (d ∷ ds) s =
    place_locals ds (record { offsets = insert d.name s.next s.offsets; next = s.next + d.size })

-- A name that has a slot keeps it.
unfoldable pub place_register : Text → Slots → Slots
place_register reg s =
    if contains reg s.offsets
    then s
    else record { offsets = insert reg s.next s.offsets; next = s.next + 8 }

unfoldable pub place_registers : List Text → Slots → Slots
place_registers [] s = s
place_registers (r ∷ rs) s = place_registers rs (place_register r s)

unfoldable pub registers_to_save : CallFrameManager → List Text
registers_to_save m = sort (
    if m.uses_global_pointers
    then add_once (codes "X28") (add_once (codes "X19") m.callee_saved_registers_to_save)
    else m.callee_saved_registers_to_save)

unfoldable pub place_slots : CallFrameManager → Slots
unfolding place_locals place_registers registers_to_save
place_slots m = place_registers (registers_to_save m) (
    place_locals m.local_declarations
      (record { offsets = []; next = 16 + canary_space m.enable_stack_canaries }))

unfoldable pub required_content_size : CallFrameManager → ℕ
unfolding registers_to_save
required_content_size m =
    m.locals_total_size
    + length (registers_to_save m) * 8
    + 16
    + canary_space m.enable_stack_canaries
    + m.spill_area_size

-- The state up to the generation of code.
unfoldable pub lay_out : CallFrameManager → CallFrameManager
unfolding place_slots required_content_size align_to_16
lay_out m =
    let slots = place_slots m in
    record m {
      callee_saved_registers_to_save = registers_to_save m;
      final_frame_size = align_to_16 (required_content_size m);
      variable_offsets = slots.offsets;
      next_spill_offset = slots.next;
    }

unfoldable pub comment : Text → Instruction → Instruction
comment text instr = record instr { assembly_text = instr.assembly_text ++ (codes " ; " ++ text) }

-- `code.back().assembly_text += text`.
unfoldable pub comment_last : Text → List Instruction → List Instruction
unfolding comment
comment_last text [] = []
comment_last text (i ∷ []) = comment text i ∷ []
comment_last text (i ∷ j ∷ is) = i ∷ comment_last text (j ∷ is)

abbrev pub upper_canary_value : ℕ
upper_canary_value = 0x1122334455667788

abbrev pub lower_canary_value : ℕ
lower_canary_value = 0xAABBCCDDEEFF0011

abbrev pub upper_canary_offset : ℕ
upper_canary_offset = 16

abbrev pub lower_canary_offset : ℕ
lower_canary_offset = 16 + canary_size

unfoldable pub store_canaries : Result (List Instruction)
unfolding create_movz_movk_abs64 comment_last create_str_imm
store_canaries = do
  upper ← create_movz_movk_abs64 (codes "X9") upper_canary_value
  store_upper ← create_str_imm (codes "X9") (codes "X29") (pos upper_canary_offset) []
  lower ← create_movz_movk_abs64 (codes "X9") lower_canary_value
  store_lower ← create_str_imm (codes "X9") (codes "X29") (pos lower_canary_offset) []
  ok (
      comment_last (codes "Load UPPER_CANARY_VALUE") upper
      ++ (comment (codes "Store Upper Stack Canary") store_upper
          ∷ (comment_last (codes "Load LOWER_CANARY_VALUE") lower
              ++ (comment (codes "Store Lower Stack Canary") store_lower ∷ []))))

-- `variable_offsets.at(reg)`.
abbrev pub or_out_of_range : Option ℕ → Result ℕ
or_out_of_range none = err out_of_range
or_out_of_range (some offset) = ok offset

abbrev pub register_comment : Text → Text → ℕ → Text
register_comment what reg offset = what ++ (reg ++ (codes " @ FP+" ++ to_string (pos offset)))

unfoldable pub save_registers : Dict ℕ → List Text → Result (List Instruction)
unfolding create_str_imm comment
save_registers offsets [] = ok []
save_registers offsets (reg ∷ regs) = do
  offset ← or_out_of_range (lookup reg offsets)
  instr ← create_str_imm reg (codes "X29") (pos offset) []
  others ← save_registers offsets regs
  ok (comment (register_comment (codes "Saved Reg: ") reg offset) instr ∷ others)

unfoldable pub prologue_code : CallFrameManager → Result (List Instruction)
unfolding store_canaries save_registers
prologue_code m = do
  push ← create_stp_pre_imm (codes "X29") (codes "X30") (codes "SP") (negate m.final_frame_size)
  frame ← create_mov_fp_sp
  canaries ← (if m.enable_stack_canaries then store_canaries else ok [])
  saves ← save_registers m.variable_offsets m.callee_saved_registers_to_save
  ok (push ∷ frame ∷ (canaries ++ saves))

abbrev pub finished : CallFrameManager → CallFrameManager
finished m = record m { is_prologue_generated = true }

-- The layout stays also where an encoder throws.
abbrev pub finish_prologue :
    CallFrameManager → Result (List Instruction) → Result (List Instruction) × CallFrameManager
finish_prologue m (err e) = (err e, m)
finish_prologue m (ok instrs) = (ok instrs, finished m)

unfoldable pub generate_prologue : CallFrameManager → Result (List Instruction) × CallFrameManager
unfolding lay_out prologue_code
generate_prologue m =
    if m.is_prologue_generated
    then (err runtime_error, m)
    else finish_prologue (lay_out m) (prologue_code (lay_out m))
