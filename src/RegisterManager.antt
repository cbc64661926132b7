-- ===== src/RegisterManager.antt =====
-- RegisterManager.h, RegisterManager.cpp and the files rm_*.cpp that the header declares: which
-- variable lives in which register. The code generator and its frame stand beside the manager, as
-- far as the manager uses them: the frame's slots, and the instructions that `emit` was given.
-- What an exception leaves behind is not modelled.
pub mod Variables
pub mod Releases
pub mod Floating
pub mod Invariant
pub mod Spills
use bcpl.Prelude.{
  ℕ, Bool, true, false, not, ◌&&◌, ◌||◌, Option, none, some, List, [], ◌∷◌, ◌++◌, map, Text, codes,
  text_eq, is_empty, if◌then◌else◌, Result, ok, err, Error, runtime_error, out_of_range, undefined,
  ◌>>=◌,
}
use bcpl.Prelude.Int.{pos}
use bcpl.Prelude.TextSets.{has_text, erase}
use bcpl.Prelude.Dict.{Dict, lookup, insert, remove, contains}
use bcpl.Instruction.{Instruction, instruction}
use bcpl.Encoder.Memory.{create_str_imm}
use bcpl.CallFrameManager.{
  CallFrameManager, get_spill_offset, force_save_register, variable_regs, extended_variable_regs,
  add_once,
}

pub data RegisterStatus : Type 0 where
  free in_use_variable in_use_scratch in_use_routine_addr in_use_data_base : RegisterStatus

pub record RegisterInfo : Type 0 where
  pub status : RegisterStatus
  pub bound_to : Text
  pub dirty : Bool

pub record RegisterManager : Type 0 where
  pub registers : Dict RegisterInfo
  pub variable_to_reg_map : Dict Text
  pub variable_reg_lru_order : List Text
  pub spilled_variables : List Text
  pub fp_variable_to_reg_map : Dict Text
  pub fp_variable_reg_lru_order : List Text
  pub vec_variable_to_reg_map : Dict Text
  pub vec_variable_reg_lru_order : List Text
  pub active_variable_regs : List Text

-- The manager with the code generator that it is called with.
pub record Context : Type 0 where
  pub manager : RegisterManager
  pub frame : CallFrameManager
  pub emitted : List Instruction

abbrev pub scratch_regs : List Text
scratch_regs = map codes ("X10" ∷ "X11" ∷ "X12" ∷ "X13" ∷ "X14" ∷ "X15" ∷ [])

abbrev pub fp_variable_regs : List Text
fp_variable_regs = map codes ("D8" ∷ "D9" ∷ "D10" ∷ "D11" ∷ "D12" ∷ "D13" ∷ "D14" ∷ "D15" ∷ [])

abbrev pub fp_scratch_regs : List Text
fp_scratch_regs = map codes (
    "D0" ∷ "D1" ∷ "D2" ∷ "D3" ∷ "D4" ∷ "D5" ∷ "D6" ∷ "D7" ∷ "D16" ∷ "D17" ∷ "D18" ∷ "D19" ∷ "D20"
    ∷ "D21" ∷ "D22" ∷ "D23" ∷ "D24" ∷ "D25" ∷ "D26" ∷ "D27" ∷ "D28" ∷ "D29" ∷ "D30" ∷ "D31" ∷ [])

abbrev pub vec_variable_regs : List Text
vec_variable_regs = map codes ("V8" ∷ "V9" ∷ "V10" ∷ "V11" ∷ "V12" ∷ "V13" ∷ "V14" ∷ "V15" ∷ [])

abbrev pub vec_scratch_regs : List Text
vec_scratch_regs = map codes (
    "V0" ∷ "V1" ∷ "V2" ∷ "V3" ∷ "V4" ∷ "V5" ∷ "V6" ∷ "V7" ∷ "V16" ∷ "V17" ∷ "V18" ∷ "V19" ∷ "V20"
    ∷ "V21" ∷ "V22" ∷ "V23" ∷ "V24" ∷ "V25" ∷ "V26" ∷ "V27" ∷ "V28" ∷ "V29" ∷ "V30" ∷ "V31" ∷ [])

abbrev pub free_register : RegisterInfo
free_register = record { status = RegisterStatus.free; bound_to = []; dirty = false }

abbrev pub bound : RegisterStatus → Text → RegisterInfo
bound status name = record { status = status; bound_to = name; dirty = false }

unfoldable pub set_all : List Text → RegisterInfo → Dict RegisterInfo → Dict RegisterInfo
set_all [] info registers = registers
set_all (r ∷ rs) info registers = set_all rs info (insert r info registers)

-- The pools in the order of the loops. The entries that only set `dirty` are overwritten.
unfoldable pub initial_registers : Dict RegisterInfo
unfolding set_all
initial_registers = set_all vec_scratch_regs free_register (
    set_all vec_variable_regs free_register (
      set_all fp_scratch_regs free_register (
        set_all fp_variable_regs free_register (
          set_all (codes "X28" ∷ []) (bound RegisterStatus.in_use_data_base (codes "data_base")) (
            set_all scratch_regs free_register
              (set_all extended_variable_regs free_register []))))))

unfoldable pub initialize_registers : RegisterManager → RegisterManager
initialize_registers m = record {
  registers = initial_registers;
  variable_to_reg_map = [];
  variable_reg_lru_order = [];
  spilled_variables = [];
  fp_variable_to_reg_map = [];
  fp_variable_reg_lru_order = [];
  vec_variable_to_reg_map = [];
  vec_variable_reg_lru_order = [];
  active_variable_regs = m.active_variable_regs;
}

unfoldable pub reset : RegisterManager → RegisterManager
unfolding initialize_registers
reset m = initialize_registers m

unfoldable pub reset_for_new_function : RegisterManager → Bool → RegisterManager
unfolding initialize_registers
reset_for_new_function m accesses_globals = record (initialize_registers m) {
  active_variable_regs = if accesses_globals then variable_regs else extended_variable_regs;
}

abbrev pub is_variable_spilled : RegisterManager → Text → Bool
is_variable_spilled m variable_name = has_text variable_name m.spilled_variables

abbrev pub is_scratch_register : Text → Bool
is_scratch_register name = has_text name scratch_regs

abbrev pub is_fp_register : Text → Bool
is_fp_register name = has_text name fp_variable_regs || has_text name fp_scratch_regs

-- `registers.at(reg)`.
abbrev pub info_at : Option RegisterInfo → Result RegisterInfo
info_at none = err out_of_range
info_at (some info) = ok info

abbrev pub is_free : RegisterStatus → Bool
is_free RegisterStatus.free = true
is_free _ = false

abbrev pub holds_variable : RegisterStatus → Bool
holds_variable RegisterStatus.in_use_variable = true
holds_variable _ = false

abbrev pub holds_scratch : RegisterStatus → Bool
holds_scratch RegisterStatus.in_use_scratch = true
holds_scratch _ = false

-- The empty text stands for no register, as in the code.
unfoldable pub find_free_register : Dict RegisterInfo → List Text → Result Text
find_free_register registers [] = ok []
find_free_register registers (reg ∷ pool) = do
  info ← info_at (lookup reg registers)
  let rest = find_free_register registers pool
  if is_free info.status then ok reg else rest

abbrev pub dirty_of : Option RegisterInfo → Bool
dirty_of none = false
dirty_of (some info) = info.dirty

unfoldable pub is_dirty : RegisterManager → Text → Bool
is_dirty m reg_name = dirty_of (lookup reg_name m.registers)

-- A clean register gets no store, but a word 0 with a comment.
unfoldable pub generate_spill_code :
    RegisterManager → Text → Text → CallFrameManager → Result (Instruction × CallFrameManager)
unfolding is_dirty get_spill_offset
generate_spill_code m reg_name variable_name cfm =
    if not (is_dirty m reg_name)
    then ok (
      instruction 0 (
          codes "// Skipping spill for clean register "
          ++ (reg_name ++ (codes " (" ++ (variable_name ++ codes ")")))),
      cfm,
    )
    else (do
      let slot = get_spill_offset cfm variable_name
      instr ← create_str_imm reg_name (codes "X29") (pos slot.0) variable_name
      ok (instr, slot.1))
