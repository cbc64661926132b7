-- ===== src/CallFrameManager.antt =====
-- CallFrameManager.h and .cpp and the files cf_*.cpp: the stack frame of a function.
-- A `VarType` is its number. Sizes and offsets are never negative, so they are numbers; the counts of
-- spill slots that callers reserve are not negative either. The members that are `static`, the flag
-- of the canaries, are fields here. Printing is left out.
pub mod Prologue
pub mod Epilogue
pub mod Slots
pub mod Invariant
pub mod Layout
pub mod Saved
pub mod Large
use bcpl.Prelude.{
  ℕ, zero, suc, ◌+◌, ◌*◌, Bool, true, false, ◌&&◌, Option, none, some, List, [], ◌∷◌, ◌++◌, Text,
  codes, text_eq, ◌==◌, if◌then◌else◌, Result, ok, err, runtime_error,
}
use bcpl.Prelude.Int.{ℤ, pos_part}
use bcpl.Prelude.TextSets.{has_text}
use bcpl.Prelude.Dict.{Dict, lookup, insert, contains}

pub record LocalVar : Type 0 where
  pub name : Text
  pub size : ℕ

pub record CallFrameManager : Type 0 where
  pub function_name : Text
  pub enable_stack_canaries : Bool
  pub current_locals_offset : ℕ
  pub local_declarations : List LocalVar
  pub locals_total_size : ℕ
  pub variable_offsets : Dict ℕ
  pub spill_area_size : ℕ
  pub next_spill_offset : ℕ
  pub spill_variable_offsets : Dict ℕ
  pub variable_types : Dict ℕ
  pub final_frame_size : ℕ
  pub callee_saved_registers_to_save : List Text
  pub is_prologue_generated : Bool
  pub uses_global_pointers : Bool
  pub active_variable_regs : List Text
  pub x29_spill_slot_offset : ℕ

-- RegisterManager.cpp.
abbrev pub variable_regs : List Text
variable_regs =
    codes "X20"
    ∷ codes "X21"
    ∷ codes "X22"
    ∷ codes "X23"
    ∷ codes "X24"
    ∷ codes "X25"
    ∷ codes "X26"
    ∷ codes "X27"
    ∷ []

abbrev pub extended_variable_regs : List Text
extended_variable_regs = codes "X19" ∷ (variable_regs ++ (codes "X28" ∷ []))

abbrev pub canary_size : ℕ
canary_size = 8

-- The two canaries, where they are on: `enable_stack_canaries ? (2 * CANARY_SIZE) : 0`.
abbrev pub canary_space : Bool → ℕ
canary_space canaries = if canaries then 2 * canary_size else 0

abbrev pub get_canary_size : CallFrameManager → ℕ
get_canary_size m = if m.enable_stack_canaries then canary_size else 0

unfoldable pub call_frame_manager : Text → Bool → CallFrameManager
call_frame_manager name canaries = record {
  function_name = name;
  enable_stack_canaries = canaries;
  current_locals_offset = 16 + canary_space canaries;
  local_declarations = [];
  locals_total_size = 0;
  variable_offsets = [];
  spill_area_size = 0;
  next_spill_offset = 0;
  spill_variable_offsets = [];
  variable_types = [];
  final_frame_size = 0;
  callee_saved_registers_to_save = [];
  is_prologue_generated = false;
  uses_global_pointers = false;
  active_variable_regs = variable_regs;
  x29_spill_slot_offset = 0;
}

-- DataTypes.h: the codes of the types that are told apart.
abbrev pub var_type_unknown : ℕ
var_type_unknown = 0

abbrev pub var_type_float : ℕ
var_type_float = 2

abbrev pointer_to_int_vec : ℕ
pointer_to_int_vec = 4096 + 256 + 1

abbrev pointer_to_float_vec : ℕ
pointer_to_float_vec = 4096 + 256 + 2

unfoldable pub get_size_for_type : ℕ → ℕ
get_size_for_type type =
    if type == pointer_to_float_vec then 16 else (if type == pointer_to_int_vec then 16 else 8)

abbrev pub or_unknown_type : Option ℕ → ℕ
or_unknown_type none = var_type_unknown
or_unknown_type (some type) = type

unfoldable pub get_variable_type : CallFrameManager → Text → ℕ
get_variable_type m variable_name = or_unknown_type (lookup variable_name m.variable_types)

unfoldable pub set_variable_type : CallFrameManager → Text → ℕ → CallFrameManager
set_variable_type m variable_name type = record m {
  variable_types = insert variable_name type m.variable_types;
}

unfoldable pub is_float_variable : CallFrameManager → Text → Bool
is_float_variable m variable_name = elim (lookup variable_name m.variable_types) [
  | none ↦ false
  | some t ↦ t == var_type_float
]

abbrev pub fresh_local : CallFrameManager → Text → ℕ → CallFrameManager
fresh_local m variable_name type =
    let size = get_size_for_type type in
    record m {
      variable_offsets = insert variable_name m.current_locals_offset m.variable_offsets;
      variable_types = insert variable_name type m.variable_types;
      current_locals_offset = m.current_locals_offset + size;
      locals_total_size = m.locals_total_size + size;
      local_declarations =
          m.local_declarations ++ ((record { name = variable_name; size = size }) ∷ []);
    }

unfoldable pub add_local : CallFrameManager → Text → ℕ → CallFrameManager
add_local m variable_name type =
    if contains variable_name m.variable_offsets then m else fresh_local m variable_name type

unfoldable pub add_parameter : CallFrameManager → Text → ℕ → CallFrameManager
unfolding add_local
add_parameter m name type = add_local m name type

-- A slot that a variable has already is kept.
abbrev slot_or_new : CallFrameManager → Text → Option ℕ → ℕ × CallFrameManager
slot_or_new m variable_name (some offset) = (offset, m)
slot_or_new m variable_name none =
    let slot_size = get_size_for_type (or_unknown_type (lookup variable_name m.variable_types)) in
    (
      m.next_spill_offset,
      record m {
        spill_variable_offsets = insert variable_name m.next_spill_offset m.spill_variable_offsets;
        next_spill_offset = m.next_spill_offset + slot_size;
        spill_area_size = m.spill_area_size + slot_size;
      },
    )

unfoldable pub get_spill_offset : CallFrameManager → Text → ℕ × CallFrameManager
get_spill_offset m variable_name =
    slot_or_new m variable_name (lookup variable_name m.spill_variable_offsets)

unfoldable pub preallocate_spill_slots : CallFrameManager → ℕ → CallFrameManager
preallocate_spill_slots m count =
    if m.is_prologue_generated
    then m
    else record m { spill_area_size = m.spill_area_size + count * 8 }

unfoldable pub add_once : Text → List Text → List Text
add_once reg saved = if has_text reg saved then saved else saved ++ (reg ∷ [])

abbrev pub save : CallFrameManager → List Text → CallFrameManager
save m saved = record m { callee_saved_registers_to_save = saved }

unfoldable pub force_save_register : CallFrameManager → Text → Result CallFrameManager
unfolding add_once
force_save_register m reg_name =
    if m.is_prologue_generated
    then err runtime_error
    else ok (save m (add_once reg_name m.callee_saved_registers_to_save))

unfoldable pub force_save_x19_x20 : CallFrameManager → Result CallFrameManager
unfolding add_once
force_save_x19_x20 m =
    if m.is_prologue_generated
    then err runtime_error
    else ok
        (save m (add_once (codes "X20") (add_once (codes "X19") m.callee_saved_registers_to_save)))

-- The first `pressure` registers of the pool; a pool that is too small ends the loop.
unfoldable pub reserve : ℕ → List Text → List Text → List Text
reserve zero pool saved = saved
reserve (suc pressure) [] saved = saved
reserve (suc pressure) (reg_name ∷ pool) saved = reserve pressure pool (add_once reg_name saved)

unfoldable pub reserve_registers_based_on_pressure : CallFrameManager → ℤ → Result CallFrameManager
unfolding reserve
reserve_registers_based_on_pressure m pressure =
    if m.is_prologue_generated
    then err runtime_error
    else ok (
        save m
          (reserve (pos_part pressure) m.active_variable_regs m.callee_saved_registers_to_save))

unfoldable pub set_active_register_pool : CallFrameManager → Bool → CallFrameManager
set_active_register_pool m extended = record m {
  active_variable_regs = if extended then extended_variable_regs else variable_regs;
}

unfoldable pub set_uses_global_pointers : CallFrameManager → Bool → CallFrameManager
set_uses_global_pointers m uses = record m { uses_global_pointers = uses }

unfoldable pub has_declared : Text → List LocalVar → Bool
has_declared t [] = false
has_declared t (d ∷ ds) = if text_eq d.name t then true else has_declared t ds

unfoldable pub has_local : CallFrameManager → Text → Bool
unfolding has_declared has_text
has_local m variable_name =
    if has_declared variable_name m.local_declarations
    then true
    else has_text variable_name m.callee_saved_registers_to_save

abbrev or_missing : Option ℕ → Result ℕ
or_missing none = err runtime_error
or_missing (some offset) = ok offset

unfoldable pub get_offset : CallFrameManager → Text → Result ℕ
get_offset m variable_name =
    if m.is_prologue_generated
    then or_missing (lookup variable_name m.variable_offsets)
    else err runtime_error

pub get_x29_spill_slot_offset : CallFrameManager → Result ℕ
get_x29_spill_slot_offset m =
    if m.is_prologue_generated then ok m.x29_spill_slot_offset else err runtime_error
