-- ===== src/RegisterManager/Releases.antt =====
-- Giving registers back, and the floating-point and vector pools: the files rm_release_*.cpp,
-- rm_mark_dirty.cpp, rm_invalidate_caller_saved_registers.cpp, rm_reset_caller_saved_registers.cpp,
-- rm_acquire_fp_scratch_reg.cpp, rm_get_*.cpp, and the vector pool of RegisterManager.cpp.
use bcpl.Prelude.{
  Bool, false, not, ◌&&◌, Option, none, some, List, [], ◌∷◌, map, Text, codes, text_eq, is_empty,
  if◌then◌else◌, Result, ok, err, runtime_error, ◌>>=◌,
}
use bcpl.Prelude.TextSets.{erase}
use bcpl.Prelude.Dict.{Dict, lookup, insert, remove, contains}
use bcpl.RegisterManager.{
  RegisterManager, RegisterStatus, RegisterInfo, scratch_regs, fp_scratch_regs, vec_scratch_regs,
  free_register, bound, is_free, holds_variable, holds_scratch, is_fp_register, find_free_register,
  info_at,
}
use bcpl.RegisterManager.Variables.{rebind}

abbrev pub set_register : Text → RegisterInfo → RegisterManager → RegisterManager
set_register reg info m = record m { registers = insert reg info m.registers }

-- `if (registers.count(reg))`, with the entry at hand.
abbrev pub if_known :
    (RegisterInfo → RegisterManager) → RegisterManager → Option RegisterInfo → RegisterManager
if_known change m none = m
if_known change m (some info) = change info

abbrev pub mapped_register : RegisterManager → Text → Option Text → RegisterManager
mapped_register m variable_name none = m
mapped_register m variable_name (some reg) =
    if_known
      (λ info. record m {
        registers = insert reg free_register m.registers;
        variable_to_reg_map = remove variable_name m.variable_to_reg_map;
        variable_reg_lru_order = erase reg m.variable_reg_lru_order;
      })
      m (lookup reg m.registers)

unfoldable pub release_reg_for_variable : RegisterManager → Text → RegisterManager
release_reg_for_variable m variable_name =
    mapped_register m variable_name (lookup variable_name m.variable_to_reg_map)

abbrev pub release_if_scratch : RegisterManager → Text → RegisterManager
release_if_scratch m reg_name =
    if_known
      (λ info. if holds_scratch info.status then set_register reg_name free_register m else m) m
      (lookup reg_name m.registers)

unfoldable pub release_scratch_reg : RegisterManager → Text → RegisterManager
release_scratch_reg m reg_name = release_if_scratch m reg_name

unfoldable pub release_vec_scratch_reg : RegisterManager → Text → RegisterManager
release_vec_scratch_reg m reg_name = release_if_scratch m reg_name

-- `dirty` stays as it is.
abbrev pub set_free : RegisterManager → Text → RegisterManager
set_free m reg_name =
    if_known (λ info. set_register reg_name (rebind RegisterStatus.free [] info) m) m
      (lookup reg_name m.registers)

unfoldable pub release_fp_register : RegisterManager → Text → RegisterManager
release_fp_register m reg_name = set_free m reg_name

unfoldable pub release_callee_saved_temp_reg : RegisterManager → Text → RegisterManager
release_callee_saved_temp_reg m reg_name = set_free m reg_name

unfoldable pub release_register : RegisterManager → Text → RegisterManager
unfolding release_fp_register release_scratch_reg
release_register m reg_name =
    if is_fp_register reg_name
    then release_fp_register m reg_name
    else release_scratch_reg m reg_name

unfoldable pub mark_dirty : RegisterManager → Text → Bool → RegisterManager
mark_dirty m reg_name is_dirty =
    if_known (λ info. set_register reg_name (record info { dirty = is_dirty }) m) m
      (lookup reg_name m.registers)

abbrev pub caller_saved_gp : List Text
caller_saved_gp = map codes (
    "X0" ∷ "X1" ∷ "X2" ∷ "X3" ∷ "X4" ∷ "X5" ∷ "X6" ∷ "X7" ∷ "X8" ∷ "X9" ∷ "X10" ∷ "X11" ∷ "X12"
    ∷ "X13" ∷ "X14" ∷ "X15" ∷ "X16" ∷ "X17" ∷ [])

abbrev pub forget_variable : Text → RegisterManager → RegisterInfo → RegisterManager
forget_variable reg_name m info =
    if holds_variable info.status
    then record m {
      registers = insert reg_name free_register m.registers;
      variable_to_reg_map = remove info.bound_to m.variable_to_reg_map;
      variable_reg_lru_order = erase reg_name m.variable_reg_lru_order;
    }
    else m

unfoldable pub invalidate_registers : List Text → RegisterManager → RegisterManager
invalidate_registers [] m = m
invalidate_registers (reg_name ∷ regs) m =
    invalidate_registers regs
      (if_known (forget_variable reg_name m) m (lookup reg_name m.registers))

unfoldable pub invalidate_caller_saved_registers : RegisterManager → RegisterManager
unfolding invalidate_registers
invalidate_caller_saved_registers m = invalidate_registers caller_saved_gp m

-- The inner loop over the map: the variables of the register leave it, and their names, not the
-- register, are removed from the list. Keys are unique, and later copies would go too.
unfoldable pub unmap : Text → Dict Text → Dict Text
unmap reg [] = []
unmap reg ((v, r) ∷ m) = if text_eq r reg then remove v (unmap reg m) else (v, r) ∷ unmap reg m

unfoldable pub erase_mapped : Text → Dict Text → List Text → List Text
erase_mapped reg [] lru = lru
erase_mapped reg ((v, r) ∷ m) lru = erase_mapped reg m (if text_eq r reg then erase v lru else lru)

abbrev pub reset_register : Text → RegisterManager → RegisterManager
reset_register reg_name m = record m {
  registers = insert reg_name free_register m.registers;
  variable_to_reg_map = unmap reg_name m.variable_to_reg_map;
  variable_reg_lru_order = erase_mapped reg_name m.variable_to_reg_map m.variable_reg_lru_order;
}

unfoldable pub reset_registers : List Text → RegisterManager → RegisterManager
unfolding unmap erase_mapped
reset_registers [] m = m
reset_registers (reg_name ∷ regs) m =
    reset_registers regs (if contains reg_name m.registers then reset_register reg_name m else m)

unfoldable pub reset_caller_saved_registers : RegisterManager → RegisterManager
unfolding reset_registers
reset_caller_saved_registers m = reset_registers scratch_regs m

-- `registers[reg].status == FREE`, where a missing key would be entered as free; initialize_registers
-- has entered all of the pool.
unfoldable pub acquire_fp_scratch_reg : RegisterManager → Result (Text × RegisterManager)
unfolding find_free_register
acquire_fp_scratch_reg m = do
  reg ← find_free_register m.registers fp_scratch_regs
  if is_empty reg then err runtime_error else (do
    info ← info_at (lookup reg m.registers)
    ok (reg, set_register reg (rebind RegisterStatus.in_use_scratch [] info) m))

unfoldable pub acquire_vec_scratch_reg : RegisterManager → Result (Text × RegisterManager)
unfolding find_free_register
acquire_vec_scratch_reg m = do
  reg ← find_free_register m.registers vec_scratch_regs
  if is_empty reg
      then err runtime_error
      else ok (reg, set_register reg (bound RegisterStatus.in_use_scratch (codes "vec_scratch")) m)

-- The registers of a pool that are in use.
abbrev not_free : Option RegisterInfo → Bool
not_free none = false
not_free (some info) = not (is_free info.status)

unfoldable pub in_use : Dict RegisterInfo → List Text → List Text
in_use registers [] = []
in_use registers (r ∷ rs) =
    let rest = in_use registers rs in if not_free (lookup r registers) then r ∷ rest else rest

pub get_in_use_caller_saved_registers : RegisterManager → List Text
unfolding in_use
get_in_use_caller_saved_registers m = in_use m.registers scratch_regs

pub get_in_use_callee_saved_registers : RegisterManager → List Text
unfolding in_use
get_in_use_callee_saved_registers m =
    in_use m.registers (
      map codes
        ("X19" ∷ "X20" ∷ "X21" ∷ "X22" ∷ "X23" ∷ "X24" ∷ "X25" ∷ "X26" ∷ "X27" ∷ "X28" ∷ []))

pub get_in_use_fp_caller_saved_registers : RegisterManager → List Text
unfolding in_use
get_in_use_fp_caller_saved_registers m = in_use m.registers fp_scratch_regs

-- The dirty variables, {register name, variable name}, in the order of the map.
unfoldable pub dirty_variables : Dict RegisterInfo → List (Text × Text)
dirty_variables [] = []
dirty_variables ((r, info) ∷ m) =
    let rest = dirty_variables m in
    if holds_variable info.status && info.dirty then (r, info.bound_to) ∷ rest else rest

pub get_dirty_variable_registers : RegisterManager → List (Text × Text)
unfolding dirty_variables
get_dirty_variable_registers m = dirty_variables m.registers
