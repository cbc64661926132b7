-- ===== src/RegisterManager/Variables.antt =====
-- Acquiring general registers: rm_acquire_reg_for_variable.cpp, rm_acquire_spillable_temp_reg.cpp,
-- rm_acquire_callee_saved_temp_reg.cpp and `acquire_scratch_reg` of RegisterManager.cpp.
use bcpl.Prelude.{
  Bool, true, false, not, Option, none, some, List, [], ◌∷◌, ◌++◌, Text, codes, is_empty,
  if◌then◌else◌, Result, ok, err, runtime_error, undefined, ◌>>=◌,
}
use bcpl.Prelude.TextSets.{erase, union}
use bcpl.Prelude.Dict.{lookup, insert, remove}
use bcpl.CallFrameManager.{force_save_register, variable_regs}
use bcpl.RegisterManager.{
  RegisterManager, RegisterStatus, RegisterInfo, Context, scratch_regs, bound, find_free_register,
  info_at, generate_spill_code,
}

-- `list.back()`.
unfoldable pub back : List Text → Result Text
back [] = err undefined
back (r ∷ []) = ok r
back (r ∷ s ∷ rs) = back (s ∷ rs)

unfoldable pub pop_back : List Text → List Text
pop_back [] = []
pop_back (r ∷ []) = []
pop_back (r ∷ s ∷ rs) = r ∷ pop_back (s ∷ rs)

-- `list.remove(r); list.push_front(r)`.
unfoldable pub move_to_front : Text → List Text → List Text
move_to_front r rs = r ∷ erase r rs

-- The store of a dirty register, emitted.
unfoldable pub spill_if_dirty : Context → Text → RegisterInfo → Result Context
unfolding generate_spill_code
spill_if_dirty c victim_reg info =
    if info.dirty
    then (do
      (instr, frame) ← generate_spill_code c.manager victim_reg info.bound_to c.frame
      ok (record c { frame = frame; emitted = c.emitted ++ (instr ∷ []) }))
    else ok c

-- Eviction of the least recently used register: its variable is spilled and has no register.
unfoldable pub evict : Context → Result (Text × Context)
unfolding back pop_back spill_if_dirty
evict c = do
  victim_reg ← back c.manager.variable_reg_lru_order
  info ← info_at (lookup victim_reg c.manager.registers)
  d ← spill_if_dirty c victim_reg info
  ok (
    victim_reg,
    record d {
      manager = record d.manager {
        variable_reg_lru_order = pop_back d.manager.variable_reg_lru_order;
        variable_to_reg_map = remove info.bound_to d.manager.variable_to_reg_map;
        spilled_variables = union d.manager.spilled_variables (info.bound_to ∷ []);
      };
    },
  )

-- The register is bound to the variable and is the most recently used one.
abbrev pub bind_variable : Text → Text → RegisterManager → RegisterManager
bind_variable reg variable_name m = record m {
  registers = insert reg (bound RegisterStatus.in_use_variable variable_name) m.registers;
  variable_to_reg_map = insert variable_name reg m.variable_to_reg_map;
  variable_reg_lru_order = reg ∷ m.variable_reg_lru_order;
}

abbrev pub on_manager : (RegisterManager → RegisterManager) → Context → Context
on_manager f c = record c { manager = f c.manager }

abbrev pub no_longer_spilled : Text → RegisterManager → RegisterManager
no_longer_spilled variable_name m = record m {
  spilled_variables = erase variable_name m.spilled_variables;
}

-- What a cache miss does.
unfoldable pub allocate_variable : Text → Context → Result ((Text × Bool) × Context)
unfolding find_free_register evict
allocate_variable variable_name c = do
  reg ← find_free_register c.manager.registers variable_regs
  let evicted = evict c
  if not (is_empty reg)
      then ok ((reg, false), on_manager (bind_variable reg variable_name) c)
      else (do
        (victim_reg, d) ← evicted
        ok (
          (victim_reg, false),
          on_manager
              (λ m. no_longer_spilled variable_name (bind_variable victim_reg variable_name m)) d,
        ))

abbrev pub cached : Text → Option Text → Context → Result ((Text × Bool) × Context)
cached variable_name (some reg) c = ok (
  (reg, true),
  on_manager (λ m. record m { variable_reg_lru_order = move_to_front reg m.variable_reg_lru_order })
      c,
)
cached variable_name none c = allocate_variable variable_name c

-- The Boolean is true for a cache hit.
unfoldable pub acquire_reg_for_variable : Text → Context → Result ((Text × Bool) × Context)
unfolding move_to_front allocate_variable
acquire_reg_for_variable variable_name c =
    cached variable_name (lookup variable_name c.manager.variable_to_reg_map) c

abbrev pub bind_scratch : Text → Text → RegisterManager → RegisterManager
bind_scratch reg name m = record m {
  registers = insert reg (bound RegisterStatus.in_use_scratch name) m.registers;
}

-- The error of an empty list comes before `back()`.
unfoldable pub evict_or_throw : Context → Result (Text × Context)
unfolding evict
evict_or_throw c = if is_empty c.manager.variable_reg_lru_order then err runtime_error else evict c

unfoldable pub acquire_scratch_reg : Context → Result (Text × Context)
unfolding find_free_register evict_or_throw
acquire_scratch_reg c = do
  reg ← find_free_register c.manager.registers scratch_regs
  let from_vars = find_free_register c.manager.registers variable_regs
  let evicted = evict_or_throw c
  if not (is_empty reg) then ok (reg, on_manager (bind_scratch reg (codes "scratch")) c) else (do
    reg ← from_vars
    if not (is_empty reg)
        then ok (reg, on_manager (bind_scratch reg (codes "scratch_from_vars")) c)
        else (do
          (victim_reg, d) ← evicted
          ok (victim_reg, on_manager (bind_scratch victim_reg (codes "scratch_from_spill")) d)))

abbrev pub bind_temp : Text → RegisterManager → RegisterManager
bind_temp reg m = record m {
  registers = insert reg (bound RegisterStatus.in_use_variable (codes "_temp_")) m.registers;
  variable_reg_lru_order = reg ∷ m.variable_reg_lru_order;
}

unfoldable pub acquire_spillable_temp_reg : Context → Result (Text × Context)
unfolding find_free_register evict
acquire_spillable_temp_reg c = do
  reg ← find_free_register c.manager.registers variable_regs
  let evicted = evict c
  if not (is_empty reg)
      then ok (reg, on_manager (bind_temp reg) c)
      else (do (victim_reg, d) ← evicted; ok (victim_reg, on_manager (bind_temp victim_reg) d))

-- `registers[reg].status = ...; registers[reg].bound_to = ...`, where `dirty` stays.
abbrev pub rebind : RegisterStatus → Text → RegisterInfo → RegisterInfo
rebind status name info = record info { status = status; bound_to = name }

unfoldable pub acquire_callee_saved_temp_reg : Context → Result (Text × Context)
unfolding find_free_register force_save_register
acquire_callee_saved_temp_reg c = do
  reg ← find_free_register c.manager.registers variable_regs
  if is_empty reg then err runtime_error else (do
    info ← info_at (lookup reg c.manager.registers)
    frame ← force_save_register c.frame reg
    ok (
      reg,
      record c {
        frame = frame;
        manager = record c.manager {
          registers =
              insert reg (rebind RegisterStatus.in_use_scratch (codes "_persistent_temp_") info)
                c.manager.registers;
        };
      },
    ))
