-- ===== src/RegisterManager/Floating.antt =====
-- Variables in floating-point and vector registers: rm_acquire_fp_reg_for_variable.cpp,
-- rm_acquire_spillable_fp_temp_reg.cpp, rm_get_in_use_fp_callee_saved_registers.cpp,
-- `acquire_vec_variable_reg` of RegisterManager.cpp, and encoders/enc_create_str_fp_imm.cpp.
use bcpl.Prelude.{
  Bool, true, not, ◌||◌, Option, none, some, List, [], ◌∷◌, ◌++◌, Text, codes, is_empty,
  if◌then◌else◌, Result, ok, err, runtime_error, ◌>>=◌, ◌>>◌, throw_if,
}
use bcpl.Prelude.Int.{ℤ, pos, ltb_ℤ, divides, quot, wrap}
use bcpl.Prelude.Decimal.{to_string}
use bcpl.Prelude.Dict.{Dict, lookup, insert, remove}
use bcpl.BitPatcher.{patch}
use bcpl.Instruction.{Instruction, instruction, OpType}
use bcpl.Encoder.Registers.{get_reg_encoding}
use bcpl.CallFrameManager.{get_spill_offset, get_offset}
use bcpl.RegisterManager.{
  RegisterManager, RegisterStatus, RegisterInfo, Context, fp_variable_regs, vec_variable_regs,
  free_register, bound, holds_variable, find_free_register, info_at,
}
use bcpl.RegisterManager.Variables.{back, pop_back, move_to_front, rebind, on_manager}

unfoldable pub create_str_fp_imm : Text → Text → ℤ → Result Instruction
create_str_fp_imm dt xn immediate = do
  throw_if (ltb_ℤ immediate (pos 0) || ltb_ℤ (pos 32760) immediate || not (divides 8 immediate))
      runtime_error
  dt_reg ← get_reg_encoding dt
  xn_reg ← get_reg_encoding xn
  with_imm ← patch 0xFD000000 (wrap 32 (quot immediate 8)) (pos 10) (pos 12)
  with_rn ← patch with_imm xn_reg (pos 5) (pos 5)
  word ← patch with_rn dt_reg (pos 0) (pos 5)
  ok
      (record (instruction word (
        codes "STR "
        ++ (dt ++ (codes ", [" ++ (xn ++ (codes ", #" ++ (to_string immediate ++ codes "]"))))))) {
          opcode = OpType.str_fp;
          src_reg1 = pos dt_reg;
          base_reg = pos xn_reg;
          immediate = immediate;
          uses_immediate = true;
          is_mem_op = true;
        })

-- `registers[reg]`, which enters a missing key.
abbrev pub entry : Option RegisterInfo → RegisterInfo
entry none = free_register
entry (some info) = info

-- `map[variable]`, which is the empty text for a missing key.
abbrev pub register_or_empty : Option Text → Text
register_or_empty none = []
register_or_empty (some reg) = reg

-- `registers[reg].status = IN_USE_VARIABLE; registers[reg].bound_to = name`.
abbrev pub hold : Text → Text → RegisterManager → RegisterManager
hold reg name m = record m {
  registers =
      insert reg (rebind RegisterStatus.in_use_variable name (entry (lookup reg m.registers)))
        m.registers;
}

abbrev pub map_fp_variable : Text → Text → RegisterManager → RegisterManager
map_fp_variable reg variable_name m = record m {
  fp_variable_to_reg_map = insert variable_name reg m.fp_variable_to_reg_map;
  fp_variable_reg_lru_order = variable_name ∷ m.fp_variable_reg_lru_order;
}

-- The least recently acquired variable is stored and leaves its register.
unfoldable pub evict_fp : Context → Result (Text × Context)
unfolding back pop_back create_str_fp_imm
evict_fp c = if is_empty c.manager.fp_variable_reg_lru_order then err runtime_error else (do
  victim_var ← back c.manager.fp_variable_reg_lru_order
  let victim_reg = register_or_empty (lookup victim_var c.manager.fp_variable_to_reg_map)
  let slot = get_spill_offset c.frame victim_var
  instr ← create_str_fp_imm victim_reg (codes "X29") (pos slot.0)
  ok (
    victim_reg,
    record {
      frame = slot.1;
      emitted = c.emitted ++ (instr ∷ []);
      manager = record c.manager {
        fp_variable_reg_lru_order = pop_back c.manager.fp_variable_reg_lru_order;
        fp_variable_to_reg_map = remove victim_var c.manager.fp_variable_to_reg_map;
      };
    },
  ))

-- A variable that has a register keeps it; the order of the list does not change.
abbrev pub fp_register_of : Text → Option Text → Context → Result (Text × Context)
fp_register_of variable_name (some reg) c = ok (reg, c)
fp_register_of variable_name none c = do
  reg ← find_free_register c.manager.registers fp_variable_regs
  let evicted = evict_fp c
  if not (is_empty reg)
      then ok
          (reg, on_manager (λ m. map_fp_variable reg variable_name (hold reg variable_name m)) c)
      else (do
        (victim_reg, d) ← evicted
        ok (
          victim_reg,
          on_manager
              (λ m. map_fp_variable victim_reg variable_name (hold victim_reg variable_name m)) d,
        ))

unfoldable pub acquire_fp_reg_for_variable : Text → Context → Result (Text × Context)
unfolding evict_fp
acquire_fp_reg_for_variable variable_name c =
    fp_register_of variable_name (lookup variable_name c.manager.fp_variable_to_reg_map) c

-- The register is bound to no name and enters no list.
unfoldable pub acquire_spillable_fp_temp_reg : Context → Result (Text × Context)
unfolding evict_fp
acquire_spillable_fp_temp_reg c = do
  reg ← find_free_register c.manager.registers fp_variable_regs
  let evicted = evict_fp c
  if not (is_empty reg)
      then ok (reg, on_manager (hold reg []) c)
      else (do (victim_reg, d) ← evicted; ok (victim_reg, on_manager (hold victim_reg []) d))

abbrev pub map_vec_variable : Text → Text → RegisterManager → RegisterManager
map_vec_variable reg variable_name m = record m {
  registers = insert reg (bound RegisterStatus.in_use_variable variable_name) m.registers;
  vec_variable_to_reg_map = insert variable_name reg m.vec_variable_to_reg_map;
  vec_variable_reg_lru_order = variable_name ∷ m.vec_variable_reg_lru_order;
}

-- The offset of the victim is looked up, which may throw, but no store is emitted.
unfoldable pub evict_vec : Context → Result (Text × Context)
unfolding back pop_back
evict_vec c = do
  victim_var ← back c.manager.vec_variable_reg_lru_order
  let victim_reg = register_or_empty (lookup victim_var c.manager.vec_variable_to_reg_map)
  offset ← get_offset c.frame victim_var
  ok (
    victim_reg,
    on_manager
        (λ m. record m {
          vec_variable_reg_lru_order = pop_back m.vec_variable_reg_lru_order;
          vec_variable_to_reg_map = remove victim_var m.vec_variable_to_reg_map;
        })
        c,
  )

abbrev pub vec_register_of : Text → Option Text → Context → Result (Text × Context)
vec_register_of variable_name (some reg) c = ok (
  reg,
  on_manager
      (λ m. record m {
        vec_variable_reg_lru_order = move_to_front variable_name m.vec_variable_reg_lru_order;
      })
      c,
)
vec_register_of variable_name none c = do
  reg ← find_free_register c.manager.registers vec_variable_regs
  let evicted = evict_vec c
  if not (is_empty reg) then ok (reg, on_manager (map_vec_variable reg variable_name) c) else (do
    (victim_reg, d) ← evicted
    ok (victim_reg, on_manager (map_vec_variable victim_reg variable_name) d))

unfoldable pub acquire_vec_variable_reg : Text → Context → Result (Text × Context)
unfolding evict_vec move_to_front
acquire_vec_variable_reg variable_name c =
    vec_register_of variable_name (lookup variable_name c.manager.vec_variable_to_reg_map) c

abbrev is_variable : Option RegisterInfo → Result Bool
is_variable o = do info ← info_at o; ok (holds_variable info.status)

unfoldable pub in_use_variables : Dict RegisterInfo → List Text → Result (List Text)
in_use_variables registers [] = ok []
in_use_variables registers (r ∷ rs) = do
  used ← is_variable (lookup r registers)
  others ← in_use_variables registers rs
  ok (if used then r ∷ others else others)

pub get_in_use_fp_callee_saved_registers : RegisterManager → Result (List Text)
unfolding in_use_variables
get_in_use_fp_callee_saved_registers m = in_use_variables m.registers fp_variable_regs
