-- ===== src/RegisterManager/Invariant/Steps.antt =====
-- The calls that a code generator makes of the register manager, as steps between states.
use bcpl.Prelude.{
  ◌≡◌, ◌≢◌, ◌∙◌, sym, ap, subst, if-true, Bool, true, none, some, some-injective, Text, ok,
}
use bcpl.Prelude.Dict.{lookup}
use bcpl.RegisterManager.{RegisterManager, Context, reset_for_new_function}
use bcpl.RegisterManager.Variables.{
  on_manager, acquire_reg_for_variable, acquire_scratch_reg, acquire_spillable_temp_reg,
  acquire_callee_saved_temp_reg,
}
use bcpl.RegisterManager.Releases.{
  release_reg_for_variable, release_register, release_callee_saved_temp_reg, mark_dirty,
  invalidate_caller_saved_registers, reset_caller_saved_registers, acquire_fp_scratch_reg,
  caller_saved_gp, acquire_vec_scratch_reg, release_scratch_reg, release_vec_scratch_reg,
  release_fp_register,
}
use bcpl.RegisterManager.Floating.{
  acquire_fp_reg_for_variable, acquire_spillable_fp_temp_reg, acquire_vec_variable_reg,
}
use bcpl.RegisterManager.{scratch_regs, is_fp_register, initialize_registers}
use bcpl.RegisterManager.Invariant.{Consistent, binding}
use bcpl.RegisterManager.Invariant.Preserved.{
  acquire_reg_for_variable-Consistent, acquire_scratch_reg-Consistent,
  acquire_spillable_temp_reg-Consistent, acquire_callee_saved_temp_reg-Consistent,
}
use bcpl.RegisterManager.Invariant.Released.{
  release_reg_for_variable-Consistent, release_register-Consistent,
  release_callee_saved_temp_reg-Consistent, mark_dirty-Consistent, invalidate_registers-Consistent,
  reset_registers-Consistent, reset_for_new_function-Consistent, acquire_fp_scratch_reg-Consistent,
  release_scratch_reg-Consistent,
}
use bcpl.RegisterManager.Invariant.Apart.{
  Apart, Leaves, KeepsApart, acquire_reg_for_variable-Apart, acquire_scratch_reg-Apart,
  acquire_spillable_temp_reg-Apart, acquire_callee_saved_temp_reg-Apart,
  acquire_fp_scratch_reg-Apart, release_reg_for_variable-Apart, release_if_scratch-Apart,
  set_free-Apart, release_register-Apart, mark_dirty-Apart, invalidate_registers-Apart,
  reset_registers-Apart,
}
use bcpl.RegisterManager.Invariant.Floats.{
  Good, KeepsGood, acquire_fp_reg_for_variable-Good, acquire_spillable_fp_temp_reg-Good,
  acquire_vec_variable_reg-Good, acquire_vec_scratch_reg-Good,
}

-- A call that returned. A callee-saved temporary register may be released only while it holds no
-- variable, and `release_fp_register` is called only for a floating-point register.
pub data Step : Context → Context → Type 0 where
  new_function :
      {c : Context} (accesses_globals : Bool)
      → Step c (on_manager (λ m. reset_for_new_function m accesses_globals) c)
  variable :
      {c d : Context} (v : Text) {r : Text × Bool}
      → acquire_reg_for_variable v c ≡ ok (r, d)
      → Step c d
  scratch : {c d : Context} {r : Text} → acquire_scratch_reg c ≡ ok (r, d) → Step c d
  temp : {c d : Context} {r : Text} → acquire_spillable_temp_reg c ≡ ok (r, d) → Step c d
  callee_saved : {c d : Context} {r : Text} → acquire_callee_saved_temp_reg c ≡ ok (r, d) → Step c d
  fp_variable :
      {c d : Context} (v : Text) {r : Text} → acquire_fp_reg_for_variable v c ≡ ok (r, d) → Step c d
  fp_temp : {c d : Context} {r : Text} → acquire_spillable_fp_temp_reg c ≡ ok (r, d) → Step c d
  fp_scratch :
      {c : Context} {r : Text} {m : RegisterManager}
      → acquire_fp_scratch_reg c.manager ≡ ok (r, m)
      → Step c (on_manager (λ n. m) c)
  vec_variable :
      {c d : Context} (v : Text) {r : Text} → acquire_vec_variable_reg v c ≡ ok (r, d) → Step c d
  vec_scratch :
      {c : Context} {r : Text} {m : RegisterManager}
      → acquire_vec_scratch_reg c.manager ≡ ok (r, m)
      → Step c (on_manager (λ n. m) c)
  release_variable :
      {c : Context} (v : Text) → Step c (on_manager (λ m. release_reg_for_variable m v) c)
  release : {c : Context} (r : Text) → Step c (on_manager (λ m. release_register m r) c)
  release_scratch : {c : Context} (r : Text) → Step c (on_manager (λ m. release_scratch_reg m r) c)
  release_vec : {c : Context} (r : Text) → Step c (on_manager (λ m. release_vec_scratch_reg m r) c)
  release_fp :
      {c : Context} (r : Text)
      → is_fp_register r ≡ true
      → Step c (on_manager (λ m. release_fp_register m r) c)
  release_temp :
      {c : Context} (r : Text)
      → binding (lookup r c.manager.registers) ≡ none
      → Step c (on_manager (λ m. release_callee_saved_temp_reg m r) c)
  dirty : {c : Context} (r : Text) (d : Bool) → Step c (on_manager (λ m. mark_dirty m r d) c)
  invalidate : {c : Context} → Step c (on_manager invalidate_caller_saved_registers c)
  reset_scratch : {c : Context} → Step c (on_manager reset_caller_saved_registers c)

-- The states that a function's code generation reaches.
pub data Reachable : Context → Type 0 where
  start :
      (c : Context) (accesses_globals : Bool)
      → Reachable (on_manager (λ m. reset_for_new_function m accesses_globals) c)
  further : {c d : Context} → Reachable c → Step c d → Reachable d

new_function-Good : (m : RegisterManager) (b : Bool) → Good (reset_for_new_function m b)
unfolding reset_for_new_function initialize_registers lookup
new_function-Good m b =
    (reset_for_new_function-Consistent m b, (λ v r e. absurd (cc), λ v r e. absurd (cc)))

release_fp-Good :
    (m : RegisterManager) (r : Text)
    → Good m
    → is_fp_register r ≡ true
    → Good (release_fp_register m r)
unfolding release_register release_fp_register
release_fp-Good m r h fp =
    subst Good (if-true (release_fp_register m r) (release_scratch_reg m r) fp)
      (release_register-Consistent m h.0 r, release_register-Apart m h.1 r)

Step-Good : {c d : Context} → Step c d → Good c.manager → Good d.manager
unfolding invalidate_caller_saved_registers reset_caller_saved_registers release_scratch_reg
    release_vec_scratch_reg release_callee_saved_temp_reg
Step-Good (new_function {c} b) h = new_function-Good c.manager b
Step-Good (variable {c} {d} v {r} e) h = (
  acquire_reg_for_variable-Consistent v c h.0 r d e,
  subst KeepsApart e (acquire_reg_for_variable-Apart v c h.1),
)
Step-Good (scratch {c} {d} {r} e) h = (
  acquire_scratch_reg-Consistent c h.0 r d e,
  subst KeepsApart e (acquire_scratch_reg-Apart c h.1),
)
Step-Good (temp {c} {d} {r} e) h = (
  acquire_spillable_temp_reg-Consistent c h.0 r d e,
  subst KeepsApart e (acquire_spillable_temp_reg-Apart c h.1),
)
Step-Good (callee_saved {c} {d} {r} e) h = (
  acquire_callee_saved_temp_reg-Consistent c h.0 r d e,
  subst KeepsApart e (acquire_callee_saved_temp_reg-Apart c h.1),
)
Step-Good (fp_variable {c} v e) h = subst KeepsGood e (acquire_fp_reg_for_variable-Good v c h)
Step-Good (fp_temp {c} e) h = subst KeepsGood e (acquire_spillable_fp_temp_reg-Good c h)
Step-Good (fp_scratch {c} {r} {m} e) h = (
  acquire_fp_scratch_reg-Consistent c.manager m r h.0 e,
  subst (Leaves {A = Text} {D = RegisterManager} (λ s n. Apart n)) e
      (acquire_fp_scratch_reg-Apart c.manager h.1),
)
Step-Good (vec_variable {c} v e) h = subst KeepsGood e (acquire_vec_variable_reg-Good v c h)
Step-Good (vec_scratch {c} {r} {m} e) h =
    subst (Leaves {A = Text} {D = RegisterManager} (λ s n. Good n)) e
      (acquire_vec_scratch_reg-Good c.manager h)
Step-Good (release_variable {c} v) h = (
  release_reg_for_variable-Consistent c.manager h.0 v,
  release_reg_for_variable-Apart c.manager h.1 v,
)
Step-Good (release {c} r) h =
    (release_register-Consistent c.manager h.0 r, release_register-Apart c.manager h.1 r)
Step-Good (release_scratch {c} r) h =
    (release_scratch_reg-Consistent c.manager h.0 r, release_if_scratch-Apart c.manager h.1 r)
Step-Good (release_vec {c} r) h =
    (release_scratch_reg-Consistent c.manager h.0 r, release_if_scratch-Apart c.manager h.1 r)
Step-Good (release_fp {c} r fp) h = release_fp-Good c.manager r h fp
Step-Good (release_temp {c} r e) h =
    (release_callee_saved_temp_reg-Consistent c.manager h.0 r e, set_free-Apart c.manager h.1 r)
Step-Good (dirty {c} r d) h =
    (mark_dirty-Consistent c.manager h.0 r d, mark_dirty-Apart c.manager h.1 r d)
Step-Good (invalidate {c}) h = (
  invalidate_registers-Consistent caller_saved_gp c.manager h.0,
  invalidate_registers-Apart caller_saved_gp c.manager h.1,
)
Step-Good (reset_scratch {c}) h = (
  reset_registers-Consistent scratch_regs c.manager h.0,
  reset_registers-Apart scratch_regs c.manager h.1,
)

Reachable-Good : {c : Context} → Reachable c → Good c.manager
Reachable-Good (start c b) = new_function-Good c.manager b
Reachable-Good (further r s) = Step-Good s (Reachable-Good r)

-- In every state that calls of the manager reach which return, where a callee-saved temporary
-- register is released only while it holds no variable and `release_fp_register` is called only for
-- floating-point registers: each variable of the map has a register of the pool X20 to X27 whose
-- entry says that it holds this variable, and the registers of the list for eviction are of that pool.
pub Reachable-Consistent : {c : Context} → Reachable c → Consistent c.manager
Reachable-Consistent r = (Reachable-Good r).0

-- In every reachable state, two different variables have different registers.
pub Reachable-injective :
    {c : Context} (v w r s : Text)
    → Reachable c
    → v ≢ w
    → lookup v c.manager.variable_to_reg_map ≡ some r
    → lookup w c.manager.variable_to_reg_map ≡ some s
    → r ≢ s
Reachable-injective {c} v w r s reached different ev ew same =
    let h = Reachable-Consistent reached in
    different (
      some-injective (
        sym (h.mapped v r ev).1
        ∙ ap (λ (t : Text). binding (lookup t c.manager.registers)) same
        ∙ (h.mapped w s ew).1))
