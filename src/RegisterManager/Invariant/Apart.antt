-- ===== src/RegisterManager/Invariant/Apart.antt =====
-- The floating-point and the vector variables keep out of the registers X20 to X27.
use bcpl.Prelude.{
  ◌≡◌, refl, sym, subst, Bool, true, false, not, Option, none, some, List, [], ◌∷◌, Text, is_empty,
  if◌then◌else◌, Result, ok, err, ◌>>=◌,
}
use bcpl.Prelude.TextSets.{has_text}
use bcpl.Prelude.Dict.{Dict, lookup, contains}
use bcpl.CallFrameManager.{force_save_register, variable_regs}
use bcpl.RegisterManager.{
  RegisterManager, RegisterInfo, Context, scratch_regs, fp_scratch_regs, free_register,
  holds_variable, holds_scratch, is_fp_register, find_free_register, info_at,
}
use bcpl.RegisterManager.Variables.{
  back, spill_if_dirty, evict, evict_or_throw, cached, allocate_variable, acquire_reg_for_variable,
  acquire_scratch_reg, acquire_spillable_temp_reg, acquire_callee_saved_temp_reg,
}
use bcpl.RegisterManager.Releases.{
  if_known, mapped_register, release_if_scratch, set_free, release_reg_for_variable,
  release_register, mark_dirty, forget_variable, invalidate_registers, reset_register,
  reset_registers, acquire_fp_scratch_reg, release_scratch_reg, release_fp_register, set_register,
}
use bcpl.RegisterManager.Invariant.Preserved.{spill_if_dirty_lem}

-- No variable of the map has a register of the pool X20 to X27.
abbrev pub Outside : Dict Text → Type 0
Outside map = (v r : Text) → lookup v map ≡ some r → has_text r variable_regs ≡ false

abbrev pub Apart : RegisterManager → Type 0
Apart m = Outside m.fp_variable_to_reg_map × Outside m.vec_variable_to_reg_map

-- What a call that returns leaves.
abbrev pub Leaves : {A D : Type 0} → (A → D → Type 0) → Result (A × D) → Type 0
Leaves P (ok r) = P r.0 r.1
Leaves P (err e) = Unit

pub >>=-Leaves :
    {A B D : Type 0} (P : A → D → Type 0) (call : Result B) (next : B → Result (A × D))
    → ((b : B) → call ≡ ok b → Leaves P (next b))
    → Leaves P (call >>= next)
>>=-Leaves P (ok b) next k = k b refl
>>=-Leaves P (err e) next k = tt

pub if-Leaves :
    {A D : Type 0} (P : A → D → Type 0) (b : Bool) (x y : Result (A × D))
    → (b ≡ true → Leaves P x)
    → (b ≡ false → Leaves P y)
    → Leaves P (if b then x else y)
if-Leaves P true x y first second = first refl
if-Leaves P false x y first second = second refl

abbrev pub KeepsApart : {A : Type 0} → Result (A × Context) → Type 0
KeepsApart {A} call = Leaves {A = A} {D = Context} (λ a d. Apart d.manager) call

evict-Apart : (c : Context) → Apart c.manager → KeepsApart (evict c)
unfolding evict
evict-Apart c h = >>=-Leaves _ (back c.manager.variable_reg_lru_order) _ (λ v ev.
    >>=-Leaves _ (info_at (lookup v c.manager.registers)) _ (λ info ei.
      >>=-Leaves _ (spill_if_dirty c v info) _
        (λ d ed. subst Apart (sym (spill_if_dirty_lem c d v info ed)) h)))

evicted-Apart :
    (c : Context) {p : Text × Context} → Apart c.manager → evict c ≡ ok p → Apart p.1.manager
evicted-Apart c h e = subst KeepsApart e (evict-Apart c h)

allocate_variable-Apart :
    (v : Text) (c : Context) → Apart c.manager → KeepsApart (allocate_variable v c)
unfolding allocate_variable
allocate_variable-Apart v c h =
    >>=-Leaves _ (find_free_register c.manager.registers variable_regs) _ (λ reg er.
      if-Leaves _ (not (is_empty reg)) _ _ (λ f. h)
        (λ f. >>=-Leaves _ (evict c) _ (λ p ep. evicted-Apart c h ep)))

cached-Apart :
    (v : Text) (o : Option Text) (c : Context) → Apart c.manager → KeepsApart (cached v o c)
cached-Apart v none c h = allocate_variable-Apart v c h
cached-Apart v (some reg) c h = h

pub acquire_reg_for_variable-Apart :
    (v : Text) (c : Context) → Apart c.manager → KeepsApart (acquire_reg_for_variable v c)
unfolding acquire_reg_for_variable
acquire_reg_for_variable-Apart v c h = cached-Apart v (lookup v c.manager.variable_to_reg_map) c h

evict_or_throw-Apart : (c : Context) → Apart c.manager → KeepsApart (evict_or_throw c)
unfolding evict_or_throw
evict_or_throw-Apart c h =
    if-Leaves _ (is_empty c.manager.variable_reg_lru_order) _ _ (λ f. tt) (λ f. evict-Apart c h)

pub acquire_scratch_reg-Apart : (c : Context) → Apart c.manager → KeepsApart (acquire_scratch_reg c)
unfolding acquire_scratch_reg
acquire_scratch_reg-Apart c h =
    >>=-Leaves _ (find_free_register c.manager.registers scratch_regs) _ (λ reg er.
      if-Leaves _ (not (is_empty reg)) _ _ (λ f. h)
        (λ f. >>=-Leaves _ (find_free_register c.manager.registers variable_regs) _ (λ var ev.
          if-Leaves _ (not (is_empty var)) _ _ (λ g. h)
            (λ g.
              >>=-Leaves _ (evict_or_throw c) _
                (λ p ep. subst KeepsApart ep (evict_or_throw-Apart c h))))))

pub acquire_spillable_temp_reg-Apart :
    (c : Context) → Apart c.manager → KeepsApart (acquire_spillable_temp_reg c)
unfolding acquire_spillable_temp_reg
acquire_spillable_temp_reg-Apart c h =
    >>=-Leaves _ (find_free_register c.manager.registers variable_regs) _ (λ reg er.
      if-Leaves _ (not (is_empty reg)) _ _ (λ f. h)
        (λ f. >>=-Leaves _ (evict c) _ (λ p ep. evicted-Apart c h ep)))

pub acquire_callee_saved_temp_reg-Apart :
    (c : Context) → Apart c.manager → KeepsApart (acquire_callee_saved_temp_reg c)
unfolding acquire_callee_saved_temp_reg
acquire_callee_saved_temp_reg-Apart c h =
    >>=-Leaves _ (find_free_register c.manager.registers variable_regs) _ (λ reg er.
      if-Leaves _ (is_empty reg) _ _ (λ f. tt)
        (λ f.
          >>=-Leaves _ (info_at (lookup reg c.manager.registers)) _
            (λ info ei. >>=-Leaves _ (force_save_register c.frame reg) _ (λ frame ef. h))))

pub acquire_fp_scratch_reg-Apart :
    (m : RegisterManager)
    → Apart m
    → Leaves {A = Text} {D = RegisterManager} (λ r n. Apart n) (acquire_fp_scratch_reg m)
unfolding acquire_fp_scratch_reg
acquire_fp_scratch_reg-Apart m h =
    >>=-Leaves _ (find_free_register m.registers fp_scratch_regs) _ (λ reg er.
      if-Leaves _ (is_empty reg) _ _ (λ f. tt)
        (λ f. >>=-Leaves _ (info_at (lookup reg m.registers)) _ (λ info ei. h)))

module _ (m : RegisterManager) (h : Apart m) where
  if_known-Apart :
      (change : RegisterInfo → RegisterManager) (o : Option RegisterInfo)
      → ((info : RegisterInfo) → Apart (change info))
      → Apart (if_known change m o)
  if_known-Apart change none k = h
  if_known-Apart change (some info) k = k info

  by_test :
      (b : Bool) (changed : RegisterManager) → Apart changed → Apart (if b then changed else m)
  by_test true changed k = k
  by_test false changed k = h

  mapped_register-Apart : (v : Text) (o : Option Text) → Apart (mapped_register m v o)
  mapped_register-Apart v none = h
  mapped_register-Apart v (some r) = if_known-Apart _ (lookup r m.registers) (λ info. h)

  pub release_reg_for_variable-Apart : (v : Text) → Apart (release_reg_for_variable m v)
  unfolding release_reg_for_variable
  release_reg_for_variable-Apart v = mapped_register-Apart v (lookup v m.variable_to_reg_map)

  pub release_if_scratch-Apart : (r : Text) → Apart (release_if_scratch m r)
  release_if_scratch-Apart r =
      if_known-Apart _ (lookup r m.registers)
        (λ info. by_test (holds_scratch info.status) (set_register r free_register m) h)

  pub set_free-Apart : (r : Text) → Apart (set_free m r)
  set_free-Apart r = if_known-Apart _ (lookup r m.registers) (λ info. h)

  pub release_register-Apart : (r : Text) → Apart (release_register m r)
  unfolding release_register release_fp_register release_scratch_reg
  release_register-Apart r =
      if_Apart (is_fp_register r) (set_free m r) (release_if_scratch m r) (set_free-Apart r)
        (release_if_scratch-Apart r)
    where
      if_Apart : (b : Bool) (x y : RegisterManager) → Apart x → Apart y → Apart (if b then x else y)
      if_Apart true x y p q = p
      if_Apart false x y p q = q

  pub mark_dirty-Apart : (r : Text) (d : Bool) → Apart (mark_dirty m r d)
  unfolding mark_dirty
  mark_dirty-Apart r d = if_known-Apart _ (lookup r m.registers) (λ info. h)

  forget_variable-Apart : (r : Text) (info : RegisterInfo) → Apart (forget_variable r m info)
  forget_variable-Apart r info = by_test (holds_variable info.status) _ h

pub invalidate_registers-Apart :
    (regs : List Text) (m : RegisterManager) → Apart m → Apart (invalidate_registers regs m)
unfolding invalidate_registers
invalidate_registers-Apart [] m h = h
invalidate_registers-Apart (r ∷ regs) m h =
    invalidate_registers-Apart regs (if_known (forget_variable r m) m (lookup r m.registers)) (
      if_known-Apart m h (forget_variable r m) (lookup r m.registers) (forget_variable-Apart m h r))

pub reset_registers-Apart :
    (regs : List Text) (m : RegisterManager) → Apart m → Apart (reset_registers regs m)
unfolding reset_registers
reset_registers-Apart [] m h = h
reset_registers-Apart (r ∷ regs) m h =
    reset_registers-Apart regs (if contains r m.registers then reset_register r m else m)
      (by_test m h (contains r m.registers) (reset_register r m) h)
