-- ===== src/RegisterManager/Invariant/Released.antt =====
-- Giving registers back keeps the map of the register manager consistent.
use bcpl.Prelude.{
  ◌≡◌, ◌∙◌, refl, sym, ap, subst, Bool, true, false, not, Bool-cases, inl, inr, Option, none, some,
  some-injective, List, [], ◌∷◌, Text, text_eq, text_eq_iff, is_empty, if◌then◌else◌, if-cases,
  if-true, if-false, ok, ok-injective, >>=-eq-ok,
}
use bcpl.Prelude.TextSets.{has_text, erase}
use bcpl.Prelude.Dict.{Dict, lookup, insert, remove, lookup-insert, contains}
use bcpl.CallFrameManager.{variable_regs}
use bcpl.RegisterManager.{
  RegisterManager, RegisterStatus, RegisterInfo, fp_scratch_regs, free_register, holds_variable,
  holds_scratch, is_fp_register, find_free_register, info_at, initialize_registers,
  reset_for_new_function,
}
use bcpl.RegisterManager.Variables.{rebind}
use bcpl.RegisterManager.Releases.{
  release_reg_for_variable, release_scratch_reg, release_fp_register, release_callee_saved_temp_reg,
  release_register, mark_dirty, if_known, mapped_register, forget_variable, invalidate_registers,
  unmap, erase_mapped, reset_register, reset_registers, acquire_fp_scratch_reg,
}
use bcpl.RegisterManager.Invariant.{
  binding, Mapped, InPool, Consistent, Unmapped, Unmapped-unbound, Mapped-insert, Mapped-remove,
  Unmapped-remove, removed_lem,
}
use bcpl.RegisterManager.Invariant.Preserved.{set-Consistent, found-Unmapped, erase-InPool}

scratch_status : (s : RegisterStatus) → holds_scratch s ≡ true → holds_variable s ≡ false
scratch_status RegisterStatus.free e = absurd (cc)
scratch_status RegisterStatus.in_use_variable e = absurd (cc)
scratch_status RegisterStatus.in_use_scratch e = refl
scratch_status RegisterStatus.in_use_routine_addr e = absurd (cc)
scratch_status RegisterStatus.in_use_data_base e = absurd (cc)

-- What every name of a pool passes.
unfoldable pub all_pass : (Text → Bool) → List Text → Bool
all_pass f [] = true
all_pass f (r ∷ rs) = if f r then all_pass f rs else false

pub all_pass_lem :
    (f : Text → Bool) (pool : List Text) (r : Text)
    → all_pass f pool ≡ true
    → has_text r pool ≡ true
    → f r ≡ true
unfolding all_pass has_text
all_pass_lem f [] r a e = absurd (cc)
all_pass_lem f (s ∷ pool) r a e = elim (if-cases (f s) a) [
  | inl passed ↦ elim (if-cases (text_eq s r) e) [
    | inl same ↦ subst (λ (t : Text). f t ≡ true) ((text_eq_iff s r).0 same.0) passed.0
    | inr later ↦ all_pass_lem f pool r passed.1 later.1
  ]
  | inr failed ↦ absurd (cc)
]

pool_not_fp : (r : Text) → has_text r variable_regs ≡ true → not (is_fp_register r) ≡ true
unfolding all_pass has_text text_eq
pool_not_fp r e = all_pass_lem (λ t. not (is_fp_register t)) variable_regs r refl e

Mapped-same :
    (registers : Dict RegisterInfo) (map : Dict Text) (r : Text) {info : RegisterInfo}
    (entry : RegisterInfo)
    → lookup r registers ≡ some info
    → binding (some entry) ≡ binding (some info)
    → Mapped registers map
    → Mapped (insert r entry registers) map
Mapped-same registers map r entry ei same h v s e = elim (Bool-cases (text_eq r s)) [
  | inl this ↦
      let k = (text_eq_iff r s).0 this in
      (
        (h v s e).0,
        ap binding (lookup-insert r s entry registers ∙ if-true _ _ this)
            ∙ same
            ∙ ap binding (sym ei)
            ∙ subst (λ (t : Text). binding (lookup t registers) ≡ some v) (sym k) (h v s e).1,
      )
  | inr other ↦ (
    (h v s e).0,
    ap binding (lookup-insert r s entry registers ∙ if-false _ _ other) ∙ (h v s e).1,
  )
]

-- The register of a variable that leaves the map has no other.
Unmapped-owner :
    (m : RegisterManager) (v r : Text)
    → Consistent m
    → lookup v m.variable_to_reg_map ≡ some r
    → Unmapped r (remove v m.variable_to_reg_map)
Unmapped-owner m v r h e w f =
    let (different, g) = removed_lem m.variable_to_reg_map v w f in
    let same = some-injective (sym (h.mapped v r e).1 ∙ (h.mapped w r g).1) in
    let k = (text_eq_iff v w).1 same in cc

unmapped_step :
    (r w q : Text) (map : Dict Text) (v : Text) {s : Text}
    → lookup v (unmap r ((w, q) ∷ map)) ≡ some s
    → (if text_eq q r then lookup v (remove w (unmap r map)) else lookup v ((w, q) ∷ unmap r map))
      ≡ some s
unfolding unmap
unmapped_step r w q map v e = elim (Bool-cases (text_eq q r)) [
  | inl d ↦ if-true _ _ d ∙ ap (lookup v) (sym (if-true _ _ d)) ∙ e
  | inr k ↦ if-false _ _ k ∙ ap (lookup v) (sym (if-false _ _ k)) ∙ e
]

unmap_lem :
    (r : Text) (map : Dict Text) (v : Text) {s : Text}
    → lookup v (unmap r map) ≡ some s
    → (lookup v map ≡ some s) × (text_eq s r ≡ false)
unfolding unmap lookup
unmap_lem r [] v e = absurd (cc)
unmap_lem r ((w, q) ∷ map) v {s} e = elim (if-cases (text_eq q r) (unmapped_step r w q map v e)) [
  | inl dropped ↦
      let (different, g) = removed_lem (unmap r map) w v dropped.1 in
      let (i, j) = unmap_lem r map v g in (if-false _ _ different ∙ i, j)
  | inr kept ↦ elim (if-cases (text_eq w v) kept.1) [
    | inl this ↦ (
      if-true _ _ this.0 ∙ this.1,
      subst (λ (t : Text). text_eq t r ≡ false) (some-injective this.1) kept.0,
    )
    | inr later ↦ let (i, j) = unmap_lem r map v later.1 in (if-false _ _ later.0 ∙ i, j)
  ]
]

erase_if :
    (b : Bool) (w : Text) (lru : List Text) → InPool lru → InPool (if b then erase w lru else lru)
erase_if true w lru h = erase-InPool w lru h
erase_if false w lru h = h

erase_mapped-InPool :
    (r : Text) (map : Dict Text) (lru : List Text) → InPool lru → InPool (erase_mapped r map lru)
unfolding erase_mapped
erase_mapped-InPool r [] lru h = h
erase_mapped-InPool r ((w, q) ∷ map) lru h =
    erase_mapped-InPool r map (if text_eq q r then erase w lru else lru)
      (erase_if (text_eq q r) w lru h)

module _ (m : RegisterManager) (h : Consistent m) where
  if_known-Consistent :
      (change : RegisterInfo → RegisterManager) (r : Text)
      → ((info : RegisterInfo) → lookup r m.registers ≡ some info → Consistent (change info))
      → Consistent (if_known change m (lookup r m.registers))
  if_known-Consistent change r k = by_entry (lookup r m.registers) refl
    where
      by_entry :
          (o : Option RegisterInfo) → lookup r m.registers ≡ o → Consistent (if_known change m o)
      by_entry none e = h
      by_entry (some info) e = k info e

  -- A register that holds no variable may get any entry.
  unbound-Consistent :
      (r : Text) (info : RegisterInfo)
      → binding (lookup r m.registers) ≡ none
      → Consistent (record m { registers = insert r info m.registers })
  unbound-Consistent r info e =
      set-Consistent m h r info (Unmapped-unbound m.registers m.variable_to_reg_map r h.mapped e)

  by_test :
      (b : Bool) (changed : RegisterManager)
      → (b ≡ true → Consistent changed)
      → Consistent (if b then changed else m)
  by_test true changed k = k refl
  by_test false changed k = h

  pub release_scratch_reg-Consistent : (r : Text) → Consistent (release_scratch_reg m r)
  unfolding release_scratch_reg
  release_scratch_reg-Consistent r =
      if_known-Consistent
        (λ info.
          if holds_scratch info.status
          then record m { registers = insert r free_register m.registers }
          else m)
        r
        (λ info ei.
          by_test (holds_scratch info.status)
            (record m { registers = insert r free_register m.registers })
            (λ e.
              unbound-Consistent r free_register
                (ap binding ei ∙ if-false _ _ (scratch_status info.status e))))

  pub release_callee_saved_temp_reg-Consistent :
      (r : Text)
      → binding (lookup r m.registers) ≡ none
      → Consistent (release_callee_saved_temp_reg m r)
  unfolding release_callee_saved_temp_reg
  release_callee_saved_temp_reg-Consistent r e =
      if_known-Consistent
        (λ info. record m { registers = insert r (rebind RegisterStatus.free [] info) m.registers })
        r (λ info ei. unbound-Consistent r (rebind RegisterStatus.free [] info) e)

  pub fp_Unmapped : (r : Text) → is_fp_register r ≡ true → Unmapped r m.variable_to_reg_map
  fp_Unmapped r fp v e = let k = pool_not_fp r (h.mapped v r e).0 in cc

  pub release_register-Consistent : (r : Text) → Consistent (release_register m r)
  unfolding release_register release_fp_register
  release_register-Consistent r = elim (Bool-cases (is_fp_register r)) [
    | inl fp ↦ subst Consistent (sym (if-true _ _ fp)) (
        if_known-Consistent
          (λ info. record m {
            registers = insert r (rebind RegisterStatus.free [] info) m.registers;
          })
          r
          (λ info ei. set-Consistent m h r (rebind RegisterStatus.free [] info) (fp_Unmapped r fp)))
    | inr gp ↦ subst Consistent (sym (if-false _ _ gp)) (release_scratch_reg-Consistent r)
  ]

  -- Marking a register keeps what it holds.
  pub mark_dirty-Consistent : (r : Text) (d : Bool) → Consistent (mark_dirty m r d)
  unfolding mark_dirty
  mark_dirty-Consistent r d =
      if_known-Consistent
        (λ info. record m { registers = insert r (record info { dirty = d }) m.registers }) r
        (λ info ei. record {
          mapped =
              Mapped-same m.registers m.variable_to_reg_map r (record info { dirty = d }) ei refl
                h.mapped;
          in_pool = h.in_pool;
        })

  -- The variable leaves the map, and its register is free.
  freed : Text → Text → RegisterManager
  freed r v = record m {
    registers = insert r free_register m.registers;
    variable_to_reg_map = remove v m.variable_to_reg_map;
    variable_reg_lru_order = erase r m.variable_reg_lru_order;
  }

  freed-Consistent :
      (r v : Text) → Unmapped r (remove v m.variable_to_reg_map) → Consistent (freed r v)
  unfolding freed
  freed-Consistent r v free = record {
    mapped =
        Mapped-insert m.registers (remove v m.variable_to_reg_map) r free_register
          (Mapped-remove m.registers m.variable_to_reg_map v h.mapped) free;
    in_pool = erase-InPool r m.variable_reg_lru_order h.in_pool;
  }

  pub release_reg_for_variable-Consistent : (v : Text) → Consistent (release_reg_for_variable m v)
  unfolding release_reg_for_variable freed
  release_reg_for_variable-Consistent v = by_register (lookup v m.variable_to_reg_map) refl
    where
      by_register :
          (o : Option Text)
          → lookup v m.variable_to_reg_map ≡ o
          → Consistent (mapped_register m v o)
      by_register none e = h
      by_register (some r) e =
          if_known-Consistent (λ info. freed r v) r
            (λ info ei. freed-Consistent r v (Unmapped-owner m v r h e))

  forget_variable-Consistent :
      (r : Text) (info : RegisterInfo)
      → lookup r m.registers ≡ some info
      → Consistent (forget_variable r m info)
  unfolding freed
  forget_variable-Consistent r info ei =
      by_test (holds_variable info.status) (freed r info.bound_to) (λ e.
        freed-Consistent r info.bound_to
          (Unmapped-remove m.registers m.variable_to_reg_map r h.mapped ei))

  reset_register-Consistent : (r : Text) → Consistent (reset_register r m)
  reset_register-Consistent r = record {
    mapped =
        Mapped-insert m.registers (unmap r m.variable_to_reg_map) r free_register
          (λ v s e. h.mapped v s (unmap_lem r m.variable_to_reg_map v e).0)
          (λ v e.
            let k = (unmap_lem r m.variable_to_reg_map v e).1 in
            let q = (text_eq_iff r r).1 refl in cc);
    in_pool = erase_mapped-InPool r m.variable_to_reg_map m.variable_reg_lru_order h.in_pool;
  }

pub invalidate_registers-Consistent :
    (regs : List Text) (m : RegisterManager)
    → Consistent m
    → Consistent (invalidate_registers regs m)
unfolding invalidate_registers
invalidate_registers-Consistent [] m h = h
invalidate_registers-Consistent (r ∷ regs) m h =
    invalidate_registers-Consistent regs (if_known (forget_variable r m) m (lookup r m.registers))
      (if_known-Consistent m h (forget_variable r m) r (forget_variable-Consistent m h r))

pub reset_registers-Consistent :
    (regs : List Text) (m : RegisterManager) → Consistent m → Consistent (reset_registers regs m)
unfolding reset_registers
reset_registers-Consistent [] m h = h
reset_registers-Consistent (r ∷ regs) m h =
    reset_registers-Consistent regs (if contains r m.registers then reset_register r m else m) (
      by_test m h (contains r m.registers) (reset_register r m)
        (λ e. reset_register-Consistent m h r))

pub reset_for_new_function-Consistent :
    (m : RegisterManager) (b : Bool) → Consistent (reset_for_new_function m b)
unfolding reset_for_new_function initialize_registers lookup has_text
reset_for_new_function-Consistent m b = record {
  mapped = λ v r e. absurd (cc);
  in_pool = λ r e. absurd (cc);
}

pub acquire_fp_scratch_reg-Consistent :
    (m n : RegisterManager) (r : Text)
    → Consistent m
    → acquire_fp_scratch_reg m ≡ ok (r, n)
    → Consistent n
unfolding acquire_fp_scratch_reg
acquire_fp_scratch_reg-Consistent m n r h e =
    let (reg, e1, e2) = >>=-eq-ok (find_free_register m.registers fp_scratch_regs) _ e in
    elim (if-cases (is_empty reg) e2) [
      | inl thrown ↦ absurd (cc)
      | inr found ↦
          let (info, e3, e4) = >>=-eq-ok (info_at (lookup reg m.registers)) _ found.1 in
          subst (λ (p : Text × RegisterManager). Consistent p.1) (ok-injective e4)
            (set-Consistent m h reg (rebind RegisterStatus.in_use_scratch [] info)
              (found-Unmapped m h fp_scratch_regs e1 found.0))
    ]
