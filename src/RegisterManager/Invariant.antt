-- ===== src/RegisterManager/Invariant.antt =====
-- The map from variables to registers agrees with the states of the registers.
pub mod Preserved
pub mod Released
pub mod Apart
pub mod Floats
pub mod Steps
use bcpl.Prelude.{
  ℕ, ◌≡◌, ◌≢◌, ◌∙◌, refl, sym, ap, subst, arith, Bool, true, false, not, Bool-cases, inl, inr, ◌⊎◌,
  ◌&&◌, Option, none, some, some-injective, List, [], ◌∷◌, Text, codes, text_eq, text_eq_iff,
  is_empty, if◌then◌else◌, if-cases, if-true, if-false, Result, ok, err, ok-injective, >>=-eq-ok,
}
use bcpl.Prelude.TextSets.{has_text, erase}
use bcpl.Prelude.Dict.{Dict, lookup, insert, remove, lookup-insert, lookup-remove}
use bcpl.CallFrameManager.{variable_regs}
use bcpl.RegisterManager.{
  RegisterManager, RegisterStatus, RegisterInfo, Context, bound, is_free, holds_variable, info_at,
  find_free_register,
}
use bcpl.RegisterManager.Variables.{back, pop_back}
use bcpl.RegisterManager.Releases.{unmap, erase_mapped}

-- The variable that a register holds.
abbrev pub binding : Option RegisterInfo → Option Text
binding none = none
binding (some info) = if holds_variable info.status then some info.bound_to else none

-- Every variable of the map has a register of the pool that holds it.
abbrev pub Mapped : Dict RegisterInfo → Dict Text → Type 0
Mapped registers map =
    (v r : Text)
    → lookup v map ≡ some r
    → (has_text r variable_regs ≡ true) × (binding (lookup r registers) ≡ some v)

abbrev pub InPool : List Text → Type 0
InPool lru = (r : Text) → has_text r lru ≡ true → has_text r variable_regs ≡ true

pub record Consistent (m : RegisterManager) : Type 0 where
  pub mapped : Mapped m.registers m.variable_to_reg_map
  pub in_pool : InPool m.variable_reg_lru_order

-- No variable has the register.
abbrev pub Unmapped : Text → Dict Text → Type 0
Unmapped r map = (v : Text) → lookup v map ≢ some r

pub Unmapped-unbound :
    (registers : Dict RegisterInfo) (map : Dict Text) (r : Text)
    → Mapped registers map
    → binding (lookup r registers) ≡ none
    → Unmapped r map
Unmapped-unbound registers map r h e v f = let k = (h v r f).1 in cc

pub Mapped-insert :
    (registers : Dict RegisterInfo) (map : Dict Text) (r : Text) (info : RegisterInfo)
    → Mapped registers map
    → Unmapped r map
    → Mapped (insert r info registers) map
Mapped-insert registers map r info h free v s e = elim (Bool-cases (text_eq r s)) [
  | inl same ↦ absurd (free v (e ∙ ap some (sym ((text_eq_iff r s).0 same))))
  | inr other ↦ (
    (h v s e).0,
    ap binding (lookup-insert r s info registers ∙ if-false _ _ other) ∙ (h v s e).1,
  )
]

pub Mapped-bind :
    (registers : Dict RegisterInfo) (map : Dict Text) (r v : Text)
    → Mapped registers map
    → Unmapped r map
    → has_text r variable_regs ≡ true
    → Mapped (insert r (bound RegisterStatus.in_use_variable v) registers) (insert v r map)
Mapped-bind registers map r v h free pool w s e =
    let info = bound RegisterStatus.in_use_variable v in
    elim (if-cases (text_eq v w) (sym (lookup-insert v w r map) ∙ e)) [
      | inl new ↦
          let k : r ≡ s = some-injective new.1 in
          (
            subst (λ (t : Text). has_text t variable_regs ≡ true) k pool,
            ap binding (lookup-insert r s info registers ∙ if-true _ _ ((text_eq_iff r s).1 k))
                ∙ ap some ((text_eq_iff v w).0 new.0),
          )
      | inr old ↦ Mapped-insert registers map r info h free w s old.1
    ]

pub removed_lem :
    (map : Dict Text) (w v : Text) {r : Text}
    → lookup v (remove w map) ≡ some r
    → (text_eq w v ≡ false) × (lookup v map ≡ some r)
removed_lem map w v e = elim (if-cases (text_eq w v) (sym (lookup-remove w v map) ∙ e)) [
  | inl gone ↦ absurd (cc)
  | inr left ↦ left
]

pub Mapped-remove :
    (registers : Dict RegisterInfo) (map : Dict Text) (w : Text)
    → Mapped registers map
    → Mapped registers (remove w map)
Mapped-remove registers map w h v r e = h v r (removed_lem map w v e).1

-- When the variable of a register leaves the map, the register is free of variables.
pub Unmapped-remove :
    (registers : Dict RegisterInfo) (map : Dict Text) (r : Text) {info : RegisterInfo}
    → Mapped registers map
    → lookup r registers ≡ some info
    → Unmapped r (remove info.bound_to map)
Unmapped-remove registers map r {info} h e v f =
    let (different, g) = removed_lem map info.bound_to v f in
    let b : binding (some info) ≡ some v = ap binding (sym e) ∙ (h v r g).1 in
    elim (if-cases (holds_variable info.status) b) [
      | inl held ↦ absurd (let k = (text_eq_iff info.bound_to v).1 (some-injective held.1) in cc)
      | inr not_held ↦ absurd (cc)
    ]

pub info_at_lem :
    (o : Option RegisterInfo) {info : RegisterInfo} → info_at o ≡ ok info → o ≡ some info
info_at_lem none e = absurd (cc)
info_at_lem (some i) e = cc

free_status : (s : RegisterStatus) → is_free s ≡ true → holds_variable s ≡ false
free_status RegisterStatus.free e = refl
free_status RegisterStatus.in_use_variable e = absurd (cc)
free_status RegisterStatus.in_use_scratch e = refl
free_status RegisterStatus.in_use_routine_addr e = refl
free_status RegisterStatus.in_use_data_base e = refl

free_unbound : (info : RegisterInfo) → is_free info.status ≡ true → binding (some info) ≡ none
free_unbound info e = if-false _ _ (free_status info.status e)

-- A register that find_free_register finds is free and of the pool.
pub find_free_register_lem :
    (registers : Dict RegisterInfo) (pool : List Text) {r : Text}
    → find_free_register registers pool ≡ ok r
    → is_empty r ≡ false
    → (has_text r pool ≡ true) × (binding (lookup r registers) ≡ none)
unfolding find_free_register has_text
find_free_register_lem registers [] e full = absurd (let k = ap is_empty (ok-injective e) in cc)
find_free_register_lem registers (reg ∷ pool) {r} e full =
    let (info, ei, e1) = >>=-eq-ok (info_at (lookup reg registers)) _ e in
    elim (if-cases (is_free info.status) e1) [
      | inl found ↦
          let k : reg ≡ r = ok-injective found.1 in
          (
            if-true _ _ ((text_eq_iff reg r).1 k),
            subst (λ (t : Text). binding (lookup t registers) ≡ none) k
                (ap binding (info_at_lem (lookup reg registers) ei) ∙ free_unbound info found.0),
          )
      | inr later ↦
          let (m, b) = find_free_register_lem registers pool later.1 full in (ground (arith, m), b)
    ]

pub back-pool : (lru : List Text) {r : Text} → back lru ≡ ok r → has_text r lru ≡ true
unfolding back has_text
back-pool [] e = absurd (cc)
back-pool (r ∷ []) e = ground (arith, text_eq_iff r r, e)
back-pool (r ∷ s ∷ rs) e = ground (arith, back-pool (s ∷ rs) e)

pub pop_back-pool :
    (t : Text) (lru : List Text) → has_text t (pop_back lru) ≡ true → has_text t lru ≡ true
unfolding pop_back has_text
pop_back-pool t [] e = e
pop_back-pool t (r ∷ []) e = absurd (cc)
pop_back-pool t (r ∷ s ∷ rs) e = ground (arith, pop_back-pool t (s ∷ rs))

pub push-InPool :
    (r : Text) (lru : List Text) → has_text r variable_regs ≡ true → InPool lru → InPool (r ∷ lru)
unfolding has_text
push-InPool r lru pool h t e = elim (if-cases (text_eq r t) e) [
  | inl this ↦
      subst (λ (u : Text). has_text u variable_regs ≡ true) ((text_eq_iff r t).0 this.0) pool
  | inr later ↦ h t later.1
]
