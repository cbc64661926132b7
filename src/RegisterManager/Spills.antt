-- ===== src/RegisterManager/Spills.antt =====
-- What acquiring a register for one variable does to the others.
use bcpl.Prelude.{
  ◌≡◌, ◌≢◌, ◌∙◌, refl, sym, ap, subst, arith, Bool, true, false, not, ◌||◌, Bool-cases, inl, inr,
  ◌⊎◌, Option, none, some, [], ◌∷◌, ◌++◌, Text, codes, text_eq, text_eq_iff, is_empty, if-cases,
  if-true, if-false, Result, ok, ok-injective, >>=-eq-ok,
}
use bcpl.Prelude.Int.{pos}
use bcpl.Prelude.TextSets.{has_text, has_text-union, has_text-erase}
use bcpl.Prelude.Dict.{Dict, lookup, insert, lookup-insert, lookup-remove}
use bcpl.Instruction.{Instruction}
use bcpl.Encoder.Memory.{create_str_imm}
use bcpl.CallFrameManager.{CallFrameManager, get_spill_offset, variable_regs}
use bcpl.RegisterManager.{
  RegisterManager, RegisterInfo, Context, find_free_register, info_at, generate_spill_code,
  is_dirty, dirty_of,
}
use bcpl.RegisterManager.Variables.{
  back, spill_if_dirty, evict, bind_variable, on_manager, no_longer_spilled, cached,
  allocate_variable, acquire_reg_for_variable,
}
use bcpl.RegisterManager.Invariant.{info_at_lem}
use bcpl.RegisterManager.Invariant.Apart.{Leaves, >>=-Leaves, if-Leaves}
use bcpl.RegisterManager.Invariant.Steps.{Step, Reachable, Reachable-injective}
use bcpl.RegisterManager.Invariant.Preserved.{without_victim, spill_if_dirty_lem}

-- A dirty victim is stored into the slot of its variable, by one more instruction.
pub Stored : Context → Text → Text → Context → Type 0
Stored c victim w d =
    (instr : Instruction) × (create_str_imm victim (codes "X29")
        (pos (get_spill_offset c.frame w).0) w
      ≡ ok instr)
    × (d.emitted ≡ c.emitted ++ (instr ∷ []))

-- The variable lost its register: that register was the least recently used one, the variable has
-- left the map, it is marked as spilled, and a dirty register was stored.
pub Spilled : Context → Text → Context → Type 0
Spilled c w d =
    (victim : Text) × (info : RegisterInfo) × (back c.manager.variable_reg_lru_order ≡ ok victim)
    × (lookup victim c.manager.registers ≡ some info)
    × (info.bound_to ≡ w)
    × (lookup w d.manager.variable_to_reg_map ≡ none)
    × (has_text w d.manager.spilled_variables ≡ true)
    × (info.dirty ≡ true → Stored c victim w d)

spill_if_dirty-Stored :
    (c d : Context) (r : Text) (info : RegisterInfo)
    → lookup r c.manager.registers ≡ some info
    → spill_if_dirty c r info ≡ ok d
    → info.dirty ≡ true
    → Stored c r info.bound_to d
unfolding spill_if_dirty generate_spill_code is_dirty Stored
spill_if_dirty-Stored c d r info el e dirty =
    let (p, e1, e2) =
      >>=-eq-ok (generate_spill_code c.manager r info.bound_to c.frame) _
        (sym (if-true _ _ dirty) ∙ e) in
    let clean : not (is_dirty c.manager r) ≡ false = ap not (ap dirty_of el ∙ dirty) in
    let slot = get_spill_offset c.frame info.bound_to in
    let (instr, e3, e4) =
      >>=-eq-ok (create_str_imm r (codes "X29") (pos slot.0) info.bound_to) _
        (sym (if-false _ _ clean) ∙ e1) in
    (
      instr,
      e3,
      ap (λ (x : Context). x.emitted) (sym (ok-injective e2))
          ∙ ap (λ (q : Instruction × CallFrameManager). c.emitted ++ (q.0 ∷ []))
              (sym (ok-injective e4)),
    )

evict_pair :
    (c x d : Context) (victim r : Text) (info : RegisterInfo)
    → back c.manager.variable_reg_lru_order ≡ ok victim
    → lookup victim c.manager.registers ≡ some info
    → x.manager ≡ c.manager
    → (info.dirty ≡ true → Stored c victim info.bound_to x)
    → ◌≡◌ {A = Text × Context} (victim, record x { manager = without_victim info x.manager }) (r, d)
    → (i : RegisterInfo) × (back c.manager.variable_reg_lru_order ≡ ok r)
      × (lookup r c.manager.registers ≡ some i)
      × (d.manager ≡ without_victim i c.manager)
      × (i.dirty ≡ true → Stored c r i.bound_to d)
unfolding Stored
evict_pair c x d victim r info eb el ex stored e =
    let k = ap (λ (p : Text × Context). p.0) e in
    (
      info,
      subst (λ (t : Text). back c.manager.variable_reg_lru_order ≡ ok t) k eb,
      subst (λ (t : Text). lookup t c.manager.registers ≡ some info) k el,
      ap (λ (p : Text × Context). p.1.manager) (sym e) ∙ ap (without_victim info) ex,
      λ dirty. subst (λ (p : Text × Context). Stored c p.0 info.bound_to p.1) e (stored dirty),
    )

-- An eviction, with its store.
evict-Stored :
    (c d : Context) (r : Text)
    → evict c ≡ ok (r, d)
    → (info : RegisterInfo) × (back c.manager.variable_reg_lru_order ≡ ok r)
      × (lookup r c.manager.registers ≡ some info)
      × (d.manager ≡ without_victim info c.manager)
      × (info.dirty ≡ true → Stored c r info.bound_to d)
unfolding evict
evict-Stored c d r e =
    let (victim, e1, e2) = >>=-eq-ok (back c.manager.variable_reg_lru_order) _ e in
    let (info, e3, e4) = >>=-eq-ok (info_at (lookup victim c.manager.registers)) _ e2 in
    let (x, e5, e6) = >>=-eq-ok (spill_if_dirty c victim info) _ e4 in
    let el = info_at_lem (lookup victim c.manager.registers) e3 in
    evict_pair c x d victim r info e1 el (spill_if_dirty_lem c x victim info e5)
      (spill_if_dirty-Stored c x victim info el e5) (ok-injective e6)

text_differs : (v w : Text) → v ≢ w → text_eq v w ≡ false
text_differs v w ne = elim (Bool-cases (text_eq v w)) [
  | inl e ↦ absurd (ne ((text_eq_iff v w).0 e))
  | inr e ↦ e
]

or_right : (a : Bool) {b : Bool} → b ≡ true → (a || b) ≡ true
or_right a h = ground (arith, h)

module _ (c : Context) (w s : Text) (e : lookup w c.manager.variable_to_reg_map ≡ some s) where
  -- Behind an eviction and a binding of another variable.
  evict-Kept :
      (x : Context) (v r : Text) (info : RegisterInfo)
      → v ≢ w
      → back c.manager.variable_reg_lru_order ≡ ok r
      → lookup r c.manager.registers ≡ some info
      → x.manager ≡ without_victim info c.manager
      → (info.dirty ≡ true → Stored c r info.bound_to x)
      → (lookup w (insert v r x.manager.variable_to_reg_map) ≡ some s)
        ⊎ Spilled c w (on_manager (λ m. no_longer_spilled v (bind_variable r v m)) x)
  unfolding Spilled Stored has_text
  evict-Kept x v r info ne eb el ex stored =
      let other = text_differs v w ne in
      let map = ap (λ (m : RegisterManager). m.variable_to_reg_map) ex in
      let spills = ap (λ (m : RegisterManager). m.spilled_variables) ex in
      let removed =
        lookup-insert v w r x.manager.variable_to_reg_map
        ∙ if-false _ _ other
        ∙ ap (lookup w) map
        ∙ lookup-remove info.bound_to w c.manager.variable_to_reg_map in
      elim (Bool-cases (text_eq info.bound_to w)) [
        | inl victim ↦ inr (
          r,
          info,
          eb,
          el,
          (text_eq_iff info.bound_to w).0 victim,
          removed ∙ if-true _ _ victim,
          has_text-erase w v x.manager.spilled_variables
              ∙ if-false _ _ other
              ∙ ap (has_text w) spills
              ∙ has_text-union w c.manager.spilled_variables (info.bound_to ∷ [])
              ∙ or_right (has_text w c.manager.spilled_variables) (if-true _ _ victim),
          λ dirty.
              subst (λ (u : Text). Stored c r u x) ((text_eq_iff info.bound_to w).0 victim)
                (stored dirty),
        )
        | inr kept ↦ inl (removed ∙ if-false _ _ kept ∙ e)
      ]

  -- The other variable keeps its register, or was spilled.
  abbrev Kept : Context → Type 0
  Kept d = (lookup w d.manager.variable_to_reg_map ≡ some s) ⊎ Spilled c w d

  last-Kept :
      (a b : Text × Bool) (x d : Context)
      → Kept x
      → ◌≡◌ {A = Result ((Text × Bool) × Context)} (ok (a, x)) (ok (b, d))
      → Kept d
  last-Kept a b x d k h = subst (λ (p : (Text × Bool) × Context). Kept p.1) (ok-injective h) k

  allocate_variable-keeps :
      (v : Text) (a : Text × Bool) (d : Context)
      → v ≢ w
      → allocate_variable v c ≡ ok (a, d)
      → Kept d
  unfolding allocate_variable
  allocate_variable-keeps v a d ne h =
      let (reg, e1, e2) = >>=-eq-ok (find_free_register c.manager.registers variable_regs) _ h in
      elim (if-cases (not (is_empty reg)) e2) [
        | inl found ↦
            last-Kept (reg, false) a (on_manager (bind_variable reg v) c) d
              (inl (
                lookup-insert v w reg c.manager.variable_to_reg_map
                ∙ if-false _ _ (text_differs v w ne)
                ∙ e))
              found.1
        | inr full ↦
            let (p, e3, e4) = >>=-eq-ok (evict c) _ full.1 in
            let (info, eb, el, ex, stored) = evict-Stored c p.1 p.0 e3 in
            last-Kept (p.0, false) a
              (on_manager (λ m. no_longer_spilled v (bind_variable p.0 v m)) p.1) d
              (evict-Kept p.1 v p.0 info ne eb el ex stored) e4
      ]

  cached-keeps :
      (v : Text) (o : Option Text) (a : Text × Bool) (d : Context)
      → v ≢ w
      → cached v o c ≡ ok (a, d)
      → Kept d
  cached-keeps v none a d ne h = allocate_variable-keeps v a d ne h
  cached-keeps v (some reg) a d ne h =
      subst (λ (p : (Text × Bool) × Context). Kept p.1) (ok-injective h) (inl e)

-- The variable of a call has the register that the call returns.
abbrev Has : Text → Result ((Text × Bool) × Context) → Type 0
Has v call =
    Leaves {A = Text × Bool} {D = Context}
      (λ a d. lookup v d.manager.variable_to_reg_map ≡ some a.0) call

inserted : (v r : Text) (map : Dict Text) → lookup v (insert v r map) ≡ some r
inserted v r map = lookup-insert v v r map ∙ if-true _ _ ((text_eq_iff v v).1 refl)

cached-Has :
    (v : Text) (o : Option Text) (c : Context)
    → lookup v c.manager.variable_to_reg_map ≡ o
    → Has v (cached v o c)
unfolding allocate_variable
cached-Has v (some r) c e = e
cached-Has v none c e =
    >>=-Leaves _ (find_free_register c.manager.registers variable_regs) _ (λ reg er.
      if-Leaves _ (not (is_empty reg)) _ _ (λ f. inserted v reg c.manager.variable_to_reg_map)
        (λ f. >>=-Leaves _ (evict c) _ (λ p ep. inserted v p.0 p.1.manager.variable_to_reg_map)))

acquired-Has :
    (v : Text) (c : Context) {r : (Text × Bool) × Context}
    → acquire_reg_for_variable v c ≡ ok r
    → lookup v r.1.manager.variable_to_reg_map ≡ some r.0.0
unfolding acquire_reg_for_variable
acquired-Has v c e = subst (Has v) e (cached-Has v (lookup v c.manager.variable_to_reg_map) c refl)

-- In a reachable state, when one variable acquires a register, it has the register that is returned,
-- and any other variable that had a register either keeps it, and it is not the one that is returned,
-- or is spilled: then it had the least recently used register, it has left the map, it is marked as
-- spilled, and if that register was dirty, a store of it into the variable's slot was emitted.
pub acquire_reg_for_variable-keeps :
    (c d : Context) (v w s : Text) {a : Text × Bool}
    → Reachable c
    → v ≢ w
    → lookup w c.manager.variable_to_reg_map ≡ some s
    → acquire_reg_for_variable v c ≡ ok (a, d)
    → (lookup v d.manager.variable_to_reg_map ≡ some a.0)
      × (((lookup w d.manager.variable_to_reg_map ≡ some s) × (a.0 ≢ s)) ⊎ Spilled c w d)
unfolding acquire_reg_for_variable
acquire_reg_for_variable-keeps c d v w s {a} reached ne e h =
    let has = acquired-Has v c h in
    (
      has,
      elim (cached-keeps c w s e v (lookup v c.manager.variable_to_reg_map) a d ne h) [
        | inl kept ↦ inl (
          kept,
          Reachable-injective v w a.0 s (Reachable.further reached (Step.variable v h)) ne has kept,
        )
        | inr spilled ↦ inr spilled
      ],
    )
