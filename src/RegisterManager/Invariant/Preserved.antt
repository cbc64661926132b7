-- ===== src/RegisterManager/Invariant/Preserved.antt =====
-- The operations of the register manager keep its map consistent.
use bcpl.Prelude.{
  ◌≡◌, ◌∙◌, refl, sym, ap, subst, true, false, not, inl, inr, Option, none, some, List, [], ◌∷◌,
  Text, codes, text_eq, is_empty, if-cases, not-true, Result, ok, ok-injective, >>=-eq-ok,
}
use bcpl.Prelude.TextSets.{has_text, erase, union, has_text-erase}
use bcpl.Prelude.Dict.{lookup, insert, remove}
use bcpl.CallFrameManager.{force_save_register, variable_regs}
use bcpl.RegisterManager.{
  RegisterManager, RegisterStatus, RegisterInfo, Context, bound, find_free_register, info_at,
  generate_spill_code, scratch_regs,
}
use bcpl.RegisterManager.Variables.{
  back, pop_back, move_to_front, spill_if_dirty, evict, bind_variable, bind_scratch, bind_temp,
  on_manager, no_longer_spilled, cached, allocate_variable, acquire_reg_for_variable,
  evict_or_throw, acquire_scratch_reg, acquire_spillable_temp_reg, acquire_callee_saved_temp_reg,
  rebind,
}
use bcpl.RegisterManager.Invariant.{
  InPool, Consistent, Unmapped, Unmapped-unbound, Mapped-insert, Mapped-bind, Mapped-remove,
  Unmapped-remove, info_at_lem, find_free_register_lem, back-pool, pop_back-pool, push-InPool,
}

pub spill_if_dirty_lem :
    (c d : Context) (r : Text) (info : RegisterInfo)
    → spill_if_dirty c r info ≡ ok d
    → d.manager ≡ c.manager
unfolding spill_if_dirty
spill_if_dirty_lem c d r info e = elim (if-cases info.dirty e) [
  | inl dirty ↦
      let (p, e1, e2) =
        >>=-eq-ok (generate_spill_code c.manager r info.bound_to c.frame) _ dirty.1 in
      ap (λ (x : Context). x.manager) (sym (ok-injective e2))
  | inr clean ↦ ap (λ (x : Context). x.manager) (sym (ok-injective clean.1))
]

-- What an eviction leaves: the victim is of the pool, and no variable has it.
pub record Evicted (c : Context) (r : Text) (d : Context) : Type 0 where
  pub consistent : Consistent d.manager
  pub pool : has_text r variable_regs ≡ true
  pub unmapped : Unmapped r d.manager.variable_to_reg_map

-- The state behind an eviction.
abbrev pub without_victim : RegisterInfo → RegisterManager → RegisterManager
without_victim info m = record m {
  variable_reg_lru_order = pop_back m.variable_reg_lru_order;
  variable_to_reg_map = remove info.bound_to m.variable_to_reg_map;
  spilled_variables = union m.spilled_variables (info.bound_to ∷ []);
}

-- What is known of an eviction.
abbrev pub Eviction : Context → Text → Context → Type 0
Eviction c r d =
    (info : RegisterInfo) × (back c.manager.variable_reg_lru_order ≡ ok r)
    × (lookup r c.manager.registers ≡ some info)
    × (d.manager ≡ without_victim info c.manager)

evicted_pair :
    (c x d : Context) (victim r : Text) (info : RegisterInfo)
    → back c.manager.variable_reg_lru_order ≡ ok victim
    → lookup victim c.manager.registers ≡ some info
    → x.manager ≡ c.manager
    → ◌≡◌ {A = Text × Context} (victim, record x { manager = without_victim info x.manager }) (r, d)
    → Eviction c r d
evicted_pair c x d victim r info eb el ex e =
    let k = ap (λ (p : Text × Context). p.0) e in
    (
      info,
      subst (λ (t : Text). back c.manager.variable_reg_lru_order ≡ ok t) k eb,
      subst (λ (t : Text). lookup t c.manager.registers ≡ some info) k el,
      ap (λ (p : Text × Context). p.1.manager) (sym e) ∙ ap (without_victim info) ex,
    )

pub evict_lem : (c d : Context) (r : Text) → evict c ≡ ok (r, d) → Eviction c r d
unfolding evict
evict_lem c d r e =
    let (victim, e1, e2) = >>=-eq-ok (back c.manager.variable_reg_lru_order) _ e in
    let (info, e3, e4) = >>=-eq-ok (info_at (lookup victim c.manager.registers)) _ e2 in
    let (x, e5, e6) = >>=-eq-ok (spill_if_dirty c victim info) _ e4 in
    evicted_pair c x d victim r info e1 (info_at_lem (lookup victim c.manager.registers) e3)
      (spill_if_dirty_lem c x victim info e5) (ok-injective e6)

module _ (m : RegisterManager) (h : Consistent m) where
  without_victim-Consistent : (info : RegisterInfo) → Consistent (without_victim info m)
  without_victim-Consistent info = record {
    mapped = Mapped-remove m.registers m.variable_to_reg_map info.bound_to h.mapped;
    in_pool = λ t e. h.in_pool t (pop_back-pool t m.variable_reg_lru_order e);
  }

  pub set-Consistent :
      (r : Text) (info : RegisterInfo)
      → Unmapped r m.variable_to_reg_map
      → Consistent (record m { registers = insert r info m.registers })
  set-Consistent r info free = record {
    mapped = Mapped-insert m.registers m.variable_to_reg_map r info h.mapped free;
    in_pool = h.in_pool;
  }

  bind_variable-Consistent :
      (r v : Text)
      → has_text r variable_regs ≡ true
      → Unmapped r m.variable_to_reg_map
      → Consistent (bind_variable r v m)
  bind_variable-Consistent r v pool free = record {
    mapped = Mapped-bind m.registers m.variable_to_reg_map r v h.mapped free pool;
    in_pool = push-InPool r m.variable_reg_lru_order pool h.in_pool;
  }

  bind_temp-Consistent :
      (r : Text)
      → has_text r variable_regs ≡ true
      → Unmapped r m.variable_to_reg_map
      → Consistent (bind_temp r m)
  bind_temp-Consistent r pool free = record {
    mapped =
        Mapped-insert m.registers m.variable_to_reg_map r
          (bound RegisterStatus.in_use_variable (codes "_temp_")) h.mapped free;
    in_pool = push-InPool r m.variable_reg_lru_order pool h.in_pool;
  }

  -- A register that was found free is bound to no variable.
  pub found-Unmapped :
      (pool : List Text) {r : Text}
      → find_free_register m.registers pool ≡ ok r
      → is_empty r ≡ false
      → Unmapped r m.variable_to_reg_map
  found-Unmapped pool {r} e full =
      Unmapped-unbound m.registers m.variable_to_reg_map r h.mapped
        (find_free_register_lem m.registers pool e full).1

forget-Consistent :
    (m : RegisterManager) (v : Text) → Consistent m → Consistent (no_longer_spilled v m)
forget-Consistent m v h = record { mapped = h.mapped; in_pool = h.in_pool }

evict-Evicted :
    (c d : Context) (r : Text) → Consistent c.manager → evict c ≡ ok (r, d) → Evicted c r d
evict-Evicted c d r h e =
    let (info, eb, el, ed) = evict_lem c d r e in
    record {
      consistent = subst Consistent (sym ed) (without_victim-Consistent c.manager h info);
      pool = h.in_pool r (back-pool c.manager.variable_reg_lru_order eb);
      unmapped =
          subst (λ (m : RegisterManager). Unmapped r m.variable_to_reg_map) (sym ed)
            (Unmapped-remove c.manager.registers c.manager.variable_to_reg_map r h.mapped el);
    }

pub erase-InPool : (r : Text) (lru : List Text) → InPool lru → InPool (erase r lru)
erase-InPool r lru h t e = elim (if-cases (text_eq r t) (sym (has_text-erase t r lru) ∙ e)) [
  | inl gone ↦ absurd (cc)
  | inr left ↦ h t left.1
]

-- What an acquisition that succeeds leaves.
abbrev KeepsConsistent : {A : Type 0} → Result (A × Context) → Type 0
KeepsConsistent {A} call = (a : A) (d : Context) → call ≡ ok (a, d) → Consistent d.manager

last_lem :
    {A : Type 0} (a b : A) (c d : Context)
    → Consistent c.manager
    → ◌≡◌ {A = Result (A × Context)} (ok (a, c)) (ok (b, d))
    → Consistent d.manager
last_lem {A} a b c d h e = subst (λ (p : A × Context). Consistent p.1.manager) (ok-injective e) h

allocate_variable-Consistent :
    (v : Text) (c : Context) → Consistent c.manager → KeepsConsistent (allocate_variable v c)
unfolding allocate_variable
allocate_variable-Consistent v c h a d e =
    let (reg, e1, e2) = >>=-eq-ok (find_free_register c.manager.registers variable_regs) _ e in
    elim (if-cases (not (is_empty reg)) e2) [
      | inl found ↦
          let full : is_empty reg ≡ false = not-true (is_empty reg) found.0 in
          last_lem (reg, false) a (on_manager (bind_variable reg v) c) d
            (bind_variable-Consistent c.manager h reg v
              (find_free_register_lem c.manager.registers variable_regs e1 full).0
              (found-Unmapped c.manager h variable_regs e1 full))
            found.1
      | inr spilled ↦
          let (p, e3, e4) = >>=-eq-ok (evict c) _ spilled.1 in
          let ev = evict-Evicted c p.1 p.0 h e3 in
          last_lem (p.0, false) a
            (on_manager (λ m. no_longer_spilled v (bind_variable p.0 v m)) p.1) d
            (forget-Consistent (bind_variable p.0 v p.1.manager) v
              (bind_variable-Consistent p.1.manager ev.consistent p.0 v ev.pool ev.unmapped))
            e4
    ]

cached-Consistent :
    (v : Text) (o : Option Text) (c : Context)
    → lookup v c.manager.variable_to_reg_map ≡ o
    → Consistent c.manager
    → KeepsConsistent (cached v o c)
unfolding move_to_front
cached-Consistent v none c eo h a d e = allocate_variable-Consistent v c h a d e
cached-Consistent v (some reg) c eo h a d e =
    let front : RegisterManager = record c.manager {
      variable_reg_lru_order = move_to_front reg c.manager.variable_reg_lru_order;
    } in
    let kept : Consistent front = record {
      mapped = h.mapped;
      in_pool =
          push-InPool reg (erase reg c.manager.variable_reg_lru_order) (h.mapped v reg eo).0
            (erase-InPool reg c.manager.variable_reg_lru_order h.in_pool);
    } in
    last_lem (reg, true) a (record c { manager = front }) d kept e

pub acquire_reg_for_variable-Consistent :
    (v : Text) (c : Context) → Consistent c.manager → KeepsConsistent (acquire_reg_for_variable v c)
unfolding acquire_reg_for_variable
acquire_reg_for_variable-Consistent v c h =
    cached-Consistent v (lookup v c.manager.variable_to_reg_map) c refl h

evict_or_throw_lem : (c : Context) {p : Text × Context} → evict_or_throw c ≡ ok p → evict c ≡ ok p
unfolding evict_or_throw
evict_or_throw_lem c e = elim (if-cases (is_empty c.manager.variable_reg_lru_order) e) [
  | inl thrown ↦ absurd (cc)
  | inr evicted ↦ evicted.1
]

scratch_found :
    (c d : Context) (reg a name : Text) (pool : List Text)
    → Consistent c.manager
    → find_free_register c.manager.registers pool ≡ ok reg
    → is_empty reg ≡ false
    → ◌≡◌ {A = Result (Text × Context)} (ok (reg, on_manager (bind_scratch reg name) c)) (ok (a, d))
    → Consistent d.manager
scratch_found c d reg a name pool h ef full e =
    last_lem reg a (on_manager (bind_scratch reg name) c) d
      (set-Consistent c.manager h reg (bound RegisterStatus.in_use_scratch name)
        (found-Unmapped c.manager h pool ef full))
      e

pub acquire_scratch_reg-Consistent :
    (c : Context) → Consistent c.manager → KeepsConsistent (acquire_scratch_reg c)
unfolding acquire_scratch_reg
acquire_scratch_reg-Consistent c h a d e =
    let (reg, e1, e2) = >>=-eq-ok (find_free_register c.manager.registers scratch_regs) _ e in
    elim (if-cases (not (is_empty reg)) e2) [
      | inl found ↦
          scratch_found c d reg a (codes "scratch") scratch_regs h e1
            (not-true (is_empty reg) found.0) found.1
      | inr others ↦
          let (var, e3, e4) =
            >>=-eq-ok (find_free_register c.manager.registers variable_regs) _ others.1 in
          elim (if-cases (not (is_empty var)) e4) [
            | inl found ↦
                scratch_found c d var a (codes "scratch_from_vars") variable_regs h e3
                  (not-true (is_empty var) found.0) found.1
            | inr spilled ↦
                let (p, e5, e6) = >>=-eq-ok (evict_or_throw c) _ spilled.1 in
                let ev = evict-Evicted c p.1 p.0 h (evict_or_throw_lem c e5) in
                last_lem p.0 a (on_manager (bind_scratch p.0 (codes "scratch_from_spill")) p.1) d
                  (set-Consistent p.1.manager ev.consistent p.0
                    (bound RegisterStatus.in_use_scratch (codes "scratch_from_spill")) ev.unmapped)
                  e6
          ]
    ]

pub acquire_spillable_temp_reg-Consistent :
    (c : Context) → Consistent c.manager → KeepsConsistent (acquire_spillable_temp_reg c)
unfolding acquire_spillable_temp_reg
acquire_spillable_temp_reg-Consistent c h a d e =
    let (reg, e1, e2) = >>=-eq-ok (find_free_register c.manager.registers variable_regs) _ e in
    elim (if-cases (not (is_empty reg)) e2) [
      | inl found ↦
          let full = not-true (is_empty reg) found.0 in
          last_lem reg a (on_manager (bind_temp reg) c) d
            (bind_temp-Consistent c.manager h reg
              (find_free_register_lem c.manager.registers variable_regs e1 full).0
              (found-Unmapped c.manager h variable_regs e1 full))
            found.1
      | inr spilled ↦
          let (p, e3, e4) = >>=-eq-ok (evict c) _ spilled.1 in
          let ev = evict-Evicted c p.1 p.0 h e3 in
          last_lem p.0 a (on_manager (bind_temp p.0) p.1) d
            (bind_temp-Consistent p.1.manager ev.consistent p.0 ev.pool ev.unmapped) e4
    ]

pub acquire_callee_saved_temp_reg-Consistent :
    (c : Context) → Consistent c.manager → KeepsConsistent (acquire_callee_saved_temp_reg c)
unfolding acquire_callee_saved_temp_reg
acquire_callee_saved_temp_reg-Consistent c h a d e =
    let (reg, e1, e2) = >>=-eq-ok (find_free_register c.manager.registers variable_regs) _ e in
    elim (if-cases (is_empty reg) e2) [
      | inl thrown ↦ absurd (cc)
      | inr found ↦
          let (info, e3, e4) = >>=-eq-ok (info_at (lookup reg c.manager.registers)) _ found.1 in
          let (frame, e5, e6) = >>=-eq-ok (force_save_register c.frame reg) _ e4 in
          let info' = rebind RegisterStatus.in_use_scratch (codes "_persistent_temp_") info in
          let m = record c.manager { registers = insert reg info' c.manager.registers } in
          last_lem reg a (record c { frame = frame; manager = m }) d
            (set-Consistent c.manager h reg info'
              (found-Unmapped c.manager h variable_regs e1 found.0))
            e6
    ]
