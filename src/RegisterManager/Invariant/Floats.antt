-- ===== src/RegisterManager/Invariant/Floats.antt =====
-- Acquiring and releasing floating-point and vector registers keeps the map of the variables
-- consistent.
use bcpl.Prelude.{
  ◌≡◌, ◌∙◌, refl, sym, subst, true, false, not, not-true, Option, none, some, codes, some-injective,
  inl, inr, Text, text_eq, is_empty, if-cases, Result,
}
use bcpl.Prelude.TextSets.{has_text}
use bcpl.Prelude.Dict.{Dict, lookup, insert, remove, lookup-insert}
use bcpl.Prelude.Int.{pos}
use bcpl.CallFrameManager.{variable_regs, get_spill_offset, get_offset}
use bcpl.RegisterManager.{
  RegisterManager, RegisterStatus, RegisterInfo, Context, fp_variable_regs, vec_variable_regs,
  vec_scratch_regs, find_free_register, bound,
}
use bcpl.RegisterManager.Variables.{back}
use bcpl.RegisterManager.Releases.{acquire_vec_scratch_reg}
use bcpl.RegisterManager.Floating.{
  create_str_fp_imm, register_or_empty, hold, map_fp_variable, map_vec_variable, evict_fp,
  fp_register_of, acquire_fp_reg_for_variable, acquire_spillable_fp_temp_reg, evict_vec,
  vec_register_of, acquire_vec_variable_reg,
}
use bcpl.RegisterManager.Invariant.{Consistent, Unmapped, removed_lem, find_free_register_lem}
use bcpl.RegisterManager.Invariant.Preserved.{set-Consistent, found-Unmapped}
use bcpl.RegisterManager.Invariant.Released.{all_pass, all_pass_lem}
use bcpl.RegisterManager.Invariant.Apart.{Outside, Apart, Leaves, >>=-Leaves, if-Leaves}

-- What every step keeps.
abbrev pub Good : RegisterManager → Type 0
Good m = Consistent m × Apart m

fp_pool : (r : Text) → has_text r fp_variable_regs ≡ true → has_text r variable_regs ≡ false
unfolding all_pass has_text text_eq
fp_pool r e =
    not-true (has_text r variable_regs)
      (all_pass_lem (λ t. not (has_text t variable_regs)) fp_variable_regs r refl e)

vec_pool : (r : Text) → has_text r vec_variable_regs ≡ true → has_text r variable_regs ≡ false
unfolding all_pass has_text text_eq
vec_pool r e =
    not-true (has_text r variable_regs)
      (all_pass_lem (λ t. not (has_text t variable_regs)) vec_variable_regs r refl e)

Outside-insert :
    (map : Dict Text) (v r : Text)
    → Outside map
    → has_text r variable_regs ≡ false
    → Outside (insert v r map)
Outside-insert map v r h out w s e =
    elim (if-cases (text_eq v w) (sym (lookup-insert v w r map) ∙ e)) [
      | inl new ↦ subst (λ (t : Text). has_text t variable_regs ≡ false) (some-injective new.1) out
      | inr old ↦ h w s old.1
    ]

Outside-remove : (map : Dict Text) (v : Text) → Outside map → Outside (remove v map)
Outside-remove map v h w s e = h w s (removed_lem map v w e).1

register_or_empty_apart :
    (map : Dict Text) (v : Text)
    → Outside map
    → has_text (register_or_empty (lookup v map)) variable_regs ≡ false
unfolding has_text text_eq
register_or_empty_apart map v h = by_register (lookup v map) refl
  where
    by_register :
        (o : Option Text) → lookup v map ≡ o → has_text (register_or_empty o) variable_regs ≡ false
    by_register none e = refl
    by_register (some r) e = h v r e

module _ (m : RegisterManager) (h : Good m) (r : Text)
    (out : has_text r variable_regs ≡ false) where
  apart-Unmapped : Unmapped r m.variable_to_reg_map
  apart-Unmapped v e = let k = (h.0.mapped v r e).0 in cc

  set-Good : (info : RegisterInfo) → Good (record m { registers = insert r info m.registers })
  set-Good info = (set-Consistent m h.0 r info apart-Unmapped, h.1)

  map_fp-Good : (v : Text) → Good (map_fp_variable r v m)
  map_fp-Good v = (
    record { mapped = h.0.mapped; in_pool = h.0.in_pool },
    (Outside-insert m.fp_variable_to_reg_map v r h.1.0 out, h.1.1),
  )

  map_vec-Good : (v : Text) → Good (map_vec_variable r v m)
  map_vec-Good v =
      let held = set-Good (bound RegisterStatus.in_use_variable v) in
      (
        record { mapped = held.0.mapped; in_pool = held.0.in_pool },
        (h.1.0, Outside-insert m.vec_variable_to_reg_map v r h.1.1 out),
      )

-- The register is bound, and then enters the map.
hold_fp-Good :
    (m : RegisterManager) (r v : Text)
    → Good m
    → has_text r variable_regs ≡ false
    → Good (map_fp_variable r v (hold r v m))
hold_fp-Good m r v h out = map_fp-Good (hold r v m) (set-Good m h r out _) r out v

abbrev pub KeepsGood : Result (Text × Context) → Type 0
KeepsGood call = Leaves {A = Text} {D = Context} (λ r d. Good d.manager) call

-- A victim is outside the pool X20 to X27.
abbrev VictimOutside : Result (Text × Context) → Type 0
VictimOutside call =
    Leaves {A = Text} {D = Context} (λ r d. (has_text r variable_regs ≡ false) × Good d.manager)
      call

evict_fp-Good : (c : Context) → Good c.manager → VictimOutside (evict_fp c)
unfolding evict_fp
evict_fp-Good c h =
    if-Leaves _ (is_empty c.manager.fp_variable_reg_lru_order) _ _ (λ f. tt)
      (λ f. >>=-Leaves _ (back c.manager.fp_variable_reg_lru_order) _ (λ v ev.
        >>=-Leaves _
          (create_str_fp_imm (register_or_empty (lookup v c.manager.fp_variable_to_reg_map))
            (codes "X29") (pos (get_spill_offset c.frame v).0))
          _
          (λ instr ei. (
            register_or_empty_apart c.manager.fp_variable_to_reg_map v h.1.0,
            (
              record { mapped = h.0.mapped; in_pool = h.0.in_pool },
              (Outside-remove c.manager.fp_variable_to_reg_map v h.1.0, h.1.1),
            ),
          ))))

evict_vec-Good : (c : Context) → Good c.manager → VictimOutside (evict_vec c)
unfolding evict_vec
evict_vec-Good c h = >>=-Leaves _ (back c.manager.vec_variable_reg_lru_order) _ (λ v ev.
    >>=-Leaves _ (get_offset c.frame v) _ (λ offset eo. (
      register_or_empty_apart c.manager.vec_variable_to_reg_map v h.1.1,
      (
        record { mapped = h.0.mapped; in_pool = h.0.in_pool },
        (h.1.0, Outside-remove c.manager.vec_variable_to_reg_map v h.1.1),
      ),
    )))

fp_register_of-Good :
    (v : Text) (o : Option Text) (c : Context) → Good c.manager → KeepsGood (fp_register_of v o c)
fp_register_of-Good v (some r) c h = h
fp_register_of-Good v none c h =
    >>=-Leaves _ (find_free_register c.manager.registers fp_variable_regs) _ (λ reg er.
      if-Leaves _ (not (is_empty reg)) _ _
        (λ f.
          let free =
            find_free_register_lem c.manager.registers fp_variable_regs er
              (not-true (is_empty reg) f) in
          hold_fp-Good c.manager reg v h (fp_pool reg free.0))
        (λ f. >>=-Leaves _ (evict_fp c) _ (λ p ep.
          let q = subst VictimOutside ep (evict_fp-Good c h) in
          hold_fp-Good p.1.manager p.0 v q.1 q.0)))

pub acquire_fp_reg_for_variable-Good :
    (v : Text) (c : Context) → Good c.manager → KeepsGood (acquire_fp_reg_for_variable v c)
unfolding acquire_fp_reg_for_variable
acquire_fp_reg_for_variable-Good v c h =
    fp_register_of-Good v (lookup v c.manager.fp_variable_to_reg_map) c h

pub acquire_spillable_fp_temp_reg-Good :
    (c : Context) → Good c.manager → KeepsGood (acquire_spillable_fp_temp_reg c)
unfolding acquire_spillable_fp_temp_reg
acquire_spillable_fp_temp_reg-Good c h =
    >>=-Leaves _ (find_free_register c.manager.registers fp_variable_regs) _ (λ reg er.
      if-Leaves _ (not (is_empty reg)) _ _
        (λ f.
          let free =
            find_free_register_lem c.manager.registers fp_variable_regs er
              (not-true (is_empty reg) f) in
          set-Good c.manager h reg (fp_pool reg free.0) _)
        (λ f. >>=-Leaves _ (evict_fp c) _ (λ p ep.
          let q = subst VictimOutside ep (evict_fp-Good c h) in
          set-Good p.1.manager q.1 p.0 q.0 _)))

vec_register_of-Good :
    (v : Text) (o : Option Text) (c : Context) → Good c.manager → KeepsGood (vec_register_of v o c)
vec_register_of-Good v (some r) c h = (record { mapped = h.0.mapped; in_pool = h.0.in_pool }, h.1)
vec_register_of-Good v none c h =
    >>=-Leaves _ (find_free_register c.manager.registers vec_variable_regs) _ (λ reg er.
      if-Leaves _ (not (is_empty reg)) _ _
        (λ f.
          let free =
            find_free_register_lem c.manager.registers vec_variable_regs er
              (not-true (is_empty reg) f) in
          map_vec-Good c.manager h reg (vec_pool reg free.0) v)
        (λ f. >>=-Leaves _ (evict_vec c) _ (λ p ep.
          let q = subst VictimOutside ep (evict_vec-Good c h) in
          map_vec-Good p.1.manager q.1 p.0 q.0 v)))

pub acquire_vec_variable_reg-Good :
    (v : Text) (c : Context) → Good c.manager → KeepsGood (acquire_vec_variable_reg v c)
unfolding acquire_vec_variable_reg
acquire_vec_variable_reg-Good v c h =
    vec_register_of-Good v (lookup v c.manager.vec_variable_to_reg_map) c h

pub acquire_vec_scratch_reg-Good :
    (m : RegisterManager)
    → Good m
    → Leaves {A = Text} {D = RegisterManager} (λ r n. Good n) (acquire_vec_scratch_reg m)
unfolding acquire_vec_scratch_reg
acquire_vec_scratch_reg-Good m h =
    >>=-Leaves _ (find_free_register m.registers vec_scratch_regs) _ (λ reg er.
      if-Leaves _ (is_empty reg) _ _ (λ f. tt)
        (λ f. (set-Consistent m h.0 reg _ (found-Unmapped m h.0 vec_scratch_regs er f), h.1)))
