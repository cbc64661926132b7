-- ===== src/Liveness/Paths.antt =====
-- The sets of the data-flow analysis against paths through the graph.
use bcpl.Prelude.{
  ℕ, zero, suc, ◌≡◌, ◌∙◌, ◌↔◌, sym, ap, subst, arith, Bool, true, false, Bool-cases, if-cases, inl,
  inr, ◌⊎◌, if-true, if-false, some-injective, ==_iff, ==_refl, ◌&&◌, some, List, [], ◌∷◌, Text,
  ◌==◌,
}
use bcpl.Prelude.TextSets.{has_text, subset, subset-has_text}
use bcpl.Liveness.{
  Graph, Sets, assign, process_block, process_blocks, iteration, iterate, run_data_flow_analysis,
  no_sets, get_in_set,
}
use bcpl.Liveness.Equations.{
  Settled, has_block, in_some, out_of, in_of, with_in, has_text-new_out_set, has_text-new_in_set,
  process_block-cases, run_data_flow_analysis-Settled,
}

-- A variable is live at the start of a block that uses it before any definition, and of one that
-- does not define it and has a successor where it is live.
pub data Live (g : Graph) : ℕ → Text → Type 0 where
  used :
      {b : ℕ} {v : Text}
      → has_block b g.blocks ≡ true
      → has_text v (g.use_sets b) ≡ true
      → Live g b v
  passed :
      {b s : ℕ} {v : Text}
      → has_block b g.blocks ≡ true
      → has_text v (g.def_sets b) ≡ false
      → has_block s (g.successors b) ≡ true
      → Live g s v
      → Live g b v

-- The two ways into an `in` set.
in_of-cases :
    (g : Graph) (sets : ℕ → List Text) (b : ℕ) (v : Text)
    → has_text v (in_of g sets b) ≡ true
    → (has_text v (g.use_sets b) ≡ true)
      ⊎ ((has_text v (g.def_sets b) ≡ false) × (in_some v sets (g.successors b) ≡ true))
in_of-cases g sets b v h = ground (
  arith,
  has_text-new_in_set g b v (out_of g sets b),
  has_text-new_out_set v sets (g.successors b),
)

in_some-witness :
    (v : Text) (sets : ℕ → List Text) (ss : List ℕ)
    → in_some v sets ss ≡ true
    → (s : ℕ) × (has_block s ss ≡ true) × (has_text v (sets s) ≡ true)
unfolding in_some has_block
in_some-witness v sets [] h = absurd (cc)
in_some-witness v sets (s ∷ ss) h = elim (Bool-cases (in_some v sets ss)) [
  | inl e ↦ let (k, m, i) = in_some-witness v sets ss e in (k, ground (arith, m), i)
  | inr e ↦ (s, if-true _ _ (==_refl s), ground (arith, e, h))
]

pub in_some-intro :
    (v : Text) (sets : ℕ → List Text) (s : ℕ) (ss : List ℕ)
    → has_block s ss ≡ true
    → has_text v (sets s) ≡ true
    → in_some v sets ss ≡ true
unfolding in_some has_block
in_some-intro v sets s [] m h = absurd (cc)
in_some-intro v sets s (k ∷ ss) m h = elim (if-cases (k == s) m) [
  | inl this ↦
      ground (arith, subst (λ (j : ℕ). has_text v (sets j) ≡ true) (sym ((==_iff k s).0 this.0)) h)
  | inr later ↦ ground (arith, in_some-intro v sets s ss later.1 h)
]

-- Every `in` set has live variables only.
abbrev pub Sound : Graph → Sets → Type 0
Sound g s = (b : ℕ) (v : Text) → has_text v (s.in_sets b) ≡ true → Live g b v

and_right : (a b : Bool) → (a && b) ≡ true → b ≡ true
and_right a b h = ground arith

module _ (g : Graph) where
  pub in_of-Live :
      (s : Sets) (b : ℕ) (v : Text)
      → Sound g s
      → has_block b g.blocks ≡ true
      → has_text v (in_of g s.in_sets b) ≡ true
      → Live g b v
  in_of-Live s b v sound m h = elim (in_of-cases g s.in_sets b v h) [
    | inl found ↦ used m found
    | inr kept ↦
        let (k, mk, hk) = in_some-witness v s.in_sets (g.successors b) kept.1 in
        passed m kept.0 mk (sound k v hk)
  ]

  with_in-Sound :
      (b : ℕ) (s : Sets) → has_block b g.blocks ≡ true → Sound g s → Sound g (with_in g b s)
  unfolding assign
  with_in-Sound b s m sound k v h = elim (Bool-cases (k == b)) [
    | inl e ↦
        subst (λ (j : ℕ). Live g j v) (sym ((==_iff k b).0 e))
          (in_of-Live s b v sound m (ap (has_text v) (sym (if-true _ _ e)) ∙ h))
    | inr e ↦ sound k v (ap (has_text v) (sym (if-false _ _ e)) ∙ h)
  ]

  pub process_block-Sound :
      (b : ℕ) (s : Sets) → has_block b g.blocks ≡ true → Sound g s → Sound g (process_block g b s)
  process_block-Sound b s m sound = elim (process_block-cases g b s) [
    | inl same ↦ subst (Sound g) (sym same.1) sound
    | inr written ↦ subst (Sound g) (sym written.1) (with_in-Sound b s m sound)
  ]

  process_blocks-Sound :
      (bs : List ℕ) (s : Sets)
      → ((b : ℕ) → has_block b bs ≡ true → has_block b g.blocks ≡ true)
      → Sound g s
      → Sound g (process_blocks g bs s)
  unfolding process_blocks has_block
  process_blocks-Sound [] s inside sound = sound
  process_blocks-Sound (b ∷ bs) s inside sound =
      process_blocks-Sound bs (process_block g b s) (λ c m. inside c (ground (arith, m)))
        (process_block-Sound b s (inside b (if-true _ _ (==_refl b))) sound)

  pub iteration-Sound : (s : Sets) → Sound g s → Sound g (iteration g s)
  unfolding iteration
  iteration-Sound s sound =
      process_blocks-Sound g.blocks (record s { changed = false }) (λ b m. m) sound

  iterate-Sound : (fuel : ℕ) (s t : Sets) → Sound g s → iterate fuel g s ≡ some t → Sound g t
  unfolding iterate
  iterate-Sound zero s t sound e = absurd (cc)
  iterate-Sound (suc fuel) s t sound e = elim (if-cases (iteration g s).changed e) [
    | inl again ↦ iterate-Sound fuel (iteration g s) t (iteration-Sound s sound) again.1
    | inr done ↦ subst (Sound g) (some-injective done.1) (iteration-Sound s sound)
  ]

  pub no_sets-Sound : Sound g no_sets
  unfolding has_text
  no_sets-Sound b v h = absurd (cc)

  in_of-Settled :
      (s : Sets)
      → ((b : ℕ) → has_block b g.blocks ≡ true → Settled g s b)
      → (b : ℕ) (v : Text) → has_block b g.blocks ≡ true
      → has_text v (in_of g s.in_sets b) ≡ true
      → has_text v (s.in_sets b) ≡ true
  in_of-Settled s settled b v m h =
      subset-has_text (in_of g s.in_sets b) (s.in_sets b) v
        (and_right (subset (s.in_sets b) (in_of g s.in_sets b))
          (subset (in_of g s.in_sets b) (s.in_sets b)) (settled b m).in_equation)
        h

  -- A solution of the equations holds every live variable.
  Live-Settled :
      (s : Sets)
      → ((b : ℕ) → has_block b g.blocks ≡ true → Settled g s b)
      → (b : ℕ) (v : Text) → Live g b v
      → has_text v (s.in_sets b) ≡ true
  Live-Settled s settled b v (used m found) =
      in_of-Settled s settled b v m
        (ground (arith, has_text-new_in_set g b v (out_of g s.in_sets b)))
  Live-Settled s settled b v (passed {s = k} m fresh mk live) =
      let h = Live-Settled s settled k v live in
      in_of-Settled s settled b v m (
        ground (
          arith,
          has_text-new_in_set g b v (out_of g s.in_sets b),
          has_text-new_out_set v s.in_sets (g.successors b),
          in_some-intro v s.in_sets k (g.successors b) mk h,
        ))

-- When the loop has ended, the `in` set of a block holds exactly the variables that are live there:
-- those that some path uses before it defines them.
pub run_data_flow_analysis-Live :
    (fuel : ℕ) (g : Graph) (s : Sets) (b : ℕ) (v : Text)
    → run_data_flow_analysis fuel g ≡ some s
    → has_block b g.blocks ≡ true
    → (has_text v (get_in_set s b) ≡ true) ↔ Live g b v
unfolding run_data_flow_analysis
run_data_flow_analysis-Live fuel g s b v e m = (
  iterate-Sound g fuel no_sets s (no_sets-Sound g) e b v,
  Live-Settled g s (λ c mc. run_data_flow_analysis-Settled fuel g s c e mc) b v,
)
