-- ===== src/Liveness/Equations.antt =====
-- The data-flow equations hold where the loop of run_data_flow_analysis ends.
use bcpl.Prelude.{
  ℕ, zero, suc, ◌≡◌, ◌∙◌, refl, sym, ap, subst, Bool, true, false, not, Bool-cases, if-cases, inl,
  inr, ◌⊎◌, if-true, if-false, some-injective, ==_refl, ==_iff, ◌&&◌, ◌||◌, some, List, [], ◌∷◌,
  Text, ◌==◌, if◌then◌else◌,
}
use bcpl.Prelude.TextSets.{has_text, erase_all, sets_eq, has_text-union, has_text-erase_all}
use bcpl.Liveness.{
  Graph, Sets, assign, new_out_set, new_in_set, write_in_set, process_block, process_blocks,
  iteration, iterate, run_data_flow_analysis, no_sets,
}

unfoldable pub has_block : ℕ → List ℕ → Bool
has_block b [] = false
has_block b (c ∷ cs) = if c == b then true else has_block b cs

-- Whether a variable is in the set of one of the blocks.
unfoldable pub in_some : Text → (ℕ → List Text) → List ℕ → Bool
in_some v sets [] = false
in_some v sets (s ∷ ss) = in_some v sets ss || has_text v (sets s)

pub has_text-new_out_set :
    (v : Text) (sets : ℕ → List Text) (ss : List ℕ)
    → has_text v (new_out_set sets ss) ≡ in_some v sets ss
unfolding new_out_set in_some has_text
has_text-new_out_set v sets [] = refl
has_text-new_out_set v sets (s ∷ ss) =
    has_text-union v (new_out_set sets ss) (sets s)
    ∙ ap (λ (b : Bool). b || has_text v (sets s)) (has_text-new_out_set v sets ss)

pub has_text-new_in_set :
    (g : Graph) (b : ℕ) (v : Text) (out : List Text)
    → has_text v (new_in_set g b out)
      ≡ (has_text v (g.use_sets b) || (has_text v out && not (has_text v (g.def_sets b))))
unfolding new_in_set
has_text-new_in_set g b v out =
    has_text-union v (g.use_sets b) (erase_all (g.def_sets b) out)
    ∙ ap (λ (t : Bool). has_text v (g.use_sets b) || t) (has_text-erase_all v (g.def_sets b) out)

-- The right sides of the two equations.
abbrev pub out_of : Graph → (ℕ → List Text) → ℕ → List Text
out_of g sets b = new_out_set sets (g.successors b)

abbrev pub in_of : Graph → (ℕ → List Text) → ℕ → List Text
in_of g sets b = new_in_set g b (out_of g sets b)

-- The equations of one block: `out` is the union of the successors' `in`, and `in` is `use` with
-- what `out` has and `def` does not.
pub record Settled (g : Graph) (s : Sets) (b : ℕ) : Type 0 where
  pub out_equation : s.out_sets b ≡ out_of g s.in_sets b
  pub in_equation : sets_eq (s.in_sets b) (in_of g s.in_sets b) ≡ true

abbrev pub with_out : Graph → ℕ → Sets → Sets
with_out g b s = record s { out_sets = assign b (out_of g s.in_sets b) s.out_sets }

abbrev pub with_in : Graph → ℕ → Sets → Sets
with_in g b s = record (with_out g b s) {
  in_sets = assign b (in_of g s.in_sets b) s.in_sets;
  changed = true;
}

-- A block's turn leaves its `in` set, or writes it.
pub process_block-cases :
    (g : Graph) (b : ℕ) (s : Sets)
    → ((sets_eq (s.in_sets b) (in_of g s.in_sets b) ≡ true)
        × (process_block g b s ≡ with_out g b s))
      ⊎ ((sets_eq (s.in_sets b) (in_of g s.in_sets b) ≡ false)
          × (process_block g b s ≡ with_in g b s))
unfolding process_block write_in_set
process_block-cases g b s = elim (Bool-cases (sets_eq (s.in_sets b) (in_of g s.in_sets b))) [
  | inl e ↦ inl (e, ap (write_in_set b (in_of g s.in_sets b) (with_out g b s)) e)
  | inr e ↦ inr (e, ap (write_in_set b (in_of g s.in_sets b) (with_out g b s)) e)
]

module _ (g : Graph) where
  -- A turn without a change.
  process_block-unchanged :
      (b : ℕ) (s : Sets)
      → (process_block g b s).changed ≡ false
      → (s.changed ≡ false)
        × (sets_eq (s.in_sets b) (in_of g s.in_sets b) ≡ true)
        × (process_block g b s ≡ with_out g b s)
  process_block-unchanged b s h = elim (process_block-cases g b s) [
    | inl same ↦ (sym (ap (λ (t : Sets). t.changed) same.1) ∙ h, same.0, same.1)
    | inr written ↦ absurd (let k = ap (λ (t : Sets). t.changed) written.1 in cc)
  ]

  with_out-Settled :
      (b : ℕ) (s : Sets)
      → sets_eq (s.in_sets b) (in_of g s.in_sets b) ≡ true
      → Settled g (with_out g b s) b
  unfolding assign
  with_out-Settled b s e = record { out_equation = if-true _ _ (==_refl b); in_equation = e }

  kept_out :
      (k b : ℕ) (s : Sets)
      → Settled g s b
      → assign k (out_of g s.in_sets k) s.out_sets b ≡ out_of g s.in_sets b
  unfolding assign
  kept_out k b s h = elim (Bool-cases (b == k)) [
    | inl e ↦ if-true _ _ e ∙ ap (out_of g s.in_sets) (sym ((==_iff b k).0 e))
    | inr e ↦ if-false _ _ e ∙ h.out_equation
  ]

  with_out-keeps : (k b : ℕ) (s : Sets) → Settled g s b → Settled g (with_out g k s) b
  unfolding assign
  with_out-keeps k b s h = record { out_equation = kept_out k b s h; in_equation = h.in_equation }

  process_blocks-unchanged :
      (bs : List ℕ) (s : Sets)
      → (process_blocks g bs s).changed ≡ false
      → (s.changed ≡ false) × ((process_blocks g bs s).in_sets ≡ s.in_sets)
  unfolding process_blocks
  process_blocks-unchanged [] s h = (h, refl)
  process_blocks-unchanged (b ∷ bs) s h =
      let (c, e) = process_blocks-unchanged bs (process_block g b s) h in
      let (d, same, p) = process_block-unchanged b s c in (d, e ∙ ap (λ (t : Sets). t.in_sets) p)

  process_blocks-keeps :
      (bs : List ℕ) (s : Sets) (b : ℕ)
      → (process_blocks g bs s).changed ≡ false
      → Settled g s b
      → Settled g (process_blocks g bs s) b
  unfolding process_blocks
  process_blocks-keeps [] s b h settled = settled
  process_blocks-keeps (k ∷ bs) s b h settled =
      let (c, e) = process_blocks-unchanged bs (process_block g k s) h in
      let (d, same, p) = process_block-unchanged k s c in
      process_blocks-keeps bs (process_block g k s) b h
        (subst (λ (t : Sets). Settled g t b) (sym p) (with_out-keeps k b s settled))

  process_block-Settled :
      (b : ℕ) (s : Sets) → (process_block g b s).changed ≡ false → Settled g (process_block g b s) b
  process_block-Settled b s h =
      let (d, same, p) = process_block-unchanged b s h in
      subst (λ (t : Sets). Settled g t b) (sym p) (with_out-Settled b s same)

  process_blocks-Settled :
      (bs : List ℕ) (s : Sets) (b : ℕ)
      → (process_blocks g bs s).changed ≡ false
      → has_block b bs ≡ true
      → Settled g (process_blocks g bs s) b
  unfolding process_blocks has_block
  process_blocks-Settled [] s b h m = absurd (cc)
  process_blocks-Settled (k ∷ bs) s b h m = elim (if-cases (k == b) m) [
    | inl this ↦ process_blocks-keeps bs (process_block g k s) b h (
        subst (λ (j : ℕ). Settled g (process_block g k s) j) ((==_iff k b).0 this.0)
          (process_block-Settled k s (process_blocks-unchanged bs (process_block g k s) h).0))
    | inr later ↦ process_blocks-Settled bs (process_block g k s) b h later.1
  ]

iterate-Settled :
    (fuel : ℕ) (g : Graph) (s t : Sets) (b : ℕ)
    → iterate fuel g s ≡ some t
    → has_block b g.blocks ≡ true
    → Settled g t b
unfolding iterate iteration
iterate-Settled zero g s t b e m = absurd (cc)
iterate-Settled (suc fuel) g s t b e m = elim (if-cases (iteration g s).changed e) [
  | inl again ↦ iterate-Settled fuel g (iteration g s) t b again.1 m
  | inr done ↦
      subst (λ (u : Sets). Settled g u b) (some-injective done.1)
        (process_blocks-Settled g g.blocks (record s { changed = false }) b done.0 m)
]

-- When the loop has ended, every block satisfies both data-flow equations.
pub run_data_flow_analysis-Settled :
    (fuel : ℕ) (g : Graph) (s : Sets) (b : ℕ)
    → run_data_flow_analysis fuel g ≡ some s
    → has_block b g.blocks ≡ true
    → Settled g s b
unfolding run_data_flow_analysis
run_data_flow_analysis-Settled fuel g s b e m = iterate-Settled fuel g no_sets s b e m
