-- ===== src/Liveness/Termination.antt =====
-- The loop of run_data_flow_analysis ends: each iteration with a change adds a variable to a set.
use bcpl.Prelude.{
  ℕ, zero, suc, ◌+◌, ◌*◌, ◌≤◌, ◌<◌, ◌≡◌, ◌∙◌, ◌↔◌, sym, ap, subst, arith, true, false, Bool-cases,
  inl, inr, ◌⊎◌, if-true, if-false, ==_iff, ==_refl, some, List, [], ◌∷◌, length, Text, ◌==◌,
}
use bcpl.Prelude.TextSets.{has_text, sets_eq, subset, not_subset}
use bcpl.Liveness.{
  Graph, Sets, assign, process_block, process_blocks, iteration, iterate, run_data_flow_analysis,
  no_sets, get_in_set,
}
use bcpl.Liveness.Equations.{
  has_block, in_some, out_of, in_of, with_in, has_text-new_out_set, has_text-new_in_set,
  process_block-cases,
}
use bcpl.Liveness.Paths.{
  Live, Sound, in_of-Live, process_block-Sound, no_sets-Sound, run_data_flow_analysis-Live,
}
use bcpl.Liveness.Weight.{
  used_names, Live-used_names, weight, Included, Below, count-less, weight-le, weight-less,
}

in_some_mono :
    (v : Text) (f h : ℕ → List Text) (ss : List ℕ)
    → Below f h
    → in_some v f ss ≡ true
    → in_some v h ss ≡ true
unfolding in_some
in_some_mono v f h [] i e = e
in_some_mono v f h (s ∷ ss) i e = ground (arith, in_some_mono v f h ss i, i s v)

in_of_mono :
    (g : Graph) (f h : ℕ → List Text) (b : ℕ) → Below f h → Included (in_of g f b) (in_of g h b)
in_of_mono g f h b i v e = ground (
  arith,
  has_text-new_in_set g b v (out_of g f b),
  has_text-new_in_set g b v (out_of g h b),
  has_text-new_out_set v f (g.successors b),
  has_text-new_out_set v h (g.successors b),
  in_some_mono v f h (g.successors b) i,
)

-- The next value of each `in` set includes it.
Growing : Graph → Sets → Type 0
Growing g s = (b : ℕ) → Included (s.in_sets b) (in_of g s.in_sets b)

module _ (g : Graph) (b : ℕ) (s : Sets) (growing : Growing g s) where
  with_in-Below : Below s.in_sets (with_in g b s).in_sets
  unfolding assign Growing
  with_in-Below k v h = elim (Bool-cases (k == b)) [
    | inl e ↦
        ap (has_text v) (if-true _ _ e)
        ∙ subst (λ (j : ℕ). has_text v (in_of g s.in_sets j) ≡ true) ((==_iff k b).0 e)
            (growing k v h)
    | inr e ↦ ap (has_text v) (if-false _ _ e) ∙ h
  ]

  with_in-Growing : Growing g (with_in g b s)
  unfolding assign Growing
  with_in-Growing k v h = elim (Bool-cases (k == b)) [
    | inl e ↦ in_of_mono g s.in_sets (with_in g b s).in_sets k with_in-Below v (
        subst (λ (j : ℕ). has_text v (in_of g s.in_sets j) ≡ true) (sym ((==_iff k b).0 e))
          (ap (has_text v) (sym (if-true _ _ e)) ∙ h))
    | inr e ↦
        in_of_mono g s.in_sets (with_in g b s).in_sets k with_in-Below v
          (growing k v (ap (has_text v) (sym (if-false _ _ e)) ∙ h))
  ]

  -- What differs is larger: it has a variable more.
  new_variable :
      sets_eq (s.in_sets b) (in_of g s.in_sets b) ≡ false
      → (v : Text) × (has_text v (in_of g s.in_sets b) ≡ true) × (has_text v (s.in_sets b) ≡ false)
  unfolding Growing
  new_variable e = elim (Bool-cases (subset (in_of g s.in_sets b) (s.in_sets b))) [
    | inl back ↦
        let (v, hs, ht) =
          not_subset (s.in_sets b) (in_of g s.in_sets b) (ground (arith, e, back)) in
        absurd (let k = growing b v hs in cc)
    | inr some_more ↦ not_subset (in_of g s.in_sets b) (s.in_sets b) some_more
  ]

abbrev total : Graph → Sets → ℕ
total g s = weight (used_names g g.blocks) g.blocks s.in_sets

-- A block's turn, from a growing and sound state, leads to such a state, and a change adds to the
-- sets.
record Grown (g : Graph) (s t : Sets) : Type 0 where
  growing : Growing g t
  sound : Sound g t
  more : total g s ≤ total g t
  changed : t.changed ≡ true → (s.changed ≡ true) ⊎ (total g s < total g t)

module _ (g : Graph) where
  with_in-Grown :
      (b : ℕ) (s : Sets)
      → has_block b g.blocks ≡ true
      → Growing g s
      → Sound g s
      → Sound g (process_block g b s)
      → process_block g b s ≡ with_in g b s
      → sets_eq (s.in_sets b) (in_of g s.in_sets b) ≡ false
      → Grown g s (with_in g b s)
  unfolding assign
  with_in-Grown b s m growing sound sound' p e =
      let below = with_in-Below g b s growing in
      let (v, new, old) = new_variable g b s growing e in
      let u = used_names g g.blocks in
      let now : assign b (in_of g s.in_sets b) s.in_sets b ≡ in_of g s.in_sets b =
        if-true _ _ (==_refl b) in
      let less = weight-less u g.blocks s.in_sets (with_in g b s).in_sets b below m (
        count-less u (s.in_sets b) ((with_in g b s).in_sets b) v (below b)
          (Live-used_names g b v (in_of-Live g s b v sound m new)) old
          (ap (has_text v) now ∙ new)) in
      record {
        growing = with_in-Growing g b s growing;
        sound = subst (Sound g) p sound';
        more = omega (arith, less);
        changed = λ h. inr less;
      }

  process_block-Grown :
      (b : ℕ) (s : Sets)
      → has_block b g.blocks ≡ true
      → Growing g s
      → Sound g s
      → Grown g s (process_block g b s)
  unfolding Growing
  process_block-Grown b s m growing sound =
      let sound' = process_block-Sound g b s m sound in
      elim (process_block-cases g b s) [
        | inl same ↦
            subst (Grown g s) (sym same.1) (record {
              growing = growing;
              sound = sound;
              more = omega arith;
              changed = λ h. inl h;
            })
        | inr written ↦
            subst (Grown g s) (sym written.1)
              (with_in-Grown b s m growing sound sound' written.1 written.0)
      ]

  process_blocks-Grown :
      (bs : List ℕ) (s : Sets)
      → ((b : ℕ) → has_block b bs ≡ true → has_block b g.blocks ≡ true)
      → Growing g s
      → Sound g s
      → Grown g s (process_blocks g bs s)
  unfolding process_blocks has_block
  process_blocks-Grown [] s inside growing sound = record {
    growing = growing;
    sound = sound;
    more = omega arith;
    changed = λ h. inl h;
  }
  process_blocks-Grown (b ∷ bs) s inside growing sound =
      let first = process_block-Grown b s (inside b (if-true _ _ (==_refl b))) growing sound in
      let rest =
        process_blocks-Grown bs (process_block g b s) (λ c m. inside c (ground (arith, m)))
          first.growing first.sound in
      record {
        growing = rest.growing;
        sound = rest.sound;
        more = omega (arith, first.more, rest.more);
        changed = λ h. elim (rest.changed h) [
          | inl earlier ↦ elim (first.changed earlier) [
            | inl before ↦ inl before
            | inr less ↦ inr (omega (arith, less, rest.more))
          ]
          | inr less ↦ inr (omega (arith, less, first.more))
        ];
      }

  iterate-terminates :
      (fuel : ℕ) (s : Sets)
      → Growing g s
      → Sound g s
      → length g.blocks * length (used_names g g.blocks) < fuel + total g s
      → (t : Sets) × (iterate fuel g s ≡ some t)
  unfolding iterate iteration Growing
  iterate-terminates zero s growing sound enough =
      absurd (omega (arith, weight-le (used_names g g.blocks) g.blocks s.in_sets))
  iterate-terminates (suc fuel) s growing sound enough =
      let start : Sets = record s { changed = false } in
      let grown = process_blocks-Grown g.blocks start (λ b m. m) growing sound in
      elim (Bool-cases (iteration g s).changed) [
        | inl again ↦ elim (grown.changed again) [
          | inl never ↦ absurd (cc)
          | inr less ↦
              let (t, e) =
                iterate-terminates fuel (iteration g s) grown.growing grown.sound
                  (omega (arith, less, enough)) in
              (t, if-true _ _ again ∙ e)
        ]
        | inr done ↦ (iteration g s, if-false _ _ done)
      ]

  no_sets-Growing : Growing g no_sets
  unfolding Growing has_text
  no_sets-Growing b v h = absurd (cc)

-- On fuel of more iterations than there are pairs of a block and a use of a variable, the loop
-- returns, and the `in` set of each block that there is then holds exactly the variables that are
-- live there.
pub run_data_flow_analysis-terminates :
    (fuel : ℕ) (g : Graph)
    → length g.blocks * length (used_names g g.blocks) < fuel
    → (s : Sets) × (run_data_flow_analysis fuel g ≡ some s)
      × ((b : ℕ) (v : Text)
          → has_block b g.blocks ≡ true
          → (has_text v (get_in_set s b) ≡ true) ↔ Live g b v)
unfolding run_data_flow_analysis
run_data_flow_analysis-terminates fuel g enough =
    let (s, e) =
      iterate-terminates g fuel no_sets (no_sets-Growing g) (no_sets-Sound g)
        (omega (arith, enough)) in
    (s, e, λ b v m. run_data_flow_analysis-Live fuel g s b v e m)
