-- ===== src/Liveness/Weight.antt =====
-- How far the sets of the data-flow analysis have grown inside the variables that are used.
use bcpl.Prelude.{
  ℕ, ◌+◌, ◌*◌, ◌≤◌, ◌<◌, ◌≡◌, refl, sym, subst, arith, true, false, Bool-cases, if-cases, inl, inr,
  ==_iff, ◌||◌, List, [], ◌∷◌, ◌++◌, length, Text, text_eq, text_eq_iff, ◌==◌, if◌then◌else◌,
}
use bcpl.Prelude.TextSets.{has_text}
use bcpl.Liveness.{Graph}
use bcpl.Liveness.Equations.{has_block}
use bcpl.Liveness.Paths.{Live}

-- The names that the blocks use.
unfoldable pub used_names : Graph → List ℕ → List Text
used_names g [] = []
used_names g (b ∷ bs) = g.use_sets b ++ used_names g bs

has_text-append :
    (v : Text) (s t : List Text) → has_text v (s ++ t) ≡ (has_text v s || has_text v t)
unfolding has_text
has_text-append v [] t = refl
has_text-append v (x ∷ s) t = ground (arith, has_text-append v s t)

used_names_lem :
    (g : Graph) (bs : List ℕ) (b : ℕ) (v : Text)
    → has_block b bs ≡ true
    → has_text v (g.use_sets b) ≡ true
    → has_text v (used_names g bs) ≡ true
unfolding used_names has_block
used_names_lem g [] b v m h = absurd (cc)
used_names_lem g (k ∷ bs) b v m h = elim (if-cases (k == b) m) [
  | inl this ↦ ground (
    arith,
    has_text-append v (g.use_sets k) (used_names g bs),
    subst (λ (j : ℕ). has_text v (g.use_sets j) ≡ true) (sym ((==_iff k b).0 this.0)) h,
  )
  | inr later ↦
      ground (
        arith,
        has_text-append v (g.use_sets k) (used_names g bs),
        used_names_lem g bs b v later.1 h,
      )
]

pub Live-used_names :
    (g : Graph) (b : ℕ) (v : Text) → Live g b v → has_text v (used_names g g.blocks) ≡ true
Live-used_names g b v (Live.used m found) = used_names_lem g g.blocks b v m found
Live-used_names g b v (Live.passed {s} m fresh mk live) = Live-used_names g s v live

-- How many of the names `u` a set has.
unfoldable pub count : List Text → List Text → ℕ
count [] s = 0
count (v ∷ u) s = (if has_text v s then 1 else 0) + count u s

-- The same over all blocks.
unfoldable pub weight : List Text → List ℕ → (ℕ → List Text) → ℕ
weight u [] sets = 0
weight u (b ∷ bs) sets = count u (sets b) + weight u bs sets

abbrev pub Included : List Text → List Text → Type 0
Included s t = (v : Text) → has_text v s ≡ true → has_text v t ≡ true

abbrev pub Below : (ℕ → List Text) → (ℕ → List Text) → Type 0
Below f h = (k : ℕ) → Included (f k) (h k)

count_mono : (u s t : List Text) → Included s t → count u s ≤ count u t
unfolding count
count_mono [] s t i = omega arith
count_mono (v ∷ u) s t i = ground (arith, count_mono u s t i, i v)

pub count-less :
    (u s t : List Text) (w : Text)
    → Included s t
    → has_text w u ≡ true
    → has_text w s ≡ false
    → has_text w t ≡ true
    → count u s < count u t
unfolding count has_text
count-less [] s t w i m a b = absurd (cc)
count-less (v ∷ u) s t w i m a b = elim (Bool-cases (text_eq v w)) [
  | inl e ↦ ground (arith, count_mono u s t i, (text_eq_iff v w).0 e, a, b)
  | inr e ↦ ground (arith, count-less u s t w i, i v)
]

count-le : (u s : List Text) → count u s ≤ length u
unfolding count
count-le [] s = omega arith
count-le (v ∷ u) s = ground (arith, count-le u s)

pub weight-le :
    (u : List Text) (bs : List ℕ) (f : ℕ → List Text) → weight u bs f ≤ length bs * length u
unfolding weight
weight-le u [] f = omega arith
weight-le u (b ∷ bs) f = omega (arith, weight-le u bs f, count-le u (f b))

pub weight_mono :
    (u : List Text) (bs : List ℕ) (f h : ℕ → List Text) → Below f h → weight u bs f ≤ weight u bs h
unfolding weight
weight_mono u [] f h i = omega arith
weight_mono u (b ∷ bs) f h i = omega (arith, weight_mono u bs f h i, count_mono u (f b) (h b) (i b))

pub weight-less :
    (u : List Text) (bs : List ℕ) (f h : ℕ → List Text) (b : ℕ)
    → Below f h
    → has_block b bs ≡ true
    → count u (f b) < count u (h b)
    → weight u bs f < weight u bs h
unfolding weight has_block
weight-less u [] f h b i m less = absurd (cc)
weight-less u (k ∷ bs) f h b i m less = elim (if-cases (k == b) m) [
  | inl this ↦ omega (
    arith,
    weight_mono u bs f h i,
    subst (λ (j : ℕ). count u (f j) < count u (h j)) (sym ((==_iff k b).0 this.0)) less,
  )
  | inr later ↦ omega (arith, weight-less u bs f h b i later.1 less, count_mono u (f k) (h k) (i k))
]
