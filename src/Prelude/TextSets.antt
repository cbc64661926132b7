-- ===== src/Prelude/TextSets.antt =====
-- Sets of texts, as lists without repetition: `std::set<std::string>`, whose order no code here uses.
use mathlib.Core.Path.{◌≡◌}
use mathlib.Core.Bool.{Bool, true, false, not, ◌&&◌, ◌||◌}
use mathlib.Core.Logic.{inl, inr}
use mathlib.Core.List.{List, [], ◌∷◌}
use native.Mathlib.Omega.{arith}
use bcpl.Prelude.Tests.{if◌then◌else◌, Bool-cases}
use bcpl.Prelude.Lists.{Text, text_eq, text_eq_iff}

-- `std::find(...) != end()`, or `count(t) > 0`.
unfoldable pub has_text : Text → List Text → Bool
has_text t [] = false
has_text t (r ∷ rs) = if text_eq r t then true else has_text t rs

-- `insert(begin, end)`.
unfoldable pub union : List Text → List Text → List Text
union s [] = s
union s (t ∷ ts) = let r = union s ts in if has_text t r then r else t ∷ r

unfoldable pub erase : Text → List Text → List Text
erase t [] = []
erase t (r ∷ rs) = if text_eq r t then erase t rs else r ∷ erase t rs

-- `for (d : ds) s.erase(d)`.
unfoldable pub erase_all : List Text → List Text → List Text
erase_all [] s = s
erase_all (d ∷ ds) s = erase_all ds (erase d s)

unfoldable pub subset : List Text → List Text → Bool
subset [] t = true
subset (x ∷ s) t = has_text x t && subset s t

-- `operator==` of sets.
abbrev pub sets_eq : List Text → List Text → Bool
sets_eq s t = subset s t && subset t s

pub has_text-union :
    (v : Text) (s t : List Text) → has_text v (union s t) ≡ (has_text v s || has_text v t)
unfolding has_text union
has_text-union v s [] = ground arith
has_text-union v s (x ∷ t) = ground (arith, has_text-union v s t, text_eq_iff x v)

pub has_text-erase :
    (v d : Text) (s : List Text)
    → has_text v (erase d s) ≡ (if text_eq d v then false else has_text v s)
unfolding has_text erase
has_text-erase v d [] = ground arith
has_text-erase v d (x ∷ s) =
    ground (arith, has_text-erase v d s, text_eq_iff x v, text_eq_iff d v, text_eq_iff x d)

pub has_text-erase_all :
    (v : Text) (ds s : List Text)
    → has_text v (erase_all ds s) ≡ (has_text v s && not (has_text v ds))
unfolding has_text erase_all
has_text-erase_all v [] s = ground arith
has_text-erase_all v (d ∷ ds) s =
    ground (arith, has_text-erase_all v ds (erase d s), has_text-erase v d s)

pub subset-has_text :
    (s t : List Text) (v : Text) → subset s t ≡ true → has_text v s ≡ true → has_text v t ≡ true
unfolding has_text subset
subset-has_text [] t v h p = absurd (cc)
subset-has_text (x ∷ s) t v h p = ground (arith, subset-has_text s t v, text_eq_iff x v)

-- A set that another does not include has an element that is missing there.
pub not_subset :
    (s t : List Text)
    → subset s t ≡ false
    → (v : Text) × (has_text v s ≡ true) × (has_text v t ≡ false)
unfolding has_text subset
not_subset [] t h = absurd (cc)
not_subset (x ∷ s) t h = elim (Bool-cases (has_text x t)) [
  | inl e ↦ let (v, hs, ht) = not_subset s t (ground (arith, e, h)) in (v, ground (arith, hs), ht)
  | inr e ↦ (x, ground (arith, text_eq_iff x x), e)
]
