-- ===== src/CallFrameManager/Slots.antt =====
-- Slots of a frame: what `place_locals` and `place_registers` of CallFrameManager/Prologue keep.
use bcpl.Prelude.{
  ℕ, ◌+◌, ◌*◌, ◌≤◌, ◌≡◌, ◌≢◌, ◌⊎◌, inl, inr, refl, sym, subst, ◌∙◌, ap, arith, Bool, true, false,
  not, Bool-cases, ◌&&◌, some, List, [], ◌∷◌, length, Text, text_eq, text_eq_iff, if◌then◌else◌,
}
use bcpl.Prelude.TextSets.{has_text}
use bcpl.Prelude.Dict.{lookup, insert, contains, lookup-insert}
use bcpl.CallFrameManager.{LocalVar, has_declared}
use bcpl.CallFrameManager.Prologue.{
  Slots, place_locals, place_register, place_registers, sort, insert_sorted,
}

-- The bytes of a slot: those of the declaration, and 8 for a register.
unfoldable pub slot_size : List LocalVar → Text → ℕ
slot_size [] t = 8
slot_size (d ∷ ds) t = if text_eq d.name t then d.size else slot_size ds t

unfoldable pub total_size : List LocalVar → ℕ
total_size [] = 0
total_size (d ∷ ds) = d.size + total_size ds

unfoldable pub distinct_names : List LocalVar → Bool
unfolding has_declared
distinct_names [] = true
distinct_names (d ∷ ds) = not (has_declared d.name ds) && distinct_names ds

-- Between two slots lies a border.
abbrev pub Apart : ℕ → ℕ → ℕ → ℕ → Type 0
Apart x size y size' = (x + size ≤ y) ⊎ (y + size' ≤ x)

-- The slots lie from `start` on, end before the next one, and do not overlap.
pub record Separate (size : Text → ℕ) (start : ℕ) (s : Slots) : Type 0 where
  pub ordered : start ≤ s.next
  pub within :
      (t : Text) (x : ℕ) → lookup t s.offsets ≡ some x → (start ≤ x) × (x + size t ≤ s.next)
  pub apart :
      (t u : Text) (x y : ℕ)
      → t ≢ u
      → lookup t s.offsets ≡ some x
      → lookup u s.offsets ≡ some y
      → Apart x (size t) y (size u)

abbrev pub with_slot : Text → ℕ → Slots → Slots
with_slot t bytes s = record { offsets = insert t s.next s.offsets; next = s.next + bytes }

no_slots-Separate :
    (size : Text → ℕ) (start : ℕ) → Separate size start (record { offsets = []; next = start })
unfolding lookup
no_slots-Separate size start = record {
  ordered = omega arith;
  within = λ t x e. absurd (cc);
  apart = λ t u x y n e f. absurd (cc);
}

-- A slot is the new one, or an old one.
with_slot-cases :
    (n : Text) (bytes : ℕ) (s : Slots) (t : Text) (x : ℕ)
    → lookup t (with_slot n bytes s).offsets ≡ some x
    → ((n ≡ t) × (x ≡ s.next)) ⊎ ((n ≢ t) × (lookup t s.offsets ≡ some x))
with_slot-cases n bytes s t x e =
    ground (arith, lookup-insert n t s.next s.offsets, text_eq_iff n t)

module _ (size : Text → ℕ) (start : ℕ) (n : Text) (s : Slots) (h : Separate size start s) where
  new-within :
      (t : Text) (x : ℕ)
      → lookup t (with_slot n (size n) s).offsets ≡ some x
      → (start ≤ x) × (x + size t ≤ s.next + size n)
  new-within t x e = elim (with_slot-cases n (size n) s t x e) [
    | inl new ↦ (omega (arith, h.ordered, new.1), omega (arith, ap size new.0, new.1))
    | inr old ↦ let w = h.within t x old.1 in (w.0, omega (arith, w.1))
  ]

  new-Apart :
      (t u : Text) (x y : ℕ)
      → t ≢ u
      → lookup t (with_slot n (size n) s).offsets ≡ some x
      → lookup u (with_slot n (size n) s).offsets ≡ some y
      → Apart x (size t) y (size u)
  new-Apart t u x y ne e f = elim (with_slot-cases n (size n) s t x e) [
    | inl new ↦ elim (with_slot-cases n (size n) s u y f) [
      | inl also ↦ absurd (ne (sym new.0 ∙ also.0))
      | inr old ↦ inr (omega (arith, new.1, (h.within u y old.1).1))
    ]
    | inr old ↦ elim (with_slot-cases n (size n) s u y f) [
      | inl new ↦ inl (omega (arith, new.1, (h.within t x old.1).1))
      | inr also ↦ h.apart t u x y ne old.1 also.1
    ]
  ]

  with_slot-Separate : Separate size start (with_slot n (size n) s)
  with_slot-Separate = record {
    ordered = omega (arith, h.ordered);
    within = new-within;
    apart = new-Apart;
  }

-- Every declaration has the size that `size` gives to its name.
Sized : (Text → ℕ) → List LocalVar → Type 0
Sized size [] = Unit
Sized size (d ∷ ds) = (size d.name ≡ d.size) × Sized size ds

module _ (size : Text → ℕ) (start : ℕ) where
  place_locals-Separate :
      (ds : List LocalVar) (s : Slots)
      → Sized size ds
      → Separate size start s
      → Separate size start (place_locals ds s)
  unfolding place_locals Sized
  place_locals-Separate [] s sized h = h
  place_locals-Separate (d ∷ ds) s sized h =
      place_locals-Separate ds (with_slot d.name d.size s) sized.1 (
        subst (λ (b : ℕ). Separate size start (with_slot d.name b s)) sized.0
          (with_slot-Separate size start d.name s h))

pub place_locals-next :
    (ds : List LocalVar) (s : Slots) → (place_locals ds s).next ≡ s.next + total_size ds
unfolding place_locals total_size
place_locals-next [] s = omega arith
place_locals-next (d ∷ ds) s = omega (arith, place_locals-next ds (with_slot d.name d.size s))

pub place_registers-next :
    (rs : List Text) (s : Slots) → (place_registers rs s).next ≤ s.next + length rs * 8
unfolding place_registers place_register
place_registers-next [] s = omega arith
place_registers-next (r ∷ rs) s = ground (arith, place_registers-next rs (place_register r s))

-- Slots are never taken away.
contains-with_slot :
    (t n : Text) (bytes : ℕ) (s : Slots)
    → contains t s.offsets ≡ true
    → contains t (with_slot n bytes s).offsets ≡ true
contains-with_slot t n bytes s h = ground (arith, lookup-insert n t s.next s.offsets)

contains-place_register :
    (t r : Text) (s : Slots)
    → contains t s.offsets ≡ true
    → contains t (place_register r s).offsets ≡ true
unfolding place_register
contains-place_register t r s h = ground (arith, contains-with_slot t r 8 s h)

contains-unplaced :
    (t r : Text) (s : Slots)
    → contains t (place_register r s).offsets ≡ false
    → contains t s.offsets ≡ false
contains-unplaced t r s h = ground (arith, contains-place_register t r s)

pub contains-place_registers :
    (t : Text) (rs : List Text) (s : Slots)
    → contains t s.offsets ≡ true
    → contains t (place_registers rs s).offsets ≡ true
unfolding place_registers
contains-place_registers t [] s h = h
contains-place_registers t (r ∷ rs) s h =
    contains-place_registers t rs (place_register r s) (contains-place_register t r s h)

placed_register : (r : Text) (s : Slots) → contains r (place_register r s).offsets ≡ true
unfolding place_register
placed_register r s = ground (arith, lookup-insert r r s.next s.offsets, text_eq_iff r r)

pub has_text-placed :
    (t : Text) (rs : List Text) (s : Slots)
    → has_text t rs ≡ true
    → contains t (place_registers rs s).offsets ≡ true
unfolding place_registers has_text
has_text-placed t [] s h = absurd (cc)
has_text-placed t (r ∷ rs) s h = elim (Bool-cases (text_eq r t)) [
  | inl e ↦
      subst (λ (u : Text). contains u (place_registers rs (place_register r s)).offsets ≡ true)
        ((text_eq_iff r t).0 e)
        (contains-place_registers r rs (place_register r s) (placed_register r s))
  | inr e ↦ has_text-placed t rs (place_register r s) (ground (arith, e, h))
]

contains-place_locals :
    (t : Text) (ds : List LocalVar) (s : Slots)
    → contains t s.offsets ≡ true
    → contains t (place_locals ds s).offsets ≡ true
unfolding place_locals
contains-place_locals t [] s h = h
contains-place_locals t (d ∷ ds) s h =
    contains-place_locals t ds (with_slot d.name d.size s) (contains-with_slot t d.name d.size s h)

pub has_declared-placed :
    (t : Text) (ds : List LocalVar) (s : Slots)
    → has_declared t ds ≡ true
    → contains t (place_locals ds s).offsets ≡ true
unfolding place_locals has_declared
has_declared-placed t [] s h = absurd (cc)
has_declared-placed t (d ∷ ds) s h = elim (Bool-cases (text_eq d.name t)) [
  | inl e ↦
      contains-place_locals t ds (with_slot d.name d.size s)
        (ground (arith, lookup-insert d.name t s.next s.offsets, e))
  | inr e ↦ has_declared-placed t ds (with_slot d.name d.size s) (ground (arith, e, h))
]

undeclared_size : (t : Text) (ds : List LocalVar) → has_declared t ds ≡ false → slot_size ds t ≡ 8
unfolding slot_size has_declared
undeclared_size t [] h = refl
undeclared_size t (d ∷ ds) h = ground (arith, undeclared_size t ds)

module _ (size : Text → ℕ) (start : ℕ) where
  place_register-Separate :
      (r : Text) (s : Slots)
      → (contains r s.offsets ≡ false → size r ≡ 8)
      → Separate size start s
      → Separate size start (place_register r s)
  unfolding place_register
  place_register-Separate r s eight h = elim (Bool-cases (contains r s.offsets)) [
    | inl e ↦ rw e h
    | inr e ↦ rw e (
        subst (λ (b : ℕ). Separate size start (with_slot r b s)) (eight e)
          (with_slot-Separate size start r s h))
  ]

  place_registers-Separate :
      (rs : List Text) (s : Slots)
      → ((t : Text) → contains t s.offsets ≡ false → size t ≡ 8)
      → Separate size start s
      → Separate size start (place_registers rs s)
  unfolding place_registers
  place_registers-Separate [] s eight h = h
  place_registers-Separate (r ∷ rs) s eight h =
      place_registers-Separate rs (place_register r s) (λ t e. eight t (contains-unplaced t r s e))
        (place_register-Separate r s (eight r) h)

-- Names that a declaration's name differs from do not meet its size.
cons-Sized :
    (e : LocalVar) (all ds : List LocalVar)
    → has_declared e.name ds ≡ false
    → Sized (slot_size all) ds
    → Sized (slot_size (e ∷ all)) ds
unfolding Sized slot_size has_declared
cons-Sized e all [] fresh h = tt
cons-Sized e all (d ∷ ds) fresh h = (
  ground (arith, h.0, text_eq_iff d.name e.name, text_eq_iff e.name d.name),
  cons-Sized e all ds (ground arith) h.1,
)

distinct-Sized : (ds : List LocalVar) → distinct_names ds ≡ true → Sized (slot_size ds) ds
unfolding Sized slot_size distinct_names
distinct-Sized [] h = tt
distinct-Sized (d ∷ ds) h = (
  ground (arith, text_eq_iff d.name d.name),
  cons-Sized d ds ds (ground arith) (distinct-Sized ds (ground arith)),
)

-- The slots of distinct locals, and of registers behind them, are separate.
pub place-Separate :
    (ds : List LocalVar) (rs : List Text) (start : ℕ)
    → distinct_names ds ≡ true
    → Separate
        (slot_size ds)
        start
        (place_registers rs (place_locals ds (record { offsets = []; next = start })))
place-Separate ds rs start distinct =
    let s : Slots = record { offsets = []; next = start } in
    place_registers-Separate (slot_size ds) start rs (place_locals ds s)
      (λ t e. undeclared_size t ds (ground (arith, has_declared-placed t ds s)))
      (place_locals-Separate (slot_size ds) start ds s (distinct-Sized ds distinct)
        (no_slots-Separate (slot_size ds) start))

length-insert_sorted : (r : Text) (ss : List Text) → length (insert_sorted r ss) ≡ length ss + 1
unfolding insert_sorted
length-insert_sorted r [] = refl
length-insert_sorted r (s ∷ ss) = ground (arith, length-insert_sorted r ss)

pub length-sort : (rs : List Text) → length (sort rs) ≡ length rs
unfolding sort
length-sort [] = refl
length-sort (r ∷ rs) = omega (arith, length-insert_sorted r (sort rs), length-sort rs)

has_text-insert_sorted :
    (t r : Text) (ss : List Text) → has_text t (insert_sorted r ss) ≡ has_text t (r ∷ ss)
unfolding insert_sorted has_text
has_text-insert_sorted t r [] = refl
has_text-insert_sorted t r (s ∷ ss) = ground (arith, has_text-insert_sorted t r ss)

pub has_text-sort : (t : Text) (rs : List Text) → has_text t (sort rs) ≡ has_text t rs
unfolding sort has_text
has_text-sort t [] = refl
has_text-sort t (r ∷ rs) =
    has_text-insert_sorted t r (sort rs)
    ∙ ap (λ (b : Bool). if text_eq r t then true else b) (has_text-sort t rs)
