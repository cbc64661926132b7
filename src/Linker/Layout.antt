-- ===== src/Linker/Layout.antt =====
-- Where pass 1 of the linker puts words and labels, and when it fails.
use bcpl.Prelude.{
  ℕ, ◌+◌, ◌*◌, ◌%◌, ◌^◌, ◌<◌, ◌≡◌, refl, ◌∙◌, ap, arith, Bool, true, false, ◌&&◌, ◌||◌, not,
  if◌then◌else◌, some, List, [], ◌∷◌, ◌++◌, length, Text, text_eq, Result, ok, err, ◌>>=◌,
  Bool-cases, inl, inr,
}
use bcpl.Prelude.Dict.{lookup, insert, contains, lookup-insert}
use bcpl.Instruction.{Instruction}
use bcpl.LabelManager.{LabelManager, define_label, is_label_defined}
use bcpl.Linker.{Cursors, cursor, emits, enter_label, place, move_cursor, assign}
use bcpl.Linker.Addresses.{
  emitted, cursors_after, cursors_after_lem, assign-append, length-assign, assign-cons,
  enter_label-lookup, assign-keeps,
}

place_lem :
    (x : Instruction) (c : Cursors)
    → emits x ≡ true
    → place x c ≡ record x { address = cursor x.segment c }
unfolding place
place_lem x c h = rw h refl

-- When pass 1 succeeds, an instruction that emits a word keeps its place in the stream and all its
-- fields but the address, which is its segment's start plus four for each word that the instructions before it put
-- into that segment, modulo 2^64.
pub assign-address :
    (before : List Instruction) (x : Instruction) (behind : List Instruction) (c : Cursors)
    (m : LabelManager) {p : List Instruction} {m' : LabelManager}
    → cursor x.segment c < 2 ^ 64
    → emits x ≡ true
    → assign (before ++ (x ∷ behind)) c m ≡ ok (p, m')
    → (p1 : List Instruction) × (p2 : List Instruction) × (length p1 ≡ length before)
      × (p
          ≡ p1
            ++ (record x { address = (cursor x.segment c + 4 * emitted x.segment before) % 2 ^ 64 }
                ∷ p2))
assign-address before x behind c m h he e =
    let (m1, p1, p2, e1, e2, e3) = assign-append before (x ∷ behind) c m e in
    let (m2, q, f1, f2, f3) = assign-cons x behind (cursors_after before c) m1 e2 in
    (
      p1,
      q,
      length-assign before c m e1,
      e3
          ∙ ap (λ t. p1 ++ t)
              (f3
                ∙ ap (λ t. t ∷ q)
                    (place_lem x (cursors_after before c) he
                      ∙ ap (λ (a : ℕ). record x { address = a })
                          (cursors_after_lem x.segment before c h))),
    )

-- When pass 1 succeeds, the name of a label definition is bound at the end to its segment's start plus
-- four for each word that the instructions before it put into that segment, modulo 2^64.
pub assign-label :
    (before : List Instruction) (x : Instruction) (behind : List Instruction) (c : Cursors)
    (m : LabelManager) {p : List Instruction} {m' : LabelManager}
    → cursor x.segment c < 2 ^ 64
    → x.is_label_definition ≡ true
    → assign (before ++ (x ∷ behind)) c m ≡ ok (p, m')
    → lookup x.target_label m'.defined_labels
      ≡ some ((cursor x.segment c + 4 * emitted x.segment before) % 2 ^ 64)
assign-label before x behind c m h hl e =
    let (m1, p1, p2, e1, e2, e3) = assign-append before (x ∷ behind) c m e in
    let c1 = cursors_after before c in
    let (m2, q, f1, f2, f3) = assign-cons x behind c1 m1 e2 in
    assign-keeps behind (move_cursor x c1) m2 x.target_label (cursor x.segment c1)
      (enter_label-lookup x c1 m1 hl f1) f2
    ∙ ap some (cursors_after_lem x.segment before c h)

-- Whether a name is one of a list.
unfoldable pub occurs : Text → List Text → Bool
occurs k [] = false
occurs k (j ∷ js) = text_eq j k || occurs k js

-- Whether a stream defines no label twice, and none of the names that are taken.
unfoldable pub distinct_labels : List Text → List Instruction → Bool
unfolding occurs
distinct_labels taken [] = true
distinct_labels taken (x ∷ xs) =
    let rest = distinct_labels (x.target_label ∷ taken) xs in
    let same_taken = distinct_labels taken xs in
    if x.is_label_definition then not (occurs x.target_label taken) && rest else same_taken

-- The names that a manager has defined are those of a list.
abbrev Names : List Text → LabelManager → Type 0
Names taken m = (k : Text) → contains k m.defined_labels ≡ occurs k taken

abbrev pub is_ok {ℓ} : {A : Type ℓ} → Result A → Bool
is_ok (ok a) = true
is_ok (err e) = false

Names-insert :
    (taken : List Text) (m : LabelManager) (k : Text) (a : ℕ)
    → Names taken m
    → Names (k ∷ taken) (record m { defined_labels = insert k a m.defined_labels })
unfolding occurs
Names-insert taken m k a h j = ground (arith, lookup-insert k j a m.defined_labels, h j)

is_ok-map {ℓ κ} :
    {A : Type ℓ} {B : Type κ} (r : Result A) (f : A → B) → is_ok (r >>= λ a. ok (f a)) ≡ is_ok r
is_ok-map (ok a) f = refl
is_ok-map (err e) f = refl

is_ok-assign :
    (x : Instruction) (xs : List Instruction) (c : Cursors) (m m1 : LabelManager)
    → enter_label x c m ≡ ok m1
    → is_ok (assign (x ∷ xs) c m) ≡ is_ok (assign xs (move_cursor x c) m1)
unfolding assign
is_ok-assign x xs c m m1 e =
    rw e (is_ok-map (assign xs (move_cursor x c) m1) (λ r. (place x c ∷ r.0, r.1)))

-- Pass 1 succeeds exactly when no label that the stream defines is defined before, in the stream or in
-- the manager, whose defined names are `taken`.
pub assign-distinct :
    (taken : List Text) (xs : List Instruction) (c : Cursors) (m : LabelManager)
    → Names taken m
    → is_ok (assign xs c m) ≡ distinct_labels taken xs
unfolding assign enter_label define_label is_label_defined distinct_labels
assign-distinct taken [] c m h = refl
assign-distinct taken (x ∷ xs) c m h = elim (Bool-cases x.is_label_definition) [
  | inr e ↦
      is_ok-assign x xs c m m (rw e refl)
      ∙ assign-distinct taken xs (move_cursor x c) m h
      ∙ rw e refl
  | inl e ↦ elim (Bool-cases (occurs x.target_label taken)) [
    | inl o ↦ let there = h x.target_label ∙ o in rw (e, there, o) refl
    | inr o ↦
        let fresh = h x.target_label ∙ o in
        let m1 = record m {
          defined_labels = insert x.target_label (cursor x.segment c) m.defined_labels;
        } in
        is_ok-assign x xs c m m1 (rw (e, fresh) refl)
        ∙ assign-distinct (x.target_label ∷ taken) xs (move_cursor x c) m1
            (Names-insert taken m x.target_label (cursor x.segment c) h)
        ∙ rw (e, o) refl
  ]
]
