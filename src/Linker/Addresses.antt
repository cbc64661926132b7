-- ===== src/Linker/Addresses.antt =====
-- Pass 1 of the linker: the addresses of words and labels, by counting what was emitted before them.
use bcpl.Prelude.{
  ℕ, suc, ◌+◌, ◌*◌, ◌%◌, ◌^◌, ◌<◌, ◌≡◌, refl, sym, subst, ◌∙◌, ap, arith, Bool, true, false, ◌&&◌,
  if◌then◌else◌, some, List, [], ◌∷◌, ◌++◌, length, Text, text_eq_iff, ok, >>=-eq-ok, ok-injective,
}
use bcpl.Prelude.Dict.{lookup, lookup-insert}
use bcpl.Instruction.{Instruction, SegmentType}
use bcpl.LabelManager.{LabelManager, define_label, is_label_defined}
use bcpl.Linker.{Cursors, cursor, emits, enter_label, place, move_cursor, assign}

abbrev pub same_segment : SegmentType → SegmentType → Bool
same_segment SegmentType.code SegmentType.code = true
same_segment SegmentType.rodata SegmentType.rodata = true
same_segment SegmentType.data_ SegmentType.data_ = true
same_segment _ _ = false

-- How many words a stream puts into a segment.
unfoldable pub emitted : SegmentType → List Instruction → ℕ
emitted s [] = 0
emitted s (instr ∷ rest) =
    (if emits instr && same_segment instr.segment s then 1 else 0) + emitted s rest

-- The cursors behind a stream.
unfoldable pub cursors_after : List Instruction → Cursors → Cursors
unfolding move_cursor
cursors_after [] c = c
cursors_after (instr ∷ rest) c = cursors_after rest (move_cursor instr c)

move_cursor_lem :
    (s : SegmentType) (instr : Instruction) (c : Cursors)
    → cursor s c < 2 ^ 64
    → cursor s (move_cursor instr c)
      ≡ (cursor s c + 4 * (if emits instr && same_segment instr.segment s then 1 else 0)) % 2 ^ 64
unfolding move_cursor
move_cursor_lem s instr c h = ground arith

pub cursors_after_lem :
    (s : SegmentType) (xs : List Instruction) (c : Cursors)
    → cursor s c < 2 ^ 64
    → cursor s (cursors_after xs c) ≡ (cursor s c + 4 * emitted s xs) % 2 ^ 64
unfolding cursors_after emitted
cursors_after_lem s [] c h = omega arith
cursors_after_lem s (instr ∷ rest) c h =
    let e = move_cursor_lem s instr c h in
    omega (arith, e, cursors_after_lem s rest (move_cursor instr c) (omega (arith, e)))

pub assign-cons :
    (x : Instruction) (xs : List Instruction) (c : Cursors) (m : LabelManager)
    {p : List Instruction} {m' : LabelManager}
    → assign (x ∷ xs) c m ≡ ok (p, m')
    → (m1 : LabelManager) × (q : List Instruction) × (enter_label x c m ≡ ok m1)
      × (assign xs (move_cursor x c) m1 ≡ ok (q, m'))
      × (p ≡ place x c ∷ q)
unfolding assign
assign-cons x xs c m {p} {m'} e =
    let (m1, e1, f) = >>=-eq-ok (enter_label x c m) _ e in
    let (r, e2, g) = >>=-eq-ok (assign xs (move_cursor x c) m1) _ f in
    let k = ok-injective g in
    let same_manager : r.1 ≡ m' = ap (λ t. t.1) k in
    (m1, r.0, e1, e2 ∙ ap (λ t. ok (r.0, t)) same_manager, sym (ap (λ t. t.0) k))

-- A stream is placed part by part.
pub assign-append :
    (xs ys : List Instruction) (c : Cursors) (m : LabelManager) {p : List Instruction}
    {m' : LabelManager}
    → assign (xs ++ ys) c m ≡ ok (p, m')
    → (m1 : LabelManager) × (p1 : List Instruction) × (p2 : List Instruction) × (assign xs c m
        ≡ ok (p1, m1))
      × (assign ys (cursors_after xs c) m1 ≡ ok (p2, m'))
      × (p ≡ p1 ++ p2)
unfolding assign cursors_after
assign-append [] ys c m {p} e = (m, [], p, refl, e, refl)
assign-append (x ∷ xs) ys c m e =
    let (m1, q, e1, e2, e3) = assign-cons x (xs ++ ys) c m e in
    let (n, q1, q2, h1, h2, h) = assign-append xs ys (move_cursor x c) m1 e2 in
    (n, place x c ∷ q1, q2, rw (e1, h1) refl, h2, e3 ∙ ap (λ t. place x c ∷ t) h)

pub length-assign :
    (xs : List Instruction) (c : Cursors) (m : LabelManager) {p : List Instruction}
    {m' : LabelManager}
    → assign xs c m ≡ ok (p, m')
    → length p ≡ length xs
unfolding assign
length-assign [] c m e = ap length (sym (ap (λ t. t.0) (ok-injective e)))
length-assign (x ∷ xs) c m e =
    let (m1, q, e1, e2, e3) = assign-cons x xs c m e in
    ap length e3 ∙ ap suc (length-assign xs (move_cursor x c) m1 e2)

-- A label that is entered is there, and what was there stays.
pub enter_label-lookup :
    (x : Instruction) (c : Cursors) (m : LabelManager) {m1 : LabelManager}
    → x.is_label_definition ≡ true
    → enter_label x c m ≡ ok m1
    → lookup x.target_label m1.defined_labels ≡ some (cursor x.segment c)
unfolding enter_label define_label is_label_defined
enter_label-lookup x c m h e = ground (
  arith,
  lookup-insert x.target_label x.target_label (cursor x.segment c) m.defined_labels,
  text_eq_iff x.target_label x.target_label,
)

enter_label-keeps :
    (x : Instruction) (c : Cursors) (m : LabelManager) (l : Text) (a : ℕ) {m1 : LabelManager}
    → lookup l m.defined_labels ≡ some a
    → enter_label x c m ≡ ok m1
    → lookup l m1.defined_labels ≡ some a
unfolding enter_label define_label is_label_defined
enter_label-keeps x c m l a h e = ground (
  arith,
  lookup-insert x.target_label l (cursor x.segment c) m.defined_labels,
  text_eq_iff x.target_label l,
)

pub assign-keeps :
    (xs : List Instruction) (c : Cursors) (m : LabelManager) (l : Text) (a : ℕ)
    {p : List Instruction} {m' : LabelManager}
    → lookup l m.defined_labels ≡ some a
    → assign xs c m ≡ ok (p, m')
    → lookup l m'.defined_labels ≡ some a
unfolding assign
assign-keeps [] c m l a h e =
    subst (λ (t : List Instruction × LabelManager). lookup l t.1.defined_labels ≡ some a)
      (ok-injective e) h
assign-keeps (x ∷ xs) c m l a h e =
    let (m1, q, e1, e2, e3) = assign-cons x xs c m e in
    assign-keeps xs (move_cursor x c) m1 l a (enter_label-keeps x c m l a h e1) e2
