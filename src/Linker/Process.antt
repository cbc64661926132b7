-- ===== src/Linker/Process.antt =====
-- The whole linker: a branch of the stream reaches the label that it names.
use bcpl.Prelude.{
  ℕ, suc, ◌+◌, ◌*◌, ◌/◌, ◌%◌, ◌^◌, ◌<◌, ◌≤◌, ◌≡◌, refl, sym, ◌∙◌, ap, arith, true, false, some,
  List, [], ◌∷◌, ◌++◌, length, length-append, is_empty, Text, ok, >>=-eq-ok, ok-injective,
}
use bcpl.Prelude.Dict.{lookup}
use bcpl.Instruction.{Instruction, SegmentType, RelocationType}
use bcpl.RuntimeManager.{RuntimeManager, is_function_registered}
use bcpl.LabelManager.{LabelManager, is_label_defined, get_label_address}
use bcpl.Linker.{
  Cursors, cursor, emits, assign, code_size, rodata_start, assign_addresses_and_resolve_labels,
  target_address, relocate_word, perform_relocation, perform_relocations, process,
}
use bcpl.Linker.Addresses.{emitted}
use bcpl.Linker.Layout.{assign-address, assign-label}
use bcpl.Linker.Relocate.{branch_to, relocate_word-branch_26}

perform-append :
    (rt : RuntimeManager) (m : LabelManager) (xs : List Instruction) (y : Instruction)
    (ys : List Instruction) {q : List Instruction}
    → perform_relocations rt m (xs ++ (y ∷ ys)) ≡ ok q
    → (q1 : List Instruction) × (z : Instruction) × (q2 : List Instruction) × (length q1
        ≡ length xs)
      × (perform_relocation rt m y ≡ ok z)
      × (q ≡ q1 ++ (z ∷ q2))
unfolding perform_relocations
perform-append rt m [] y ys e =
    let (z, e1, f) = >>=-eq-ok (perform_relocation rt m y) _ e in
    let (q2, e2, g) = >>=-eq-ok (perform_relocations rt m ys) _ f in
    ([], z, q2, refl, e1, sym (ok-injective g))
perform-append rt m (x ∷ xs) y ys e =
    let (x', e1, f) = >>=-eq-ok (perform_relocation rt m x) _ e in
    let (r, e2, g) = >>=-eq-ok (perform_relocations rt m (xs ++ (y ∷ ys))) _ f in
    let (q1, z, q2, h1, h2, h) = perform-append rt m xs y ys e2 in
    (x' ∷ q1, z, q2, ap suc h1, h2, sym (ok-injective g) ∙ ap (λ t. x' ∷ t) h)

-- A label that is no runtime function resolves to its address.
target_address_lem :
    (rt : RuntimeManager) (m : LabelManager) (l : Text) (a : ℕ)
    → is_function_registered rt l ≡ false
    → lookup l m.defined_labels ≡ some a
    → target_address rt m l ≡ ok a
unfolding target_address is_label_defined get_label_address
target_address_lem rt m l a h e = rw (h, e) refl

relocated :
    (rt : RuntimeManager) (m : LabelManager) (y : Instruction) (target : ℕ) {w : ℕ}
    {z : Instruction}
    → y.relocation ≡ RelocationType.pc_relative_26_bit_offset
    → is_empty y.target_label ≡ false
    → target_address rt m y.target_label ≡ ok target
    → relocate_word RelocationType.pc_relative_26_bit_offset y.encoding y.address target ≡ ok w
    → perform_relocation rt m y ≡ ok z
    → (z.encoding ≡ w) × (z.address ≡ y.address)
unfolding perform_relocation
relocated rt m y target {w} {z} hr hl ht hw e =
    let e' = rw (hr, hl, ht, hw) at e in
    let k = ok-injective e' in
    (ap (λ (i : Instruction). i.encoding) (sym k), ap (λ (i : Instruction). i.address) (sym k))

emitted-le : (s : SegmentType) (xs : List Instruction) → emitted s xs ≤ length xs
unfolding emitted
emitted-le s [] = omega arith
emitted-le s (x ∷ xs) = ground (arith, emitted-le s xs)

module _ (before : List Instruction) (x : Instruction) (behind : List Instruction)
    (above : List Instruction) (l : Instruction) (below : List Instruction) (m : LabelManager)
    (rt : RuntimeManager) (base data_base : ℕ) where
  -- When the linker succeeds on a stream of fewer than 2^25 instructions, whose code starts at a
  -- multiple of 4 and fits below 2^64, then an instruction of the code that emits a 32-bit word, has
  -- the 26-bit branch relocation, and names (by a name that is not empty) a code label of the
  -- stream and no runtime function, stands in the result at its place and address, with its six
  -- opcode bits, and branches to the address at which the label stands.
  pub process-branch_26 :
      {linked : List Instruction} {m' : LabelManager}
      → before ++ (x ∷ behind) ≡ above ++ (l ∷ below)
      → length (before ++ (x ∷ behind)) < 2 ^ 25
      → base % 4 ≡ 0
      → base + 4 * length (before ++ (x ∷ behind)) < 2 ^ 64
      → x.segment ≡ SegmentType.code
      → emits x ≡ true
      → x.encoding < 2 ^ 32
      → x.relocation ≡ RelocationType.pc_relative_26_bit_offset
      → is_empty x.target_label ≡ false
      → is_function_registered rt x.target_label ≡ false
      → l.segment ≡ SegmentType.code
      → l.is_label_definition ≡ true
      → l.target_label ≡ x.target_label
      → process (before ++ (x ∷ behind)) m rt base data_base ≡ ok (linked, m')
      → (q1 : List Instruction) × (z : Instruction) × (q2 : List Instruction) × (linked
          ≡ q1 ++ (z ∷ q2))
        × (length q1 ≡ length before)
        × (z.address ≡ base + 4 * emitted SegmentType.code before)
        × (z.encoding / 2 ^ 26 ≡ x.encoding / 2 ^ 26)
        × (branch_to 26 z.address (z.encoding % 2 ^ 26) ≡ base + 4 * emitted SegmentType.code above)
  unfolding process assign_addresses_and_resolve_labels
  process-branch_26 {linked} {m'} same_stream short aligned fits hs he hw hr hl hf ls ll ln e =
      let stream = before ++ (x ∷ behind) in
      let start : Cursors = record {
        code = base;
        rodata = rodata_start base (code_size 0 stream);
        data_ = data_base;
      } in
      let (r, e1, e2) = >>=-eq-ok (assign stream start m) _ e in
      let (done, e3, e4) = >>=-eq-ok (perform_relocations rt r.1 r.0) _ e2 in
      let (p1, p2, h1, h2) = assign-address before x behind start m (rw hs (omega arith)) he e1 in
      let place_x : (cursor x.segment start + 4 * emitted x.segment before) % 2 ^ 64
          ≡ base + 4 * emitted SegmentType.code before =
        rw hs
          (omega (arith, emitted-le SegmentType.code before, length-append before (x ∷ behind))) in
      let place_l : (cursor l.segment start + 4 * emitted l.segment above) % 2 ^ 64
          ≡ base + 4 * emitted SegmentType.code above =
        rw ls (
          omega (
            arith,
            emitted-le SegmentType.code above,
            length-append above (l ∷ below),
            ap length same_stream,
          )) in
      let bound =
        assign-label above l below start m (rw ls (omega arith)) ll
          (ap (λ t. assign t start m) (sym same_stream) ∙ e1) in
      let y = record x { address = base + 4 * emitted SegmentType.code before } in
      let here = h2 ∙ ap (λ (a : ℕ). p1 ++ (record x { address = a } ∷ p2)) place_x in
      let (q1, z, q2, g1, g2, g3) =
        perform-append rt r.1 p1 y p2 (ap (perform_relocations rt r.1) (sym here) ∙ e3) in
      let bx : emitted SegmentType.code before < length stream =
        omega (arith, emitted-le SegmentType.code before, length-append before (x ∷ behind)) in
      let bl : emitted SegmentType.code above < length stream = omega (
        arith,
        emitted-le SegmentType.code above,
        length-append above (l ∷ below),
        ap length same_stream,
      ) in
      let target = base + 4 * emitted SegmentType.code above in
      let known : lookup x.target_label r.1.defined_labels ≡ some target =
        ap (λ t. lookup t r.1.defined_labels) (sym ln) ∙ bound ∙ ap some place_l in
      let (w, k1, k2, k3) =
        relocate_word-branch_26 x.encoding y.address target hw (omega arith) (omega arith)
          (omega (arith, bx)) (omega (arith, bl)) (omega (arith, bl)) (omega (arith, bx)) in
      let (z1, z2) =
        relocated rt r.1 y target hr hl (target_address_lem rt r.1 x.target_label target hf known)
          k1 g2 in
      (
        q1,
        z,
        q2,
        sym (ap (λ t. t.0) (ok-injective e4)) ∙ g3,
        g1 ∙ h1,
        z2,
        ap (λ (v : ℕ). v / 2 ^ 26) z1 ∙ k3,
        ap (λ (v : ℕ). branch_to 26 v (z.encoding % 2 ^ 26)) z2
            ∙ ap (λ (v : ℕ). branch_to 26 y.address (v % 2 ^ 26)) z1
            ∙ k2,
      )
