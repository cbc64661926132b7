-- ===== src/CallFrameManager/Layout.antt =====
-- The frame that generate_prologue lays out: slots that do not meet, inside an aligned frame.
use bcpl.Prelude.{
  ℕ, ◌+◌, ◌*◌, ◌/◌, ◌%◌, ◌^◌, ◌<◌, ◌≤◌, ◌≡◌, ◌≢◌, bit_and, ◌-◌, runtime_error, ◌∙◌, refl, sym, ap,
  subst, arith, Bool, true, if-cases, inl, inr, Option, none, some, List, [], Text, Result, ok, err,
}
use bcpl.Prelude.Bits.{bit_and_field}
use bcpl.Prelude.Dict.{lookup, is_some}
use bcpl.Instruction.{Instruction}
use bcpl.CallFrameManager.{
  CallFrameManager, call_frame_manager, canary_space, has_local, has_declared, get_offset,
  or_missing,
}
use bcpl.CallFrameManager.Prologue.{
  align_to_16, lay_out, place_slots, place_locals, registers_to_save, Slots, required_content_size,
  prologue_code, generate_prologue, finish_prologue, finished,
}
use bcpl.CallFrameManager.Slots.{
  Separate, Apart, slot_size, place-Separate, place_locals-next, place_registers-next,
  has_text-placed, has_declared-placed, contains-place_registers,
}
use bcpl.CallFrameManager.Invariant.{Valid, Call, perform_all, reachable-Valid}

align_to_16_lem : (size : ℕ) → size + 15 < 2 ^ 32 → align_to_16 size ≡ (size + 15) / 16 * 16
unfolding align_to_16
align_to_16_lem size h =
    let e : size + 15 ≡ (0 * 2 ^ 28 + (size + 15) / 16) * 2 ^ 4 + (size + 15) % 16 = omega arith in
    ap (λ (n : ℕ). bit_and n (2 ^ 32 - 1 - 15)) e
    ∙ bit_and_field 4 28 0 ((size + 15) / 16) ((size + 15) % 16) (omega arith) (omega arith)

finish_prologue_lem :
    (m n : CallFrameManager) (r : Result (List Instruction)) {instrs : List Instruction}
    → finish_prologue m r ≡ (ok instrs, n)
    → (n ≡ finished m) × (r ≡ ok instrs)
finish_prologue_lem m n (err e) h = absurd (cc)
finish_prologue_lem m n (ok instrs) h = (cc, cc)

error_lem :
    (m n : CallFrameManager) {instrs : List Instruction}
    → ◌≢◌ {A = Result (List Instruction) × CallFrameManager} (err runtime_error, m) (ok instrs, n)
error_lem m n h = cc

-- What a call of generate_prologue that returned did.
pub generate_prologue_lem :
    (m n : CallFrameManager) {instrs : List Instruction}
    → generate_prologue m ≡ (ok instrs, n)
    → (n ≡ finished (lay_out m)) × (prologue_code (lay_out m) ≡ ok instrs)
unfolding generate_prologue
generate_prologue_lem m n {instrs} h = elim (if-cases m.is_prologue_generated h) [
  | inl thrown ↦ absurd (error_lem m n thrown.1)
  | inr laid ↦ finish_prologue_lem (lay_out m) n (prologue_code (lay_out m)) laid.1
]

or_missing_lem : (o : Option ℕ) {x : ℕ} → or_missing o ≡ ok x → o ≡ some x
or_missing_lem none h = absurd (cc)
or_missing_lem (some y) h = cc

get_offset_lem :
    (m : CallFrameManager) (t : Text) {x : ℕ}
    → get_offset m t ≡ ok x
    → lookup t m.variable_offsets ≡ some x
unfolding get_offset
get_offset_lem m t h = elim (if-cases m.is_prologue_generated h) [
  | inl done ↦ or_missing_lem (lookup t m.variable_offsets) done.1
  | inr unready ↦ absurd (cc)
]

contained : (o : Option ℕ) → is_some o ≡ true → (x : ℕ) × (or_missing o ≡ ok x)
contained none h = absurd (cc)
contained (some x) h = (x, refl)

-- The laid out slots, of a manager before its prologue.
module _ (m : CallFrameManager) (v : Valid m) where
  start : ℕ
  start = 16 + canary_space m.enable_stack_canaries

  lay_out-Separate :
      Separate
        (slot_size m.local_declarations)
        start
        (record { offsets = (lay_out m).variable_offsets; next = (lay_out m).next_spill_offset })
  unfolding lay_out place_slots start
  lay_out-Separate =
      place-Separate m.local_declarations (registers_to_save m)
        (16 + canary_space m.enable_stack_canaries) v.distinct

  lay_out-fits :
      required_content_size m + 15 < 2 ^ 32
      → ((lay_out m).next_spill_offset + m.spill_area_size ≤ (lay_out m).final_frame_size)
        × ((lay_out m).final_frame_size % 16 ≡ 0)
  unfolding lay_out place_slots required_content_size
  lay_out-fits small =
      let s : Slots = record { offsets = []; next = 16 + canary_space m.enable_stack_canaries } in
      let a = align_to_16_lem (required_content_size m) small in
      let l = place_locals-next m.local_declarations s in
      let r = place_registers-next (registers_to_save m) (place_locals m.local_declarations s) in
      (omega (arith, a, l, r, v.total), omega (arith, a))

  lay_out-Apart :
      (t u : Text) {x y : ℕ}
      → t ≢ u
      → get_offset (finished (lay_out m)) t ≡ ok x
      → get_offset (finished (lay_out m)) u ≡ ok y
      → (start ≤ x)
        × Apart x (slot_size m.local_declarations t) y (slot_size m.local_declarations u)
  lay_out-Apart t u {x} {y} ne ex ey =
      let lx = get_offset_lem (finished (lay_out m)) t ex in
      let ly = get_offset_lem (finished (lay_out m)) u ey in
      let s = lay_out-Separate in ((s.within t x lx).0, s.apart t u x y ne lx ly)

  lay_out-known :
      (t : Text)
      → has_local (finished (lay_out m)) t ≡ true
      → (x : ℕ) × (get_offset (finished (lay_out m)) t ≡ ok x)
  unfolding has_local get_offset lay_out place_slots
  lay_out-known t h =
      let s : Slots = record { offsets = []; next = 16 + canary_space m.enable_stack_canaries } in
      let placed = place_locals m.local_declarations s in
      contained (lookup t (place_slots m).offsets)
        (elim (if-cases (has_declared t m.local_declarations) h) [
          | inl declared ↦
              contains-place_registers t (registers_to_save m) placed
                (has_declared-placed t m.local_declarations s declared.0)
          | inr saved ↦ has_text-placed t (registers_to_save m) placed saved.1
        ])

laid_out-Apart :
    (m : CallFrameManager)
    → Valid m
    → (t u : Text) {x y : ℕ} → t ≢ u
    → get_offset (finished (lay_out m)) t ≡ ok x
    → get_offset (finished (lay_out m)) u ≡ ok y
    → (16 + canary_space (lay_out m).enable_stack_canaries ≤ x)
      × Apart x
          (slot_size (lay_out m).local_declarations t)
          y
          (slot_size (lay_out m).local_declarations u)
unfolding lay_out start
laid_out-Apart m v t u ne ex ey = lay_out-Apart m v t u ne ex ey

laid_out-inside :
    (m : CallFrameManager)
    → Valid m
    → required_content_size m + 15 < 2 ^ 32
    → (t : Text) {x : ℕ} → get_offset (finished (lay_out m)) t ≡ ok x
    → (x + slot_size (lay_out m).local_declarations t ≤ (lay_out m).next_spill_offset)
      × ((lay_out m).next_spill_offset + (lay_out m).spill_area_size ≤ (lay_out m).final_frame_size)
      × ((lay_out m).final_frame_size % 16 ≡ 0)
unfolding lay_out
laid_out-inside m v small t {x} ex =
    let w = (lay_out-Separate m v).within t x (get_offset_lem (finished (lay_out m)) t ex) in
    let f = lay_out-fits m v small in (w.1, f.0, f.1)

-- After a prologue, the slots of any two different names that get_offset finds, locals or saved
-- registers, lie behind the frame record and the canaries and do not overlap.
pub generate_prologue-separate :
    (name : Text) (canaries : Bool) (cs : List Call) (m : CallFrameManager)
    {instrs : List Instruction} (t u : Text) {x y : ℕ}
    → generate_prologue (perform_all (call_frame_manager name canaries) cs) ≡ (ok instrs, m)
    → t ≢ u
    → get_offset m t ≡ ok x
    → get_offset m u ≡ ok y
    → (16 + canary_space m.enable_stack_canaries ≤ x)
      × Apart x (slot_size m.local_declarations t) y (slot_size m.local_declarations u)
generate_prologue-separate name canaries cs m t u {x} {y} e ne =
    let p = perform_all (call_frame_manager name canaries) cs in
    subst
      (λ (k : CallFrameManager).
        get_offset k t ≡ ok x
        → get_offset k u ≡ ok y
        → (16 + canary_space k.enable_stack_canaries ≤ x)
          × Apart x (slot_size k.local_declarations t) y (slot_size k.local_declarations u))
      (sym (generate_prologue_lem p m e).0)
      (laid_out-Apart p (reachable-Valid name canaries cs) t u ne)

-- After a prologue whose contents fit an `int`, every slot that get_offset finds ends before the
-- spill area, which starts at `next_spill_offset` and, with the size reserved for it, ends inside
-- the frame; the size of the frame is a multiple of 16.
pub generate_prologue-inside :
    (name : Text) (canaries : Bool) (cs : List Call) (m : CallFrameManager)
    {instrs : List Instruction} (t : Text) {x : ℕ}
    → generate_prologue (perform_all (call_frame_manager name canaries) cs) ≡ (ok instrs, m)
    → required_content_size (perform_all (call_frame_manager name canaries) cs) + 15 < 2 ^ 32
    → get_offset m t ≡ ok x
    → (x + slot_size m.local_declarations t ≤ m.next_spill_offset)
      × (m.next_spill_offset + m.spill_area_size ≤ m.final_frame_size)
      × (m.final_frame_size % 16 ≡ 0)
generate_prologue-inside name canaries cs m t {x} e small =
    let p = perform_all (call_frame_manager name canaries) cs in
    subst
      (λ (k : CallFrameManager).
        get_offset k t ≡ ok x
        → (x + slot_size k.local_declarations t ≤ k.next_spill_offset)
          × (k.next_spill_offset + k.spill_area_size ≤ k.final_frame_size)
          × (k.final_frame_size % 16 ≡ 0))
      (sym (generate_prologue_lem p m e).0)
      (laid_out-inside p (reachable-Valid name canaries cs) small t)

-- After a prologue, get_offset finds a slot for every name that has_local knows.
pub has_local-get_offset :
    (name : Text) (canaries : Bool) (cs : List Call) (m : CallFrameManager)
    {instrs : List Instruction} (t : Text)
    → generate_prologue (perform_all (call_frame_manager name canaries) cs) ≡ (ok instrs, m)
    → has_local m t ≡ true
    → (x : ℕ) × (get_offset m t ≡ ok x)
has_local-get_offset name canaries cs m t e =
    let p = perform_all (call_frame_manager name canaries) cs in
    subst (λ (k : CallFrameManager). has_local k t ≡ true → (x : ℕ) × (get_offset k t ≡ ok x))
      (sym (generate_prologue_lem p m e).0) (lay_out-known p (reachable-Valid name canaries cs) t)
