-- ===== src/CallFrameManager/Invariant.antt =====
-- Calls of a CallFrameManager before its prologue, and what they keep.
use bcpl.Prelude.{
  ℕ, ◌+◌, ◌*◌, ◌≤◌, ◌≡◌, ◌∙◌, refl, arith, Bool, true, false, Bool-cases, Option-cases, inl, inr,
  List, [], ◌∷◌, ◌++◌, Text, codes, text_eq, text_eq_iff, if◌then◌else◌, Result, ok, err,
  runtime_error,
}
use bcpl.Prelude.Int.{ℤ, pos_part}
use bcpl.Prelude.Dict.{lookup, contains, lookup-insert}
use bcpl.CallFrameManager.{
  CallFrameManager, LocalVar, call_frame_manager, canary_space, has_declared, add_local,
  add_parameter, set_variable_type, get_spill_offset, preallocate_spill_slots, force_save_register,
  force_save_x19_x20, reserve_registers_based_on_pressure, set_active_register_pool,
  set_uses_global_pointers, get_size_for_type, fresh_local, save, add_once, reserve,
}
use bcpl.CallFrameManager.Slots.{distinct_names, total_size}

-- The declarations have distinct names, `variable_offsets` holds those names, and the sizes add up.
pub record Valid (m : CallFrameManager) : Type 0 where
  pub unfinished : m.is_prologue_generated ≡ false
  pub total : m.locals_total_size ≡ total_size m.local_declarations
  pub offset :
      m.current_locals_offset ≡ 16 + canary_space m.enable_stack_canaries + m.locals_total_size
  pub distinct : distinct_names m.local_declarations ≡ true
  pub known : (t : Text) → has_declared t m.local_declarations ≡ contains t m.variable_offsets
  pub spilled : m.next_spill_offset ≤ m.spill_area_size

-- The calls that change a manager, but for the two that generate code.
pub data Call : Type 0 where
  local : (name : Text) (type : ℕ) → Call
  parameter : (name : Text) (type : ℕ) → Call
  variable_type : (name : Text) (type : ℕ) → Call
  spill : (name : Text) → Call
  spill_slots : (count : ℕ) → Call
  save_register : (name : Text) → Call
  save_x19_x20 : Call
  pressure : (p : ℤ) → Call
  register_pool : (extended : Bool) → Call
  global_pointers : (uses : Bool) → Call

-- A call that throws changes nothing.
abbrev pub unless_thrown : CallFrameManager → Result CallFrameManager → CallFrameManager
unless_thrown m (err e) = m
unless_thrown m (ok n) = n

unfoldable pub perform : CallFrameManager → Call → CallFrameManager
unfolding add_local add_parameter set_variable_type get_spill_offset preallocate_spill_slots
    force_save_register force_save_x19_x20 reserve_registers_based_on_pressure
    set_active_register_pool set_uses_global_pointers
perform m (Call.local name type) = add_local m name type
perform m (Call.parameter name type) = add_parameter m name type
perform m (Call.variable_type name type) = set_variable_type m name type
perform m (Call.spill name) = (get_spill_offset m name).1
perform m (Call.spill_slots count) = preallocate_spill_slots m count
perform m (Call.save_register name) = unless_thrown m (force_save_register m name)
perform m Call.save_x19_x20 = unless_thrown m (force_save_x19_x20 m)
perform m (Call.pressure p) = unless_thrown m (reserve_registers_based_on_pressure m p)
perform m (Call.register_pool extended) = set_active_register_pool m extended
perform m (Call.global_pointers uses) = set_uses_global_pointers m uses

unfoldable pub perform_all : CallFrameManager → List Call → CallFrameManager
unfolding perform
perform_all m [] = m
perform_all m (c ∷ cs) = perform_all (perform m c) cs

has_declared-snoc :
    (t : Text) (ds : List LocalVar) (d : LocalVar)
    → has_declared t (ds ++ (d ∷ [])) ≡ (if text_eq d.name t then true else has_declared t ds)
unfolding has_declared
has_declared-snoc t [] d = refl
has_declared-snoc t (e ∷ ds) d = ground (arith, has_declared-snoc t ds d)

total_size-snoc :
    (ds : List LocalVar) (d : LocalVar) → total_size (ds ++ (d ∷ [])) ≡ total_size ds + d.size
unfolding total_size
total_size-snoc [] d = omega arith
total_size-snoc (e ∷ ds) d = omega (arith, total_size-snoc ds d)

distinct_names-snoc :
    (ds : List LocalVar) (d : LocalVar)
    → has_declared d.name ds ≡ false
    → distinct_names ds ≡ true
    → distinct_names (ds ++ (d ∷ [])) ≡ true
unfolding distinct_names has_declared
distinct_names-snoc [] d fresh h = refl
distinct_names-snoc (e ∷ ds) d fresh h = ground (
  arith,
  has_declared-snoc e.name ds d,
  distinct_names-snoc ds d,
  text_eq_iff d.name e.name,
  text_eq_iff e.name d.name,
)

call_frame_manager-Valid :
    (name : Text) (canaries : Bool) → Valid (call_frame_manager name canaries)
unfolding call_frame_manager total_size distinct_names lookup has_declared
call_frame_manager-Valid name canaries = record {
  unfinished = refl;
  total = refl;
  offset = omega arith;
  distinct = refl;
  known = λ t. refl;
  spilled = omega arith;
}

module _ (m : CallFrameManager) (v : Valid m) where
  fresh_local-Valid :
      (name : Text) (type : ℕ)
      → contains name m.variable_offsets ≡ false
      → Valid (fresh_local m name type)
  fresh_local-Valid name type fresh =
      let d : LocalVar = record { name = name; size = get_size_for_type type } in
      record {
        unfinished = v.unfinished;
        total = omega (arith, v.total, total_size-snoc m.local_declarations d);
        offset = omega (arith, v.offset);
        distinct = distinct_names-snoc m.local_declarations d (v.known name ∙ fresh) v.distinct;
        known = λ t. ground (
          arith,
          has_declared-snoc t m.local_declarations d,
          lookup-insert name t m.current_locals_offset m.variable_offsets,
          v.known t,
        );
        spilled = v.spilled;
      }

  add_local-Valid : (name : Text) (type : ℕ) → Valid (add_local m name type)
  unfolding add_local
  add_local-Valid name type = elim (Bool-cases (contains name m.variable_offsets)) [
    | inl e ↦ rw e v
    | inr e ↦ rw e (fresh_local-Valid name type e)
  ]

  -- Before the prologue, the guards on it let every call pass.
  unfinished-Valid :
      {A : Type 0} (f : A → CallFrameManager) (x y : A)
      → Valid (f y)
      → Valid (f (if m.is_prologue_generated then x else y))
  unfinished-Valid f x y h = rw v.unfinished h

  save-Valid : (saved : List Text) → Valid (save m saved)
  save-Valid saved = record {
    unfinished = v.unfinished;
    total = v.total;
    offset = v.offset;
    distinct = v.distinct;
    known = v.known;
    spilled = v.spilled;
  }

  saved-Valid :
      {saved : List Text}
      → Valid (save m saved)
      → Valid (
          unless_thrown m
            (if m.is_prologue_generated then err runtime_error else ok (save m saved)))
  saved-Valid {saved} h =
      unfinished-Valid (unless_thrown m) (err runtime_error) (ok (save m saved)) h

  get_spill_offset-Valid : (name : Text) → Valid (get_spill_offset m name).1
  unfolding get_spill_offset
  get_spill_offset-Valid name = elim (Option-cases (lookup name m.spill_variable_offsets)) [
    | inl e ↦ rw e (record {
      unfinished = v.unfinished;
      total = v.total;
      offset = v.offset;
      distinct = v.distinct;
      known = v.known;
      spilled = omega (arith, v.spilled);
    })
    | inr e ↦ rw e.1 v
  ]

  preallocate_spill_slots-Valid : (count : ℕ) → Valid (preallocate_spill_slots m count)
  unfolding preallocate_spill_slots
  preallocate_spill_slots-Valid count =
      unfinished-Valid (λ n. n) m (record m { spill_area_size = m.spill_area_size + count * 8 })
        (record {
          unfinished = v.unfinished;
          total = v.total;
          offset = v.offset;
          distinct = v.distinct;
          known = v.known;
          spilled = omega (arith, v.spilled);
        })

  perform-Valid : (c : Call) → Valid (perform m c)
  unfolding perform add_parameter set_variable_type force_save_register force_save_x19_x20
      reserve_registers_based_on_pressure set_active_register_pool set_uses_global_pointers
  perform-Valid (Call.local name type) = add_local-Valid name type
  perform-Valid (Call.parameter name type) = add_local-Valid name type
  perform-Valid (Call.variable_type name type) = record {
    unfinished = v.unfinished;
    total = v.total;
    offset = v.offset;
    distinct = v.distinct;
    known = v.known;
    spilled = v.spilled;
  }
  perform-Valid (Call.spill name) = get_spill_offset-Valid name
  perform-Valid (Call.spill_slots count) = preallocate_spill_slots-Valid count
  perform-Valid (Call.save_register name) =
      saved-Valid (save-Valid (add_once name m.callee_saved_registers_to_save))
  perform-Valid Call.save_x19_x20 = saved-Valid (
      save-Valid (add_once (codes "X20") (add_once (codes "X19") m.callee_saved_registers_to_save)))
  perform-Valid (Call.pressure p) =
      saved-Valid
        (save-Valid (reserve (pos_part p) m.active_variable_regs m.callee_saved_registers_to_save))
  perform-Valid (Call.register_pool extended) = record {
    unfinished = v.unfinished;
    total = v.total;
    offset = v.offset;
    distinct = v.distinct;
    known = v.known;
    spilled = v.spilled;
  }
  perform-Valid (Call.global_pointers uses) = record {
    unfinished = v.unfinished;
    total = v.total;
    offset = v.offset;
    distinct = v.distinct;
    known = v.known;
    spilled = v.spilled;
  }

perform_all-Valid : (m : CallFrameManager) (cs : List Call) → Valid m → Valid (perform_all m cs)
unfolding perform_all
perform_all-Valid m [] v = v
perform_all-Valid m (c ∷ cs) v = perform_all-Valid (perform m c) cs (perform-Valid m v c)

-- Whatever calls a new manager gets before its prologue, its declarations have distinct names,
-- its table of offsets holds exactly those names, and its sizes and offsets add up.
pub reachable-Valid :
    (name : Text) (canaries : Bool) (cs : List Call)
    → Valid (perform_all (call_frame_manager name canaries) cs)
reachable-Valid name canaries cs =
    perform_all-Valid (call_frame_manager name canaries) cs (call_frame_manager-Valid name canaries)
