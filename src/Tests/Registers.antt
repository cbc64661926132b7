-- ===== src/Tests/Registers.antt =====
-- Runs of the register manager.
use bcpl.Prelude.{
  ◌≡◌, ◌≢◌, ◌⊎◌, refl, Bool, true, false, ◌&&◌, arith, none, some, List, [], ◌∷◌, map, Text, codes,
  text_eq, text_eq_iff, Result, ok, err,
}
use bcpl.Prelude.Dict.{lookup, insert, remove}
use bcpl.CallFrameManager.{call_frame_manager, variable_regs}
use bcpl.RegisterManager.{RegisterManager, Context, reset_for_new_function, initial_registers}
use bcpl.RegisterManager.Variables.{on_manager, acquire_reg_for_variable}
use bcpl.RegisterManager.Invariant.{Consistent}
use bcpl.RegisterManager.Invariant.Steps.{Step, Reachable, Reachable-Consistent}
use bcpl.RegisterManager.Spills.{Spilled, acquire_reg_for_variable-keeps}
use bcpl.Tests.Data.{succeeds}

abbrev no_manager : RegisterManager
no_manager = record {
  registers = [];
  variable_to_reg_map = [];
  variable_reg_lru_order = [];
  spilled_variables = [];
  fp_variable_to_reg_map = [];
  fp_variable_reg_lru_order = [];
  vec_variable_to_reg_map = [];
  vec_variable_reg_lru_order = [];
  active_variable_regs = variable_regs;
}

abbrev before : Context
before = record { manager = no_manager; frame = call_frame_manager (codes "f") false; emitted = [] }

abbrev fresh : Context
fresh = on_manager (λ m. reset_for_new_function m true) before

abbrev acquired : Result ((Text × Bool) × Context) → (Text × Bool) × Context
acquired (ok r) = r
acquired (err e) = (([], false), before)

ok-acquired :
    (r : Result ((Text × Bool) × Context))
    → succeeds r ≡ true
    → r ≡ ok ((acquired r).0, (acquired r).1)
ok-acquired (ok r) h = refl
ok-acquired (err e) h = absurd (cc)

abbrev with_a : Context
with_a = (acquired (acquire_reg_for_variable (codes "a") fresh)).1

abbrev with_b : Context
with_b = (acquired (acquire_reg_for_variable (codes "b") with_a)).1

reached_a : Reachable with_a
unfolding acquire_reg_for_variable reset_for_new_function initial_registers text_eq lookup insert
reached_a =
    Reachable.further (Reachable.start before true)
      (Step.variable (codes "a") (ok-acquired (acquire_reg_for_variable (codes "a") fresh) refl))

reached_b : Reachable with_b
unfolding acquire_reg_for_variable reset_for_new_function initial_registers text_eq lookup insert
reached_b =
    Reachable.further reached_a
      (Step.variable (codes "b") (ok-acquired (acquire_reg_for_variable (codes "b") with_a) refl))

Reachable-Consistent_example : Consistent with_b.manager
Reachable-Consistent_example = Reachable-Consistent reached_b

-- Nine variables for eight registers.
abbrev acquire_all : List Text → Context → Context
acquire_all [] c = c
acquire_all (v ∷ vs) c = acquire_all vs (acquired (acquire_reg_for_variable v c)).1

abbrev all_succeed : List Text → Context → Bool
all_succeed [] c = true
all_succeed (v ∷ vs) c =
    succeeds (acquire_reg_for_variable v c)
    && all_succeed vs (acquired (acquire_reg_for_variable v c)).1

both_true : (a b : Bool) → (a && b) ≡ true → (a ≡ true) × (b ≡ true)
both_true a b h = ground arith

reached_all :
    (vs : List Text) (c : Context)
    → Reachable c
    → all_succeed vs c ≡ true
    → Reachable (acquire_all vs c)
reached_all [] c r h = r
reached_all (v ∷ vs) c r h =
    let (first_one, others) =
      both_true (succeeds (acquire_reg_for_variable v c))
        (all_succeed vs (acquired (acquire_reg_for_variable v c)).1) h in
    reached_all vs (acquired (acquire_reg_for_variable v c)).1
      (Reachable.further r (Step.variable v (ok-acquired (acquire_reg_for_variable v c) first_one)))
      others

abbrev filled : Context
filled = acquire_all (map codes ("a" ∷ "b" ∷ "c" ∷ "d" ∷ "e" ∷ "f" ∷ "g" ∷ "h" ∷ [])) fresh

abbrev with_i : Context
with_i = (acquired (acquire_reg_for_variable (codes "i") filled)).1

different : codes "i" ≢ codes "a"
unfolding text_eq
different h = let k : false ≡ true = (text_eq_iff (codes "i") (codes "a")).1 h in cc

-- The variable that is the least recently used one is spilled.
acquire_reg_for_variable-keeps_example :
    (lookup (codes "i") with_i.manager.variable_to_reg_map
      ≡ some (acquired (acquire_reg_for_variable (codes "i") filled)).0.0)
    × (((lookup (codes "a") with_i.manager.variable_to_reg_map ≡ some (codes "X20"))
          × ((acquired (acquire_reg_for_variable (codes "i") filled)).0.0 ≢ codes "X20"))
        ⊎ Spilled filled (codes "a") with_i)
unfolding acquire_reg_for_variable reset_for_new_function initial_registers text_eq lookup insert
acquire_reg_for_variable-keeps_example =
    acquire_reg_for_variable-keeps filled with_i (codes "i") (codes "a") (codes "X20")
      (reached_all (map codes ("a" ∷ "b" ∷ "c" ∷ "d" ∷ "e" ∷ "f" ∷ "g" ∷ "h" ∷ [])) fresh
        (Reachable.start before true) refl)
      different refl (ok-acquired (acquire_reg_for_variable (codes "i") filled) refl)

-- It is so in this run.
first_spilled : lookup (codes "a") with_i.manager.variable_to_reg_map ≡ none
unfolding remove acquire_reg_for_variable reset_for_new_function initial_registers text_eq lookup
    insert
first_spilled = refl
