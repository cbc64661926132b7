-- ===== src/Liveness.antt =====
-- live_run_data_flow_analysis.cpp, live_get_in_set.cpp and live_get_out_set.cpp of the class
-- LivenessAnalysisPass: which variables are live at the ends of the basic blocks.
-- A `BasicBlock*` is a number. The blocks of all graphs stand in one list, in the order of the two
-- loops; null graphs, blocks and successors are passed over by the code and are not listed.
pub mod Uses
pub mod Equations
pub mod Paths
pub mod Weight
pub mod Termination
use bcpl.Prelude.{
  ℕ, zero, suc, Bool, true, false, not, Option, none, some, List, [], ◌∷◌, Text, ◌==◌,
  if◌then◌else◌,
}
use bcpl.Prelude.TextSets.{union, erase_all, sets_eq}

-- The graph, and the sets of the blocks that compute_use_def_sets made.
pub record Graph : Type 0 where
  pub blocks : List ℕ
  pub successors : ℕ → List ℕ
  pub use_sets : ℕ → List Text
  pub def_sets : ℕ → List Text

-- `in_sets_` and `out_sets_`, where a missing key has the empty set, and the flag of the loop.
pub record Sets : Type 0 where
  pub in_sets : ℕ → List Text
  pub out_sets : ℕ → List Text
  pub changed : Bool

unfoldable pub assign : ℕ → List Text → (ℕ → List Text) → ℕ → List Text
assign b set sets k = if k == b then set else sets k

-- The union of the sets of all successors.
unfoldable pub new_out_set : (ℕ → List Text) → List ℕ → List Text
new_out_set in_sets [] = []
new_out_set in_sets (s ∷ ss) = union (new_out_set in_sets ss) (in_sets s)

unfoldable pub new_in_set : Graph → ℕ → List Text → List Text
new_in_set g b out = union (g.use_sets b) (erase_all (g.def_sets b) out)

-- `in_sets_[b]` is written where it differs from the new set.
unfoldable pub write_in_set : ℕ → List Text → Sets → Bool → Sets
unfolding assign
write_in_set b new_in s true = s
write_in_set b new_in s false = record s { in_sets = assign b new_in s.in_sets; changed = true }

-- The body of the inner loop.
unfoldable pub process_block : Graph → ℕ → Sets → Sets
unfolding assign new_out_set new_in_set write_in_set
process_block g b s =
    let out = new_out_set s.in_sets (g.successors b) in
    let new_in = new_in_set g b out in
    write_in_set b new_in (record s { out_sets = assign b out s.out_sets })
      (sets_eq (s.in_sets b) new_in)

unfoldable pub process_blocks : Graph → List ℕ → Sets → Sets
unfolding process_block
process_blocks g [] s = s
process_blocks g (b ∷ bs) s = process_blocks g bs (process_block g b s)

unfoldable pub iteration : Graph → Sets → Sets
unfolding process_blocks
iteration g s = process_blocks g g.blocks (record s { changed = false })

-- `while (changed)`, with at most `fuel` iterations.
unfoldable pub iterate : ℕ → Graph → Sets → Option Sets
unfolding iteration
iterate zero g s = none
iterate (suc fuel) g s =
    let next = iteration g s in
    let rest = iterate fuel g next in if next.changed then rest else some next

abbrev pub no_sets : Sets
no_sets = record { in_sets = λ b. []; out_sets = λ b. []; changed = true }

unfoldable pub run_data_flow_analysis : ℕ → Graph → Option Sets
unfolding iterate
run_data_flow_analysis fuel g = iterate fuel g no_sets

abbrev pub get_in_set : Sets → ℕ → List Text
get_in_set s block = s.in_sets block

abbrev pub get_out_set : Sets → ℕ → List Text
get_out_set s block = s.out_sets block
