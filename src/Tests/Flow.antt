-- ===== src/Tests/Flow.antt =====
-- Runs of the data-flow analysis.
use bcpl.Prelude.{
  ℕ, ◌≡◌, ◌↔◌, refl, arith, true, Option, some, none, [], ◌∷◌, Text, codes, ◌==◌, if◌then◌else◌,
}
use bcpl.Prelude.Dict.{is_some}
use bcpl.Prelude.TextSets.{has_text}
use bcpl.Liveness.{Graph, Sets, run_data_flow_analysis, get_in_set, no_sets}
use bcpl.Liveness.Equations.{has_block}
use bcpl.Liveness.Paths.{Live}
use bcpl.Liveness.Weight.{used_names}
use bcpl.Liveness.Termination.{run_data_flow_analysis-terminates}

-- A loop of two blocks: the second uses `x`, the first defines `y`.
abbrev loop_graph : Graph
loop_graph = record {
  blocks = 0 ∷ 1 ∷ [];
  successors = λ b. if b == 0 then 1 ∷ [] else 0 ∷ [];
  use_sets = λ b. if b == 0 then [] else codes "x" ∷ [];
  def_sets = λ b. if b == 0 then codes "y" ∷ [] else [];
}

abbrev sets_of : Option Sets → Sets
sets_of none = no_sets
sets_of (some s) = s

some-sets : (o : Option Sets) → is_some o ≡ true → o ≡ some (sets_of o)
some-sets none h = absurd (cc)
some-sets (some s) h = refl

run_data_flow_analysis-terminates_example :
    (s : Sets) × (run_data_flow_analysis 3 loop_graph ≡ some s)
    × ((b : ℕ) (v : Text)
        → has_block b loop_graph.blocks ≡ true
        → (has_text v (get_in_set s b) ≡ true) ↔ Live loop_graph b v)
unfolding used_names
run_data_flow_analysis-terminates_example =
    run_data_flow_analysis-terminates 3 loop_graph (omega arith)
