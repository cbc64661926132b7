-- ===== src/Liveness/Uses/Programs.antt =====
-- live_run.cpp and live_compute_use_def_sets.cpp: the analysis of graphs whose blocks hold
-- statements.
use bcpl.Prelude.{
  ℕ, ◌*◌, ◌<◌, ◌≡◌, ◌∙◌, ◌↔◌, inl, inr, sym, arith, true, false, not, Bool-cases, ◌&&◌, ◌||◌,
  Option, some, List, [], ◌∷◌, ◌++◌, Text, length,
}
use bcpl.Prelude.TextSets.{has_text}
use bcpl.Ast.{Statements}
use bcpl.Liveness.{Graph, Sets, run_data_flow_analysis, get_in_set}
use bcpl.Liveness.Equations.{has_block}
use bcpl.Liveness.Weight.{used_names}
use bcpl.Liveness.Paths.{Live, used, passed}
use bcpl.Liveness.Termination.{run_data_flow_analysis-terminates}
use bcpl.Liveness.Uses.{analyze_block}
use bcpl.Liveness.Uses.Order.{Event, read, write, reads_first, writes}
use bcpl.Liveness.Uses.Events.{events_statements, CoveredStatements, analyze_block-order}

-- The graphs, with the statements of each block.
pub record Cfg : Type 0 where
  pub blocks : List ℕ
  pub successors : ℕ → List ℕ
  pub statements : ℕ → Statements

unfoldable pub compute_use_def_sets : Cfg → Graph
unfolding analyze_block
compute_use_def_sets cfg = record {
  blocks = cfg.blocks;
  successors = cfg.successors;
  use_sets = λ b. (analyze_block (cfg.statements b)).use_set;
  def_sets = λ b. (analyze_block (cfg.statements b)).def_set;
}

unfoldable pub run_analysis : ℕ → Cfg → Option Sets
unfolding compute_use_def_sets run_data_flow_analysis
run_analysis fuel cfg = run_data_flow_analysis fuel (compute_use_def_sets cfg)

-- What happens to variables on a path from the start of a block along the edges of the graph.
pub data PathFrom (cfg : Cfg) : ℕ → List Event → Type 0 where
  last :
      {b : ℕ}
      → has_block b cfg.blocks ≡ true
      → PathFrom cfg b (events_statements (cfg.statements b))
  edge :
      {b s : ℕ} {es : List Event}
      → has_block b cfg.blocks ≡ true
      → has_block s (cfg.successors b) ≡ true
      → PathFrom cfg s es
      → PathFrom cfg b (events_statements (cfg.statements b) ++ es)

reads_first-append :
    (v : Text) (xs ys : List Event)
    → reads_first v (xs ++ ys) ≡ (reads_first v xs || (not (writes v xs) && reads_first v ys))
reads_first-append v [] ys = ground arith
reads_first-append v (read name ∷ xs) ys = ground (arith, reads_first-append v xs ys)
reads_first-append v (write name ∷ xs) ys = ground (arith, reads_first-append v xs ys)

-- Some path reads the variable before it writes it.
abbrev pub ReadOnPath : Cfg → ℕ → Text → Type 0
ReadOnPath cfg b v = (es : List Event) × PathFrom cfg b es × (reads_first v es ≡ true)

Live-ReadOnPath :
    (cfg : Cfg)
    → ((b : ℕ) → has_block b cfg.blocks ≡ true → CoveredStatements (cfg.statements b))
    → {b : ℕ} {v : Text} → Live (compute_use_def_sets cfg) b v
    → ReadOnPath cfg b v
unfolding compute_use_def_sets
Live-ReadOnPath cfg covered {b} {v} (used m u) =
    (_, last m, sym (analyze_block-order (cfg.statements b) v (covered b m)).0 ∙ u)
Live-ReadOnPath cfg covered {b} {v} (passed m d e l) =
    let (es, p, h) = Live-ReadOnPath cfg covered l in
    let w : writes v (events_statements (cfg.statements b)) ≡ false =
      sym (analyze_block-order (cfg.statements b) v (covered b m)).1 ∙ d in
    (_, edge m e p, ground (arith, reads_first-append v (events_statements (cfg.statements b)) es))

PathFrom-Live :
    (cfg : Cfg) (v : Text)
    → ((b : ℕ) → has_block b cfg.blocks ≡ true → CoveredStatements (cfg.statements b))
    → {b : ℕ} {es : List Event} → PathFrom cfg b es
    → reads_first v es ≡ true
    → Live (compute_use_def_sets cfg) b v
unfolding compute_use_def_sets
PathFrom-Live cfg v covered {b} (last m) h =
    used m ((analyze_block-order (cfg.statements b) v (covered b m)).0 ∙ h)
PathFrom-Live cfg v covered {b} (edge {es = es} m e p) h =
    let t = events_statements (cfg.statements b) in
    let (u, d) = analyze_block-order (cfg.statements b) v (covered b m) in
    let a = reads_first-append v t es in
    elim (Bool-cases (reads_first v t)) [
      | inl now ↦ used m (u ∙ now)
      | inr later ↦
          passed m (d ∙ ground (arith, a)) e (PathFrom-Live cfg v covered p (ground (arith, a)))
    ]

-- Where the parts of each block that the visitors pass over read and write nothing, and on fuel of more iterations
-- than there are pairs of a block and a use of a variable, the analysis returns, and the `in` set of
-- each block that there is then holds exactly the variables that the statements on some path from the
-- start of the block read before they write them.
pub run_analysis-paths :
    (fuel : ℕ) (cfg : Cfg)
    → ((b : ℕ) → has_block b cfg.blocks ≡ true → CoveredStatements (cfg.statements b))
    → length cfg.blocks * length (used_names (compute_use_def_sets cfg) cfg.blocks) < fuel
    → (s : Sets) × (run_analysis fuel cfg ≡ some s)
      × ((b : ℕ) (v : Text)
          → has_block b cfg.blocks ≡ true
          → (has_text v (get_in_set s b) ≡ true) ↔ ReadOnPath cfg b v)
unfolding run_analysis compute_use_def_sets
run_analysis-paths fuel cfg covered enough =
    let (s, e, k) = run_data_flow_analysis-terminates fuel (compute_use_def_sets cfg) enough in
    (
      s,
      e,
      λ b v m. (
        λ h. Live-ReadOnPath cfg covered ((k b v m).0 h),
        λ (es, p, h). (k b v m).1 (PathFrom-Live cfg v covered p h),
      ),
    )
