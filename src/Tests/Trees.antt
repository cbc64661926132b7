-- ===== src/Tests/Trees.antt =====
-- Runs of the syntax tree's copy, of the use and def sets, and of constant folding.
use bcpl.Prelude.{
  Bool, true, false, ℕ, ◌+◌, ◌-◌, ◌*◌, ◌≡◌, refl, arith, [], ◌∷◌, Text, codes, ok, text_eq, leb,
  ltb, ◌==◌, if◌then◌else◌, ◌↔◌, ◌<◌, some, length,
}
use bcpl.Prelude.Int.{ℤ, pos, negsuc, pos_part}
use bcpl.Prelude.Dict.{Dict, lookup}
use bcpl.Prelude.TextSets.{has_text}
use bcpl.Ast.{
  Expression, Statement, Statements, Operator, integer, number_literal, variable_access, binary_op,
  conditional, nil, cons, assignment, while_statement, no_statements, statement,
}
use bcpl.Ast.Clone.{clone_statements}
use bcpl.Liveness.Uses.{analyze_block}
use bcpl.Liveness.Uses.Order.{reads_first, writes}
use bcpl.Liveness.Uses.Events.{events_statements, CoveredStatements, analyze_block-order}
use bcpl.Liveness.Uses.Copies.{StatementsNoArguments, analyze_block-clone}
use bcpl.Liveness.{Sets, get_in_set}
use bcpl.Liveness.Equations.{has_block}
use bcpl.Liveness.Weight.{used_names}
use bcpl.Liveness.Uses.Programs.{
  Cfg, compute_use_def_sets, run_analysis, ReadOnPath, run_analysis-paths,
}
use bcpl.ConstantFolding.Constants.{Doubles}
use bcpl.ConstantFolding.Pass.{Visited, accept, visit_stmts}
use bcpl.ConstantFolding.Semantics.{InRange, Env, eval, Pure}
use bcpl.ConstantFolding.Sound.Values.{Agrees}
use bcpl.ConstantFolding.Sound.Total.{Defined, accept-value}

abbrev named : Text → Expression
named name = variable_access name []

abbrev num : ℕ → Expression
num n = number_literal (integer (pos n))

abbrev count : Text
count = codes "n"

-- WHILE n > 0 DO n := n - 1
abbrev countdown : Statement
countdown = while_statement (binary_op Operator.greater (named count) (num 0)) (
    assignment (cons (named count) nil)
      (cons (binary_op Operator.subtract (named count) (num 1)) nil))

abbrev statements : Statements
statements = statement countdown no_statements

statements-Covered : CoveredStatements statements
unfolding CoveredStatements
statements-Covered = omega arith

analyze_block-order_example :
    (has_text count (analyze_block statements).use_set
      ≡ reads_first count (events_statements statements))
    × (has_text count (analyze_block statements).def_set
        ≡ writes count (events_statements statements))
analyze_block-order_example = analyze_block-order statements count statements-Covered

statements-StatementsNoArguments : StatementsNoArguments statements
unfolding StatementsNoArguments
statements-StatementsNoArguments = omega arith

analyze_block-clone_example : analyze_block (clone_statements statements) ≡ analyze_block statements
analyze_block-clone_example = analyze_block-clone statements statements-StatementsNoArguments

abbrev total : Text
total = codes "sum"

-- Block 0 sets n; block 1 counts n down into sum, over and over.
abbrev block_statements : ℕ → Statements
block_statements b =
    if b == 0
    then statement (assignment (cons (named count) nil) (cons (num 9) nil)) no_statements
    else statement
        (assignment (cons (named total) nil)
          (cons (binary_op Operator.add (named total) (named count)) nil))
        no_statements

abbrev looping : Cfg
looping = record { blocks = 0 ∷ 1 ∷ []; successors = λ b. 1 ∷ []; statements = block_statements }

looping-enough :
    length looping.blocks * length (used_names (compute_use_def_sets looping) looping.blocks) < 20
unfolding used_names compute_use_def_sets analyze_block text_eq has_text
looping-enough = omega arith

looping-Covered :
    (b : ℕ) → has_block b looping.blocks ≡ true → CoveredStatements (looping.statements b)
unfolding CoveredStatements
looping-Covered b m = by_block (b == 0)
  where
    by_block :
        (first_one : Bool)
        → CoveredStatements (
            if first_one
            then statement (assignment (cons (named count) nil) (cons (num 9) nil)) no_statements
            else statement
                (assignment
                  (cons (named total) nil)
                  (cons (binary_op Operator.add (named total) (named count)) nil))
                no_statements)
    by_block true = omega arith
    by_block false = omega arith

run_analysis-paths_example :
    (s : Sets) × (run_analysis 20 looping ≡ some s)
    × ((b : ℕ) (v : Text)
        → has_block b looping.blocks ≡ true
        → (has_text v (get_in_set s b) ≡ true) ↔ ReadOnPath looping b v)
run_analysis-paths_example = run_analysis-paths 20 looping looping-Covered looping-enough

-- Doubles that are compared by their patterns only.
abbrev patterns : Doubles
patterns = record {
  of_int = pos_part;
  opposite = λ a. a;
  plus = ◌+◌;
  minus = ◌-◌;
  times = ◌*◌;
  over = λ a b. a;
  equals = ◌==◌;
  below = ltb;
  at_most = leb;
  is_zero = λ a. a == 0;
}

abbrev size : Text
size = codes "SIZE"

abbrev sizes : Dict ℤ
sizes = (size, pos 10) ∷ []

abbrev env : Env
env name = if text_eq size name then pos 10 else pos 4

-- SIZE ~= 3 -> (n + 0) * 1, 7 / 2
abbrev choice : Expression
choice =
    conditional (binary_op Operator.not_equal (named size) (num 3))
      (binary_op Operator.multiply (binary_op Operator.add (named count) (num 0)) (num 1))
      (binary_op Operator.divide (num 7) (num 2))

env-InRange : (name : Text) → InRange (env name)
env-InRange name = ground arith

sizes-Agrees : Agrees env sizes
unfolding lookup
sizes-Agrees name v h = ground arith

choice-Pure : Pure choice
unfolding Pure
choice-Pure = omega arith

choice-Defined : Defined env choice
unfolding Defined eval
choice-Defined = ((tt, tt, (_, refl)), ((tt, tt, (_, refl)), tt, (_, refl)), (tt, tt, (_, refl)))

nothing_known : Agrees env []
unfolding lookup
nothing_known name v h = absurd (cc)

accept-value_example :
    (r : Visited) × (accept patterns sizes choice [] ≡ ok r)
    × (eval env r.1 ≡ eval env choice)
    × Agrees env r.2
accept-value_example =
    accept-value patterns env sizes env-InRange sizes-Agrees choice [] choice-Pure choice-Defined
      nothing_known

-- The folded tree is the variable alone.
accept-choice : accept patterns sizes choice [] ≡ ok (true, named count, [])
unfolding accept text_eq
accept-choice = refl

-- n := 1; WHILE n < 10 DO n := n + 1
abbrev counting : Statements
counting = statement (assignment (cons (named count) nil) (cons (num 1) nil)) (
    statement
      (while_statement (binary_op Operator.less (named count) (num 10)) (
        assignment (cons (named count) nil)
          (cons (binary_op Operator.add (named count) (num 1)) nil)))
      no_statements)

-- The condition is folded with the value before the loop: WHILE TRUE DO n := 2
counting-folded :
    visit_stmts patterns [] counting []
    ≡ ok (
      statement (assignment (cons (named count) nil) (cons (num 1) nil)) (
          statement
            (while_statement
              (number_literal (integer (negsuc 0)))
              (assignment (cons (named count) nil) (cons (num 2) nil)))
            no_statements),
      (count, pos 2) ∷ [],
    )
unfolding accept text_eq
counting-folded = refl
