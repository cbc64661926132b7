-- ===== src/Liveness/Uses/Order.antt =====
-- The use and def sets of a block, by the order in which the visitors see its variables.
use bcpl.Prelude.{
  Bool, true, false, not, ◌&&◌, ◌||◌, ◌≡◌, ◌∙◌, refl, sym, subst, ap, List, [], ◌∷◌, ◌++◌, Text,
  text_eq, text_eq_iff, arith, if◌then◌else◌, Bool-cases, inl, inr,
}
use bcpl.Prelude.TextSets.{has_text}
use bcpl.Ast.{
  Expression, Expressions, Statement, Statements, Case, Cases, variable_access, binary_op, unary_op,
  vector_access, char_indirection, float_vector_indirection, function_call, sys_call, conditional,
  valof, vec_allocation, string_allocation, table_expression, nil, cons, assignment, free_statement,
  routine_call, if_statement, unless_statement, test_statement, while_statement, until_statement,
  repeat_statement, for_statement, switchon, finish_statement, resultis, compound, block,
  conditional_branch, no_statements, statement, case_statement, default_statement, no_cases, a_case,
}
use bcpl.Liveness.Uses.{
  Current, insert_text, use_variable, define_variable, define_target, define_targets,
  visit_expression, visit_expressions, visit_statement, visit_statements, visit_case, visit_cases,
  nothing_seen, analyze_block,
}

-- What happens to a variable.
pub data Event : Type 0 where
  read write : Text → Event

abbrev pub happen : Event → Current → Current
happen (read name) c = use_variable name c
happen (write name) c = define_variable name c

unfoldable pub run : List Event → Current → Current
run [] c = c
run (e ∷ es) c = run es (happen e c)

run-append : (xs ys : List Event) (c : Current) → run (xs ++ ys) c ≡ run ys (run xs c)
unfolding run
run-append [] ys c = refl
run-append (x ∷ xs) ys c = run-append xs ys (happen x c)

then_run :
    (xs ys : List Event) {f g : Current → Current}
    → ((c : Current) → f c ≡ run xs c)
    → ((c : Current) → g c ≡ run ys c)
    → (c : Current) → g (f c) ≡ run (xs ++ ys) c
then_run xs ys {f} {g} p q c = ap g (p c) ∙ q (run xs c) ∙ sym (run-append xs ys c)

abbrev pub trace_target : Expression → List Event
trace_target (variable_access name unique_name) = write name ∷ []
trace_target _ = []

unfoldable pub trace_targets : Expressions → List Event
trace_targets nil = []
trace_targets (cons e es) = trace_target e ++ trace_targets es

-- The reads and the writes of the parts of a block that the visitors see, in the order of its text.
unfoldable mutual
  unfolding trace_targets

  pub trace_expression : Expression → List Event
  trace_expression (variable_access name unique_name) = read name ∷ []
  trace_expression (binary_op op left right) = trace_expression left ++ trace_expression right
  trace_expression (unary_op op operand) = trace_expression operand
  trace_expression (vector_access v i) = trace_expression v ++ trace_expression i
  trace_expression (char_indirection s i) = trace_expression s ++ trace_expression i
  trace_expression (float_vector_indirection v i) = trace_expression v ++ trace_expression i
  trace_expression (function_call f es) = trace_expression f ++ trace_expressions es
  trace_expression (sys_call name n es) = trace_expressions es
  trace_expression (conditional t x y) =
      trace_expression t ++ (trace_expression x ++ trace_expression y)
  trace_expression (valof s) = trace_statement s
  trace_expression (vec_allocation e name) = trace_expression e
  trace_expression (string_allocation e) = trace_expression e
  trace_expression (table_expression es b) = trace_expressions es
  trace_expression _ = []

  pub trace_expressions : Expressions → List Event
  trace_expressions nil = []
  trace_expressions (cons e es) = trace_expression e ++ trace_expressions es

  pub trace_statement : Statement → List Event
  trace_statement (assignment lhs rhs) = trace_expressions rhs ++ trace_targets lhs
  trace_statement (free_statement e) = trace_expression e
  trace_statement (routine_call f es) = trace_expression f ++ trace_expressions es
  trace_statement (if_statement e s) = trace_expression e ++ trace_statement s
  trace_statement (unless_statement e s) = trace_expression e ++ trace_statement s
  trace_statement (test_statement e s t) =
      trace_expression e ++ (trace_statement s ++ trace_statement t)
  trace_statement (while_statement e s) = trace_expression e ++ trace_statement s
  trace_statement (until_statement e s) = trace_expression e ++ trace_statement s
  trace_statement (repeat_statement type s e) = trace_statement s
  trace_statement (for_statement v u w x from to by s) =
      trace_expression from ++ (trace_expression to ++ (trace_expression by ++ trace_statement s))
  trace_statement (switchon e cs d) = trace_expression e ++ (trace_cases cs ++ trace_case d)
  trace_statement (finish_statement e es) = trace_expression e ++ trace_expressions es
  trace_statement (resultis e) = trace_expression e
  trace_statement (compound ss) = trace_statements ss
  trace_statement (block ds ss) = trace_statements ss
  trace_statement (conditional_branch condition label e) = trace_expression e
  trace_statement _ = []

  pub trace_statements : Statements → List Event
  trace_statements no_statements = []
  trace_statements (statement s ss) = trace_statement s ++ trace_statements ss

  pub trace_case : Case → List Event
  trace_case (case_statement e s v) = trace_expression e ++ trace_statement s
  trace_case (default_statement s) = trace_statement s
  trace_case _ = []

  pub trace_cases : Cases → List Event
  trace_cases no_cases = []
  trace_cases (a_case d ds) = trace_case d ++ trace_cases ds

define_target-run : (e : Expression) (c : Current) → define_target e c ≡ run (trace_target e) c
unfolding run
define_target-run (variable_access name unique_name) c = refl
define_target-run _ c = refl

define_targets-run :
    (es : Expressions) (c : Current) → define_targets es c ≡ run (trace_targets es) c
unfolding define_targets trace_targets run
define_targets-run nil c = refl
define_targets-run (cons e es) c =
    then_run (trace_target e) (trace_targets es) (define_target-run e) (define_targets-run es) c

mutual
  unfolding visit_expression trace_expression visit_statement trace_statement visit_expressions
      trace_expressions visit_statements trace_statements visit_case trace_case visit_cases
      trace_cases run

  visit_expression-run :
      (x : Expression) (c : Current) → visit_expression x c ≡ run (trace_expression x) c
  visit_expression-run (variable_access name unique_name) c = refl
  visit_expression-run (binary_op op left right) c =
      (then_run (trace_expression left) (trace_expression right) (visit_expression-run left)
          (visit_expression-run right))
        c
  visit_expression-run (unary_op op operand) c = visit_expression-run operand c
  visit_expression-run (vector_access v i) c =
      (then_run (trace_expression v) (trace_expression i) (visit_expression-run v)
          (visit_expression-run i))
        c
  visit_expression-run (char_indirection s i) c =
      (then_run (trace_expression s) (trace_expression i) (visit_expression-run s)
          (visit_expression-run i))
        c
  visit_expression-run (float_vector_indirection v i) c =
      (then_run (trace_expression v) (trace_expression i) (visit_expression-run v)
          (visit_expression-run i))
        c
  visit_expression-run (function_call f es) c =
      (then_run (trace_expression f) (trace_expressions es) (visit_expression-run f)
          (visit_expressions-run es))
        c
  visit_expression-run (sys_call name n es) c = visit_expressions-run es c
  visit_expression-run (conditional t x y) c =
      (then_run (trace_expression t) (trace_expression x ++ trace_expression y)
          (visit_expression-run t)
          (then_run (trace_expression x) (trace_expression y) (visit_expression-run x)
            (visit_expression-run y)))
        c
  visit_expression-run (valof s) c = visit_statement-run s c
  visit_expression-run (vec_allocation e name) c = visit_expression-run e c
  visit_expression-run (string_allocation e) c = visit_expression-run e c
  visit_expression-run (table_expression es b) c = visit_expressions-run es c
  visit_expression-run _ c = refl

  visit_expressions-run :
      (x : Expressions) (c : Current) → visit_expressions x c ≡ run (trace_expressions x) c
  visit_expressions-run nil c = refl
  visit_expressions-run (cons e es) c =
      then_run (trace_expression e) (trace_expressions es) (visit_expression-run e)
        (visit_expressions-run es) c

  visit_statement-run :
      (x : Statement) (c : Current) → visit_statement x c ≡ run (trace_statement x) c
  visit_statement-run (assignment lhs rhs) c =
      (then_run (trace_expressions rhs) (trace_targets lhs) (visit_expressions-run rhs)
          (define_targets-run lhs))
        c
  visit_statement-run (free_statement e) c = visit_expression-run e c
  visit_statement-run (routine_call f es) c =
      (then_run (trace_expression f) (trace_expressions es) (visit_expression-run f)
          (visit_expressions-run es))
        c
  visit_statement-run (if_statement e s) c =
      (then_run (trace_expression e) (trace_statement s) (visit_expression-run e)
          (visit_statement-run s))
        c
  visit_statement-run (unless_statement e s) c =
      (then_run (trace_expression e) (trace_statement s) (visit_expression-run e)
          (visit_statement-run s))
        c
  visit_statement-run (test_statement e s t) c =
      (then_run (trace_expression e) (trace_statement s ++ trace_statement t)
          (visit_expression-run e)
          (then_run (trace_statement s) (trace_statement t) (visit_statement-run s)
            (visit_statement-run t)))
        c
  visit_statement-run (while_statement e s) c =
      (then_run (trace_expression e) (trace_statement s) (visit_expression-run e)
          (visit_statement-run s))
        c
  visit_statement-run (until_statement e s) c =
      (then_run (trace_expression e) (trace_statement s) (visit_expression-run e)
          (visit_statement-run s))
        c
  visit_statement-run (repeat_statement type s e) c = visit_statement-run s c
  visit_statement-run (for_statement v u w x from to by s) c =
      (then_run (trace_expression from)
          (trace_expression to ++ (trace_expression by ++ trace_statement s))
          (visit_expression-run from)
          (then_run (trace_expression to) (trace_expression by ++ trace_statement s)
            (visit_expression-run to)
            (then_run (trace_expression by) (trace_statement s) (visit_expression-run by)
              (visit_statement-run s))))
        c
  visit_statement-run (switchon e cs d) c =
      (then_run (trace_expression e) (trace_cases cs ++ trace_case d) (visit_expression-run e)
          (then_run (trace_cases cs) (trace_case d) (visit_cases-run cs) (visit_case-run d)))
        c
  visit_statement-run (finish_statement e es) c =
      (then_run (trace_expression e) (trace_expressions es) (visit_expression-run e)
          (visit_expressions-run es))
        c
  visit_statement-run (resultis e) c = visit_expression-run e c
  visit_statement-run (compound ss) c = visit_statements-run ss c
  visit_statement-run (block ds ss) c = visit_statements-run ss c
  visit_statement-run (conditional_branch condition label e) c = visit_expression-run e c
  visit_statement-run _ c = refl

  pub visit_statements-run :
      (x : Statements) (c : Current) → visit_statements x c ≡ run (trace_statements x) c
  visit_statements-run no_statements c = refl
  visit_statements-run (statement s ss) c =
      then_run (trace_statement s) (trace_statements ss) (visit_statement-run s)
        (visit_statements-run ss) c

  visit_case-run : (x : Case) (c : Current) → visit_case x c ≡ run (trace_case x) c
  visit_case-run (case_statement e s v) c =
      (then_run (trace_expression e) (trace_statement s) (visit_expression-run e)
          (visit_statement-run s))
        c
  visit_case-run (default_statement s) c = visit_statement-run s c
  visit_case-run _ c = refl

  visit_cases-run : (x : Cases) (c : Current) → visit_cases x c ≡ run (trace_cases x) c
  visit_cases-run no_cases c = refl
  visit_cases-run (a_case d ds) c =
      then_run (trace_case d) (trace_cases ds) (visit_case-run d) (visit_cases-run ds) c

-- Whether the variable is read with no write before it, and whether it is written at all.
abbrev pub reads_first : Text → List Event → Bool
reads_first v [] = false
reads_first v (read name ∷ es) = if text_eq name v then true else reads_first v es
reads_first v (write name ∷ es) = if text_eq name v then false else reads_first v es

abbrev pub writes : Text → List Event → Bool
writes v [] = false
writes v (read name ∷ es) = writes v es
writes v (write name ∷ es) = if text_eq name v then true else writes v es

has_text-insert_text :
    (v t : Text) (s : List Text)
    → has_text v (insert_text t s) ≡ (if text_eq t v then true else has_text v s)
unfolding has_text
has_text-insert_text v t s = elim (Bool-cases (has_text t s)) [
  | inl old ↦ rw old (elim (Bool-cases (text_eq t v)) [
    | inl e ↦ rw e (subst (λ (u : Text). has_text u s ≡ true) ((text_eq_iff t v).0 e) old)
    | inr ne ↦ rw ne refl
  ])
  | inr new ↦ rw new refl
]

run-def_set :
    (v : Text) (es : List Event) (c : Current)
    → has_text v (run es c).def_set ≡ (has_text v c.def_set || writes v es)
unfolding run define_variable use_variable
run-def_set v [] c = ground arith
run-def_set v (read name ∷ es) c = run-def_set v es (use_variable name c) ∙ ground arith
run-def_set v (write name ∷ es) c =
    run-def_set v es (define_variable name c)
    ∙ ground (arith, has_text-insert_text v name c.def_set)

run-use_set :
    (v : Text) (es : List Event) (c : Current)
    → has_text v (run es c).use_set
      ≡ (has_text v c.use_set || (not (has_text v c.def_set) && reads_first v es))
unfolding run define_variable use_variable
run-use_set v [] c = ground arith
run-use_set v (read name ∷ es) c =
    run-use_set v es (use_variable name c)
    ∙ ground (arith, has_text-insert_text v name c.use_set, text_eq_iff name v)
run-use_set v (write name ∷ es) c =
    run-use_set v es (define_variable name c)
    ∙ ground (arith, has_text-insert_text v name c.def_set)

-- A variable is in the use set exactly when the parts that the visitors see read it before they write
-- it, and in the def set exactly when these parts write it.
pub analyze_block-trace :
    (statements : Statements) (v : Text)
    → (has_text v (analyze_block statements).use_set ≡ reads_first v (trace_statements statements))
      × (has_text v (analyze_block statements).def_set ≡ writes v (trace_statements statements))
unfolding analyze_block has_text
analyze_block-trace statements v =
    let e = visit_statements-run statements nothing_seen in
    (
      ap (λ (c : Current). has_text v c.use_set) e
          ∙ run-use_set v (trace_statements statements) nothing_seen,
      ap (λ (c : Current). has_text v c.def_set) e
          ∙ run-def_set v (trace_statements statements) nothing_seen,
    )
