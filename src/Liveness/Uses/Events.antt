-- ===== src/Liveness/Uses/Events.antt =====
-- The reads and the writes of all parts of a block, those included that the visitors pass over, and
-- where the visitors pass over none.
use bcpl.Prelude.{◌≡◌, ◌∙◌, refl, sym, subst, ap, List, [], ◌∷◌, ◌++◌, Text}
use bcpl.Prelude.TextSets.{has_text}
use bcpl.Ast.{
  Expression, Expressions, Statement, Statements, Case, Cases, Declaration, Declarations,
  list_expression, vec_initializer, variable_access, binary_op, unary_op, vector_access,
  char_indirection, float_vector_indirection, bitfield_access, function_call, sys_call, conditional,
  valof, float_valof, vec_allocation, string_allocation, fvec_allocation, table_expression, nil,
  cons, let_declaration, for_each, assignment, free_statement, routine_call, if_statement,
  unless_statement, test_statement, while_statement, until_statement, repeat_statement,
  for_statement, switchon, goto_statement, finish_statement, resultis, compound, block,
  string_statement, conditional_branch, no_statements, statement, case_statement, default_statement,
  no_cases, a_case, static_declaration, global_variable, label_declaration, no_declarations,
  declaration,
}
use bcpl.Liveness.Uses.{analyze_block}
use bcpl.Liveness.Uses.Order.{
  Event, read, write, trace_targets, trace_expression, trace_expressions, trace_statement,
  trace_statements, trace_case, trace_cases, reads_first, writes, analyze_block-trace,
}

unfoldable pub all_written : List Text → List Event
all_written [] = []
all_written (name ∷ names) = write name ∷ all_written names

-- The operands of a target that is no variable are read.
unfoldable mutual
  unfolding all_written

  pub events_expression : Expression → List Event
  events_expression (list_expression es b) = events_expressions es
  events_expression (vec_initializer es) = events_expressions es
  events_expression (variable_access name unique_name) = read name ∷ []
  events_expression (binary_op op left right) = events_expression left ++ events_expression right
  events_expression (unary_op op operand) = events_expression operand
  events_expression (vector_access v i) = events_expression v ++ events_expression i
  events_expression (char_indirection s i) = events_expression s ++ events_expression i
  events_expression (float_vector_indirection v i) = events_expression v ++ events_expression i
  events_expression (bitfield_access base start width) =
      events_expression base ++ (events_expression start ++ events_expression width)
  events_expression (function_call f es) = events_expression f ++ events_expressions es
  events_expression (sys_call name n es) = events_expression n ++ events_expressions es
  events_expression (conditional t x y) =
      events_expression t ++ (events_expression x ++ events_expression y)
  events_expression (valof s) = events_statement s
  events_expression (float_valof s) = events_statement s
  events_expression (vec_allocation e name) = events_expression e
  events_expression (string_allocation e) = events_expression e
  events_expression (fvec_allocation e name) = events_expression e
  events_expression (table_expression es b) = events_expressions es
  events_expression _ = []

  pub events_expressions : Expressions → List Event
  events_expressions nil = []
  events_expressions (cons e es) = events_expression e ++ events_expressions es

  pub events_statement : Statement → List Event
  events_statement (let_declaration names es is_float) = events_expressions es ++ all_written names
  events_statement (for_each v type_variable e s filter_type inferred_type) =
      events_expression e ++ (all_written (v ∷ type_variable ∷ []) ++ events_statement s)
  events_statement (assignment lhs rhs) = events_expressions rhs ++ events_targets lhs
  events_statement (free_statement e) = events_expression e
  events_statement (routine_call f es) = events_expression f ++ events_expressions es
  events_statement (if_statement e s) = events_expression e ++ events_statement s
  events_statement (unless_statement e s) = events_expression e ++ events_statement s
  events_statement (test_statement e s t) =
      events_expression e ++ (events_statement s ++ events_statement t)
  events_statement (while_statement e s) = events_expression e ++ events_statement s
  events_statement (until_statement e s) = events_expression e ++ events_statement s
  events_statement (repeat_statement type s e) = events_statement s ++ events_expression e
  events_statement (for_statement v u w x from to by s) =
      all_written (v ∷ [])
      ++ (events_expression from
          ++ (events_expression to ++ (events_expression by ++ events_statement s)))
  events_statement (switchon e cs d) = events_expression e ++ (events_cases cs ++ events_case d)
  events_statement (goto_statement e) = events_expression e
  events_statement (finish_statement e es) = events_expression e ++ events_expressions es
  events_statement (resultis e) = events_expression e
  events_statement (compound ss) = events_statements ss
  events_statement (block ds ss) = events_declarations ds ++ events_statements ss
  events_statement (string_statement e) = events_expression e
  events_statement (conditional_branch condition label e) = events_expression e
  events_statement _ = []

  pub events_statements : Statements → List Event
  events_statements no_statements = []
  events_statements (statement s ss) = events_statement s ++ events_statements ss

  pub events_case : Case → List Event
  events_case (case_statement e s v) = events_expression e ++ events_statement s
  events_case (default_statement s) = events_statement s
  events_case _ = []

  pub events_cases : Cases → List Event
  events_cases no_cases = []
  events_cases (a_case d ds) = events_case d ++ events_cases ds

  pub events_targets : Expressions → List Event
  events_targets nil = []
  events_targets (cons (variable_access name unique_name) es) = write name ∷ events_targets es
  events_targets (cons e es) = events_expression e ++ events_targets es

  -- A function that is declared does not run there.
  pub events_declaration : Declaration → List Event
  events_declaration (static_declaration name e is_float) =
      events_expression e ++ all_written (name ∷ [])
  events_declaration (global_variable names es is_float) =
      events_expressions es ++ all_written names
  events_declaration (label_declaration name s) = events_statement s
  events_declaration _ = []

  pub events_declarations : Declarations → List Event
  events_declarations no_declarations = []
  events_declarations (declaration d ds) = events_declaration d ++ events_declarations ds

-- In the parts that the visitors pass over nothing is read or written: the condition of REPEAT, the
-- operands of a target that is no variable, LET and the other declarations of a block, FOREACH, the
-- variable of FOR, GOTO, FVALOF, bit fields, the lists of initializers, the size of FVEC, the number
-- of SYS, and a text as a statement.
unfoldable mutual
  unfolding events_expression

  pub CoveredExpression : Expression → Type 0
  CoveredExpression (list_expression es b) = (events_expressions es ≡ [])
  CoveredExpression (vec_initializer es) = (events_expressions es ≡ [])
  CoveredExpression (binary_op op left right) = CoveredExpression left × CoveredExpression right
  CoveredExpression (unary_op op operand) = CoveredExpression operand
  CoveredExpression (vector_access v i) = CoveredExpression v × CoveredExpression i
  CoveredExpression (char_indirection s i) = CoveredExpression s × CoveredExpression i
  CoveredExpression (float_vector_indirection v i) = CoveredExpression v × CoveredExpression i
  CoveredExpression (bitfield_access base start width) =
      (events_expression base ≡ [])
      × (events_expression start ≡ [])
      × (events_expression width ≡ [])
  CoveredExpression (function_call f es) = CoveredExpression f × CoveredExpressions es
  CoveredExpression (sys_call name n es) = (events_expression n ≡ []) × CoveredExpressions es
  CoveredExpression (conditional t x y) =
      CoveredExpression t × CoveredExpression x × CoveredExpression y
  CoveredExpression (valof s) = CoveredStatement s
  CoveredExpression (float_valof s) = (events_statement s ≡ [])
  CoveredExpression (vec_allocation e name) = CoveredExpression e
  CoveredExpression (string_allocation e) = CoveredExpression e
  CoveredExpression (fvec_allocation e name) = (events_expression e ≡ [])
  CoveredExpression (table_expression es b) = CoveredExpressions es
  CoveredExpression _ = Unit

  pub CoveredExpressions : Expressions → Type 0
  CoveredExpressions nil = Unit
  CoveredExpressions (cons e es) = CoveredExpression e × CoveredExpressions es

  pub CoveredStatement : Statement → Type 0
  CoveredStatement (let_declaration names es is_float) =
      (events_expressions es ≡ []) × (all_written names ≡ [])
  CoveredStatement (for_each v type_variable e s filter_type inferred_type) =
      (events_expression e ≡ [])
      × (all_written (v ∷ type_variable ∷ []) ≡ [])
      × (events_statement s ≡ [])
  CoveredStatement (assignment lhs rhs) = CoveredExpressions rhs × CoveredTargets lhs
  CoveredStatement (free_statement e) = CoveredExpression e
  CoveredStatement (routine_call f es) = CoveredExpression f × CoveredExpressions es
  CoveredStatement (if_statement e s) = CoveredExpression e × CoveredStatement s
  CoveredStatement (unless_statement e s) = CoveredExpression e × CoveredStatement s
  CoveredStatement (test_statement e s t) =
      CoveredExpression e × CoveredStatement s × CoveredStatement t
  CoveredStatement (while_statement e s) = CoveredExpression e × CoveredStatement s
  CoveredStatement (until_statement e s) = CoveredExpression e × CoveredStatement s
  CoveredStatement (repeat_statement type s e) = CoveredStatement s × (events_expression e ≡ [])
  CoveredStatement (for_statement v u w x from to by s) =
      (all_written (v ∷ []) ≡ [])
      × CoveredExpression from
      × CoveredExpression to
      × CoveredExpression by
      × CoveredStatement s
  CoveredStatement (switchon e cs d) = CoveredExpression e × CoveredCases cs × CoveredCase d
  CoveredStatement (goto_statement e) = (events_expression e ≡ [])
  CoveredStatement (finish_statement e es) = CoveredExpression e × CoveredExpressions es
  CoveredStatement (resultis e) = CoveredExpression e
  CoveredStatement (compound ss) = CoveredStatements ss
  CoveredStatement (block ds ss) = (events_declarations ds ≡ []) × CoveredStatements ss
  CoveredStatement (string_statement e) = (events_expression e ≡ [])
  CoveredStatement (conditional_branch condition label e) = CoveredExpression e
  CoveredStatement _ = Unit

  pub CoveredStatements : Statements → Type 0
  CoveredStatements no_statements = Unit
  CoveredStatements (statement s ss) = CoveredStatement s × CoveredStatements ss

  pub CoveredCase : Case → Type 0
  CoveredCase (case_statement e s v) = CoveredExpression e × CoveredStatement s
  CoveredCase (default_statement s) = CoveredStatement s
  CoveredCase _ = Unit

  pub CoveredCases : Cases → Type 0
  CoveredCases no_cases = Unit
  CoveredCases (a_case d ds) = CoveredCase d × CoveredCases ds

  pub CoveredTargets : Expressions → Type 0
  CoveredTargets nil = Unit
  CoveredTargets (cons (variable_access name unique_name) es) = CoveredTargets es
  CoveredTargets (cons e es) = (events_expression e ≡ []) × CoveredTargets es

both : {xs xs' ys ys' : List Event} → xs ≡ xs' → ys ≡ ys' → xs ++ ys ≡ xs' ++ ys'
both p q = λ i. p i ++ q i

append-nil : (xs : List Event) → xs ++ [] ≡ xs
append-nil [] = refl
append-nil (x ∷ xs) = ap (λ (t : List Event). x ∷ t) (append-nil xs)

empty_behind : {xs xs' ys : List Event} → xs ≡ xs' → ys ≡ [] → xs ++ ys ≡ xs'
empty_behind {xs' = xs'} p q = both p q ∙ append-nil xs'

mutual
  unfolding events_expression CoveredExpression trace_expression trace_targets

  expression-trace :
      (x : Expression) → CoveredExpression x → events_expression x ≡ trace_expression x
  expression-trace (list_expression es b) h0 = h0
  expression-trace (vec_initializer es) h0 = h0
  expression-trace (variable_access name unique_name) h = refl
  expression-trace (binary_op op left right) (h0, h1) =
      both (expression-trace left h0) (expression-trace right h1)
  expression-trace (unary_op op operand) h0 = expression-trace operand h0
  expression-trace (vector_access v i) (h0, h1) =
      both (expression-trace v h0) (expression-trace i h1)
  expression-trace (char_indirection s i) (h0, h1) =
      both (expression-trace s h0) (expression-trace i h1)
  expression-trace (float_vector_indirection v i) (h0, h1) =
      both (expression-trace v h0) (expression-trace i h1)
  expression-trace (bitfield_access base start width) (h0, h1, h2) = both h0 (both h1 h2)
  expression-trace (function_call f es) (h0, h1) =
      both (expression-trace f h0) (expressions-trace es h1)
  expression-trace (sys_call name n es) (h0, h1) = both h0 (expressions-trace es h1)
  expression-trace (conditional t x y) (h0, h1, h2) =
      both (expression-trace t h0) (both (expression-trace x h1) (expression-trace y h2))
  expression-trace (valof s) h0 = statement-trace s h0
  expression-trace (float_valof s) h0 = h0
  expression-trace (vec_allocation e name) h0 = expression-trace e h0
  expression-trace (string_allocation e) h0 = expression-trace e h0
  expression-trace (fvec_allocation e name) h0 = h0
  expression-trace (table_expression es b) h0 = expressions-trace es h0
  expression-trace _ h = refl

  expressions-trace :
      (x : Expressions) → CoveredExpressions x → events_expressions x ≡ trace_expressions x
  expressions-trace nil h = refl
  expressions-trace (cons e es) (h0, h1) = both (expression-trace e h0) (expressions-trace es h1)

  statement-trace : (x : Statement) → CoveredStatement x → events_statement x ≡ trace_statement x
  statement-trace (let_declaration names es is_float) (h0, h1) = both h0 h1
  statement-trace (for_each v type_variable e s filter_type inferred_type) (h0, h1, h2) =
      both h0 (both h1 h2)
  statement-trace (assignment lhs rhs) (h0, h1) =
      both (expressions-trace rhs h0) (targets-trace lhs h1)
  statement-trace (free_statement e) h0 = expression-trace e h0
  statement-trace (routine_call f es) (h0, h1) =
      both (expression-trace f h0) (expressions-trace es h1)
  statement-trace (if_statement e s) (h0, h1) = both (expression-trace e h0) (statement-trace s h1)
  statement-trace (unless_statement e s) (h0, h1) =
      both (expression-trace e h0) (statement-trace s h1)
  statement-trace (test_statement e s t) (h0, h1, h2) =
      both (expression-trace e h0) (both (statement-trace s h1) (statement-trace t h2))
  statement-trace (while_statement e s) (h0, h1) =
      both (expression-trace e h0) (statement-trace s h1)
  statement-trace (until_statement e s) (h0, h1) =
      both (expression-trace e h0) (statement-trace s h1)
  statement-trace (repeat_statement type s e) (h0, h1) = empty_behind (statement-trace s h0) h1
  statement-trace (for_statement v u w x from to by s) (h0, h1, h2, h3, h4) = both h0 (
      both (expression-trace from h1)
        (both (expression-trace to h2) (both (expression-trace by h3) (statement-trace s h4))))
  statement-trace (switchon e cs d) (h0, h1, h2) =
      both (expression-trace e h0) (both (cases-trace cs h1) (case-trace d h2))
  statement-trace (goto_statement e) h0 = h0
  statement-trace (finish_statement e es) (h0, h1) =
      both (expression-trace e h0) (expressions-trace es h1)
  statement-trace (resultis e) h0 = expression-trace e h0
  statement-trace (compound ss) h0 = statements-trace ss h0
  statement-trace (block ds ss) (h0, h1) = both h0 (statements-trace ss h1)
  statement-trace (string_statement e) h0 = h0
  statement-trace (conditional_branch condition label e) h0 = expression-trace e h0
  statement-trace _ h = refl

  pub statements-trace :
      (x : Statements) → CoveredStatements x → events_statements x ≡ trace_statements x
  statements-trace no_statements h = refl
  statements-trace (statement s ss) (h0, h1) = both (statement-trace s h0) (statements-trace ss h1)

  case-trace : (x : Case) → CoveredCase x → events_case x ≡ trace_case x
  case-trace (case_statement e s v) (h0, h1) = both (expression-trace e h0) (statement-trace s h1)
  case-trace (default_statement s) h0 = statement-trace s h0
  case-trace _ h = refl

  cases-trace : (x : Cases) → CoveredCases x → events_cases x ≡ trace_cases x
  cases-trace no_cases h = refl
  cases-trace (a_case d ds) (h0, h1) = both (case-trace d h0) (cases-trace ds h1)

  targets-trace : (x : Expressions) → CoveredTargets x → events_targets x ≡ trace_targets x
  targets-trace nil h = refl
  targets-trace (cons (variable_access name unique_name) es) h =
      ap (λ (t : List Event). write name ∷ t) (targets-trace es h)
  targets-trace (cons e es) (h0, h1) = both h0 (targets-trace es h1)

-- Where the parts that the visitors pass over read and write nothing, a variable is in the use set of
-- a block exactly when some part of the block reads it and none before in the order of the text writes
-- it, and in the def set exactly when some part writes it.
pub analyze_block-order :
    (statements : Statements) (v : Text)
    → CoveredStatements statements
    → (has_text v (analyze_block statements).use_set ≡ reads_first v (events_statements statements))
      × (has_text v (analyze_block statements).def_set ≡ writes v (events_statements statements))
analyze_block-order statements v h =
    subst
      (λ (es : List Event).
        (has_text v (analyze_block statements).use_set ≡ reads_first v es)
        × (has_text v (analyze_block statements).def_set ≡ writes v es))
      (sym (statements-trace statements h)) (analyze_block-trace statements v)
