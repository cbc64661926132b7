-- ===== src/Liveness/Uses/Copies.antt =====
-- Basic blocks hold copies of statements: a copy is analysed as its original is.
use bcpl.Prelude.{◌≡◌, refl, sym, ap, ◌∙◌, ◌++◌}
use bcpl.Ast.{
  Expression, Expressions, Statement, Statements, Case, Cases, null, variable_access, binary_op,
  unary_op, vector_access, char_indirection, float_vector_indirection, function_call, sys_call,
  conditional, valof, vec_allocation, string_allocation, table_expression, nil, cons, assignment,
  free_statement, routine_call, if_statement, unless_statement, test_statement, while_statement,
  until_statement, repeat_statement, for_statement, switchon, finish_statement, resultis, compound,
  block, conditional_branch, no_statements, statement, case_statement, default_statement, no_cases,
  a_case,
}
use bcpl.Ast.Clone.{
  clone_expression, clone_expressions, clone_statement, clone_statements, clone_case, clone_cases,
}
use bcpl.Liveness.Uses.{nothing_seen, analyze_block}
use bcpl.Liveness.Uses.Order.{
  run, trace_target, trace_targets, trace_expression, trace_expressions, trace_statement,
  trace_statements, trace_case, trace_cases, visit_statements-run,
}

-- No FINISH has arguments, as the parser makes none that has; a copy would lose them.
unfoldable mutual
  pub ExpressionNoArguments : Expression → Type 0
  ExpressionNoArguments (binary_op op left right) =
      ExpressionNoArguments left × ExpressionNoArguments right
  ExpressionNoArguments (unary_op op operand) = ExpressionNoArguments operand
  ExpressionNoArguments (vector_access v i) = ExpressionNoArguments v × ExpressionNoArguments i
  ExpressionNoArguments (char_indirection s i) = ExpressionNoArguments s × ExpressionNoArguments i
  ExpressionNoArguments (float_vector_indirection v i) =
      ExpressionNoArguments v × ExpressionNoArguments i
  ExpressionNoArguments (function_call f es) = ExpressionNoArguments f × ExpressionsNoArguments es
  ExpressionNoArguments (sys_call name n es) = ExpressionsNoArguments es
  ExpressionNoArguments (conditional t x y) =
      ExpressionNoArguments t × ExpressionNoArguments x × ExpressionNoArguments y
  ExpressionNoArguments (valof s) = StatementNoArguments s
  ExpressionNoArguments (vec_allocation e name) = ExpressionNoArguments e
  ExpressionNoArguments (string_allocation e) = ExpressionNoArguments e
  ExpressionNoArguments (table_expression es b) = ExpressionsNoArguments es
  ExpressionNoArguments _ = Unit

  pub ExpressionsNoArguments : Expressions → Type 0
  ExpressionsNoArguments (cons e es) = ExpressionNoArguments e × ExpressionsNoArguments es
  ExpressionsNoArguments nil = Unit

  pub StatementNoArguments : Statement → Type 0
  StatementNoArguments (assignment lhs rhs) = ExpressionsNoArguments rhs
  StatementNoArguments (free_statement e) = ExpressionNoArguments e
  StatementNoArguments (routine_call f es) = ExpressionNoArguments f × ExpressionsNoArguments es
  StatementNoArguments (if_statement e s) = ExpressionNoArguments e × StatementNoArguments s
  StatementNoArguments (unless_statement e s) = ExpressionNoArguments e × StatementNoArguments s
  StatementNoArguments (test_statement e s t) =
      ExpressionNoArguments e × StatementNoArguments s × StatementNoArguments t
  StatementNoArguments (while_statement e s) = ExpressionNoArguments e × StatementNoArguments s
  StatementNoArguments (until_statement e s) = ExpressionNoArguments e × StatementNoArguments s
  StatementNoArguments (repeat_statement type s e) = StatementNoArguments s
  StatementNoArguments (for_statement v u w x from to by s) =
      ExpressionNoArguments from
      × ExpressionNoArguments to
      × ExpressionNoArguments by
      × StatementNoArguments s
  StatementNoArguments (switchon e cs d) =
      ExpressionNoArguments e × CasesNoArguments cs × CaseNoArguments d
  StatementNoArguments (finish_statement e es) = (e ≡ null) × (es ≡ nil)
  StatementNoArguments (resultis e) = ExpressionNoArguments e
  StatementNoArguments (compound ss) = StatementsNoArguments ss
  StatementNoArguments (block ds ss) = StatementsNoArguments ss
  StatementNoArguments (conditional_branch condition label e) = ExpressionNoArguments e
  StatementNoArguments _ = Unit

  pub StatementsNoArguments : Statements → Type 0
  StatementsNoArguments (statement s ss) = StatementNoArguments s × StatementsNoArguments ss
  StatementsNoArguments no_statements = Unit

  pub CaseNoArguments : Case → Type 0
  CaseNoArguments (case_statement e s v) = ExpressionNoArguments e × StatementNoArguments s
  CaseNoArguments (default_statement s) = StatementNoArguments s
  CaseNoArguments _ = Unit

  pub CasesNoArguments : Cases → Type 0
  CasesNoArguments (a_case d ds) = CaseNoArguments d × CasesNoArguments ds
  CasesNoArguments no_cases = Unit

trace_target-clone : (e : Expression) → trace_target (clone_expression e) ≡ trace_target e
unfolding clone_expression
trace_target-clone (variable_access name unique_name) = refl
trace_target-clone _ = refl

trace_targets-clone : (es : Expressions) → trace_targets (clone_expressions es) ≡ trace_targets es
unfolding clone_expressions trace_targets
trace_targets-clone nil = refl
trace_targets-clone (cons e es) = λ dim. trace_target-clone e dim ++ trace_targets-clone es dim

mutual
  unfolding clone_expression clone_expressions clone_statement clone_statements clone_case
      clone_cases ExpressionNoArguments ExpressionsNoArguments StatementNoArguments
      StatementsNoArguments CaseNoArguments CasesNoArguments trace_expression trace_expressions
      trace_statement trace_statements trace_case trace_cases

  trace_expression-clone :
      (x : Expression)
      → ExpressionNoArguments x
      → trace_expression (clone_expression x) ≡ trace_expression x
  trace_expression-clone (variable_access name unique_name) h = refl
  trace_expression-clone (binary_op op left right) h =
      λ dim. trace_expression-clone left h.0 dim ++ trace_expression-clone right h.1 dim
  trace_expression-clone (unary_op op operand) h = λ dim. trace_expression-clone operand h dim
  trace_expression-clone (vector_access v i) h =
      λ dim. trace_expression-clone v h.0 dim ++ trace_expression-clone i h.1 dim
  trace_expression-clone (char_indirection s i) h =
      λ dim. trace_expression-clone s h.0 dim ++ trace_expression-clone i h.1 dim
  trace_expression-clone (float_vector_indirection v i) h =
      λ dim. trace_expression-clone v h.0 dim ++ trace_expression-clone i h.1 dim
  trace_expression-clone (function_call f es) h =
      λ dim. trace_expression-clone f h.0 dim ++ trace_expressions-clone es h.1 dim
  trace_expression-clone (sys_call name n es) h = λ dim. trace_expressions-clone es h dim
  trace_expression-clone (conditional t x y) h = λ dim.
      trace_expression-clone t h.0 dim
      ++ (trace_expression-clone x h.1 dim ++ trace_expression-clone y h.2 dim)
  trace_expression-clone (valof s) h = λ dim. trace_statement-clone s h dim
  trace_expression-clone (vec_allocation e name) h = λ dim. trace_expression-clone e h dim
  trace_expression-clone (string_allocation e) h = λ dim. trace_expression-clone e h dim
  trace_expression-clone (table_expression es b) h = λ dim. trace_expressions-clone es h dim
  trace_expression-clone _ h = refl

  trace_expressions-clone :
      (x : Expressions)
      → ExpressionsNoArguments x
      → trace_expressions (clone_expressions x) ≡ trace_expressions x
  trace_expressions-clone nil h = refl
  trace_expressions-clone (cons e es) h =
      λ dim. trace_expression-clone e h.0 dim ++ trace_expressions-clone es h.1 dim

  trace_statement-clone :
      (x : Statement)
      → StatementNoArguments x
      → trace_statement (clone_statement x) ≡ trace_statement x
  trace_statement-clone (assignment lhs rhs) h =
      λ dim. trace_expressions-clone rhs h dim ++ trace_targets-clone lhs dim
  trace_statement-clone (free_statement e) h = λ dim. trace_expression-clone e h dim
  trace_statement-clone (routine_call f es) h =
      λ dim. trace_expression-clone f h.0 dim ++ trace_expressions-clone es h.1 dim
  trace_statement-clone (if_statement e s) h =
      λ dim. trace_expression-clone e h.0 dim ++ trace_statement-clone s h.1 dim
  trace_statement-clone (unless_statement e s) h =
      λ dim. trace_expression-clone e h.0 dim ++ trace_statement-clone s h.1 dim
  trace_statement-clone (test_statement e s t) h = λ dim.
      trace_expression-clone e h.0 dim
      ++ (trace_statement-clone s h.1 dim ++ trace_statement-clone t h.2 dim)
  trace_statement-clone (while_statement e s) h =
      λ dim. trace_expression-clone e h.0 dim ++ trace_statement-clone s h.1 dim
  trace_statement-clone (until_statement e s) h =
      λ dim. trace_expression-clone e h.0 dim ++ trace_statement-clone s h.1 dim
  trace_statement-clone (repeat_statement type s e) h = λ dim. trace_statement-clone s h dim
  trace_statement-clone (for_statement v u w x from to by s) h = λ dim.
      trace_expression-clone from h.0 dim
      ++ (trace_expression-clone to h.1 dim
          ++ (trace_expression-clone by h.2 dim ++ trace_statement-clone s h.3 dim))
  trace_statement-clone (switchon e cs d) h = λ dim.
      trace_expression-clone e h.0 dim
      ++ (trace_cases-clone cs h.1 dim ++ trace_case-clone d h.2 dim)
  trace_statement-clone (finish_statement e es) h =
      λ dim. trace_expression (sym h.0 dim) ++ trace_expressions (sym h.1 dim)
  trace_statement-clone (resultis e) h = λ dim. trace_expression-clone e h dim
  trace_statement-clone (compound ss) h = λ dim. trace_statements-clone ss h dim
  trace_statement-clone (block ds ss) h = λ dim. trace_statements-clone ss h dim
  trace_statement-clone (conditional_branch condition label e) h =
      λ dim. trace_expression-clone e h dim
  trace_statement-clone _ h = refl

  trace_statements-clone :
      (x : Statements)
      → StatementsNoArguments x
      → trace_statements (clone_statements x) ≡ trace_statements x
  trace_statements-clone no_statements h = refl
  trace_statements-clone (statement s ss) h =
      λ dim. trace_statement-clone s h.0 dim ++ trace_statements-clone ss h.1 dim

  trace_case-clone : (x : Case) → CaseNoArguments x → trace_case (clone_case x) ≡ trace_case x
  trace_case-clone (case_statement e s v) h =
      λ dim. trace_expression-clone e h.0 dim ++ trace_statement-clone s h.1 dim
  trace_case-clone (default_statement s) h = λ dim. trace_statement-clone s h dim
  trace_case-clone _ h = refl

  trace_cases-clone : (x : Cases) → CasesNoArguments x → trace_cases (clone_cases x) ≡ trace_cases x
  trace_cases-clone no_cases h = refl
  trace_cases-clone (a_case d ds) h =
      λ dim. trace_case-clone d h.0 dim ++ trace_cases-clone ds h.1 dim

-- The copies of the statements of a block have the same use and def sets as the statements, if no
-- FINISH in them has arguments.
pub analyze_block-clone :
    (statements : Statements)
    → StatementsNoArguments statements
    → analyze_block (clone_statements statements) ≡ analyze_block statements
unfolding analyze_block
analyze_block-clone statements h =
    visit_statements-run (clone_statements statements) nothing_seen
    ∙ ap (λ es. run es nothing_seen) (trace_statements-clone statements h)
    ∙ sym (visit_statements-run statements nothing_seen)
