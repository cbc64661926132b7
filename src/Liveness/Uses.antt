-- ===== src/Liveness/Uses.antt =====
-- The visitors of LivenessAnalysisPass.cpp, and live_analyze_block.cpp: which variables a basic block
-- uses before it defines them, and which it defines. Of the classes that have no visitor of their own
-- nothing is visited.
pub mod Order
pub mod Events
pub mod Copies
pub mod Programs
use bcpl.Prelude.{Bool, List, [], ◌∷◌, Text, if◌then◌else◌}
use bcpl.Prelude.TextSets.{has_text}
use bcpl.Ast.{
  Expression, Expressions, Statement, Statements, Case, Cases, null, list_expression,
  vec_initializer, number_literal, string_literal, char_literal, boolean_literal, variable_access,
  binary_op, unary_op, vector_access, char_indirection, float_vector_indirection, bitfield_access,
  function_call, sys_call, conditional, valof, float_valof, vec_allocation, string_allocation,
  fvec_allocation, table_expression, nil, cons, null_statement, let_declaration, for_each,
  assignment, free_statement, routine_call, if_statement, unless_statement, test_statement,
  while_statement, until_statement, repeat_statement, for_statement, switchon, goto_statement,
  return_statement, finish_statement, break_statement, brk_statement, loop_statement,
  endcase_statement, resultis, compound, block, string_statement, label_target, conditional_branch,
  no_statements, statement, null_case, case_statement, default_statement, no_cases, a_case,
}

-- `current_use_set_` and `current_def_set_`.
pub record Current : Type 0 where
  pub use_set : List Text
  pub def_set : List Text

abbrev pub insert_text : Text → List Text → List Text
insert_text t s = if has_text t s then s else t ∷ s

unfoldable pub use_variable : Text → Current → Current
use_variable name c =
    if has_text name c.def_set then c else record c { use_set = insert_text name c.use_set }

unfoldable pub define_variable : Text → Current → Current
define_variable name c = record c { def_set = insert_text name c.def_set }

-- Of the left-hand sides only variables are looked at.
abbrev pub define_target : Expression → Current → Current
define_target (variable_access name unique_name) c = define_variable name c
define_target _ c = c

unfoldable pub define_targets : Expressions → Current → Current
unfolding define_variable
define_targets nil c = c
define_targets (cons e es) c = define_targets es (define_target e c)

unfoldable mutual
  unfolding use_variable define_targets

  pub visit_expression : Expression → Current → Current
  visit_expression (variable_access name unique_name) c = use_variable name c
  visit_expression (binary_op op left right) c = visit_expression right (visit_expression left c)
  visit_expression (unary_op op operand) c = visit_expression operand c
  visit_expression (vector_access v i) c = visit_expression i (visit_expression v c)
  visit_expression (char_indirection s i) c = visit_expression i (visit_expression s c)
  visit_expression (float_vector_indirection v i) c = visit_expression i (visit_expression v c)
  visit_expression (function_call f es) c = visit_expressions es (visit_expression f c)
  visit_expression (sys_call name n es) c = visit_expressions es c
  visit_expression (conditional t x y) c =
      visit_expression y (visit_expression x (visit_expression t c))
  visit_expression (valof s) c = visit_statement s c
  visit_expression (vec_allocation e name) c = visit_expression e c
  visit_expression (string_allocation e) c = visit_expression e c
  visit_expression (table_expression es b) c = visit_expressions es c
  visit_expression null c = c
  visit_expression (list_expression es b) c = c
  visit_expression (vec_initializer es) c = c
  visit_expression (number_literal n) c = c
  visit_expression (string_literal s) c = c
  visit_expression (char_literal k) c = c
  visit_expression (boolean_literal b) c = c
  visit_expression (bitfield_access b s w) c = c
  visit_expression (float_valof s) c = c
  visit_expression (fvec_allocation e name) c = c

  pub visit_expressions : Expressions → Current → Current
  visit_expressions nil c = c
  visit_expressions (cons e es) c = visit_expressions es (visit_expression e c)

  pub visit_statement : Statement → Current → Current
  visit_statement (assignment lhs rhs) c = define_targets lhs (visit_expressions rhs c)
  visit_statement (free_statement e) c = visit_expression e c
  visit_statement (routine_call f es) c = visit_expressions es (visit_expression f c)
  visit_statement (if_statement e s) c = visit_statement s (visit_expression e c)
  visit_statement (unless_statement e s) c = visit_statement s (visit_expression e c)
  visit_statement (test_statement e s t) c =
      visit_statement t (visit_statement s (visit_expression e c))
  visit_statement (while_statement e s) c = visit_statement s (visit_expression e c)
  visit_statement (until_statement e s) c = visit_statement s (visit_expression e c)
  visit_statement (repeat_statement type s e) c = visit_statement s c
  visit_statement (for_statement v u w x from to by s) c =
      visit_statement s (visit_expression by (visit_expression to (visit_expression from c)))
  visit_statement (switchon e cs d) c = visit_case d (visit_cases cs (visit_expression e c))
  visit_statement (finish_statement e es) c = visit_expressions es (visit_expression e c)
  visit_statement (resultis e) c = visit_expression e c
  visit_statement (compound ss) c = visit_statements ss c
  visit_statement (block ds ss) c = visit_statements ss c
  visit_statement (conditional_branch condition label e) c = visit_expression e c
  visit_statement null_statement c = c
  visit_statement (let_declaration names es is_float) c = c
  visit_statement (for_each v t e s filter_type inferred_type) c = c
  visit_statement (goto_statement e) c = c
  visit_statement return_statement c = c
  visit_statement break_statement c = c
  visit_statement brk_statement c = c
  visit_statement loop_statement c = c
  visit_statement endcase_statement c = c
  visit_statement (string_statement e) c = c
  visit_statement (label_target name) c = c

  pub visit_statements : Statements → Current → Current
  visit_statements no_statements c = c
  visit_statements (statement s ss) c = visit_statements ss (visit_statement s c)

  pub visit_case : Case → Current → Current
  visit_case null_case c = c
  visit_case (case_statement e s v) c = visit_statement s (visit_expression e c)
  visit_case (default_statement s) c = visit_statement s c

  pub visit_cases : Cases → Current → Current
  visit_cases no_cases c = c
  visit_cases (a_case d ds) c = visit_cases ds (visit_case d c)

abbrev pub nothing_seen : Current
nothing_seen = record { use_set = []; def_set = [] }

-- The statements of the block, from two empty sets.
unfoldable pub analyze_block : Statements → Current
unfolding visit_statements
analyze_block statements = visit_statements statements nothing_seen
