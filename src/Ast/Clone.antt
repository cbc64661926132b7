-- ===== src/Ast/Clone.antt =====
-- clone of AST_Cloner.cpp and AST.cpp, by which basic blocks get their statements.
pub mod Plain
use bcpl.Prelude.{Option, [], false}
use bcpl.Ast.{
  Expression, Expressions, Statement, Statements, Case, Cases, Declaration, Declarations, Program,
  null, list_expression, vec_initializer, number_literal, string_literal, char_literal,
  boolean_literal, variable_access, binary_op, unary_op, vector_access, char_indirection,
  float_vector_indirection, bitfield_access, function_call, sys_call, conditional, valof,
  float_valof, vec_allocation, string_allocation, fvec_allocation, table_expression, nil, cons,
  null_statement, let_declaration, for_each, assignment, free_statement, routine_call, if_statement,
  unless_statement, test_statement, while_statement, until_statement, repeat_statement,
  for_statement, switchon, goto_statement, return_statement, finish_statement, break_statement,
  brk_statement, loop_statement, endcase_statement, resultis, compound, block, string_statement,
  label_target, conditional_branch, no_statements, statement, null_case, case_statement,
  default_statement, no_cases, a_case, null_declaration, manifest_declaration, static_declaration,
  global_declaration, global_variable, function_declaration, routine_declaration, label_declaration,
  no_declarations, declaration,
}
use bcpl.CallFrameManager.{var_type_unknown}

-- The constructors of the source set what the copy is not given: the second name of a variable, the
-- name of an allocated vector, the mark of FLET, the type of an element, the arguments of FINISH and
-- the declarations of a block.
unfoldable mutual
  pub clone_expression : Expression → Expression
  clone_expression null = null
  clone_expression (list_expression es b) = list_expression (clone_expressions es) b
  clone_expression (vec_initializer es) = vec_initializer (clone_expressions es)
  clone_expression (number_literal n) = number_literal n
  clone_expression (string_literal s) = string_literal s
  clone_expression (char_literal c) = char_literal c
  clone_expression (boolean_literal b) = boolean_literal b
  clone_expression (variable_access name unique_name) = variable_access name []
  clone_expression (binary_op op left right) =
      binary_op op (clone_expression left) (clone_expression right)
  clone_expression (unary_op op operand) = unary_op op (clone_expression operand)
  clone_expression (vector_access v i) = vector_access (clone_expression v) (clone_expression i)
  clone_expression (char_indirection s i) =
      char_indirection (clone_expression s) (clone_expression i)
  clone_expression (float_vector_indirection v i) =
      float_vector_indirection (clone_expression v) (clone_expression i)
  clone_expression (bitfield_access b s w) =
      bitfield_access (clone_expression b) (clone_expression s) (clone_expression w)
  clone_expression (function_call f es) = function_call (clone_expression f) (clone_expressions es)
  clone_expression (sys_call name n es) = sys_call name (clone_expression n) (clone_expressions es)
  clone_expression (conditional c t f) =
      conditional (clone_expression c) (clone_expression t) (clone_expression f)
  clone_expression (valof s) = valof (clone_statement s)
  clone_expression (float_valof s) = float_valof (clone_statement s)
  clone_expression (vec_allocation e name) = vec_allocation (clone_expression e) []
  clone_expression (string_allocation e) = string_allocation (clone_expression e)
  clone_expression (fvec_allocation e name) = fvec_allocation (clone_expression e) []
  clone_expression (table_expression es b) = table_expression (clone_expressions es) b

  pub clone_expressions : Expressions → Expressions
  clone_expressions nil = nil
  clone_expressions (cons e es) = cons (clone_expression e) (clone_expressions es)

  pub clone_statement : Statement → Statement
  clone_statement null_statement = null_statement
  clone_statement (let_declaration names es is_float) =
      let_declaration names (clone_expressions es) false
  clone_statement (for_each v t e s filter_type inferred_type) =
      for_each v t (clone_expression e) (clone_statement s) filter_type var_type_unknown
  clone_statement (assignment lhs rhs) = assignment (clone_expressions lhs) (clone_expressions rhs)
  clone_statement (free_statement e) = free_statement (clone_expression e)
  clone_statement (routine_call f es) = routine_call (clone_expression f) (clone_expressions es)
  clone_statement (if_statement e s) = if_statement (clone_expression e) (clone_statement s)
  clone_statement (unless_statement e s) = unless_statement (clone_expression e) (clone_statement s)
  clone_statement (test_statement e s t) =
      test_statement (clone_expression e) (clone_statement s) (clone_statement t)
  clone_statement (while_statement e s) = while_statement (clone_expression e) (clone_statement s)
  clone_statement (until_statement e s) = until_statement (clone_expression e) (clone_statement s)
  clone_statement (repeat_statement type s e) =
      repeat_statement type (clone_statement s) (clone_expression e)
  clone_statement (for_statement v u w x a b c s) =
      for_statement v u w x (clone_expression a) (clone_expression b) (clone_expression c)
        (clone_statement s)
  clone_statement (switchon e cs d) = switchon (clone_expression e) (clone_cases cs) (clone_case d)
  clone_statement (goto_statement e) = goto_statement (clone_expression e)
  clone_statement return_statement = return_statement
  clone_statement (finish_statement e es) = finish_statement null nil
  clone_statement break_statement = break_statement
  clone_statement brk_statement = brk_statement
  clone_statement loop_statement = loop_statement
  clone_statement endcase_statement = endcase_statement
  clone_statement (resultis e) = resultis (clone_expression e)
  clone_statement (compound ss) = compound (clone_statements ss)
  clone_statement (block ds ss) = block no_declarations (clone_statements ss)
  clone_statement (string_statement e) = string_statement (clone_expression e)
  clone_statement (label_target name) = label_target name
  clone_statement (conditional_branch c label e) = conditional_branch c label (clone_expression e)

  pub clone_statements : Statements → Statements
  clone_statements no_statements = no_statements
  clone_statements (statement s ss) = statement (clone_statement s) (clone_statements ss)

  pub clone_case : Case → Case
  clone_case null_case = null_case
  clone_case (case_statement e s v) = case_statement (clone_expression e) (clone_statement s) v
  clone_case (default_statement s) = default_statement (clone_statement s)

  pub clone_cases : Cases → Cases
  clone_cases no_cases = no_cases
  clone_cases (a_case c cs) = a_case (clone_case c) (clone_cases cs)

unfoldable pub clone_declaration : Declaration → Declaration
unfolding clone_expression clone_expressions clone_statement
clone_declaration null_declaration = null_declaration
clone_declaration (manifest_declaration name v) = manifest_declaration name v
clone_declaration (static_declaration name e is_float) =
    static_declaration name (clone_expression e) is_float
clone_declaration (global_declaration globals) = global_declaration globals
clone_declaration (global_variable names es is_float) =
    global_variable names (clone_expressions es) is_float
clone_declaration (function_declaration name ps e) =
    function_declaration name ps (clone_expression e)
clone_declaration (routine_declaration name ps s) = routine_declaration name ps (clone_statement s)
clone_declaration (label_declaration name s) = label_declaration name (clone_statement s)

unfoldable pub clone_declarations : Declarations → Declarations
unfolding clone_declaration
clone_declarations no_declarations = no_declarations
clone_declarations (declaration d ds) = declaration (clone_declaration d) (clone_declarations ds)

unfoldable pub clone : Program → Program
unfolding clone_declarations clone_statements
clone p = record {
  declarations = clone_declarations p.declarations;
  statements = clone_statements p.statements;
}
