-- ===== src/Ast/Clone/Plain.antt =====
-- A copy of a copy is the copy.
use bcpl.Prelude.{◌≡◌, refl, [], false}
use bcpl.Ast.{
  Expression, Expressions, Statement, Statements, Case, Cases, null, list_expression,
  vec_initializer, number_literal, string_literal, char_literal, boolean_literal, variable_access,
  binary_op, unary_op, vector_access, char_indirection, float_vector_indirection, bitfield_access,
  function_call, sys_call, conditional, valof, float_valof, vec_allocation, string_allocation,
  fvec_allocation, table_expression, nil, cons, null_statement, let_declaration, for_each,
  assignment, free_statement, routine_call, if_statement, unless_statement, test_statement,
  while_statement, until_statement, repeat_statement, for_statement, switchon, goto_statement,
  return_statement, finish_statement, break_statement, brk_statement, loop_statement,
  endcase_statement, resultis, compound, block, string_statement, label_target, conditional_branch,
  no_statements, statement, null_case, case_statement, default_statement, no_cases, a_case,
}
use bcpl.Ast.{no_declarations}
use bcpl.CallFrameManager.{var_type_unknown}
use bcpl.Ast.Clone.{
  clone_expression, clone_expressions, clone_statement, clone_statements, clone_case, clone_cases,
}

mutual
  unfolding clone_expression clone_expressions clone_statement clone_statements clone_case
      clone_cases

  clone_expression-idempotent :
      (x : Expression) → clone_expression (clone_expression x) ≡ clone_expression x
  clone_expression-idempotent null = refl
  clone_expression-idempotent (list_expression es b) =
      λ dim. list_expression (clone_expressions-idempotent es dim) b
  clone_expression-idempotent (vec_initializer es) =
      λ dim. vec_initializer (clone_expressions-idempotent es dim)
  clone_expression-idempotent (number_literal n) = refl
  clone_expression-idempotent (string_literal s) = refl
  clone_expression-idempotent (char_literal c) = refl
  clone_expression-idempotent (boolean_literal b) = refl
  clone_expression-idempotent (variable_access name unique_name) = refl
  clone_expression-idempotent (binary_op op left right) = λ dim.
      binary_op op (clone_expression-idempotent left dim) (clone_expression-idempotent right dim)
  clone_expression-idempotent (unary_op op operand) =
      λ dim. unary_op op (clone_expression-idempotent operand dim)
  clone_expression-idempotent (vector_access v i) =
      λ dim. vector_access (clone_expression-idempotent v dim) (clone_expression-idempotent i dim)
  clone_expression-idempotent (char_indirection s i) = λ dim.
      char_indirection (clone_expression-idempotent s dim) (clone_expression-idempotent i dim)
  clone_expression-idempotent (float_vector_indirection v i) = λ dim.
      float_vector_indirection (clone_expression-idempotent v dim)
        (clone_expression-idempotent i dim)
  clone_expression-idempotent (bitfield_access b s w) = λ dim.
      bitfield_access (clone_expression-idempotent b dim) (clone_expression-idempotent s dim)
        (clone_expression-idempotent w dim)
  clone_expression-idempotent (function_call f es) =
      λ dim. function_call (clone_expression-idempotent f dim) (clone_expressions-idempotent es dim)
  clone_expression-idempotent (sys_call name n es) =
      λ dim. sys_call name (clone_expression-idempotent n dim) (clone_expressions-idempotent es dim)
  clone_expression-idempotent (conditional c t f) = λ dim.
      conditional (clone_expression-idempotent c dim) (clone_expression-idempotent t dim)
        (clone_expression-idempotent f dim)
  clone_expression-idempotent (valof s) = λ dim. valof (clone_statement-idempotent s dim)
  clone_expression-idempotent (float_valof s) =
      λ dim. float_valof (clone_statement-idempotent s dim)
  clone_expression-idempotent (vec_allocation e name) =
      λ dim. vec_allocation (clone_expression-idempotent e dim) []
  clone_expression-idempotent (string_allocation e) =
      λ dim. string_allocation (clone_expression-idempotent e dim)
  clone_expression-idempotent (fvec_allocation e name) =
      λ dim. fvec_allocation (clone_expression-idempotent e dim) []
  clone_expression-idempotent (table_expression es b) =
      λ dim. table_expression (clone_expressions-idempotent es dim) b

  clone_expressions-idempotent :
      (x : Expressions) → clone_expressions (clone_expressions x) ≡ clone_expressions x
  clone_expressions-idempotent nil = refl
  clone_expressions-idempotent (cons e es) =
      λ dim. cons (clone_expression-idempotent e dim) (clone_expressions-idempotent es dim)

  clone_statement-idempotent :
      (x : Statement) → clone_statement (clone_statement x) ≡ clone_statement x
  clone_statement-idempotent null_statement = refl
  clone_statement-idempotent (let_declaration names es is_float) =
      λ dim. let_declaration names (clone_expressions-idempotent es dim) false
  clone_statement-idempotent (for_each v t e s filter_type inferred_type) = λ dim.
      for_each v t (clone_expression-idempotent e dim) (clone_statement-idempotent s dim)
        filter_type var_type_unknown
  clone_statement-idempotent (assignment lhs rhs) = λ dim.
      assignment (clone_expressions-idempotent lhs dim) (clone_expressions-idempotent rhs dim)
  clone_statement-idempotent (free_statement e) =
      λ dim. free_statement (clone_expression-idempotent e dim)
  clone_statement-idempotent (routine_call f es) =
      λ dim. routine_call (clone_expression-idempotent f dim) (clone_expressions-idempotent es dim)
  clone_statement-idempotent (if_statement e s) =
      λ dim. if_statement (clone_expression-idempotent e dim) (clone_statement-idempotent s dim)
  clone_statement-idempotent (unless_statement e s) =
      λ dim. unless_statement (clone_expression-idempotent e dim) (clone_statement-idempotent s dim)
  clone_statement-idempotent (test_statement e s t) = λ dim.
      test_statement (clone_expression-idempotent e dim) (clone_statement-idempotent s dim)
        (clone_statement-idempotent t dim)
  clone_statement-idempotent (while_statement e s) =
      λ dim. while_statement (clone_expression-idempotent e dim) (clone_statement-idempotent s dim)
  clone_statement-idempotent (until_statement e s) =
      λ dim. until_statement (clone_expression-idempotent e dim) (clone_statement-idempotent s dim)
  clone_statement-idempotent (repeat_statement type s e) = λ dim.
      repeat_statement type (clone_statement-idempotent s dim) (clone_expression-idempotent e dim)
  clone_statement-idempotent (for_statement v u w x a b c s) = λ dim.
      for_statement v u w x (clone_expression-idempotent a dim) (clone_expression-idempotent b dim)
        (clone_expression-idempotent c dim) (clone_statement-idempotent s dim)
  clone_statement-idempotent (switchon e cs d) = λ dim.
      switchon (clone_expression-idempotent e dim) (clone_cases-idempotent cs dim)
        (clone_case-idempotent d dim)
  clone_statement-idempotent (goto_statement e) =
      λ dim. goto_statement (clone_expression-idempotent e dim)
  clone_statement-idempotent return_statement = refl
  clone_statement-idempotent (finish_statement e es) = refl
  clone_statement-idempotent break_statement = refl
  clone_statement-idempotent brk_statement = refl
  clone_statement-idempotent loop_statement = refl
  clone_statement-idempotent endcase_statement = refl
  clone_statement-idempotent (resultis e) = λ dim. resultis (clone_expression-idempotent e dim)
  clone_statement-idempotent (compound ss) = λ dim. compound (clone_statements-idempotent ss dim)
  clone_statement-idempotent (block ds ss) =
      λ dim. block no_declarations (clone_statements-idempotent ss dim)
  clone_statement-idempotent (string_statement e) =
      λ dim. string_statement (clone_expression-idempotent e dim)
  clone_statement-idempotent (label_target name) = refl
  clone_statement-idempotent (conditional_branch c label e) =
      λ dim. conditional_branch c label (clone_expression-idempotent e dim)

  clone_statements-idempotent :
      (x : Statements) → clone_statements (clone_statements x) ≡ clone_statements x
  clone_statements-idempotent no_statements = refl
  clone_statements-idempotent (statement s ss) =
      λ dim. statement (clone_statement-idempotent s dim) (clone_statements-idempotent ss dim)

  clone_case-idempotent : (x : Case) → clone_case (clone_case x) ≡ clone_case x
  clone_case-idempotent null_case = refl
  clone_case-idempotent (case_statement e s v) =
      λ dim. case_statement (clone_expression-idempotent e dim) (clone_statement-idempotent s dim) v
  clone_case-idempotent (default_statement s) =
      λ dim. default_statement (clone_statement-idempotent s dim)

  clone_cases-idempotent : (x : Cases) → clone_cases (clone_cases x) ≡ clone_cases x
  clone_cases-idempotent no_cases = refl
  clone_cases-idempotent (a_case c cs) =
      λ dim. a_case (clone_case-idempotent c dim) (clone_cases-idempotent cs dim)

-- A copy of a copied statement is that copy: what copying forgets, it forgets at once.
pub clone_statement-clone_statement :
    (s : Statement) → clone_statement (clone_statement s) ≡ clone_statement s
clone_statement-clone_statement s = clone_statement-idempotent s
