-- ===== src/ManifestResolution.antt =====
-- passes/ManifestResolutionPass.cpp: uses of manifest constants become literals, and their
-- declarations go. The stack of scopes is a list with the innermost first; a visit takes and returns
-- the state of the pass. Of the classes that have an empty visitor nothing is visited.
pub mod Values
use bcpl.Prelude.{
  ℕ, Bool, Option, none, some, List, [], ◌∷◌, ◌++◌, Text, text_eq, codes, length, if◌then◌else◌,
}
use bcpl.Prelude.Int.{ℤ}
use bcpl.Prelude.Decimal.{to_string_nat}
use bcpl.Prelude.Dict.{Dict, lookup, insert}
use bcpl.Ast.{
  Expression, Expressions, Statement, Statements, Case, Cases, Declaration, Declarations, Program,
  integer, null, list_expression, vec_initializer, number_literal, string_literal, char_literal,
  boolean_literal, variable_access, binary_op, unary_op, vector_access, char_indirection,
  float_vector_indirection, bitfield_access, function_call, sys_call, conditional, valof,
  float_valof, vec_allocation, string_allocation, fvec_allocation, table_expression, nil, cons,
  null_statement, let_declaration, for_each, assignment, free_statement, routine_call, if_statement,
  unless_statement, test_statement, while_statement, until_statement, repeat_statement,
  for_statement, switchon, goto_statement, return_statement, finish_statement, break_statement,
  brk_statement, loop_statement, endcase_statement, resultis, compound, block, string_statement,
  label_target, conditional_branch, no_statements, statement, null_case, case_statement,
  default_statement, no_cases, a_case, null_declaration, manifest_declaration, static_declaration,
  global_declaration, global_variable, function_declaration, routine_declaration, label_declaration,
  no_declarations, declaration,
}

pub record ManifestResolutionPass : Type 0 where
  pub global_manifests : Dict ℤ
  pub current_scope_manifests_stack : List (Dict ℤ)
  pub current_scope_name : Text

abbrev pub initial : ManifestResolutionPass
initial = record {
  global_manifests = [];
  current_scope_manifests_stack = [] ∷ [];
  current_scope_name = codes "Global";
}

abbrev pub in_top_scope : Text → List (Dict ℤ) → Option ℤ
in_top_scope name [] = none
in_top_scope name (top ∷ others) = lookup name top

abbrev pub or_global : Option ℤ → Option ℤ → Option ℤ
or_global (some v) other = some v
or_global none other = other

-- The innermost scope, and then the global one; those between are passed over.
unfoldable pub get_manifest_value : Text → ManifestResolutionPass → Option ℤ
get_manifest_value name p =
    or_global (in_top_scope name p.current_scope_manifests_stack) (lookup name p.global_manifests)

abbrev pub resolved : Text → Text → Option ℤ → Expression
resolved name unique_name none = variable_access name unique_name
resolved name unique_name (some v) = number_literal (integer v)

abbrev pub set_top : Text → ℤ → List (Dict ℤ) → List (Dict ℤ)
set_top name value [] = []
set_top name value (top ∷ others) = insert name value top ∷ others

unfoldable pub declare_manifest : Text → ℤ → ManifestResolutionPass → ManifestResolutionPass
declare_manifest name value p = record p {
  global_manifests =
      if text_eq p.current_scope_name (codes "Global")
      then insert name value p.global_manifests
      else p.global_manifests;
  current_scope_manifests_stack = set_top name value p.current_scope_manifests_stack;
}

abbrev pub push : Text → ManifestResolutionPass → ManifestResolutionPass
push name p = record p {
  current_scope_manifests_stack = [] ∷ p.current_scope_manifests_stack;
  current_scope_name = name;
}

abbrev pub without_top : List (Dict ℤ) → List (Dict ℤ)
without_top [] = []
without_top (top ∷ others) = others

abbrev pub pop : Text → ManifestResolutionPass → ManifestResolutionPass
pop name p = record p {
  current_scope_manifests_stack = without_top p.current_scope_manifests_stack;
  current_scope_name = name;
}

unfoldable pub block_name : ManifestResolutionPass → Text
block_name p =
    p.current_scope_name
    ++ (codes "_block_" ++ to_string_nat (length p.current_scope_manifests_stack))

-- A null pointer is not kept.
abbrev pub keep_statement : Statement → Statements → Statements
keep_statement null_statement ss = ss
keep_statement s ss = statement s ss

abbrev pub keep_declaration : Declaration → Declarations → Declarations
keep_declaration null_declaration ds = ds
keep_declaration d ds = declaration d ds

unfoldable mutual
  unfolding get_manifest_value declare_manifest block_name

  pub visit_expr : Expression → ManifestResolutionPass → Expression × ManifestResolutionPass
  visit_expr (variable_access name unique_name) p =
      (resolved name unique_name (get_manifest_value name p), p)
  visit_expr (binary_op op l r) p =
      let (l', p1) = visit_expr l p in let (r', p2) = visit_expr r p1 in (binary_op op l' r', p2)
  visit_expr (unary_op op e) p = let (e', p1) = visit_expr e p in (unary_op op e', p1)
  visit_expr (vector_access v i) p =
      let (v', p1) = visit_expr v p in let (i', p2) = visit_expr i p1 in (vector_access v' i', p2)
  visit_expr (char_indirection s i) p =
      let (s', p1) = visit_expr s p in
      let (i', p2) = visit_expr i p1 in (char_indirection s' i', p2)
  visit_expr (float_vector_indirection v i) p =
      let (v', p1) = visit_expr v p in
      let (i', p2) = visit_expr i p1 in (float_vector_indirection v' i', p2)
  visit_expr (function_call f es) p =
      let (f', p1) = visit_expr f p in
      let (es', p2) = visit_exprs es p1 in (function_call f' es', p2)
  visit_expr (sys_call name n es) p =
      let (n', p1) = visit_expr n p in
      let (es', p2) = visit_exprs es p1 in (sys_call name n' es', p2)
  visit_expr (conditional c t f) p =
      let (c', p1) = visit_expr c p in
      let (t', p2) = visit_expr t p1 in let (f', p3) = visit_expr f p2 in (conditional c' t' f', p3)
  visit_expr (valof s) p = let (s', p1) = visit_stmt s p in (valof s', p1)
  visit_expr (vec_allocation e name) p =
      let (e', p1) = visit_expr e p in (vec_allocation e' name, p1)
  visit_expr (string_allocation e) p = let (e', p1) = visit_expr e p in (string_allocation e', p1)
  visit_expr (table_expression es is_float) p =
      let (es', p1) = visit_exprs es p in (table_expression es' is_float, p1)
  visit_expr e p = (e, p)

  pub visit_exprs : Expressions → ManifestResolutionPass → Expressions × ManifestResolutionPass
  visit_exprs nil p = (nil, p)
  visit_exprs (cons e es) p =
      let (e', p1) = visit_expr e p in let (es', p2) = visit_exprs es p1 in (cons e' es', p2)

  pub visit_stmt : Statement → ManifestResolutionPass → Statement × ManifestResolutionPass
  visit_stmt (let_declaration names es is_float) p =
      let (es', p1) = visit_exprs es p in (let_declaration names es' is_float, p1)
  visit_stmt (assignment lhs rhs) p =
      let (lhs', p1) = visit_exprs lhs p in
      let (rhs', p2) = visit_exprs rhs p1 in (assignment lhs' rhs', p2)
  visit_stmt (free_statement e) p = let (e', p1) = visit_expr e p in (free_statement e', p1)
  visit_stmt (routine_call f es) p =
      let (f', p1) = visit_expr f p in
      let (es', p2) = visit_exprs es p1 in (routine_call f' es', p2)
  visit_stmt (if_statement e s) p =
      let (e', p1) = visit_expr e p in let (s', p2) = visit_stmt s p1 in (if_statement e' s', p2)
  visit_stmt (unless_statement e s) p =
      let (e', p1) = visit_expr e p in
      let (s', p2) = visit_stmt s p1 in (unless_statement e' s', p2)
  visit_stmt (test_statement e s t) p =
      let (e', p1) = visit_expr e p in
      let (s', p2) = visit_stmt s p1 in
      let (t', p3) = visit_stmt t p2 in (test_statement e' s' t', p3)
  visit_stmt (while_statement e s) p =
      let (e', p1) = visit_expr e p in let (s', p2) = visit_stmt s p1 in (while_statement e' s', p2)
  visit_stmt (until_statement e s) p =
      let (e', p1) = visit_expr e p in let (s', p2) = visit_stmt s p1 in (until_statement e' s', p2)
  visit_stmt (repeat_statement type s e) p =
      let (s', p1) = visit_stmt s p in
      let (e', p2) = visit_expr e p1 in (repeat_statement type s' e', p2)
  visit_stmt (for_statement v u w x from to by s) p =
      let (from', p1) = visit_expr from p in
      let (to', p2) = visit_expr to p1 in
      let (by', p3) = visit_expr by p2 in
      let (s', p4) = visit_stmt s p3 in (for_statement v u w x from' to' by' s', p4)
  visit_stmt (switchon e cs d) p =
      let (e', p1) = visit_expr e p in
      let (cs', p2) = visit_cases cs p1 in
      let (d', p3) = visit_default d p2 in (switchon e' cs' d', p3)
  visit_stmt (goto_statement e) p = let (e', p1) = visit_expr e p in (goto_statement e', p1)
  visit_stmt (resultis e) p = let (e', p1) = visit_expr e p in (resultis e', p1)
  visit_stmt (compound ss) p = let (ss', p1) = visit_all ss p in (compound ss', p1)
  visit_stmt (string_statement e) p = let (e', p1) = visit_expr e p in (string_statement e', p1)
  visit_stmt (block ds ss) p =
      let (ds', p1) = visit_decls ds (push (block_name p) p) in
      let (ss', p2) = visit_stmts ss p1 in (block ds' ss', pop p.current_scope_name p2)
  visit_stmt s p = (s, p)

  -- The statements of a program or of a block, without null pointers.
  pub visit_stmts : Statements → ManifestResolutionPass → Statements × ManifestResolutionPass
  visit_stmts no_statements p = (no_statements, p)
  visit_stmts (statement s ss) p =
      let (s', p1) = visit_stmt s p in
      let (ss', p2) = visit_stmts ss p1 in (keep_statement s' ss', p2)

  -- Those of a compound statement.
  pub visit_all : Statements → ManifestResolutionPass → Statements × ManifestResolutionPass
  visit_all no_statements p = (no_statements, p)
  visit_all (statement s ss) p =
      let (s', p1) = visit_stmt s p in let (ss', p2) = visit_all ss p1 in (statement s' ss', p2)

  pub visit_cases : Cases → ManifestResolutionPass → Cases × ManifestResolutionPass
  visit_cases no_cases p = (no_cases, p)
  visit_cases (a_case (case_statement e s v) cs) p =
      let (e', p1) = visit_expr e p in
      let (s', p2) = visit_stmt s p1 in
      let (cs', p3) = visit_cases cs p2 in (a_case (case_statement e' s' v) cs', p3)
  visit_cases (a_case c cs) p = let (cs', p1) = visit_cases cs p in (a_case c cs', p1)

  pub visit_default : Case → ManifestResolutionPass → Case × ManifestResolutionPass
  visit_default (default_statement s) p =
      let (s', p1) = visit_stmt s p in (default_statement s', p1)
  visit_default d p = (d, p)

  pub visit_initializers :
      List Text → Expressions → ManifestResolutionPass → Expressions × ManifestResolutionPass
  visit_initializers (name ∷ names) (cons e es) p =
      let (e', p1) = visit_expr e p in
      let (es', p2) = visit_initializers names es p1 in (cons e' es', p2)
  visit_initializers names es p = (es, p)

  pub visit_decl : Declaration → ManifestResolutionPass → Declaration × ManifestResolutionPass
  visit_decl (manifest_declaration name value) p = (null_declaration, declare_manifest name value p)
  visit_decl (static_declaration name e is_float) p =
      let (e', p1) = visit_expr e p in (static_declaration name e' is_float, p1)
  visit_decl (global_variable names es is_float) p =
      let (es', p1) = visit_initializers names es p in (global_variable names es' is_float, p1)
  visit_decl (function_declaration name parameters body) p =
      let (body', p1) = visit_expr body (push name p) in
      (function_declaration name parameters body', pop (codes "Global") p1)
  visit_decl (routine_declaration name parameters body) p =
      let (body', p1) = visit_stmt body (push name p) in
      (routine_declaration name parameters body', pop (codes "Global") p1)
  visit_decl (label_declaration name s) p =
      let (s', p1) = visit_stmt s p in (label_declaration name s', p1)
  visit_decl d p = (d, p)

  pub visit_decls : Declarations → ManifestResolutionPass → Declarations × ManifestResolutionPass
  visit_decls no_declarations p = (no_declarations, p)
  visit_decls (declaration d ds) p =
      let (d', p1) = visit_decl d p in
      let (ds', p2) = visit_decls ds p1 in (keep_declaration d' ds', p2)

unfoldable pub apply : Program → Program × ManifestResolutionPass
unfolding visit_decls visit_stmts
apply program =
    let (ds, p1) = visit_decls program.declarations initial in
    let (ss, p2) = visit_stmts program.statements p1 in
    (record { declarations = ds; statements = ss }, p2)
