-- ===== src/ConstantFolding/Pass.antt =====
-- The visitors of ConstantFoldingPass.cpp on the whole tree, and those of Optimizer.cpp that it keeps.
-- `known_constants_` is passed on from node to node. A visit gives the node that stands in the place
-- of the old one, and whether it is another node. visit(ResultisStatement&) does not put such a node
-- in the place of its expression: it would become the statement, which is undefined.
use bcpl.Prelude.{
  Bool, true, false, Option, none, some, Text, if◌then◌else◌, Result, ok, err, undefined, ◌>>=◌,
}
use bcpl.Prelude.Int.{ℤ}
use bcpl.Prelude.Dict.{Dict, lookup, insert, remove}
use bcpl.Ast.{integer}
use bcpl.Ast.{
  Expression, Expressions, Statement, Statements, Case, Cases, number_literal, variable_access,
  binary_op, unary_op, vector_access, char_indirection, float_vector_indirection, function_call,
  sys_call, conditional, valof, float_valof, nil, cons, null_statement, let_declaration, assignment,
  free_statement, routine_call, if_statement, unless_statement, test_statement, while_statement,
  until_statement, repeat_statement, for_statement, switchon, goto_statement, resultis, compound,
  block, string_statement, no_statements, statement, case_statement, default_statement, no_cases,
  a_case,
}
use bcpl.ConstantFolding.Constants.{Doubles, evaluate_integer_constant, evaluate_boolean_constant}
use bcpl.ConstantFolding.Operators.{fold_binary, fold_unary}

abbrev pub Known : Type 0
Known = Dict ℤ

abbrev pub Visited : Type 0
Visited = Bool × Expression × Known

abbrev pub propagated : Text → Text → Option ℤ → Option ℤ → Bool × Expression
propagated name unique_name (some v) manifest = (true, number_literal (integer v))
propagated name unique_name none (some v) = (true, number_literal (integer v))
propagated name unique_name none none = (false, variable_access name unique_name)

-- A constant is tracked where one variable is assigned one integer literal.
abbrev pub track : Expressions → Expressions → Known → Known
track (cons (variable_access name unique_name) nil) (cons (number_literal (integer v)) nil) known =
    insert name v known
track (cons (variable_access name unique_name) nil) (cons e nil) known = remove name known
track lhs rhs known = known

-- The branch that a constant condition takes is visited, else both.
abbrev pub branch : Option Bool → Result Visited → Result Visited → Result Visited → Result Visited
branch (some true) yes_branch no_branch both = yes_branch >>= λ (r, e, k). ok (true, e, k)
branch (some false) yes_branch no_branch both = no_branch >>= λ (r, e, k). ok (true, e, k)
branch none yes_branch no_branch both = both

-- The same of statements, where a branch that is never taken becomes an empty one.
abbrev pub branch_statement {ℓ} : {A : Type ℓ} → Option Bool → (yes_branch no_branch both : A) → A
branch_statement (some true) yes_branch no_branch both = yes_branch
branch_statement (some false) yes_branch no_branch both = no_branch
branch_statement none yes_branch no_branch both = both

abbrev pub create_nop : Statement
create_nop = compound no_statements

-- `node.expression->accept(*this)` with the statement as the current node.
abbrev pub accept_in_place : Visited → Result (Statement × Known)
accept_in_place (true, e, known) = err undefined
accept_in_place (false, e, known) = ok (resultis e, known)

-- `false` where a condition is known to fail.
abbrev pub may_run : Option Bool → Bool
may_run (some b) = b
may_run none = true

abbrev pub is_null : Statement → Bool
is_null null_statement = true
is_null _ = false

-- `if (stmt) processed.push_back(...)`
abbrev pub keep_unless_null : (original visited : Statement) → Statements → Statements
keep_unless_null original visited ss = if is_null original then ss else statement visited ss

module _ (D : Doubles) (manifests : Dict ℤ) where
  unfoldable mutual
    unfolding fold_binary fold_unary lookup insert remove

    pub accept : Expression → Known → Result Visited
    accept (variable_access name unique_name) known =
        let r = propagated name unique_name (lookup name known) (lookup name manifests) in
        ok (r.0, r.1, known)
    accept (binary_op op left right) known = do
      (a, left', known1) ← accept left known
      (b, right', known2) ← accept right known1
      r ← fold_binary D op left' right'
      ok (r.0, r.1, known2)
    accept (unary_op op operand) known = do
      (a, operand', known1) ← accept operand known
      let r = fold_unary D op operand' (evaluate_integer_constant operand')
      ok (r.0, r.1, known1)
    accept (conditional c t f) known = do
      (a, c', known1) ← accept c known
      let yes_branch = accept t known1
      let no_branch = accept f known1
      let both = (do
        (b, t', known2) ← accept t known1
        (d, f', known3) ← accept f known2
        ok (false, conditional c' t' f', known3))
      branch (evaluate_boolean_constant D c') yes_branch no_branch both
    accept (valof s) known = do (s', known1) ← visit_stmt s known; ok (false, valof s', known1)
    accept (float_valof s) known = do
      (s', known1) ← visit_stmt s known
      ok (false, float_valof s', known1)
    accept (vector_access v i) known = do
      (a, v', known1) ← accept v known
      (b, i', known2) ← accept i known1
      ok (false, vector_access v' i', known2)
    accept (char_indirection s i) known = do
      (a, s', known1) ← accept s known
      (b, i', known2) ← accept i known1
      ok (false, char_indirection s' i', known2)
    accept (float_vector_indirection v i) known = do
      (a, v', known1) ← accept v known
      (b, i', known2) ← accept i known1
      ok (false, float_vector_indirection v' i', known2)
    accept (function_call f es) known = do
      (a, f', known1) ← accept f known
      (es', known2) ← visit_exprs es known1
      ok (false, function_call f' es', known2)
    accept (sys_call name n es) known = do
      (a, n', known1) ← accept n known
      (es', known2) ← visit_exprs es known1
      ok (false, sys_call name n' es', known2)
    accept e known = ok (false, e, known)

    pub visit_exprs : Expressions → Known → Result (Expressions × Known)
    visit_exprs nil known = ok (nil, known)
    visit_exprs (cons e es) known = do
      (a, e', known1) ← accept e known
      (es', known2) ← visit_exprs es known1
      ok (cons e' es', known2)

    pub visit_stmt : Statement → Known → Result (Statement × Known)
    visit_stmt (let_declaration names es is_float) known = do
      (es', known1) ← visit_exprs es known
      ok (let_declaration names es' is_float, known1)
    visit_stmt (assignment lhs rhs) known = do
      (rhs', known1) ← visit_exprs rhs known
      ok (assignment lhs rhs', track lhs rhs' known1)
    visit_stmt (free_statement e) known = do
      (a, e', known1) ← accept e known
      ok (free_statement e', known1)
    visit_stmt (routine_call f es) known = do
      (a, f', known1) ← accept f known
      (es', known2) ← visit_exprs es known1
      ok (routine_call f' es', known2)
    visit_stmt (if_statement e s) known = do
      (a, e', known1) ← accept e known
      let taken = visit_stmt s known1
      let kept = (do (s', known2) ← visit_stmt s known1; ok (if_statement e' s', known2))
      branch_statement (evaluate_boolean_constant D e') taken (ok (create_nop, known1)) kept
    visit_stmt (unless_statement e s) known = do
      (a, e', known1) ← accept e known
      (s', known2) ← visit_stmt s known1
      ok (unless_statement e' s', known2)
    visit_stmt (test_statement e s t) known = do
      (a, e', known1) ← accept e known
      let taken = visit_stmt s known1
      let other =
          branch_statement (some (is_null t)) (ok (create_nop, known1)) (visit_stmt t known1)
            (visit_stmt t known1)
      let kept = (do
        (s', known2) ← visit_stmt s known1
        (t', known3) ← visit_stmt t known2
        ok (test_statement e' s' t', known3))
      branch_statement (evaluate_boolean_constant D e') taken other kept
    visit_stmt (while_statement e s) known = do
      (a, e', known1) ← accept e known
      let kept = (do (s', known2) ← visit_stmt s known1; ok (while_statement e' s', known2))
      if may_run (evaluate_boolean_constant D e') then kept else ok (create_nop, known1)
    visit_stmt (until_statement e s) known = do
      (a, e', known1) ← accept e known
      (s', known2) ← visit_stmt s known1
      ok (until_statement e' s', known2)
    visit_stmt (repeat_statement type s e) known = do
      (s', known1) ← visit_stmt s known
      (a, e', known2) ← accept e known1
      ok (repeat_statement type s' e', known2)
    visit_stmt (for_statement v u w x from to by s) known = do
      (a, from', known1) ← accept from known
      (b, to', known2) ← accept to known1
      (c, by', known3) ← accept by known2
      (s', known4) ← visit_stmt s known3
      ok (for_statement v u w x from' to' by' s', known4)
    visit_stmt (switchon e cs d) known = do
      (a, e', known1) ← accept e known
      (cs', known2) ← visit_cases cs known1
      (d', known3) ← visit_default d known2
      ok (switchon e' cs' d', known3)
    visit_stmt (goto_statement e) known = do
      (a, e', known1) ← accept e known
      ok (goto_statement e', known1)
    visit_stmt (resultis e) known = accept e known >>= accept_in_place
    visit_stmt (compound ss) known = do
      (ss', known1) ← visit_stmts ss known
      ok (compound ss', known1)
    visit_stmt (block ds ss) known = do
      (ss', known1) ← visit_stmts ss known
      ok (block ds ss', known1)
    visit_stmt (string_statement e) known = do
      (a, e', known1) ← accept e known
      ok (string_statement e', known1)
    visit_stmt s known = ok (s, known)

    -- Null pointers are left out of the list.
    pub visit_stmts : Statements → Known → Result (Statements × Known)
    visit_stmts no_statements known = ok (no_statements, known)
    visit_stmts (statement s ss) known = do
      (s', known1) ← visit_stmt s known
      (ss', known2) ← visit_stmts ss known1
      ok (keep_unless_null s s' ss', known2)

    pub visit_cases : Cases → Known → Result (Cases × Known)
    visit_cases no_cases known = ok (no_cases, known)
    visit_cases (a_case (case_statement e s v) cs) known = do
      (a, e', known1) ← accept e known
      (s', known2) ← visit_stmt s known1
      (cs', known3) ← visit_cases cs known2
      ok (a_case (case_statement e' s' v) cs', known3)
    visit_cases (a_case _ cs) known = visit_cases cs known

    pub visit_default : Case → Known → Result (Case × Known)
    visit_default (default_statement s) known = do
      (s', known1) ← visit_stmt s known
      ok (default_statement s', known1)
    visit_default d known = ok (d, known)
