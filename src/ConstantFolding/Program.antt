-- ===== src/ConstantFolding/Program.antt =====
-- The visitors of declarations and of the program in Optimizer.cpp and ConstantFoldingPass.cpp, and
-- ConstantFoldingPass::apply. A function or a routine is folded with no constants known, and leaves
-- those that it has assigned to what follows it.
use bcpl.Prelude.{[], Result, ok, ◌>>=◌}
use bcpl.Prelude.Int.{ℤ}
use bcpl.Prelude.Dict.{Dict}
use bcpl.Ast.{
  Declaration, Declarations, Program, null_declaration, static_declaration, global_variable,
  function_declaration, routine_declaration, label_declaration, no_declarations, declaration,
}
use bcpl.ConstantFolding.Constants.{Doubles}
use bcpl.ConstantFolding.Pass.{Known, accept, visit_exprs, visit_stmt, visit_stmts}

module _ (D : Doubles) (manifests : Dict ℤ) where
  unfoldable pub visit_decl : Declaration → Known → Result (Declaration × Known)
  unfolding accept
  visit_decl (static_declaration name e is_float) known = do
    (a, e', known1) ← accept D manifests e known
    ok (static_declaration name e' is_float, known1)
  visit_decl (global_variable names es is_float) known = do
    (es', known1) ← visit_exprs D manifests es known
    ok (global_variable names es' is_float, known1)
  visit_decl (function_declaration name parameters body) known = do
    (a, body', known1) ← accept D manifests body []
    ok (function_declaration name parameters body', known1)
  visit_decl (routine_declaration name parameters body) known = do
    (body', known1) ← visit_stmt D manifests body []
    ok (routine_declaration name parameters body', known1)
  visit_decl (label_declaration name command) known = do
    (command', known1) ← visit_stmt D manifests command known
    ok (label_declaration name command', known1)
  visit_decl d known = ok (d, known)

  -- Null pointers are left out.
  unfoldable pub visit_declarations : Declarations → Known → Result (Declarations × Known)
  unfolding visit_decl
  visit_declarations no_declarations known = ok (no_declarations, known)
  visit_declarations (declaration null_declaration ds) known = visit_declarations ds known
  visit_declarations (declaration d ds) known = do
    (d', known1) ← visit_decl d known
    (ds', known2) ← visit_declarations ds known1
    ok (declaration d' ds', known2)

  unfoldable pub apply : Program → Known → Result (Program × Known)
  unfolding visit_declarations
  apply program known = do
    (ds, known1) ← visit_declarations program.declarations known
    (ss, known2) ← visit_stmts D manifests program.statements known1
    ok (record { declarations = ds; statements = ss }, known2)
