-- ===== src/Tests/Manifests.antt =====
-- Runs of the resolution of manifest constants.
use bcpl.Prelude.{
  true, false, none, some, ◌||◌, ◌≡◌, refl, arith, [], ◌∷◌, Text, text_eq, codes, if◌then◌else◌,
}
use bcpl.Prelude.Int.{ℤ, pos}
use bcpl.Prelude.Dict.{Dict, lookup, insert, contains}
use bcpl.Ast.{
  Expression, Statement, Operator, integer, number_literal, variable_access, binary_op, resultis,
  block, no_statements, statement, manifest_declaration, no_declarations, declaration,
}
use bcpl.ConstantFolding.Semantics.{Env, eval, Pure}
use bcpl.ManifestResolution.{ManifestResolutionPass, initial, visit_expr, visit_stmt}
use bcpl.ManifestResolution.Values.{mentions, visit_expr-eval}

abbrev size : Text
size = codes "SIZE"

abbrev ten_scope : Dict ℤ
ten_scope = (size, pos 10) ∷ []

abbrev ten_pass : ManifestResolutionPass
ten_pass = record initial { current_scope_manifests_stack = ten_scope ∷ [] }

abbrev sizes_env : Env
sizes_env name = if text_eq size name then pos 10 else pos 4

-- SIZE + n
abbrev sum : Expression
sum = binary_op Operator.add (variable_access size []) (variable_access (codes "n") [])

size_is_ten : (name : Text) (v : ℤ) → lookup name ten_scope ≡ some v → sizes_env name ≡ v
unfolding lookup
size_is_ten name v h = ground arith

none_global :
    (name : Text) (v : ℤ)
    → lookup name ten_scope ≡ none
    → lookup name ten_pass.global_manifests ≡ some v
    → sizes_env name ≡ v
unfolding lookup
none_global name v h k = absurd (cc)

sum-Pure : Pure sum
unfolding Pure
sum-Pure = omega arith

visit_expr-eval_example :
    (eval sizes_env (visit_expr sum ten_pass).0 ≡ eval sizes_env sum)
    × ((name : Text)
        → (contains name ten_scope || contains name ten_pass.global_manifests) ≡ true
        → mentions name (visit_expr sum ten_pass).0 ≡ false)
visit_expr-eval_example =
    visit_expr-eval sizes_env ten_scope [] ten_pass refl size_is_ten none_global sum sum-Pure

-- $( MANIFEST $( SIZE = 10 $) RESULTIS SIZE $) inside, where a block stands between or not.
abbrev inner_use : Statement
inner_use = resultis (variable_access size [])

abbrev outer_block : Statement → Statement
outer_block s =
    block (declaration (manifest_declaration size (pos 10)) no_declarations)
      (statement s no_statements)

resolved-here :
    (visit_stmt (outer_block inner_use) initial).0
    ≡ block no_declarations (statement (resultis (number_literal (integer (pos 10)))) no_statements)
unfolding visit_expr text_eq lookup insert
resolved-here = refl

-- In a block inside the block the constant is not found.
unresolved-inside :
    (visit_stmt (outer_block (block no_declarations (statement inner_use no_statements))) initial).0
    ≡ block no_declarations
        (statement (block no_declarations (statement inner_use no_statements)) no_statements)
unfolding visit_expr text_eq lookup insert
unresolved-inside = refl
