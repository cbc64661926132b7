-- ===== src/ManifestResolution/Values.antt =====
-- Resolving manifest constants keeps the values of expressions, and leaves none of them unresolved.
use bcpl.Prelude.{
  ◌≡◌, ◌∙◌, refl, sym, ap, subst, Bool, true, false, Bool-cases, ◌||◌, inl, inr, Option, none, some,
  List, ◌∷◌, Text, text_eq, text_eq_iff, if◌then◌else◌,
}
use bcpl.Prelude.Dict.{Dict, lookup, contains, is_some}
use bcpl.Prelude.Int.{ℤ}
use bcpl.Ast.{
  Expression, integer, float, number_literal, boolean_literal, variable_access, binary_op, unary_op,
  conditional,
}
use bcpl.ConstantFolding.Semantics.{Env, is_taken, eval_operator, bind, eval, Pure}
use bcpl.ManifestResolution.{
  ManifestResolutionPass, get_manifest_value, in_top_scope, or_global, resolved, visit_expr,
}

-- Whether an expression without blocks accesses a variable of this name.
unfoldable pub mentions : Text → Expression → Bool
mentions name (variable_access n unique_name) = text_eq n name
mentions name (binary_op op l r) = mentions name l || mentions name r
mentions name (unary_op op e) = mentions name e
mentions name (conditional c t f) = mentions name c || mentions name t || mentions name f
mentions name e = false

-- Each manifest constant that the pass sees is the value of its name.
abbrev Describes : Env → ManifestResolutionPass → Type 0
Describes env p = (name : Text) → (v : ℤ) → get_manifest_value name p ≡ some v → env name ≡ v

resolved-eval :
    (env : Env) (name unique_name : Text) (o : Option ℤ)
    → ((v : ℤ) → o ≡ some v → env name ≡ v)
    → eval env (resolved name unique_name o) ≡ some (env name)
unfolding eval
resolved-eval env name unique_name none h = refl
resolved-eval env name unique_name (some v) h = ap some (sym (h v refl))

-- Expressions without blocks leave the state of the pass alone.
visit_expr-state : (e : Expression) (p : ManifestResolutionPass) → Pure e → (visit_expr e p).1 ≡ p
unfolding visit_expr Pure
visit_expr-state (number_literal (integer w)) p h = refl
visit_expr-state (number_literal (float w)) p h = refl
visit_expr-state (boolean_literal b) p h = refl
visit_expr-state (variable_access name unique_name) p h = refl
visit_expr-state (binary_op op l r) p (h, k) =
    visit_expr-state r (visit_expr l p).1 k ∙ visit_expr-state l p h
visit_expr-state (unary_op op e) p h = visit_expr-state e p h
visit_expr-state (conditional c t f) p (h, k, m) =
    visit_expr-state f (visit_expr t (visit_expr c p).1).1 m
    ∙ visit_expr-state t (visit_expr c p).1 k
    ∙ visit_expr-state c p h
visit_expr-state _ p h = absurd h

visit_expr-same :
    (env : Env) (p : ManifestResolutionPass)
    → Describes env p
    → (e : Expression) → Pure e
    → eval env (visit_expr e p).0 ≡ eval env e
unfolding visit_expr Pure eval
visit_expr-same env p d (number_literal (integer w)) h = refl
visit_expr-same env p d (number_literal (float w)) h = refl
visit_expr-same env p d (boolean_literal b) h = refl
visit_expr-same env p d (variable_access name unique_name) h =
    resolved-eval env name unique_name (get_manifest_value name p) (d name)
visit_expr-same env p d (binary_op op l r) (h, k) =
    let right =
      ap (λ (q : ManifestResolutionPass). eval env (visit_expr r q).0) (visit_expr-state l p h)
      ∙ visit_expr-same env p d r k in
    λ i. bind (visit_expr-same env p d l h i) (λ a. bind (right i) (λ b. eval_operator op a b))
visit_expr-same env p d (unary_op op e) h = rw (visit_expr-same env p d e h) refl
visit_expr-same env p d (conditional c t f) (h, k, m) =
    let yes_value =
      ap (λ (q : ManifestResolutionPass). eval env (visit_expr t q).0) (visit_expr-state c p h)
      ∙ visit_expr-same env p d t k in
    let no_value =
      ap (λ (q : ManifestResolutionPass). eval env (visit_expr f q).0)
        (visit_expr-state t (visit_expr c p).1 k ∙ visit_expr-state c p h)
      ∙ visit_expr-same env p d f m in
    λ i. bind (visit_expr-same env p d c h i) (λ b. if is_taken b then yes_value i else no_value i)
visit_expr-same env _ d _ h = absurd h

resolved-mentions :
    (name n unique_name : Text) (o : Option ℤ)
    → (n ≡ name → is_some o ≡ true)
    → mentions name (resolved n unique_name o) ≡ false
unfolding mentions
resolved-mentions name n unique_name (some v) h = refl
resolved-mentions name n unique_name none h = elim (Bool-cases (text_eq n name)) [
  | inl same ↦ let k : false ≡ true = h ((text_eq_iff n name).0 same) in absurd (cc)
  | inr differs ↦ differs
]

visit_expr-mentions :
    (name : Text) (p : ManifestResolutionPass)
    → is_some (get_manifest_value name p) ≡ true
    → (e : Expression) → Pure e
    → mentions name (visit_expr e p).0 ≡ false
unfolding visit_expr Pure mentions
visit_expr-mentions name p d (number_literal (integer w)) h = refl
visit_expr-mentions name p d (number_literal (float w)) h = refl
visit_expr-mentions name p d (boolean_literal b) h = refl
visit_expr-mentions name p d (variable_access n unique_name) h =
    resolved-mentions name n unique_name (get_manifest_value n p)
      (λ e. subst (λ (m : Text). is_some (get_manifest_value m p) ≡ true) (sym e) d)
visit_expr-mentions name p d (binary_op op l r) (h, k) =
    rw (visit_expr-mentions name p d l h, visit_expr-state l p h, visit_expr-mentions name p d r k)
      refl
visit_expr-mentions name p d (unary_op op e) h = visit_expr-mentions name p d e h
visit_expr-mentions name p d (conditional c t f) (h, k, m) =
    rw
      (
        visit_expr-mentions name p d c h,
        visit_expr-state c p h,
        visit_expr-mentions name p d t k,
        visit_expr-state t p k,
        visit_expr-mentions name p d f m,
      )
      refl
visit_expr-mentions name p d _ h = absurd h

found-Describes :
    (env : Env) (top global : Option ℤ) (name : Text) (v : ℤ)
    → ((w : ℤ) → top ≡ some w → env name ≡ w)
    → ((w : ℤ) → top ≡ none → global ≡ some w → env name ≡ w)
    → or_global top global ≡ some v
    → env name ≡ v
found-Describes env none global name v h k e = k v refl e
found-Describes env (some w) global name v h k e = h v e

either-some :
    (top global : Option ℤ)
    → (is_some top || is_some global) ≡ true
    → is_some (or_global top global) ≡ true
either-some none global h = h
either-some (some v) global h = refl

-- In an expression of literals, variables, operators and conditionals, where the constants of the
-- innermost scope, and the global ones that it does not hide, are the values of their names, the
-- resolved expression has the value of the original, also where that has none, and no access to a
-- constant of the innermost scope or to a global one is left in it.
pub visit_expr-eval :
    (env : Env) (top : Dict ℤ) (others : List (Dict ℤ)) (p : ManifestResolutionPass)
    → p.current_scope_manifests_stack ≡ top ∷ others
    → ((name : Text) (v : ℤ) → lookup name top ≡ some v → env name ≡ v)
    → ((name : Text) (v : ℤ)
        → lookup name top ≡ none
        → lookup name p.global_manifests ≡ some v
        → env name ≡ v)
    → (e : Expression) → Pure e
    → (eval env (visit_expr e p).0 ≡ eval env e)
      × ((name : Text)
          → (contains name top || contains name p.global_manifests) ≡ true
          → mentions name (visit_expr e p).0 ≡ false)
unfolding get_manifest_value
visit_expr-eval env top others p s h k e pure =
    let at_top = λ (name : Text). ap (in_top_scope name) s in
    (
      visit_expr-same env p
          (λ name v m.
            found-Describes env (lookup name top) (lookup name p.global_manifests) name v (h name)
              (k name)
              (ap (λ o. or_global o (lookup name p.global_manifests)) (sym (at_top name)) ∙ m))
          e pure,
      λ name m.
          visit_expr-mentions name p
            (ap (λ o. is_some (or_global o (lookup name p.global_manifests))) (at_top name)
              ∙ either-some (lookup name top) (lookup name p.global_manifests) m)
            e pure,
    )
