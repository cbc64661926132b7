-- ===== src/ConstantFolding/Sound/Total.antt =====
-- An expression whose parts all have values is folded without undefined behaviour.
use bcpl.Prelude.{
  ◌≡◌, refl, sym, subst, ◌∙◌, Bool, true, false, Option, none, some, Text, Result, ok, err,
  >>=-returns, if◌then◌else◌,
}
use bcpl.Prelude.Int.{ℤ}
use bcpl.Prelude.Dict.{Dict}
use bcpl.Ast.{
  Expression, Operator, integer, float, number_literal, boolean_literal, variable_access, binary_op,
  unary_op, conditional,
}
use bcpl.ConstantFolding.Constants.{Doubles, evaluate_boolean_constant}
use bcpl.ConstantFolding.Operators.{fold_binary}
use bcpl.ConstantFolding.Pass.{Visited, Known, branch, accept}
use bcpl.ConstantFolding.Semantics.{InRange, Env, is_taken, eval, Pure}
use bcpl.ConstantFolding.Range.{bind-some, eval-InRange}
use bcpl.ConstantFolding.Sound.Operators.{Returns, fold_binary-eval}
use bcpl.ConstantFolding.Sound.Values.{Holds, Agrees, Keeps, accept-eval}

abbrev pub Valued : Env → Expression → Type 0
Valued env e = (v : ℤ) × (eval env e ≡ some v)

-- Each part has a value that the generated code computes, also the branch of a conditional that is not taken.
unfoldable pub Defined : Env → Expression → Type 0
Defined env (binary_op op left right) =
    Defined env left × Defined env right × Valued env (binary_op op left right)
Defined env (unary_op op operand) = Defined env operand × Valued env (unary_op op operand)
Defined env (conditional c t f) = Defined env c × Defined env t × Defined env f
Defined env (boolean_literal b) = Valued env (boolean_literal b)
Defined env _ = Unit

Holds-ok {ℓ κ} : {A : Type ℓ} (P : A → Type κ) (m : Result A) {a : A} → Holds P m → m ≡ ok a → P a
Holds-ok P (err e) h q = absurd (cc)
Holds-ok P (ok b) h q = subst P (cc) h

Returns-ok {ℓ} : {A : Type ℓ} (P : A → Type 0) (m : Result A) → Returns P m → (a : A) × (m ≡ ok a)
Returns-ok P (err e) h = absurd h
Returns-ok P (ok b) h = (b, refl)

if-Valued :
    (b : Bool) {m n : Option ℤ}
    → ((v : ℤ) × (m ≡ some v))
    → ((v : ℤ) × (n ≡ some v))
    → (v : ℤ) × ((if b then m else n) ≡ some v)
if-Valued true h k = h
if-Valued false h k = k

Defined-Valued : (env : Env) (e : Expression) → Pure e → Defined env e → Valued env e
unfolding Defined eval Pure
Defined-Valued env (number_literal (integer w)) p d = (w, refl)
Defined-Valued env (number_literal (float w)) p d = absurd p
Defined-Valued env (boolean_literal b) p d = d
Defined-Valued env (variable_access name unique_name) p d = (env name, refl)
Defined-Valued env (binary_op op left right) p (d, d', v) = v
Defined-Valued env (unary_op op operand) p (d, v) = v
Defined-Valued env (conditional c t f) (p, p', p'') (d, d', d'') =
    let (a, ea) = Defined-Valued env c p d in
    rw ea (if-Valued (is_taken a) (Defined-Valued env t p' d') (Defined-Valued env f p'' d''))
Defined-Valued env _ p d = absurd p

binary-returns :
    (D : Doubles) (env : Env) (op : Operator) (left right left' right' : Expression) (v : ℤ)
    → ((name : Text) → InRange (env name))
    → Pure left
    → Pure right
    → ((v : ℤ) → eval env left ≡ some v → eval env left' ≡ some v)
    → ((v : ℤ) → eval env right ≡ some v → eval env right' ≡ some v)
    → eval env (binary_op op left right) ≡ some v
    → (r : Bool × Expression) × (fold_binary D op left' right' ≡ ok r)
unfolding eval
binary-returns D env op left right left' right' v hr p p' kl kr q =
    let (a, ea, q1) = bind-some (eval env left) _ q in
    let (b, eb, q2) = bind-some (eval env right) _ q1 in
    Returns-ok (λ r. eval env r.1 ≡ some v) (fold_binary D op left' right')
      (fold_binary-eval D env op left' right' a b v (eval-InRange env left hr p a ea)
        (eval-InRange env right hr p' b eb) (kl a ea) (kr b eb) q2)

branch-returns :
    (b : Option Bool) {yes_branch no_branch both : Result Visited}
    → ((r : Visited) × (yes_branch ≡ ok r))
    → ((r : Visited) × (no_branch ≡ ok r))
    → ((r : Visited) × (both ≡ ok r))
    → (r : Visited) × (branch b yes_branch no_branch both ≡ ok r)
branch-returns (some true) (r, e) n both = >>=-returns _ e (_, refl)
branch-returns (some false) y (r, e) both = >>=-returns _ e (_, refl)
branch-returns none y n both = both

module _ (D : Doubles) (env : Env) (manifests : Dict ℤ) (hr : (name : Text) → InRange (env name))
    (hm : Agrees env manifests) where
  accept-returns :
      (e : Expression) (known : Known)
      → Pure e
      → Defined env e
      → Agrees env known
      → (r : Visited) × (accept D manifests e known ≡ ok r)
  unfolding accept Pure Defined
  accept-returns (number_literal (integer w)) known p d h = (_, refl)
  accept-returns (number_literal (float w)) known p d h = absurd p
  accept-returns (boolean_literal b) known p d h = (_, refl)
  accept-returns (variable_access name unique_name) known p d h = (_, refl)
  accept-returns (unary_op op operand) known p (d, v) h =
      let (r, e) = accept-returns operand known p d h in >>=-returns _ e (_, refl)
  accept-returns (binary_op op left right) known (p, p') (d, d', (v, ev)) h =
      let (l, el) = accept-returns left known p d h in
      let (ag, kl) =
        Holds-ok (Keeps env left) _ (accept-eval D env manifests hr hm left known p h) el in
      let (r, er) = accept-returns right l.2 p' d' ag in
      let (ag', kr) =
        Holds-ok (Keeps env right) _ (accept-eval D env manifests hr hm right l.2 p' ag) er in
      let (f, ef) = binary-returns D env op left right l.1 r.1 v hr p p' kl kr ev in
      >>=-returns _ el (>>=-returns _ er (>>=-returns _ ef (_, refl)))
  accept-returns (conditional c t f) known (p, p', p'') (d, d', d'') h =
      let (r, e) = accept-returns c known p d h in
      let (ag, kc) = Holds-ok (Keeps env c) _ (accept-eval D env manifests hr hm c known p h) e in
      let (u, eu) = accept-returns t r.2 p' d' ag in
      let (ag', kt) = Holds-ok (Keeps env t) _ (accept-eval D env manifests hr hm t r.2 p' ag) eu in
      >>=-returns _ e (
        branch-returns (evaluate_boolean_constant D r.1) (u, eu) (accept-returns f r.2 p'' d'' ag)
          (>>=-returns _ eu
            (let (w, ew) = accept-returns f u.2 p'' d'' ag' in >>=-returns _ ew (_, refl))))
  accept-returns _ known p d h = absurd p

  -- In an environment of 64-bit values, which the known constants and the manifest constants describe:
  -- an expression of integers, FALSE, variables, operators and conditionals, each part of which has a
  -- value that the generated code computes and that folding means to keep, is folded without an error,
  -- the folded expression has the value of the original, and the constants that are known then describe
  -- the environment as well. No value have TRUE, the unary operators but negation, the logical and
  -- bitwise operators, the comparisons but `~=`, right shifts of negative numbers, shifts by less than 0
  -- or more than 63, undefined quotients, and the operators on doubles.
  pub accept-value :
      (e : Expression) (known : Known)
      → Pure e
      → Defined env e
      → Agrees env known
      → (r : Visited) × (accept D manifests e known ≡ ok r)
        × (eval env r.1 ≡ eval env e)
        × Agrees env r.2
  accept-value e known p d h =
      let (r, q) = accept-returns e known p d h in
      let (v, ev) = Defined-Valued env e p d in
      let (ag, k) = Holds-ok (Keeps env e) _ (accept-eval D env manifests hr hm e known p h) q in
      (r, q, k v ev ∙ sym ev, ag)
