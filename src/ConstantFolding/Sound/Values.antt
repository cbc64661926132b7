-- ===== src/ConstantFolding/Sound/Values.antt =====
-- The folded expression has the value of the original, in an environment that the known constants
-- and the manifest constants describe.
use bcpl.Prelude.{
  ◌≡◌, refl, sym, subst, ap, ◌∙◌, Bool, true, false, Option, none, some, some-injective, Text,
  Result, ok, err, ◌>>=◌, if◌then◌else◌,
}
use bcpl.Prelude.Int.{ℤ}
use bcpl.Prelude.Dict.{Dict, lookup}
use bcpl.Ast.{
  Expression, Operator, integer, float, number_literal, boolean_literal, variable_access, binary_op,
  unary_op, conditional,
}
use bcpl.ConstantFolding.Constants.{Doubles, evaluate_boolean_constant}
use bcpl.ConstantFolding.Operators.{fold_binary}
use bcpl.ConstantFolding.Pass.{Visited, Known, propagated, branch, accept}
use bcpl.ConstantFolding.Semantics.{InRange, Env, is_taken, eval, Pure}
use bcpl.ConstantFolding.Range.{bind-some, eval-InRange, is_taken-nonzero}
use bcpl.ConstantFolding.Sound.Operators.{Returns, fold_binary-eval, fold_unary-eval}

-- A property of what a computation returns, if it does.
abbrev pub Holds {ℓ κ} : {A : Type ℓ} → (A → Type κ) → Result A → Type κ
Holds P (ok a) = P a
Holds P (err e) = Unit

-- Each constant that is known is the value of its variable.
abbrev pub Agrees : Env → Dict ℤ → Type 0
Agrees env known = (name : Text) → (v : ℤ) → lookup name known ≡ some v → env name ≡ v

-- The visited expression has the value of `e`, where that has one.
abbrev pub Keeps : Env → Expression → Visited → Type 0
Keeps env e r = Agrees env r.2 × ((v : ℤ) → eval env e ≡ some v → eval env r.1 ≡ some v)

Holds->>= {ℓ κ} :
    {A B : Type ℓ} (P : A → Type κ) (Q : B → Type κ) (m : Result A) (f : A → Result B)
    → Holds P m
    → ((a : A) → P a → Holds Q (f a))
    → Holds Q (m >>= f)
Holds->>= P Q (err e) f h k = tt
Holds->>= P Q (ok a) f h k = k a h

Holds-all {ℓ} :
    {A : Type ℓ} {H : ℤ → Type 0} (P : ℤ → A → Type 0) (m : Result A)
    → ((v : ℤ) → H v → Returns (P v) m)
    → Holds (λ a. (v : ℤ) → H v → P v a) m
Holds-all P (err e) h = tt
Holds-all P (ok a) h = h

if-some :
    (b : Bool) (m n m' n' : Option ℤ) (v : ℤ)
    → (m ≡ some v → m' ≡ some v)
    → (n ≡ some v → n' ≡ some v)
    → (if b then m else n) ≡ some v
    → (if b then m' else n') ≡ some v
if-some true m n m' n' v h k e = h e
if-some false m n m' n' v h k e = k e

evaluate_boolean_constant-eval :
    (D : Doubles) (env : Env) (e : Expression) {b : Bool} {a : ℤ}
    → evaluate_boolean_constant D e ≡ some b
    → eval env e ≡ some a
    → is_taken a ≡ b
unfolding eval
evaluate_boolean_constant-eval D env (boolean_literal true) h k = absurd (cc)
evaluate_boolean_constant-eval D env (boolean_literal false) h k =
    ap is_taken (sym (some-injective k)) ∙ some-injective h
evaluate_boolean_constant-eval D env (number_literal (integer v)) h k =
    ap is_taken (sym (some-injective k)) ∙ (is_taken-nonzero v ∙ some-injective h)
evaluate_boolean_constant-eval D env (number_literal (float v)) h k = absurd (cc)
evaluate_boolean_constant-eval D env _ h k = absurd (cc)

propagated-eval :
    (env : Env) (name unique_name : Text) (c d : Option ℤ) {v : ℤ}
    → ((w : ℤ) → c ≡ some w → env name ≡ w)
    → ((w : ℤ) → d ≡ some w → env name ≡ w)
    → some (env name) ≡ some v
    → eval env (propagated name unique_name c d).1 ≡ some v
unfolding eval
propagated-eval env name unique_name (some w) d h k e = ap some (sym (h w refl)) ∙ e
propagated-eval env name unique_name none (some w) h k e = ap some (sym (k w refl)) ∙ e
propagated-eval env name unique_name none none h k e = e

module _ (D : Doubles) (env : Env) where
  -- The condition's value chooses the branch that folding keeps.
  branch-Keeps :
      (c t f c' : Expression) (b : Option Bool) (yes_branch no_branch both : Result Visited)
      → ((v : ℤ) → eval env c ≡ some v → eval env c' ≡ some v)
      → evaluate_boolean_constant D c' ≡ b
      → Holds (Keeps env t) yes_branch
      → Holds (Keeps env f) no_branch
      → Holds (Keeps env (conditional c t f)) both
      → Holds (Keeps env (conditional c t f)) (branch b yes_branch no_branch both)
  unfolding eval
  branch-Keeps c t f c' (some true) y n both kc q hy hn hb =
      Holds->>= (Keeps env t) (Keeps env (conditional c t f)) y _ hy (λ r (ag, kt). (
        ag,
        λ v e.
            let (a, ea, e1) = bind-some (eval env c) _ e in
            kt v (
              subst (λ b. (if b then eval env t else eval env f) ≡ some v)
                (evaluate_boolean_constant-eval D env c' q (kc a ea)) e1),
      ))
  branch-Keeps c t f c' (some false) y n both kc q hy hn hb =
      Holds->>= (Keeps env f) (Keeps env (conditional c t f)) n _ hn (λ r (ag, kf). (
        ag,
        λ v e.
            let (a, ea, e1) = bind-some (eval env c) _ e in
            kf v (
              subst (λ b. (if b then eval env t else eval env f) ≡ some v)
                (evaluate_boolean_constant-eval D env c' q (kc a ea)) e1),
      ))
  branch-Keeps c t f c' none y n both kc q hy hn hb = hb

  -- Children of the same value make a conditional of the same value.
  conditional-eval :
      (c t f c' t' f' : Expression) (v : ℤ)
      → ((v : ℤ) → eval env c ≡ some v → eval env c' ≡ some v)
      → ((v : ℤ) → eval env t ≡ some v → eval env t' ≡ some v)
      → ((v : ℤ) → eval env f ≡ some v → eval env f' ≡ some v)
      → eval env (conditional c t f) ≡ some v
      → eval env (conditional c' t' f') ≡ some v
  unfolding eval
  conditional-eval c t f c' t' f' v kc kt kf e =
      let (a, ea, e1) = bind-some (eval env c) _ e in
      rw (kc a ea) (
        if-some (is_taken a) (eval env t) (eval env f) (eval env t') (eval env f') v (kt v) (kf v)
          e1)

  binary-Keeps :
      (op : Operator) (left right left' right' : Expression) (known : Known)
      → ((name : Text) → InRange (env name))
      → Pure left
      → Pure right
      → Agrees env known
      → ((v : ℤ) → eval env left ≡ some v → eval env left' ≡ some v)
      → ((v : ℤ) → eval env right ≡ some v → eval env right' ≡ some v)
      → Holds
          (Keeps env (binary_op op left right))
          (fold_binary D op left' right' >>= λ r. ok (r.0, r.1, known))
  unfolding eval
  binary-Keeps op left right left' right' known hr p p' h kl kr =
      Holds->>=
        (λ (r : Bool × Expression).
          (v : ℤ) → eval env (binary_op op left right) ≡ some v → eval env r.1 ≡ some v)
        (Keeps env (binary_op op left right)) (fold_binary D op left' right') _
        (Holds-all (λ v r. eval env r.1 ≡ some v) (fold_binary D op left' right')
          (λ v q.
            let (a, ea, q1) = bind-some (eval env left) _ q in
            let (b, eb, q2) = bind-some (eval env right) _ q1 in
            fold_binary-eval D env op left' right' a b v (eval-InRange env left hr p a ea)
              (eval-InRange env right hr p' b eb) (kl a ea) (kr b eb) q2))
        (λ r k. (h, k))

  -- Folding keeps the value of an expression.
  pub accept-eval :
      (manifests : Dict ℤ)
      → ((name : Text) → InRange (env name))
      → Agrees env manifests
      → (e : Expression) (known : Known) → Pure e
      → Agrees env known
      → Holds (Keeps env e) (accept D manifests e known)
  unfolding accept eval Pure
  accept-eval ms hr hm (number_literal (integer w)) known p h = (h, λ v q. q)
  accept-eval ms hr hm (number_literal (float w)) known p h = absurd p
  accept-eval ms hr hm (boolean_literal b) known p h = (h, λ v q. q)
  accept-eval ms hr hm (variable_access name unique_name) known p h = (
    h,
    λ v.
        propagated-eval env name unique_name (lookup name known) (lookup name ms) (h name)
          (hm name),
  )
  accept-eval ms hr hm (unary_op op operand) known p h =
      Holds->>= (Keeps env operand) (Keeps env (unary_op op operand)) (accept D ms operand known) _
        (accept-eval ms hr hm operand known p h)
        (λ r (ag, k). (
          ag,
          λ v q.
              let (a, ea, e1) = bind-some (eval env operand) _ q in
              fold_unary-eval D env op r.1 (k a ea) e1,
        ))
  accept-eval ms hr hm (binary_op op left right) known (p, p') h =
      Holds->>= (Keeps env left) (Keeps env (binary_op op left right)) (accept D ms left known) _
        (accept-eval ms hr hm left known p h)
        (λ l (ag, kl).
          Holds->>= (Keeps env right) (Keeps env (binary_op op left right)) (accept D ms right l.2)
            _ (accept-eval ms hr hm right l.2 p' ag)
            (λ r (ag', kr). binary-Keeps op left right l.1 r.1 r.2 hr p p' ag' kl kr))
  accept-eval ms hr hm (conditional c t f) known (p, p', p'') h =
      Holds->>= (Keeps env c) (Keeps env (conditional c t f)) (accept D ms c known) _
        (accept-eval ms hr hm c known p h)
        (λ r (ag, kc).
          branch-Keeps c t f r.1 (evaluate_boolean_constant D r.1) (accept D ms t r.2)
            (accept D ms f r.2) _ kc refl (accept-eval ms hr hm t r.2 p' ag)
            (accept-eval ms hr hm f r.2 p'' ag)
            (Holds->>= (Keeps env t) (Keeps env (conditional c t f)) (accept D ms t r.2) _
              (accept-eval ms hr hm t r.2 p' ag)
              (λ u (ag', kt).
                Holds->>= (Keeps env f) (Keeps env (conditional c t f)) (accept D ms f u.2) _
                  (accept-eval ms hr hm f u.2 p'' ag')
                  (λ w (ag'', kf). (ag'', λ v. conditional-eval c t f r.1 u.1 w.1 v kc kt kf)))))
  accept-eval ms hr hm _ known p h = absurd p
