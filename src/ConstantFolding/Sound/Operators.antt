-- ===== src/ConstantFolding/Sound/Operators.antt =====
-- One operator folded, or simplified, on children whose values are known to be kept.
use bcpl.Prelude.{
  ℕ, ◌≡◌, refl, ap, Bool, true, false, not, ◌&&◌, Option, none, some, arith, Result, ok, err, ◌>>=◌,
}
use bcpl.Prelude.Int.{ℤ, pos_part}
use bcpl.Ast.{
  Expression, Operator, UnaryOperator, Number, integer, float, number_literal, boolean_literal,
  binary_op, unary_op,
}
use bcpl.ConstantFolding.Constants.{
  Doubles, quotient, remainder, shift_left, shift_right, nonzero, evaluate_integer_constant,
  evaluate_float_constant,
}
use bcpl.ConstantFolding.Operators.{
  is_shift, overflows, divided, shifted, fold_integers, fold_floats, both_ints, both_floats,
  replaced_by_int, replaced_by_child, replaced_by_float, negated_float, fold_binary, fold_unary,
}
use bcpl.ConstantFolding.Semantics.{InRange, Env, defined_if, eval_operator, eval_unary, eval}
use bcpl.ConstantFolding.Range.{fold_operator, eval_operator-folds, eval_unary-folds}
use bcpl.ConstantFolding.Sound.Identities.{Knows, Replaced, simplify-eval}

-- A computation returns a value with a property.
abbrev pub Returns {ℓ} : {A : Type ℓ} → (A → Type 0) → Result A → Type 0
Returns P (ok a) = P a
Returns P (err e) = ⊥

divided-eval :
    (a b r v : ℤ)
    → defined_if (nonzero b && not (overflows a b)) r ≡ some v
    → divided a b r ≡ ok (some v)
divided-eval a b r v h = ground arith

shifted-eval : (b r v : ℤ) → defined_if (is_shift b) r ≡ some v → shifted b r ≡ ok (some v)
shifted-eval b r v h = ground arith

-- Two constants are folded to the value of the operator.
fold_integers-eval :
    (op : Operator) (a b : ℤ) {v : ℤ}
    → fold_operator op a b ≡ some v
    → fold_integers op a b ≡ ok (some v)
unfolding fold_integers
fold_integers-eval Operator.add a b e = ap ok e
fold_integers-eval Operator.subtract a b e = ap ok e
fold_integers-eval Operator.multiply a b e = ap ok e
fold_integers-eval Operator.divide a b {v} e = divided-eval a b (quotient a b) v e
fold_integers-eval Operator.remainder a b {v} e = divided-eval a b (remainder a b) v e
fold_integers-eval Operator.left_shift a b {v} e = shifted-eval b (shift_left a (pos_part b)) v e
fold_integers-eval Operator.right_shift a b {v} e = shifted-eval b (shift_right a (pos_part b)) v e
fold_integers-eval Operator.equal a b e = ap ok e
fold_integers-eval Operator.not_equal a b e = ap ok e
fold_integers-eval Operator.less a b e = ap ok e
fold_integers-eval Operator.less_equal a b e = ap ok e
fold_integers-eval Operator.greater a b e = ap ok e
fold_integers-eval Operator.greater_equal a b e = ap ok e
fold_integers-eval Operator.logical_and a b e = ap ok e
fold_integers-eval Operator.logical_or a b e = ap ok e
fold_integers-eval Operator.bitwise_or a b e = ap ok e
fold_integers-eval Operator.equivalence a b e = ap ok e
fold_integers-eval Operator.not_equivalence a b e = ap ok e
fold_integers-eval _ a b e = absurd (cc)

-- The switch on doubles leaves alone the operators on integers.
fold_floats-none :
    (D : Doubles) (op : Operator) (a b : ℤ) (x y : ℕ) {v : ℤ}
    → fold_operator op a b ≡ some v
    → fold_floats D op x y ≡ none
unfolding fold_floats
fold_floats-none D Operator.float_add a b x y e = absurd (cc)
fold_floats-none D Operator.float_subtract a b x y e = absurd (cc)
fold_floats-none D Operator.float_multiply a b x y e = absurd (cc)
fold_floats-none D Operator.float_divide a b x y e = absurd (cc)
fold_floats-none D Operator.float_equal a b x y e = absurd (cc)
fold_floats-none D Operator.float_not_equal a b x y e = absurd (cc)
fold_floats-none D Operator.float_less a b x y e = absurd (cc)
fold_floats-none D Operator.float_less_equal a b x y e = absurd (cc)
fold_floats-none D Operator.float_greater a b x y e = absurd (cc)
fold_floats-none D Operator.float_greater_equal a b x y e = absurd (cc)
fold_floats-none D _ a b x y e = refl

both_floats-none :
    (D : Doubles) (op : Operator) (a b : ℤ) (x y : Option ℕ) {v : ℤ}
    → fold_operator op a b ≡ some v
    → both_floats D op x y ≡ none
both_floats-none D op a b (some x) (some y) e = fold_floats-none D op a b x y e
both_floats-none D op a b (some x) none e = refl
both_floats-none D op a b none y e = refl

-- The literal that an expression is tells its value.
pub evaluate_integer_constant-eval :
    (env : Env) (e : Expression) {c a : ℤ}
    → evaluate_integer_constant e ≡ some c
    → eval env e ≡ some a
    → c ≡ a
unfolding eval
evaluate_integer_constant-eval env (number_literal (integer v)) h k = cc
evaluate_integer_constant-eval env (number_literal (float v)) h k = absurd (cc)
evaluate_integer_constant-eval env (boolean_literal true) h k = absurd (cc)
evaluate_integer_constant-eval env (boolean_literal false) h k = cc
evaluate_integer_constant-eval env _ h k = absurd (cc)

-- The precedence of the three replacements.
replacements-eval :
    (env : Env) (e : Expression) {v : ℤ} (s : Option Expression) (x : Option Number)
    → Replaced env v s
    → x ≡ none
    → eval env e ≡ some v
    → eval env (replaced_by_child s (replaced_by_float x e)).1 ≡ some v
replacements-eval env e none none h p k = k
replacements-eval env e none (some n) h p k = absurd (cc)
replacements-eval env e (some e') x h p k = h

fold_cases :
    (env : Env) (op : Operator) (e : Expression) (c d : Option ℤ) (s : Option Expression)
    (x : Option Number) (a b v : ℤ)
    → Knows c a
    → Knows d b
    → eval_operator op a b ≡ some v
    → Replaced env v s
    → x ≡ none
    → eval env e ≡ some v
    → Returns
        (λ (r : Bool × Expression). eval env r.1 ≡ some v)
        (both_ints op c d >>= λ folded.
          ok (replaced_by_int folded (replaced_by_child s (replaced_by_float x e))))
unfolding eval
fold_cases env op e (some c) (some d) s x a b v kc kd q h p k =
    let q' : eval_operator op c d ≡ some v = rw (kc c refl, kd d refl) q in
    rw (fold_integers-eval op c d (eval_operator-folds op c d q')) refl
fold_cases env op e (some c) none s x a b v kc kd q h p k = replacements-eval env e s x h p k
fold_cases env op e none d s x a b v kc kd q h p k = replacements-eval env e s x h p k

-- An operator node is replaced by one of the same value.
pub fold_binary-eval :
    (D : Doubles) (env : Env) (op : Operator) (left right : Expression) (a b v : ℤ)
    → InRange a
    → InRange b
    → eval env left ≡ some a
    → eval env right ≡ some b
    → eval_operator op a b ≡ some v
    → Returns (λ r. eval env r.1 ≡ some v) (fold_binary D op left right)
unfolding fold_binary eval
fold_binary-eval D env op left right a b v ha hb ea eb e =
    let kc = λ (w : ℤ). λ (h : evaluate_integer_constant left ≡ some w).
      evaluate_integer_constant-eval env left h ea in
    let kd = λ (w : ℤ). λ (h : evaluate_integer_constant right ≡ some w).
      evaluate_integer_constant-eval env right h eb in
    let f = eval_operator-folds op a b e in
    fold_cases env op (binary_op op left right) (evaluate_integer_constant left)
      (evaluate_integer_constant right) _ _ a b v kc kd e
      (simplify-eval env op left right _ _ a b v kc kd ha hb ea eb f)
      (both_floats-none D op a b (evaluate_float_constant D left) (evaluate_float_constant D right)
        f)
      (rw (ea, eb) e)

-- A double is no value.
evaluate_float_constant-none :
    (D : Doubles) (env : Env) (e : Expression) {a : ℤ}
    → eval env e ≡ some a
    → evaluate_integer_constant e ≡ none
    → evaluate_float_constant D e ≡ none
unfolding eval
evaluate_float_constant-none D env (number_literal (integer w)) h n = absurd (cc)
evaluate_float_constant-none D env (number_literal (float w)) h n = absurd (cc)
evaluate_float_constant-none D env _ h n = refl

negated_float-none :
    (D : Doubles) (op : UnaryOperator) (x : Option ℕ) (e : Expression)
    → x ≡ none
    → negated_float D op x e ≡ (false, e)
negated_float-none D op (some x) e h = absurd (cc)
negated_float-none D UnaryOperator.negate none e h = refl
negated_float-none D _ none e h = refl

fold_unary-cases :
    (D : Doubles) (env : Env) (op : UnaryOperator) (operand : Expression) (c : Option ℤ) {a v : ℤ}
    → eval env operand ≡ some a
    → Knows c a
    → (c ≡ none → evaluate_float_constant D operand ≡ none)
    → eval_unary op a ≡ some v
    → eval env (fold_unary D op operand c).1 ≡ some v
unfolding fold_unary eval
fold_unary-cases D env UnaryOperator.negate operand none h k n e =
    rw
      (
        negated_float-none D UnaryOperator.negate (evaluate_float_constant D operand)
            (unary_op UnaryOperator.negate operand) (n refl),
        h,
      )
      e
fold_unary-cases D env _ operand none h k n e = absurd (cc)
fold_unary-cases D env UnaryOperator.negate operand (some c) {a} h k n e =
    rw (k c refl) (eval_unary-folds a e)
fold_unary-cases D env _ operand (some c) h k n e = absurd (cc)

pub fold_unary-eval :
    (D : Doubles) (env : Env) (op : UnaryOperator) (operand : Expression) {a v : ℤ}
    → eval env operand ≡ some a
    → eval_unary op a ≡ some v
    → eval env (fold_unary D op operand (evaluate_integer_constant operand)).1 ≡ some v
fold_unary-eval D env op operand h e =
    fold_unary-cases D env op operand (evaluate_integer_constant operand) h
      (λ w q. evaluate_integer_constant-eval env operand q h)
      (evaluate_float_constant-none D env operand h) e
