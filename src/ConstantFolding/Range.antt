-- ===== src/ConstantFolding/Range.antt =====
-- Expressions over 64-bit integers have 64-bit values.
use bcpl.Prelude.{
  ℕ, zero, suc, ◌*◌, ◌/◌, ◌%◌, ◌^◌, ◌<◌, ◌≤◌, ◌≡◌, ◌∙◌, refl, sym, ap, subst, Bool, true, false,
  not, ◌&&◌, ◌||◌, inl, inr, ◌⊎◌, Option, none, some, some-injective, Text, bit_or, arith, same,
  if◌then◌else◌,
}
use bcpl.Prelude.Int.{ℤ, pos, negsuc, pos_part, ltb_ℤ, wrap, signed}
use bcpl.Ast.{
  Expression, Operator, UnaryOperator, integer, float, number_literal, boolean_literal,
  variable_access, binary_op, unary_op, conditional,
}
use bcpl.ConstantFolding.Constants.{
  int64, eq_ℤ, le_ℤ, add_ℤ, sub_ℤ, mul_ℤ, magnitude, is_negative, with_sign, quotient, remainder,
  shift_left, shift_right, truth, nonzero,
}
use bcpl.ConstantFolding.Semantics.{
  InRange, Env, defined_if, opposite, sum, product, toward_zero, left_over, divisible, differ,
  is_taken, in_register, shifted_left, shifted_right, eval_operator, eval_unary, bind, eval, Pure,
}
use bcpl.ConstantFolding.Operators.{is_shift, overflows}

pub truth-InRange : (b : Bool) → InRange (truth b)
truth-InRange true = omega arith
truth-InRange false = omega arith

pub signed-InRange : (n : ℕ) → InRange (signed 64 n)
signed-InRange n = ground arith

pub int64-InRange : (a : ℤ) → InRange (int64 a)
unfolding int64
int64-InRange a = signed-InRange (wrap 64 a)

pub int64-of-InRange : (a : ℤ) → InRange a → int64 a ≡ a
unfolding int64
int64-of-InRange (pos n) h = ground arith
int64-of-InRange (negsuc n) h = ground arith

div-mul-le : (n m : ℕ) → n / m * m ≤ n
div-mul-le n m = grind arith

div-le : (n m : ℕ) → n / m ≤ n
div-le n m = grind arith

-- A quotient by 2 or more is at most the half.
div-half : (n m : ℕ) → 2 ≤ m → n / m * 2 ≤ n
div-half n m h = grind (arith, div-mul-le n m)

mod-le : (n m : ℕ) → n % m ≤ n
mod-le n m = grind arith

with_sign-InRange :
    (s : Bool) (n : ℕ) → n ≤ 2 ^ 63 → (s ≡ false → n < 2 ^ 63) → InRange (with_sign s n)
with_sign-InRange true n h k = ground arith
with_sign-InRange false n h k = let k' = k refl in omega arith

magnitude-le : (a : ℤ) → InRange a → magnitude a ≤ 2 ^ 63
magnitude-le (pos n) h = omega arith
magnitude-le (negsuc n) h = omega arith

-- Only the least number has a magnitude that is no int64_t, and it is not divided by -1.
magnitude-small :
    (a b : ℤ)
    → InRange a
    → overflows a b ≡ false
    → not (same (is_negative a) (is_negative b)) ≡ false
    → (magnitude a < 2 ^ 63) ⊎ (2 ≤ magnitude b)
magnitude-small (pos m) b h o s = inl (omega arith)
magnitude-small (negsuc m) (pos n) h o s = absurd (ground arith)
magnitude-small (negsuc m) (negsuc n) h o s = ground arith

quotient-InRange : (a b : ℤ) → InRange a → overflows a b ≡ false → InRange (quotient a b)
unfolding quotient
quotient-InRange a b h o =
    let m = magnitude-le a h in
    let d = div-le (magnitude a) (magnitude b) in
    with_sign-InRange (not (same (is_negative a) (is_negative b))) (magnitude a / magnitude b)
      (omega arith)
      (λ s. elim (magnitude-small a b h o s) [
        | inl small ↦ omega arith
        | inr two ↦ omega (arith, div-half (magnitude a) (magnitude b) two)
      ])

remainder_small : (a b : ℤ) → InRange a → is_negative a ≡ false → magnitude a < 2 ^ 63
remainder_small (pos n) b h s = omega arith
remainder_small (negsuc n) b h s = absurd (ground arith)

remainder-InRange : (a b : ℤ) → InRange a → InRange (remainder a b)
unfolding remainder
remainder-InRange a b h =
    let m = magnitude-le a h in
    let d = mod-le (magnitude a) (magnitude b) in
    with_sign-InRange (is_negative a) (magnitude a % magnitude b) (omega arith)
      (λ s. let small = remainder_small a b h s in omega arith)

shift_right-InRange : (a : ℤ) (k : ℕ) → InRange a → InRange (shift_right a k)
unfolding shift_right
shift_right-InRange (pos n) k h = let d = div-le n (2 ^ k) in omega arith
shift_right-InRange (negsuc n) k h = let d = div-le n (2 ^ k) in omega arith

shift_left-InRange : (a : ℤ) (k : ℕ) → InRange (shift_left a k)
unfolding shift_left
shift_left-InRange a k = int64-InRange (mul_ℤ a (pos (2 ^ k)))

pub defined_if-some : (b : Bool) {v w : ℤ} → defined_if b v ≡ some w → (b ≡ true) × (v ≡ w)
defined_if-some true e = (refl, some-injective e)
defined_if-some false e = absurd (cc)

-- What the fold computes of two constants.
abbrev pub fold_operator : Operator → ℤ → ℤ → Option ℤ
fold_operator Operator.add a b = some (int64 (add_ℤ a b))
fold_operator Operator.subtract a b = some (int64 (sub_ℤ a b))
fold_operator Operator.multiply a b = some (int64 (mul_ℤ a b))
fold_operator Operator.divide a b = defined_if (nonzero b && not (overflows a b)) (quotient a b)
fold_operator Operator.remainder a b = defined_if (nonzero b && not (overflows a b)) (remainder a b)
fold_operator Operator.left_shift a b = defined_if (is_shift b) (shift_left a (pos_part b))
fold_operator Operator.right_shift a b = defined_if (is_shift b) (shift_right a (pos_part b))
fold_operator Operator.equal a b = some (truth (eq_ℤ a b))
fold_operator Operator.not_equal a b = some (truth (not (eq_ℤ a b)))
fold_operator Operator.less a b = some (truth (ltb_ℤ a b))
fold_operator Operator.less_equal a b = some (truth (le_ℤ a b))
fold_operator Operator.greater a b = some (truth (ltb_ℤ b a))
fold_operator Operator.greater_equal a b = some (truth (le_ℤ b a))
fold_operator Operator.logical_and a b = some (truth (nonzero a && nonzero b))
fold_operator Operator.logical_or a b = some (truth (nonzero a || nonzero b))
fold_operator Operator.bitwise_or a b = some (signed 64 (bit_or (wrap 64 a) (wrap 64 b)))
fold_operator Operator.equivalence a b = some (truth (eq_ℤ a b))
fold_operator Operator.not_equivalence a b = some (truth (not (eq_ℤ a b)))
fold_operator _ a b = none

-- An operator takes 64-bit integers to a 64-bit integer.
pub fold_operator-InRange :
    (op : Operator) (a b : ℤ) {v : ℤ}
    → InRange a
    → InRange b
    → fold_operator op a b ≡ some v
    → InRange v
fold_operator-InRange Operator.add a b h k e = subst InRange (some-injective e) (int64-InRange _)
fold_operator-InRange Operator.subtract a b h k e =
    subst InRange (some-injective e) (int64-InRange _)
fold_operator-InRange Operator.multiply a b h k e =
    subst InRange (some-injective e) (int64-InRange _)
fold_operator-InRange Operator.divide a b h k e =
    let (ok_div, q) = defined_if-some (nonzero b && not (overflows a b)) e in
    subst InRange q (quotient-InRange a b h (ground arith))
fold_operator-InRange Operator.remainder a b h k e =
    let (ok_div, q) = defined_if-some (nonzero b && not (overflows a b)) e in
    subst InRange q (remainder-InRange a b h)
fold_operator-InRange Operator.left_shift a b h k e =
    subst InRange (defined_if-some (is_shift b) e).1 (shift_left-InRange a (pos_part b))
fold_operator-InRange Operator.right_shift a b h k e =
    subst InRange (defined_if-some (is_shift b) e).1 (shift_right-InRange a (pos_part b) h)
fold_operator-InRange Operator.bitwise_or a b h k e =
    subst InRange (some-injective e) (signed-InRange (bit_or (wrap 64 a) (wrap 64 b)))
fold_operator-InRange Operator.equal a b h k e = subst InRange (some-injective e) (truth-InRange _)
fold_operator-InRange Operator.not_equal a b h k e =
    subst InRange (some-injective e) (truth-InRange _)
fold_operator-InRange Operator.less a b h k e = subst InRange (some-injective e) (truth-InRange _)
fold_operator-InRange Operator.less_equal a b h k e =
    subst InRange (some-injective e) (truth-InRange _)
fold_operator-InRange Operator.greater a b h k e =
    subst InRange (some-injective e) (truth-InRange _)
fold_operator-InRange Operator.greater_equal a b h k e =
    subst InRange (some-injective e) (truth-InRange _)
fold_operator-InRange Operator.logical_and a b h k e =
    subst InRange (some-injective e) (truth-InRange _)
fold_operator-InRange Operator.logical_or a b h k e =
    subst InRange (some-injective e) (truth-InRange _)
fold_operator-InRange Operator.equivalence a b h k e =
    subst InRange (some-injective e) (truth-InRange _)
fold_operator-InRange Operator.not_equivalence a b h k e =
    subst InRange (some-injective e) (truth-InRange _)
fold_operator-InRange _ a b h k e = absurd (cc)

sum-add : (a b : ℤ) → sum a b ≡ add_ℤ a b
sum-add (pos n) (pos m) = ground arith
sum-add (pos n) (negsuc m) = ground arith
sum-add (negsuc n) (pos m) = ground arith
sum-add (negsuc n) (negsuc m) = ground arith

sum-sub : (a b : ℤ) → sum a (opposite b) ≡ sub_ℤ a b
sum-sub (pos n) (pos zero) = ground arith
sum-sub (pos n) (pos (suc m)) = ground arith
sum-sub (pos n) (negsuc m) = ground arith
sum-sub (negsuc n) (pos zero) = ground arith
sum-sub (negsuc n) (pos (suc m)) = ground arith
sum-sub (negsuc n) (negsuc m) = ground arith

pub product-mul : (a b : ℤ) → product a b ≡ mul_ℤ a b
product-mul (pos n) (pos m) = ground arith
product-mul (pos n) (negsuc m) = ground arith
product-mul (negsuc n) (pos m) = ground arith
product-mul (negsuc n) (negsuc m) = ground arith

toward_zero-quotient : (a b : ℤ) → toward_zero a b ≡ quotient a b
unfolding quotient
toward_zero-quotient (pos n) (pos m) = ground arith
toward_zero-quotient (pos n) (negsuc m) = ground arith
toward_zero-quotient (negsuc n) (pos m) = ground arith
toward_zero-quotient (negsuc n) (negsuc m) = ground arith

left_over-remainder : (a b : ℤ) → left_over a b ≡ remainder a b
unfolding remainder
left_over-remainder (pos n) (pos m) = ground arith
left_over-remainder (pos n) (negsuc m) = ground arith
left_over-remainder (negsuc n) (pos m) = ground arith
left_over-remainder (negsuc n) (negsuc m) = ground arith

divisible_lem : (a b : ℤ) → divisible a b ≡ (nonzero b && not (overflows a b))
divisible_lem (pos n) (pos m) = ground arith
divisible_lem (negsuc n) (pos m) = ground arith
divisible_lem (pos n) (negsuc m) = ground arith
divisible_lem (negsuc n) (negsuc m) = ground arith

differ_lem : (a b : ℤ) → differ a b ≡ not (eq_ℤ a b)
differ_lem (pos n) (pos m) = ground arith
differ_lem (negsuc n) (pos m) = ground arith
differ_lem (pos n) (negsuc m) = ground arith
differ_lem (negsuc n) (negsuc m) = ground arith

pub is_taken-nonzero : (a : ℤ) → is_taken a ≡ nonzero a
is_taken-nonzero (pos n) = ground arith
is_taken-nonzero (negsuc n) = ground arith

opposite-sub : (a : ℤ) → opposite a ≡ sub_ℤ (pos 0) a
opposite-sub (pos n) = ground arith
opposite-sub (negsuc n) = ground arith

shifted_left-folds :
    (a b : ℤ) {v : ℤ}
    → shifted_left a b ≡ some v
    → defined_if (is_shift b) (shift_left a (pos_part b)) ≡ some v
unfolding shift_left int64
shifted_left-folds a (pos k) {v} e = let f = rw (product-mul a (pos (2 ^ k))) at e in ground arith
shifted_left-folds a (negsuc k) e = absurd (cc)

shifted_right-folds :
    (a b : ℤ) {v : ℤ}
    → shifted_right a b ≡ some v
    → defined_if (is_shift b) (shift_right a (pos_part b)) ≡ some v
unfolding shift_right
shifted_right-folds (pos n) (pos k) e = ground arith
shifted_right-folds (pos n) (negsuc k) e = absurd (cc)
shifted_right-folds (negsuc n) (pos k) e = absurd (cc)
shifted_right-folds (negsuc n) (negsuc k) e = absurd (cc)

-- Where the generated code has a value, the fold has the same.
pub eval_operator-folds :
    (op : Operator) (a b : ℤ) {v : ℤ}
    → eval_operator op a b ≡ some v
    → fold_operator op a b ≡ some v
unfolding int64
eval_operator-folds Operator.add a b e =
    ap (λ (x : ℤ). some (in_register x)) (sym (sum-add a b)) ∙ e
eval_operator-folds Operator.subtract a b e =
    ap (λ (x : ℤ). some (in_register x)) (sym (sum-sub a b)) ∙ e
eval_operator-folds Operator.multiply a b e =
    ap (λ (x : ℤ). some (in_register x)) (sym (product-mul a b)) ∙ e
eval_operator-folds Operator.divide a b e =
    rw (sym (divisible_lem a b), sym (toward_zero-quotient a b)) e
eval_operator-folds Operator.remainder a b e =
    rw (sym (divisible_lem a b), sym (left_over-remainder a b)) e
eval_operator-folds Operator.left_shift a b e = shifted_left-folds a b e
eval_operator-folds Operator.right_shift a b e = shifted_right-folds a b e
eval_operator-folds Operator.not_equal a b e =
    ap (λ (t : Bool). some (truth t)) (sym (differ_lem a b)) ∙ e
eval_operator-folds _ a b e = absurd (cc)

pub eval_unary-folds :
    (a : ℤ) {v : ℤ}
    → some (in_register (opposite a)) ≡ some v
    → some (int64 (sub_ℤ (pos 0) a)) ≡ some v
unfolding int64
eval_unary-folds a e = ap (λ (x : ℤ). some (in_register x)) (sym (opposite-sub a)) ∙ e

pub eval_unary-InRange : (op : UnaryOperator) (a : ℤ) {v : ℤ} → eval_unary op a ≡ some v → InRange v
eval_unary-InRange UnaryOperator.negate a e = subst InRange (some-injective e) (signed-InRange _)
eval_unary-InRange _ a e = absurd (cc)

-- A bound computation that has a value has one at each step.
pub bind-some {ℓ} :
    {A : Type ℓ} (m : Option A) (f : A → Option A) {v : A}
    → bind m f ≡ some v
    → (a : A) × (m ≡ some a) × (f a ≡ some v)
bind-some none f e = absurd (cc)
bind-some (some a) f e = (a, refl, e)

pub if-InRange :
    (b : Bool) (m n : Option ℤ) {v : ℤ}
    → ((w : ℤ) → m ≡ some w → InRange w)
    → ((w : ℤ) → n ≡ some w → InRange w)
    → (if b then m else n) ≡ some v
    → InRange v
if-InRange true m n {v} h k e = h v e
if-InRange false m n {v} h k e = k v e

-- Expressions of 64-bit variables have 64-bit values.
pub eval-InRange :
    (env : Env) (e : Expression)
    → ((name : Text) → InRange (env name))
    → Pure e
    → (v : ℤ) → eval env e ≡ some v
    → InRange v
unfolding eval Pure
eval-InRange env (number_literal (integer w)) h p v q = subst InRange (some-injective q) p
eval-InRange env (number_literal (float w)) h p v q = absurd (cc)
eval-InRange env (boolean_literal true) h p v q = absurd (cc)
eval-InRange env (boolean_literal false) h p v q =
    subst InRange (some-injective q) (truth-InRange false)
eval-InRange env (variable_access name unique_name) h p v q =
    subst InRange (some-injective q) (h name)
eval-InRange env (binary_op op left right) h (p, p') v q =
    let (a, qa, q1) = bind-some (eval env left) _ q in
    let (b, qb, q2) = bind-some (eval env right) _ q1 in
    fold_operator-InRange op a b (eval-InRange env left h p a qa) (eval-InRange env right h p' b qb)
      (eval_operator-folds op a b q2)
eval-InRange env (unary_op op operand) h p v q =
    let (a, qa, q1) = bind-some (eval env operand) _ q in eval_unary-InRange op a q1
eval-InRange env (conditional c t f) h (p, p', p'') v q =
    let (a, qa, q1) = bind-some (eval env c) _ q in
    if-InRange (is_taken a) (eval env t) (eval env f) (eval-InRange env t h p')
      (eval-InRange env f h p'') q1
eval-InRange env _ h p v q = absurd (cc)
