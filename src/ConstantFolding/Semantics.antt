-- ===== src/ConstantFolding/Semantics.antt =====
-- The values of expressions over 64-bit integers that the generated code computes, where folding
-- means to keep them, and the range of 64-bit integers.
use bcpl.Prelude.{
  suc, ◌+◌, ◌*◌, ◌/◌, ◌%◌, ◌^◌, ◌<◌, ◌≤◌, Bool, true, false, not, ◌&&◌, Option, none, some, Text,
  ltb, ◌==◌, if◌then◌else◌,
}
use bcpl.Prelude.Int.{ℤ, pos, negsuc, pos_part, neg_part, sub_ℕ, negate, wrap, signed}
use bcpl.Ast.{
  Expression, Operator, UnaryOperator, integer, number_literal, boolean_literal, variable_access,
  binary_op, unary_op, conditional,
}

-- The values of an int64_t.
abbrev pub InRange : ℤ → Type 0
InRange a = (pos_part a < 2 ^ 63) × (neg_part a ≤ 2 ^ 63)

abbrev pub Env : Type 0
Env = Text → ℤ

abbrev pub defined_if : Bool → ℤ → Option ℤ
defined_if b v = if b then some v else none

-- Sums, differences, products, quotients toward zero and their remainders, by cases of the signs.
abbrev pub opposite : ℤ → ℤ
opposite (pos n) = negate n
opposite (negsuc n) = pos (suc n)

abbrev pub sum : ℤ → ℤ → ℤ
sum (pos n) (pos m) = pos (n + m)
sum (pos n) (negsuc m) = sub_ℕ n (suc m)
sum (negsuc n) (pos m) = sub_ℕ m (suc n)
sum (negsuc n) (negsuc m) = negsuc (suc (n + m))

abbrev pub product : ℤ → ℤ → ℤ
product (pos n) (pos m) = pos (n * m)
product (pos n) (negsuc m) = negate (n * suc m)
product (negsuc n) (pos m) = negate (suc n * m)
product (negsuc n) (negsuc m) = pos (suc n * suc m)

abbrev pub toward_zero : ℤ → ℤ → ℤ
toward_zero (pos n) (pos m) = pos (n / m)
toward_zero (pos n) (negsuc m) = negate (n / suc m)
toward_zero (negsuc n) (pos m) = negate (suc n / m)
toward_zero (negsuc n) (negsuc m) = pos (suc n / suc m)

abbrev pub left_over : ℤ → ℤ → ℤ
left_over (pos n) (pos m) = pos (n % m)
left_over (pos n) (negsuc m) = pos (n % suc m)
left_over (negsuc n) (pos m) = negate (suc n % m)
left_over (negsuc n) (negsuc m) = negate (suc n % suc m)

-- Whether the quotient is a 64-bit integer: not by 0, and not of the least number by -1.
abbrev pub divisible : ℤ → ℤ → Bool
divisible a (pos m) = not (m == 0)
divisible (pos n) (negsuc m) = true
divisible (negsuc n) (negsuc m) = not (n == 9223372036854775807 && m == 0)

abbrev pub differ : ℤ → ℤ → Bool
differ (pos n) (pos m) = not (n == m)
differ (negsuc n) (negsuc m) = not (n == m)
differ a b = true

-- CMP with zero, and a branch on EQ.
abbrev pub is_taken : ℤ → Bool
is_taken (pos n) = not (n == 0)
is_taken (negsuc n) = true

-- A 64-bit register keeps the last 64 bits.
abbrev pub in_register : ℤ → ℤ
in_register a = signed 64 (wrap 64 a)

-- LSL by the lower bits of the amount, and LSR of a number that is not negative.
abbrev pub shifted_left : ℤ → ℤ → Option ℤ
shifted_left a (pos k) = defined_if (ltb k 64) (in_register (product a (pos (2 ^ k))))
shifted_left a (negsuc k) = none

abbrev pub shifted_right : ℤ → ℤ → Option ℤ
shifted_right (pos n) (pos k) = defined_if (ltb k 64) (pos (n / 2 ^ k))
shifted_right a b = none

-- What the instructions compute that visit(BinaryOp&) of NewCodeGenerator.cpp emits: ADD, SUB, MUL,
-- SDIV, the remainder of SDIV, LSL, LSR, and CSETM on NE. There is no value where the fold is
-- undefined or the fold and the code do not agree: for quotients that are no 64-bit integers, shifts
-- by less than 0 or more than 63, shifts of negative numbers to the right, for which the code has LSR,
-- and the comparisons and connectives for which the code has 1 for TRUE.
abbrev pub eval_operator : Operator → ℤ → ℤ → Option ℤ
eval_operator Operator.add a b = some (in_register (sum a b))
eval_operator Operator.subtract a b = some (in_register (sum a (opposite b)))
eval_operator Operator.multiply a b = some (in_register (product a b))
eval_operator Operator.divide a b = defined_if (divisible a b) (toward_zero a b)
eval_operator Operator.remainder a b = defined_if (divisible a b) (left_over a b)
eval_operator Operator.left_shift a b = shifted_left a b
eval_operator Operator.right_shift a b = shifted_right a b
eval_operator Operator.not_equal a b = some (if differ a b then negsuc 0 else pos 0)
eval_operator _ a b = none

-- SUB from the zero register; NOT has 1 for TRUE in the code.
abbrev pub eval_unary : UnaryOperator → ℤ → Option ℤ
eval_unary UnaryOperator.negate a = some (in_register (opposite a))
eval_unary _ a = none

abbrev pub bind {ℓ} : {A : Type ℓ} → Option A → (A → Option A) → Option A
bind none f = none
bind (some a) f = f a

-- The code loads 1 for TRUE, where folding has -1: TRUE has no value here.
unfoldable pub eval : Env → Expression → Option ℤ
eval env (number_literal (integer v)) = some v
eval env (boolean_literal false) = some (pos 0)
eval env (variable_access name unique_name) = some (env name)
eval env (binary_op op left right) =
    bind (eval env left) (λ a. bind (eval env right) (λ b. eval_operator op a b))
eval env (unary_op op operand) = bind (eval env operand) (eval_unary op)
eval env (conditional c t f) =
    let yes_value = eval env t in
    let no_value = eval env f in bind (eval env c) (λ b. if is_taken b then yes_value else no_value)
eval env _ = none

-- Expressions over integers without calls, doubles, vectors and blocks.
unfoldable pub Pure : Expression → Type 0
Pure (number_literal (integer v)) = InRange v
Pure (boolean_literal b) = Unit
Pure (variable_access name unique_name) = Unit
Pure (binary_op op left right) = Pure left × Pure right
Pure (unary_op op operand) = Pure operand
Pure (conditional c t f) = Pure c × Pure t × Pure f
Pure _ = ⊥
