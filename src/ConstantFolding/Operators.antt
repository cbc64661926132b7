-- ===== src/ConstantFolding/Operators.antt =====
-- visit(BinaryOp&) and visit(UnaryOp&) of ConstantFoldingPass.cpp, on children that are folded.
-- The Boolean of a result tells whether the node is replaced by another.
use bcpl.Prelude.{
  ℕ, Bool, true, false, not, ◌&&◌, ◌||◌, Option, none, some, if◌then◌else◌, bit_or, Result, ok, err,
  undefined, ◌>>=◌,
}
use bcpl.Prelude.Int.{ℤ, pos, negsuc, pos_part, ltb_ℤ, wrap, signed}
use bcpl.Ast.{
  Expression, Operator, UnaryOperator, Number, integer, float, number_literal, binary_op, unary_op,
}
use bcpl.ConstantFolding.Constants.{
  Doubles, int64, eq_ℤ, le_ℤ, add_ℤ, sub_ℤ, mul_ℤ, quotient, remainder, shift_left, shift_right,
  truth, nonzero, evaluate_integer_constant, evaluate_float_constant,
}

abbrev pub is_shift : ℤ → Bool
is_shift b = not (ltb_ℤ b (pos 0)) && ltb_ℤ b (pos 64)

-- The least int64_t is -2^63; its quotient by -1 is no int64_t.
abbrev pub overflows : ℤ → ℤ → Bool
overflows a b = eq_ℤ a (negsuc 9223372036854775807) && eq_ℤ b (negsuc 0)

-- A quotient or a remainder: not foldable by zero.
abbrev pub divided : ℤ → ℤ → ℤ → Result (Option ℤ)
divided a b result =
    if eq_ℤ b (pos 0) then ok none else if overflows a b then err undefined else ok (some result)

abbrev pub shifted : ℤ → ℤ → Result (Option ℤ)
shifted b result = if is_shift b then ok (some result) else err undefined

-- The first switch; `none` where `foldable` is false.
unfoldable pub fold_integers : Operator → ℤ → ℤ → Result (Option ℤ)
unfolding int64 quotient remainder shift_left shift_right
fold_integers Operator.add a b = ok (some (int64 (add_ℤ a b)))
fold_integers Operator.subtract a b = ok (some (int64 (sub_ℤ a b)))
fold_integers Operator.multiply a b = ok (some (int64 (mul_ℤ a b)))
fold_integers Operator.divide a b = divided a b (quotient a b)
fold_integers Operator.remainder a b = divided a b (remainder a b)
fold_integers Operator.left_shift a b = shifted b (shift_left a (pos_part b))
fold_integers Operator.right_shift a b = shifted b (shift_right a (pos_part b))
fold_integers Operator.equal a b = ok (some (truth (eq_ℤ a b)))
fold_integers Operator.not_equal a b = ok (some (truth (not (eq_ℤ a b))))
fold_integers Operator.less a b = ok (some (truth (ltb_ℤ a b)))
fold_integers Operator.less_equal a b = ok (some (truth (le_ℤ a b)))
fold_integers Operator.greater a b = ok (some (truth (ltb_ℤ b a)))
fold_integers Operator.greater_equal a b = ok (some (truth (le_ℤ b a)))
fold_integers Operator.logical_and a b = ok (some (truth (nonzero a && nonzero b)))
fold_integers Operator.logical_or a b = ok (some (truth (nonzero a || nonzero b)))
fold_integers Operator.bitwise_or a b = ok (some (signed 64 (bit_or (wrap 64 a) (wrap 64 b))))
fold_integers Operator.equivalence a b = ok (some (truth (eq_ℤ a b)))
fold_integers Operator.not_equivalence a b = ok (some (truth (not (eq_ℤ a b))))
fold_integers _ a b = ok none

-- The second switch.
unfoldable pub fold_floats : Doubles → Operator → ℕ → ℕ → Option Number
fold_floats D Operator.float_add x y = some (float (D.plus x y))
fold_floats D Operator.float_subtract x y = some (float (D.minus x y))
fold_floats D Operator.float_multiply x y = some (float (D.times x y))
fold_floats D Operator.float_divide x y = if D.is_zero y then none else some (float (D.over x y))
fold_floats D Operator.float_equal x y = some (integer (truth (D.equals x y)))
fold_floats D Operator.float_not_equal x y = some (integer (truth (not (D.equals x y))))
fold_floats D Operator.float_less x y = some (integer (truth (D.below x y)))
fold_floats D Operator.float_less_equal x y = some (integer (truth (D.at_most x y)))
fold_floats D Operator.float_greater x y = some (integer (truth (D.below y x)))
fold_floats D Operator.float_greater_equal x y = some (integer (truth (D.at_most y x)))
fold_floats D _ x y = none

abbrev pub is_int : ℤ → Option ℤ → Bool
is_int v none = false
is_int v (some w) = eq_ℤ w v

-- The identities: the child or the literal that replaces the node. That of `X - X` asks for two
-- constants, which the first switch has folded.
unfoldable pub simplify :
    Operator → Expression → Expression → Option ℤ → Option ℤ → Option Expression
simplify Operator.add left right a b =
    if is_int (pos 0) a then some right else if is_int (pos 0) b then some left else none
simplify Operator.subtract left right a b = if is_int (pos 0) b then some left else none
simplify Operator.multiply left right a b =
    if is_int (pos 1) a
    then some right
    else if is_int (pos 1) b
    then some left
    else if is_int (pos 0) a || is_int (pos 0) b
    then some (number_literal (integer (pos 0)))
    else none
simplify Operator.divide left right a b = if is_int (pos 1) b then some left else none
simplify _ left right a b = none

abbrev pub both_ints : Operator → Option ℤ → Option ℤ → Result (Option ℤ)
both_ints op (some a) (some b) = fold_integers op a b
both_ints op _ _ = ok none

abbrev pub both_floats : Doubles → Operator → Option ℕ → Option ℕ → Option Number
both_floats D op (some x) (some y) = fold_floats D op x y
both_floats D op _ _ = none

abbrev pub replaced_by_float : Option Number → Expression → Bool × Expression
replaced_by_float (some n) e = (true, number_literal n)
replaced_by_float none e = (false, e)

abbrev pub replaced_by_child : Option Expression → Bool × Expression → Bool × Expression
replaced_by_child (some e) other = (true, e)
replaced_by_child none other = other

abbrev pub replaced_by_int : Option ℤ → Bool × Expression → Bool × Expression
replaced_by_int (some v) other = (true, number_literal (integer v))
replaced_by_int none other = other

unfoldable pub fold_binary :
    Doubles → Operator → Expression → Expression → Result (Bool × Expression)
unfolding fold_integers fold_floats simplify
fold_binary D op left right = do
  let a = evaluate_integer_constant left
  let b = evaluate_integer_constant right
  let x = evaluate_float_constant D left
  let y = evaluate_float_constant D right
  folded ← both_ints op a b
  ok (
      replaced_by_int folded (
        replaced_by_child (simplify op left right a b)
          (replaced_by_float (both_floats D op x y) (binary_op op left right))))

abbrev pub negated_float : Doubles → UnaryOperator → Option ℕ → Expression → Bool × Expression
negated_float D UnaryOperator.negate (some x) e = (true, number_literal (float (D.opposite x)))
negated_float D _ _ e = (false, e)

-- The least number is its own opposite, as it wraps around.
unfoldable pub fold_unary : Doubles → UnaryOperator → Expression → Option ℤ → Bool × Expression
unfolding int64
fold_unary D UnaryOperator.negate operand (some v) =
    (true, number_literal (integer (int64 (sub_ℤ (pos 0) v))))
fold_unary D UnaryOperator.logical_not operand (some v) =
    (true, number_literal (integer (truth (eq_ℤ v (pos 0)))))
fold_unary D op operand v =
    negated_float D op (evaluate_float_constant D operand) (unary_op op operand)
