-- ===== src/ConstantFolding/Constants.antt =====
-- 64-bit integers and constants: the arithmetic of ConstantFoldingPass.cpp and its three evaluators.
-- An int64_t that overflows wraps around, as the compilers make it; shifts by less than 0 or more
-- than 63 and the quotient of the least number by -1 are undefined.
use bcpl.Prelude.{
  ℕ, ◌+◌, ◌*◌, ◌/◌, ◌%◌, ◌^◌, Bool, not, same, Option, none, some, ◌==◌, if◌then◌else◌,
}
use bcpl.Prelude.Int.{ℤ, pos, negsuc, pos_part, neg_part, sub_ℕ, ltb_ℤ, wrap, signed}
use bcpl.Ast.{Expression, integer, float, number_literal, boolean_literal}

-- Operations on doubles, given by their patterns; this is the machine's floating-point unit.
pub record Doubles : Type 0 where
  pub of_int : ℤ → ℕ
  pub opposite : ℕ → ℕ
  pub plus : ℕ → ℕ → ℕ
  pub minus : ℕ → ℕ → ℕ
  pub times : ℕ → ℕ → ℕ
  pub over : ℕ → ℕ → ℕ
  pub equals : ℕ → ℕ → Bool
  pub below : ℕ → ℕ → Bool
  pub at_most : ℕ → ℕ → Bool
  pub is_zero : ℕ → Bool

unfoldable pub int64 : ℤ → ℤ
int64 a = signed 64 (wrap 64 a)

abbrev pub eq_ℤ : ℤ → ℤ → Bool
eq_ℤ a b = pos_part a + neg_part b == pos_part b + neg_part a

abbrev pub le_ℤ : ℤ → ℤ → Bool
le_ℤ a b = not (ltb_ℤ b a)

abbrev pub add_ℤ : ℤ → ℤ → ℤ
add_ℤ a b = sub_ℕ (pos_part a + pos_part b) (neg_part a + neg_part b)

abbrev pub sub_ℤ : ℤ → ℤ → ℤ
sub_ℤ a b = sub_ℕ (pos_part a + neg_part b) (neg_part a + pos_part b)

abbrev pub mul_ℤ : ℤ → ℤ → ℤ
mul_ℤ a b =
    sub_ℕ (pos_part a * pos_part b + neg_part a * neg_part b)
      (pos_part a * neg_part b + neg_part a * pos_part b)

abbrev pub magnitude : ℤ → ℕ
magnitude a = pos_part a + neg_part a

abbrev pub is_negative : ℤ → Bool
is_negative a = ltb_ℤ a (pos 0)

abbrev pub with_sign : Bool → ℕ → ℤ
with_sign negative n = if negative then sub_ℕ 0 n else pos n

-- `a / b` and `a % b`, towards zero; `b` is not zero.
unfoldable pub quotient : ℤ → ℤ → ℤ
quotient a b = with_sign (not (same (is_negative a) (is_negative b))) (magnitude a / magnitude b)

unfoldable pub remainder : ℤ → ℤ → ℤ
remainder a b = with_sign (is_negative a) (magnitude a % magnitude b)

-- An arithmetic shift of a negative number rounds down.
unfoldable pub shift_right : ℤ → ℕ → ℤ
shift_right (pos n) k = pos (n / 2 ^ k)
shift_right (negsuc n) k = negsuc (n / 2 ^ k)

unfoldable pub shift_left : ℤ → ℕ → ℤ
unfolding int64
shift_left a k = int64 (mul_ℤ a (pos (2 ^ k)))

-- TRUE is -1.
abbrev pub truth : Bool → ℤ
truth b = if b then negsuc 0 else pos 0

abbrev pub nonzero : ℤ → Bool
nonzero a = not (eq_ℤ a (pos 0))

abbrev pub evaluate_integer_constant : Expression → Option ℤ
evaluate_integer_constant (number_literal (integer v)) = some v
evaluate_integer_constant (boolean_literal b) = some (truth b)
evaluate_integer_constant _ = none

abbrev pub evaluate_float_constant : Doubles → Expression → Option ℕ
evaluate_float_constant D (number_literal (float x)) = some x
evaluate_float_constant D (number_literal (integer v)) = some (D.of_int v)
evaluate_float_constant D _ = none

abbrev pub evaluate_boolean_constant : Doubles → Expression → Option Bool
evaluate_boolean_constant D (boolean_literal b) = some b
evaluate_boolean_constant D (number_literal (integer v)) = some (nonzero v)
evaluate_boolean_constant D (number_literal (float x)) = some (not (D.is_zero x))
evaluate_boolean_constant D _ = none
