-- ===== src/Prelude/Decimal.antt =====
-- `std::to_string` and `std::stoul` on texts, and the character classes that they use.
use bcpl.Prelude.Tests.{ltb, leb, ◌==◌, if◌then◌else◌, Bool-cases}
use mathlib.Core.Logic.{inl, inr}
use native.Mathlib.Omega.{arith}
use bcpl.Prelude.Lists.{Text}
use bcpl.Prelude.Results.{Result, ok, err, invalid_argument, out_of_range}
use bcpl.Prelude.Int.{ℤ, pos, negsuc, negate}
use Prim.Native.Nat.{ℕ, zero, suc, ◌+◌, ◌-◌, ◌*◌, ◌/◌, ◌%◌, ◌^◌, ◌<◌}
use mathlib.Core.Bool.{Bool, true, false, ◌&&◌, ◌||◌}
use mathlib.Core.Path.{◌≡◌, refl, ◌∙◌}
use mathlib.Core.List.{[], ◌∷◌}

abbrev pub is_digit : ℕ → Bool
is_digit c = leb b'0' c && leb c b'9'

-- `isspace` in the C locale.
abbrev pub is_space : ℕ → Bool
is_space c = c == 32 || leb 9 c && leb c 13

-- The digits of `n` in front of `rest`; `fuel` bounds their number.
digits_onto : ℕ → ℕ → Text → Text
digits_onto zero n rest = rest
digits_onto (suc fuel) n rest =
    let more = digits_onto fuel (n / 10) ((b'0' + n % 10) ∷ rest) in
    if ltb n 10 then (b'0' + n) ∷ rest else more

-- `std::to_string` of an unsigned number: n has at most n + 1 digits.
unfoldable pub to_string_nat : ℕ → Text
unfolding digits_onto
to_string_nat n = digits_onto (suc n) n []

unfoldable pub to_string : ℤ → Text
unfolding to_string_nat
to_string (pos n) = to_string_nat n
to_string (negsuc n) = b'-' ∷ to_string_nat (suc n)

-- The number that the leading digits of a text stand for, after `acc`.
unfoldable pub leading_number : ℕ → Text → ℕ
leading_number acc [] = acc
leading_number acc (c ∷ cs) =
    let rest = leading_number (acc * 10 + (c - b'0')) cs in if is_digit c then rest else acc

unfoldable pub skip_space : Text → Text
skip_space [] = []
skip_space (c ∷ cs) = let rest = skip_space cs in if is_space c then rest else c ∷ cs

abbrev pub starts_with_digit : Text → Bool
starts_with_digit [] = false
starts_with_digit (c ∷ cs) = is_digit c

-- `strtoul` behind the sign: no digit and a value above 64 bits are errors, and `-` negates.
abbrev pub unsigned_long : Bool → Text → Result ℕ
unsigned_long minus s =
    if starts_with_digit s
    then (let n = leading_number 0 s in
        if ltb n (2 ^ 64)
        then ok (if minus then (2 ^ 64 - n) % 2 ^ 64 else n)
        else err out_of_range)
    else err invalid_argument

unsigned_text : Text → Result ℕ
unfolding leading_number
unsigned_text [] = err invalid_argument
unsigned_text (c ∷ cs) =
    if c == b'-'
    then unsigned_long true cs
    else (if c == b'+' then unsigned_long false cs else unsigned_long false (c ∷ cs))

-- `std::stoul` in base 10.
unfoldable pub stoul : Text → Result ℕ
unfolding skip_space unsigned_text
stoul s = unsigned_text (skip_space s)

-- `strtol` behind the sign, into the range of an `int`.
abbrev pub signed_int : Bool → Text → Result ℤ
signed_int minus s =
    if starts_with_digit s
    then (let n = leading_number 0 s in
        if minus
        then (if leb n (2 ^ 31) then ok (negate n) else err out_of_range)
        else (if ltb n (2 ^ 31) then ok (pos n) else err out_of_range))
    else err invalid_argument

signed_text : Text → Result ℤ
unfolding leading_number
signed_text [] = err invalid_argument
signed_text (c ∷ cs) =
    if c == b'-'
    then signed_int true cs
    else (if c == b'+' then signed_int false cs else signed_int false (c ∷ cs))

-- `std::stoi` in base 10.
unfoldable pub stoi : Text → Result ℤ
unfolding skip_space signed_text
stoi s = signed_text (skip_space s)

-- Tests against the C library.
stoul_examples : (stoul (b'1' ∷ b'7' ∷ []) ≡ ok 17) × (stoul (32 ∷ b'3' ∷ b'a' ∷ []) ≡ ok 3)
unfolding stoul
stoul_examples = (refl, refl)

digits_onto-number :
    (fuel n : ℕ) (rest : Text)
    → n < fuel
    → leading_number 0 (digits_onto fuel n rest) ≡ leading_number n rest
unfolding digits_onto leading_number
digits_onto-number zero n rest h = elim h [ ]
digits_onto-number (suc fuel) n rest h = elim (Bool-cases (ltb n 10)) [
  | inl small ↦ rw small (ground arith)
  | inr large ↦
      rw large
        (digits_onto-number fuel (n / 10) ((b'0' + n % 10) ∷ rest) (ground arith) ∙ ground arith)
]

-- Printing a number and reading its digits gives the number back.
pub leading_number-to_string : (n : ℕ) → leading_number 0 (to_string_nat n) ≡ n
unfolding to_string_nat leading_number
leading_number-to_string n = digits_onto-number (suc n) n [] (omega arith)
