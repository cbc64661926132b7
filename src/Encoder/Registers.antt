-- ===== src/Encoder/Registers.antt =====
-- Register operands: the lambda `parse_register` that the encoders repeat, and
-- `Encoder::get_reg_encoding` of encoders/enc_get_reg_encoding.cpp.
use bcpl.Prelude.{
  ℕ, ◌+◌, ◌≤◌, ◌%◌, ◌^◌, ◌≡◌, arith, Bool, true, false, ◌&&◌, ◌||◌, [], ◌∷◌, map, Text, codes,
  text_eq, ltb, leb, ◌==◌, if◌then◌else◌, Result, ok, err, invalid_argument, ◌>>=◌,
}
use bcpl.Prelude.Decimal.{stoul, stoi}
use bcpl.Prelude.Int.{wrap}

-- `::tolower` in the C locale.
unfoldable pub lower : ℕ → ℕ
lower c = if leb b'A' c && leb c b'Z' then c + 32 else c

-- `catch (...)`: any exception becomes std::invalid_argument. The number goes through a uint32_t.
abbrev pub register_number : ℕ → Result ℕ → Result ℕ
register_number limit (ok n) =
    let r = n % 2 ^ 32 in if ltb limit r then err invalid_argument else ok r
register_number limit (err e) = err invalid_argument

-- The number that follows the prefix letter.
numbered : ℕ → Bool → Text → Result (ℕ × Bool)
numbered limit is_64bit digits = do
  reg_num ← register_number limit (stoul digits)
  ok (reg_num, is_64bit)

-- `lower_reg[0]` selects the size, `reg_str.substr(1)` holds the number.
prefixed : ℕ → Text → Result (ℕ × Bool)
prefixed limit [] = err invalid_argument
prefixed limit (c ∷ digits) =
    if lower c == b'w'
    then numbered limit false digits
    else (if lower c == b'x' then numbered limit true digits else err invalid_argument)

-- `sp_allowed` tells the lambdas that know `sp` and `wsp` from those that do not, and `limit` is the
-- largest number that they take.
unfoldable pub parse_register : Bool → ℕ → Text → Result (ℕ × Bool)
unfolding lower numbered prefixed
parse_register sp_allowed limit reg_str =
    let lower_reg = map lower reg_str in
    if text_eq lower_reg (codes "wzr")
    then ok (31, false)
    else (if text_eq lower_reg (codes "xzr")
        then ok (31, true)
        else (if sp_allowed && text_eq lower_reg (codes "wsp")
            then ok (31, false)
            else (if sp_allowed && text_eq lower_reg (codes "sp")
                then ok (31, true)
                else prefixed limit reg_str)))

-- The lambda of create_mvn_reg reads the number by `std::stoi`, with no range check and no `catch`.
unchecked : Bool → Text → Result (ℕ × Bool)
unchecked is_64bit digits = do reg_num ← stoi digits; ok (wrap 32 reg_num, is_64bit)

unchecked_prefix : Text → Result (ℕ × Bool)
unchecked_prefix [] = err invalid_argument
unchecked_prefix (c ∷ digits) =
    if lower c == b'w'
    then unchecked false (map lower digits)
    else (if lower c == b'x' then unchecked true (map lower digits) else err invalid_argument)

unfoldable pub parse_register_unchecked : Text → Result (ℕ × Bool)
unfolding lower unchecked unchecked_prefix
parse_register_unchecked reg_str =
    let lower_reg = map lower reg_str in
    if text_eq lower_reg (codes "wzr")
    then ok (31, false)
    else (if text_eq lower_reg (codes "xzr")
        then ok (31, true)
        else (if text_eq lower_reg (codes "wsp")
            then ok (31, false)
            else (if text_eq lower_reg (codes "sp")
                then ok (31, true)
                else unchecked_prefix reg_str)))

-- The prefix letters `d`, `v`, `w` and `x` all take a number up to 31.
abbrev is_register_prefix : ℕ → Bool
is_register_prefix c = c == b'd' || c == b'v' || c == b'w' || c == b'x'

encoding_of_lower : Text → Result ℕ
encoding_of_lower [] = err invalid_argument
encoding_of_lower (c ∷ digits) =
    if is_register_prefix c then register_number 31 (stoul digits) else err invalid_argument

unfoldable pub get_reg_encoding : Text → Result ℕ
unfolding lower encoding_of_lower
get_reg_encoding reg_name =
    let lower_reg = map lower reg_name in
    if text_eq lower_reg (codes "wzr")
      || text_eq lower_reg (codes "xzr")
      || text_eq lower_reg (codes "wsp")
      || text_eq lower_reg (codes "sp")
    then ok 31
    else encoding_of_lower lower_reg

numbered-le :
    (limit : ℕ) (b : Bool) (s : Text) {n : ℕ} {sf : Bool}
    → numbered limit b s ≡ ok (n, sf)
    → n ≤ limit
unfolding numbered
numbered-le limit b s h = ground arith

-- The number of a register operand fits its five bits.
pub parse_register-le :
    (sp_allowed : Bool) (limit : ℕ) (s : Text) {n : ℕ} {sf : Bool}
    → limit ≤ 31
    → parse_register sp_allowed limit s ≡ ok (n, sf)
    → n ≤ 31
unfolding parse_register
parse_register-le sp_allowed limit [] h e = ground arith
parse_register-le sp_allowed limit (c ∷ s) h e =
    ground (arith, numbered-le limit false s, numbered-le limit true s)

encoding_of_lower-le : (s : Text) {n : ℕ} → encoding_of_lower s ≡ ok n → n ≤ 31
unfolding encoding_of_lower
encoding_of_lower-le [] e = ground arith
encoding_of_lower-le (c ∷ s) e = ground arith

-- The number of a register in the metadata fits five bits.
pub get_reg_encoding-le : (s : Text) {n : ℕ} → get_reg_encoding s ≡ ok n → n ≤ 31
unfolding get_reg_encoding
get_reg_encoding-le s e = ground (arith, encoding_of_lower-le (map lower s))
