-- ===== src/Lexer/Scanner.antt =====
-- lex_scanner.cpp: identifiers and keywords, numbers, strings and characters.
use bcpl.Prelude.{
  ℕ, Bool, ◌&&◌, ◌||◌, Option, none, some, [], ◌∷◌, ◌++◌, Text, codes, leb, ◌==◌, if◌then◌else◌,
}
use bcpl.Prelude.Dict.{lookup}
use bcpl.Lexer.Token.{TokenType, Token, keywords}
use bcpl.Lexer.Cursor.{Lexer, advance, skip, peek_char, is_at_end, scan_while, make_error_token}

abbrev pub is_digit : ℕ → Bool
is_digit c = leb b'0' c && leb c b'9'

abbrev pub is_alpha : ℕ → Bool
is_alpha c = (leb b'A' c && leb c b'Z') || (leb b'a' c && leb c b'z')

abbrev pub is_alnum : ℕ → Bool
is_alnum c = is_alpha c || is_digit c

abbrev pub is_xdigit : ℕ → Bool
is_xdigit c = is_digit c || (leb b'A' c && leb c b'F') || (leb b'a' c && leb c b'f')

abbrev pub is_octal : ℕ → Bool
is_octal c = leb b'0' c && leb c b'7'

abbrev pub is_word : ℕ → Bool
is_word c = is_alnum c || c == b'_'

-- A token that begins in the column `start_col` and ends in the line of the lexer.
abbrev pub token_at : TokenType → Text → ℕ → Lexer → Token
token_at type value start_col l = record {
  type = type;
  value = value;
  line = l.line;
  column = start_col;
}

abbrev pub keyword_or_identifier : Option TokenType → TokenType
keyword_or_identifier none = TokenType.identifier
keyword_or_identifier (some type) = type

unfoldable pub scan_identifier_or_keyword : Lexer → Token × Lexer
unfolding scan_while
scan_identifier_or_keyword l =
    let (value, after) = scan_while is_word l.rest l in
    (token_at (keyword_or_identifier (lookup value keywords)) value l.column after, after)

-- A part of a number that stands only behind a certain character; its text goes before the rest.
abbrev pub take_if : Bool → Lexer → Text × Lexer
take_if test l = if test then (peek_char l ∷ [], skip l) else ([], l)

abbrev pub digits_if : Bool → (ℕ → Bool) → Lexer → Text × Lexer
digits_if test p l = if test then scan_while p l.rest l else ([], l)

-- Behind `#`: hexadecimal digits behind `x`, else octal digits.
unfoldable pub scan_based : Lexer → Text × Lexer
unfolding peek_char scan_while advance
scan_based l =
    let marked = peek_char l == b'X' || peek_char l == b'x' in
    let (mark, l1) = take_if marked l in
    let (digits, l2) = scan_while (if marked then is_xdigit else is_octal) l1.rest l1 in
    (mark ++ digits, l2)

unfoldable pub scan_fraction : Lexer → Text × Lexer
unfolding peek_char scan_while advance
scan_fraction l =
    let dotted = peek_char l == b'.' in
    let (dot, l1) = take_if dotted l in
    let (digits, l2) = digits_if dotted is_digit l1 in (dot ++ digits, l2)

unfoldable pub scan_exponent : Lexer → Text × Lexer
unfolding peek_char scan_while advance
scan_exponent l =
    let marked = peek_char l == b'e' || peek_char l == b'E' in
    let (mark, l1) = take_if marked l in
    let (sign, l2) = take_if (marked && (peek_char l1 == b'+' || peek_char l1 == b'-')) l1 in
    let (digits, l3) = digits_if marked is_digit l2 in (mark ++ (sign ++ digits), l3)

unfoldable pub scan_decimal : Lexer → Text × Lexer
unfolding scan_while scan_fraction scan_exponent
scan_decimal l =
    let (whole, l1) = scan_while is_digit l.rest l in
    let (fraction, l2) = scan_fraction l1 in
    let (exponent, l3) = scan_exponent l2 in (whole ++ (fraction ++ exponent), l3)

abbrev number_token : ℕ → Text × Lexer → Token × Lexer
number_token start_col (value, l) = (token_at TokenType.number_literal value start_col l, l)

abbrev with_hash : Text × Lexer → Text × Lexer
with_hash (value, l) = (b'#' ∷ value, l)

unfoldable pub scan_number : Lexer → Token × Lexer
unfolding peek_char advance scan_based scan_decimal
scan_number l =
    if peek_char l == b'#'
    then number_token l.column (with_hash (scan_based (skip l)))
    else number_token l.column (scan_decimal l)

-- What `*` and the next character stand for in a string.
abbrev pub escaped : ℕ → Option ℕ
escaped d =
    if d == b'n' || d == b'N'
    then some 10
    else if d == b't' || d == b'T'
    then some 9
    else if d == b's' || d == b'S'
    then some 32
    else if d == b'b' || d == b'B'
    then some 8
    else if d == b'p' || d == b'P'
    then some 12
    else if d == b'c' || d == b'C'
    then some 13
    else if d == b'"'
    then some b'"'
    else if d == b'*'
    then some b'*'
    else none

-- One character goes before what the loop finds.
abbrev pub before : ℕ → Text × Lexer → Text × Lexer
before c (value, l) = (c ∷ value, l)

-- The default of the `switch` keeps the star and does not advance.
abbrev pub star : Option ℕ → Text × Lexer → Text × Lexer → Text × Lexer
star (some c) kept taken = before c taken
star none kept taken = before b'*' kept

-- The loop of scan_string, on the rest of the lexer.
unfoldable pub string_body : Text → Lexer → Text × Lexer
string_body [] l = ([], l)
string_body (c ∷ []) l = if c == b'"' then ([], l) else (c ∷ [], skip l)
string_body (c ∷ d ∷ cs) l =
    let kept = string_body (d ∷ cs) (skip l) in
    let taken = string_body cs (skip (skip l)) in
    if c == b'"' then ([], l) else if c == b'*' then star (escaped d) kept taken else before c kept

abbrev pub close_string : ℕ → Text × Lexer → Token × Lexer
close_string start_col (value, l) =
    if is_at_end l
    then (make_error_token (codes "Unterminated string literal.") l, l)
    else (token_at TokenType.string_literal value start_col (skip l), skip l)

unfoldable pub scan_string : Lexer → Token × Lexer
unfolding advance string_body
scan_string l = close_string l.column (string_body (skip l).rest (skip l))

-- The character behind a star; `\0` stands behind the end.
abbrev char_code : ℕ → Lexer → ℕ
char_code c l =
    if c == b'*' then if peek_char l == b'n' || peek_char l == b'N' then 10 else peek_char l else c

abbrev close_char : ℕ → ℕ → Lexer → Token × Lexer
close_char start_col c l =
    if peek_char l == b'\''
    then (token_at TokenType.char_literal (c ∷ []) start_col (skip l), skip l)
    else (make_error_token (codes "Multi-character literal, or unterminated char literal.") l, l)

unfoldable pub scan_char : Lexer → Token × Lexer
unfolding advance peek_char
scan_char l =
    let l1 = skip l in
    let (c, l2) = advance l1 in
    let l3 = if c == b'*' then skip l2 else l2 in
    if peek_char l1 == b'\''
    then (make_error_token (codes "Empty character literal.") l1, l1)
    else close_char l.column (char_code c l2) l3
