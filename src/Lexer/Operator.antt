-- ===== src/Lexer/Operator.antt =====
-- lex_operator.cpp: operators and brackets.
use bcpl.Prelude.{ℕ, not, ◌&&◌, ◌||◌, List, [], ◌∷◌, ◌++◌, codes, ◌==◌, if◌then◌else◌}
use bcpl.Lexer.Token.{TokenType, Token}
use bcpl.Lexer.Cursor.{Lexer, advance, skip, peek_char, make_token, make_error_token}
use bcpl.Lexer.Scanner.{is_word}

-- What is left to do once the first character is taken.
abbrev pub Scan : Type 0
Scan = Lexer → Token × Lexer

-- `return make_token(type);`
abbrev pub one : TokenType → Scan
one type l = (make_token type l, l)

-- `if (peek_char() == d) { advance(); then } else`
abbrev pub when : ℕ → Scan → Scan → Scan
when d matched other l = if peek_char l == d then matched (skip l) else other l

abbrev pub unexpected : ℕ → Scan
unexpected c l = (make_error_token (codes "Unexpected character: " ++ c ∷ []) l, l)

-- `if (last_token_was_value_)`
abbrev pub infix_or_prefix : TokenType → TokenType → Scan
infix_or_prefix infix_type prefix_type l =
    if l.last_token_was_value then one infix_type l else one prefix_type l

-- The cases of the switch, with the character of each.
abbrev pub operators : List (ℕ × Scan)
operators =
    (b'(', one TokenType.lparen)
    ∷ (b')', one TokenType.rparen)
    ∷ (b',', one TokenType.comma)
    ∷ (b';', one TokenType.semicolon)
    ∷ (b'@', one TokenType.address_of)
    ∷ (b'!', infix_or_prefix TokenType.vec_indirection TokenType.indirection)
    ∷ (
      b'%',
      when b'%' (one TokenType.bitfield)
          (infix_or_prefix TokenType.char_vector_indirection TokenType.char_indirection),
    )
    ∷ (b'&', when b'&' (one TokenType.logical_and) (one TokenType.bitwise_and))
    ∷ (b'|', when b'|' (one TokenType.logical_or) (one TokenType.bitwise_or))
    ∷ (b'+', when b'#' (one TokenType.float_plus) (one TokenType.plus))
    ∷ (b'*', when b'#' (one TokenType.float_multiply) (one TokenType.multiply))
    ∷ (b'/', when b'#' (one TokenType.float_divide) (one TokenType.divide))
    ∷ (b':', when b'=' (one TokenType.assign) (one TokenType.colon))
    ∷ (
      b'~',
      when b'=' (when b'#' (one TokenType.float_not_equal) (one TokenType.not_equal))
          (one TokenType.bitwise_not),
    )
    ∷ (
      b'<',
      when b'=' (when b'#' (one TokenType.float_less_equal) (one TokenType.less_equal)) (
          when b'<' (one TokenType.left_shift)
            (when b'#' (one TokenType.float_less) (one TokenType.less))),
    )
    ∷ (
      b'>',
      when b'=' (when b'#' (one TokenType.float_greater_equal) (one TokenType.greater_equal)) (
          when b'>' (one TokenType.right_shift)
            (when b'#' (one TokenType.float_greater) (one TokenType.greater))),
    )
    ∷ (b'=', when b'#' (one TokenType.float_equal) (one TokenType.equal))
    ∷ (
      b'-',
      when b'>' (one TokenType.conditional)
          (when b'#' (one TokenType.float_minus) (one TokenType.minus)),
    )
    ∷ (b'$', when b'(' (one TokenType.lbrace) (unexpected b'$'))
    ∷ (b'#', when b'%' (one TokenType.float_vec_indirection) (unexpected b'#'))
    ∷ []

unfoldable pub switch : ℕ → List (ℕ × Scan) → Scan
switch c [] = unexpected c
switch c ((d, scan) ∷ others) = if c == d then scan else switch c others

-- The letters of OR are taken also where the word goes on.
abbrev pub textual_or : ℕ → Scan → Scan
textual_or c other l =
    if (c == b'O' || c == b'o') && (peek_char l == b'R' || peek_char l == b'r')
    then if not (is_word (peek_char (skip l)))
      then one TokenType.logical_or (skip l)
      else other (skip l)
    else other l

unfoldable pub scan_operator : Scan
unfolding advance peek_char switch
scan_operator l = textual_or (advance l).0 (switch (advance l).0 operators) (skip l)
