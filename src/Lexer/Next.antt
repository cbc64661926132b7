-- ===== src/Lexer/Next.antt =====
-- get_next_token of Lexer.cpp, and peek of lex_utils.cpp.
use bcpl.Prelude.{Bool, true, false, ◌&&◌, ◌||◌, ◌==◌, if◌then◌else◌}
use bcpl.Lexer.Token.{TokenType, Token}
use bcpl.Lexer.Cursor.{
  Lexer, advance, skip, peek_char, peek_next_char, is_at_end, skip_whitespace_and_comments,
  make_token,
}
use bcpl.Lexer.Scanner.{
  is_alpha, is_digit, scan_identifier_or_keyword, scan_number, scan_string, scan_char,
}
use bcpl.Lexer.Operator.{Scan, one, scan_operator}

-- The kinds of tokens after which an operator is infix.
abbrev pub is_value : TokenType → Bool
is_value TokenType.identifier = true
is_value TokenType.number_literal = true
is_value TokenType.string_literal = true
is_value TokenType.char_literal = true
is_value TokenType.boolean_literal = true
is_value TokenType.rparen = true
is_value TokenType.rbrace = true
is_value _ = false

unfoldable pub dispatch : Scan
unfolding advance peek_char peek_next_char scan_identifier_or_keyword scan_number scan_string
    scan_char scan_operator
dispatch l =
    if peek_char l == b'$' && peek_next_char l == b'('
    then one TokenType.lbrace (skip (skip l))
    else if peek_char l == b'$' && peek_next_char l == b')'
    then one TokenType.rbrace (skip (skip l))
    else if peek_char l == b'{'
    then one TokenType.lbrace (skip l)
    else if peek_char l == b'}'
    then one TokenType.rbrace (skip l)
    else if is_alpha (peek_char l) || peek_char l == b'_'
    then scan_identifier_or_keyword l
    else if is_digit (peek_char l) || peek_char l == b'#'
    then scan_number l
    else if peek_char l == b'"'
    then scan_string l
    else if peek_char l == b'\''
    then scan_char l
    else scan_operator l

abbrev pub set_last : Bool → Lexer → Lexer
set_last b l = record l { last_token_was_value = b }

abbrev pub remember : Token × Lexer → Token × Lexer
remember (token, l) = (token, set_last (is_value token.type) l)

-- At the end of the source the token is Eof; else the kind of the token is kept.
abbrev pub next : Scan
next l =
    if is_at_end l
    then (make_token TokenType.eof (set_last false l), set_last false l)
    else remember (dispatch l)

unfoldable pub get_next_token : Scan
unfolding skip_whitespace_and_comments dispatch
get_next_token l = next (skip_whitespace_and_comments l)

-- A copy of the lexer is advanced.
unfoldable pub peek : Lexer → Token
unfolding get_next_token
peek l = (get_next_token l).0
