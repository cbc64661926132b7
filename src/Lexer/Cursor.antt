-- ===== src/Lexer/Cursor.antt =====
-- lex_utils.cpp: the place in the source, looking ahead, blanks and comments, and making tokens.
-- A character is its code in the C locale; `\0` is what peeking behind the end gives.
use bcpl.Prelude.{
  ℕ, zero, suc, ◌+◌, length, Bool, true, false, ◌&&◌, ◌||◌, [], ◌∷◌, Text, leb, ◌==◌, if◌then◌else◌,
  is_empty,
}
use bcpl.Lexer.Token.{TokenType, Token}

-- `rest` is `source_` from `position_` on.
pub record Lexer : Type 0 where
  pub rest : Text
  pub position : ℕ
  pub line : ℕ
  pub column : ℕ
  pub last_token_was_value : Bool

unfoldable pub lexer : Text → Lexer
lexer source = record {
  rest = source;
  position = 0;
  line = 1;
  column = 1;
  last_token_was_value = false;
}

abbrev pub advance_from : Text → Lexer → ℕ × Lexer
advance_from [] l = (0, l)
advance_from (c ∷ cs) l = (
  c,
  record l {
    rest = cs;
    position = l.position + 1;
    line = if c == b'\n' then l.line + 1 else l.line;
    column = if c == b'\n' then 1 else l.column + 1;
  },
)

unfoldable pub advance : Lexer → ℕ × Lexer
advance l = advance_from l.rest l

abbrev pub first : Text → ℕ
first [] = 0
first (c ∷ cs) = c

abbrev second : Text → ℕ
second [] = 0
second (c ∷ cs) = first cs

unfoldable pub peek_char : Lexer → ℕ
peek_char l = first l.rest

unfoldable pub peek_next_char : Lexer → ℕ
peek_next_char l = second l.rest

abbrev pub is_at_end : Lexer → Bool
is_at_end l = is_empty l.rest

abbrev pub skip : Lexer → Lexer
skip l = (advance l).1

-- `while (test(peek_char())) value += advance();`. The list is the rest of the lexer, on which the loop recurs.
unfoldable pub scan_while : (ℕ → Bool) → Text → Lexer → Text × Lexer
scan_while test [] l = ([], l)
scan_while test (c ∷ cs) l =
    let (value, after) = scan_while test cs (skip l) in
    if test c then (c ∷ value, after) else ([], l)

abbrev pub is_space : ℕ → Bool
is_space c = c == b' ' || (leb 9 c && leb c 13)

-- `while (!is_at_end() && !(peek_char() == '*' && peek_next_char() == '/')) advance();`
unfoldable pub skip_block : Text → Lexer → Lexer
skip_block [] l = l
skip_block (c ∷ cs) l =
    let after = skip_block cs (skip l) in if c == b'*' && first cs == b'/' then l else after

-- The inner loop of a line comment.
unfoldable pub skip_line : Text → Lexer → Lexer
skip_line [] l = l
skip_line (c ∷ cs) l = let after = skip_line cs (skip l) in if c == b'\n' then l else after

-- `if (!is_at_end()) { advance(); advance(); }`
abbrev close_block : Lexer → Lexer
close_block l = if is_at_end l then l else skip (skip l)

-- One round of the outer loop; `false` where it breaks.
unfoldable pub skip_round : Lexer → Bool × Lexer
unfolding advance peek_char peek_next_char skip_line skip_block
skip_round l =
    if is_at_end l
    then (false, l)
    else if is_space (peek_char l)
    then (true, skip l)
    else if peek_char l == b'/' && peek_next_char l == b'/'
    then (true, skip_line l.rest l)
    else if peek_char l == b'/' && peek_next_char l == b'*'
    then (true, close_block (skip_block (skip (skip l)).rest (skip (skip l))))
    else (false, l)

-- The outer loop on fuel.
unfoldable pub skip_rounds : ℕ → Lexer → Lexer
skip_rounds zero l = l
skip_rounds (suc fuel) l =
    let (more, after) = skip_round l in
    let others = skip_rounds fuel after in if more then others else after

-- Each round takes a character.
unfoldable pub skip_whitespace_and_comments : Lexer → Lexer
unfolding skip_rounds skip_round
skip_whitespace_and_comments l = skip_rounds (length l.rest + 1) l

abbrev pub make_token_with_value : TokenType → Text → Lexer → Token
make_token_with_value type value l = record {
  type = type;
  value = value;
  line = l.line;
  column = l.column;
}

abbrev pub make_token : TokenType → Lexer → Token
make_token type l = make_token_with_value type [] l

abbrev pub make_error_token : Text → Lexer → Token
make_error_token message l = make_token_with_value TokenType.error message l
