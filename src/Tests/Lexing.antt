-- ===== src/Tests/Lexing.antt =====
-- Runs of the lexer.
use bcpl.Prelude.{◌+◌, ◌≡◌, refl, false, [], Text, text_eq, codes, length}
use bcpl.Prelude.Dict.{lookup}
use bcpl.Lexer.Token.{TokenType}
use bcpl.Lexer.Cursor.{Lexer, lexer, skip_whitespace_and_comments}
use bcpl.Lexer.Next.{get_next_token}
use bcpl.Lexer.Progress.{
  EndsWithEof, tokens, get_next_token-reaches_eof, begins_blank, skip_whitespace_and_comments-stops,
}
use bcpl.Lexer.Place.{Tracks, lexer-Tracks, get_next_token-Tracks}
use bcpl.Lexer.Words.{get_next_token-word}
use bcpl.Lexer.Strings.{quoted, get_next_token-quoted}
use bcpl.Lexer.Symbols.{ReadsAll, ReadsHash, symbols, get_next_token-symbols}

abbrev program_text : Text
program_text = codes "LET START() BE x := x + 1 // one more"

get_next_token-reaches_eof_example :
    EndsWithEof (tokens (length program_text + 1) (lexer program_text))
get_next_token-reaches_eof_example = get_next_token-reaches_eof program_text

abbrev commented : Text
commented = codes " /* a */ // b"

skip_whitespace_and_comments-stops_example :
    begins_blank (skip_whitespace_and_comments (lexer commented)).rest ≡ false
skip_whitespace_and_comments-stops_example = skip_whitespace_and_comments-stops (lexer commented)

get_next_token-Tracks_example : Tracks program_text (get_next_token (lexer program_text)).1
get_next_token-Tracks_example =
    get_next_token-Tracks program_text (lexer program_text) (lexer-Tracks program_text)

abbrev word_lexer : Lexer
word_lexer = lexer (codes "WHILE x")

get_next_token-word_example :
    ((get_next_token word_lexer).0.type ≡ TokenType.while)
    × ((get_next_token word_lexer).0.value ≡ codes "WHILE")
    × ((get_next_token word_lexer).1.rest ≡ codes " x")
unfolding lexer lookup text_eq
get_next_token-word_example =
    get_next_token-word b'W' (codes "HILE") (codes " x") word_lexer refl
      (refl, (refl, (refl, (refl, tt)))) refl refl

abbrev said : Text
said = codes "say \"hi\" *n"

abbrev string_lexer : Lexer
string_lexer = lexer (quoted said (codes ")"))

get_next_token-quoted_example :
    ((get_next_token string_lexer).0.type ≡ TokenType.string_literal)
    × ((get_next_token string_lexer).0.value ≡ said)
    × ((get_next_token string_lexer).1.rest ≡ codes ")")
unfolding lexer
get_next_token-quoted_example = get_next_token-quoted said (codes ")") string_lexer refl

get_next_token-symbols_example :
    ReadsAll (lexer []) (codes "x") (symbols false) × ReadsHash (lexer []) (codes "x")
unfolding lexer
get_next_token-symbols_example = get_next_token-symbols (lexer []) (codes "x")
