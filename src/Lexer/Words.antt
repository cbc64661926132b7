-- ===== src/Lexer/Words.antt =====
-- Round trips: what is written for a token is read back as that token.
use bcpl.Prelude.{
  ℕ, zero, suc, ◌+◌, Bool, true, false, not, ◌≡◌, ◌∙◌, refl, sym, ap, subst, if-false, [], ◌∷◌,
  ◌++◌, Text, length, is_empty, arith, ◌==◌, ◌||◌,
}
use bcpl.Prelude.Dict.{lookup}
use bcpl.Lexer.Token.{keywords}
use bcpl.Lexer.Cursor.{
  Lexer, advance, advance_from, first, skip, peek_char, is_at_end, is_space, scan_while, skip_round,
  skip_rounds, skip_whitespace_and_comments,
}
use bcpl.Lexer.Progress.{skip_round-false}
use bcpl.Lexer.Scanner.{is_alpha, is_word, keyword_or_identifier, scan_identifier_or_keyword}
use bcpl.Lexer.Next.{dispatch, next, remember, get_next_token}

skip_rounds-idle : (fuel : ℕ) (l : Lexer) → (skip_round l).0 ≡ false → skip_rounds fuel l ≡ l
unfolding skip_rounds
skip_rounds-idle zero l h = refl
skip_rounds-idle (suc fuel) l h = rw h (skip_round-false l h)

-- Where neither a blank nor a comment stands, the next token begins at once.
pub get_next_token-here : (l : Lexer) → (skip_round l).0 ≡ false → get_next_token l ≡ next l
unfolding get_next_token skip_whitespace_and_comments
get_next_token-here l h = ap next (skip_rounds-idle (length l.rest + 1) l h)

pub skip-rest : (c : ℕ) (cs : Text) (l : Lexer) → l.rest ≡ c ∷ cs → (skip l).rest ≡ cs
unfolding advance
skip-rest c cs l e = ap (λ (s : Text). (advance_from s l).1.rest) e

abbrev pub AllPass : (ℕ → Bool) → Text → Type 0
AllPass test [] = Unit
AllPass test (c ∷ cs) = (test c ≡ true) × AllPass test cs

scan_while-stops :
    (test : ℕ → Bool) (rest : Text) (l : Lexer)
    → test (first rest) ≡ false
    → scan_while test rest l ≡ ([], l)
unfolding scan_while
scan_while-stops test [] l h = refl
scan_while-stops test (c ∷ cs) l h = if-false _ _ h

scan_while-append :
    (test : ℕ → Bool) (word rest : Text) (l : Lexer)
    → AllPass test word
    → test (first rest) ≡ false
    → l.rest ≡ word ++ rest
    → ((scan_while test (word ++ rest) l).0 ≡ word)
      × ((scan_while test (word ++ rest) l).1.rest ≡ rest)
unfolding scan_while
scan_while-append test [] rest l a h e =
    let s = scan_while-stops test rest l h in
    (ap (λ (r : Text × Lexer). r.0) s, ap (λ (r : Text × Lexer). r.1.rest) s ∙ e)
scan_while-append test (c ∷ word) rest l a h e =
    let (v, r) = scan_while-append test word rest (skip l) a.1 h (skip-rest c (word ++ rest) l e) in
    rw a.0 (ap (λ (t : Text). c ∷ t) v, r)

pub peek_char-here : (c : ℕ) (cs : Text) (l : Lexer) → l.rest ≡ c ∷ cs → peek_char l ≡ c
unfolding peek_char
peek_char-here c cs l e = ap first e

-- A character that begins neither a blank nor a comment.
abbrev pub begins_token : ℕ → Bool
begins_token c = not (is_space c || c == b'/')

pub skip_round-idle : (l : Lexer) → begins_token (peek_char l) ≡ true → (skip_round l).0 ≡ false
unfolding skip_round
skip_round-idle l h = ground arith

word_start : (c : ℕ) → (is_alpha c || c == b'_') ≡ true → is_word c ≡ true
word_start c h = ground arith

word_blank : (c : ℕ) → (is_alpha c || c == b'_') ≡ true → begins_token c ≡ true
word_blank c h = ground arith

next-word :
    (l : Lexer)
    → is_at_end l ≡ false
    → (is_alpha (peek_char l) || peek_char l == b'_') ≡ true
    → next l ≡ remember (scan_identifier_or_keyword l)
unfolding dispatch
next-word l e h =
    let dollar : (peek_char l == b'$') ≡ false = ground arith in
    let left : (peek_char l == b'{') ≡ false = ground arith in
    let right : (peek_char l == b'}') ≡ false = ground arith in rw (e, dollar, left, right, h)

-- A word that begins with a letter or an underscore, up to a character that is no part of a word, is
-- one token with its text as the value: a keyword if it is one of the table, else an identifier.
pub get_next_token-word :
    (c : ℕ) (cs rest : Text) (l : Lexer)
    → (is_alpha c || c == b'_') ≡ true
    → AllPass is_word cs
    → is_word (first rest) ≡ false
    → l.rest ≡ c ∷ (cs ++ rest)
    → ((get_next_token l).0.type ≡ keyword_or_identifier (lookup (c ∷ cs) keywords))
      × ((get_next_token l).0.value ≡ c ∷ cs)
      × ((get_next_token l).1.rest ≡ rest)
unfolding scan_identifier_or_keyword
get_next_token-word c cs rest l h a s e =
    let k = peek_char-here c (cs ++ rest) l e in
    let h' : (is_alpha (peek_char l) || peek_char l == b'_') ≡ true =
      subst (λ (d : ℕ). (is_alpha d || d == b'_') ≡ true) (sym k) h in
    let (value, left) = scan_while-append is_word (c ∷ cs) rest l (word_start c h, a) s e in
    let value' = subst (λ (t : Text). (scan_while is_word t l).0 ≡ c ∷ cs) (sym e) value in
    let left' = subst (λ (t : Text). (scan_while is_word t l).1.rest ≡ rest) (sym e) left in
    let n =
      get_next_token-here l (skip_round-idle l (word_blank (peek_char l) h'))
      ∙ next-word l (ap is_empty e) h' in
    rw n (ap (λ (v : Text). keyword_or_identifier (lookup v keywords)) value', value', left')
