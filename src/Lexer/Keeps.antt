-- ===== src/Lexer/Keeps.antt =====
-- What `advance` keeps, every operation of the lexer keeps.
pub mod Operators
use bcpl.Prelude.{
  ℕ, zero, suc, ◌||◌, Bool, true, false, Bool-cases, ◌≡◌, refl, sym, ap, subst, if-true, inl, inr,
  Option, none, some, List, [], ◌∷◌, Text, arith, ◌==◌, if◌then◌else◌,
}
use bcpl.Lexer.Token.{TokenType, Token}
use bcpl.Lexer.Cursor.{
  Lexer, advance, advance_from, first, skip, peek_char, peek_next_char, is_at_end, scan_while,
  skip_block, skip_line, skip_round, skip_rounds, skip_whitespace_and_comments,
}
use bcpl.Lexer.Scanner.{
  is_word, is_digit, is_xdigit, is_octal, before, take_if, digits_if, scan_identifier_or_keyword,
  scan_based, scan_fraction, scan_exponent, scan_decimal, scan_number, string_body, star, escaped,
  scan_string, scan_char,
}
use bcpl.Lexer.Operator.{Scan, one, when, operators, switch, scan_operator}
use bcpl.Lexer.Next.{set_last, dispatch, get_next_token}

-- The part of a conditional that is taken has what both have.
pub if-has {ℓ κ} :
    {A : Type ℓ} (Q : A → Type κ) (b : Bool) {x y : A} → Q x → Q y → Q (if b then x else y)
if-has Q true p q = p
if-has Q false p q = q

module _ (P : Lexer → Type 0) (keep : (l : Lexer) → P l → P (skip l)) where
  pub scan_while-keeps :
      (test : ℕ → Bool) (cs : Text) (l : Lexer) → P l → P (scan_while test cs l).1
  unfolding scan_while
  scan_while-keeps test [] l p = p
  scan_while-keeps test (c ∷ cs) l p =
      if-has (λ (r : Text × Lexer). P r.1) (test c) (scan_while-keeps test cs (skip l) (keep l p)) p

  -- A loop whose first test holds takes the first character.
  pub scan_while-takes :
      (test : ℕ → Bool) (cs : Text) (l : Lexer)
      → l.rest ≡ cs
      → test (peek_char l) ≡ true
      → P (skip l)
      → P (scan_while test cs l).1
  unfolding scan_while peek_char advance
  scan_while-takes test [] l e h p = subst (λ (s : Text). P (advance_from s l).1) e p
  scan_while-takes test (c ∷ cs) l e h p =
      let t : test c ≡ true = subst (λ (s : Text). test (first s) ≡ true) e h in
      subst P (ap (λ (r : Text × Lexer). r.1) (sym (if-true _ _ t)))
        (scan_while-keeps test cs (skip l) p)

  pub skip_block-keeps : (cs : Text) (l : Lexer) → P l → P (skip_block cs l)
  unfolding skip_block
  skip_block-keeps [] l p = p
  skip_block-keeps (c ∷ cs) l p = if-has P _ p (skip_block-keeps cs (skip l) (keep l p))

  pub skip_line-keeps : (cs : Text) (l : Lexer) → P l → P (skip_line cs l)
  unfolding skip_line
  skip_line-keeps [] l p = p
  skip_line-keeps (c ∷ cs) l p = if-has P _ p (skip_line-keeps cs (skip l) (keep l p))

  twice : (l : Lexer) → P l → P (skip (skip l))
  twice l p = keep (skip l) (keep l p)

  pub skip_round-keeps : (l : Lexer) → P l → P (skip_round l).1
  unfolding skip_round
  skip_round-keeps l p =
      let next_one = keep l p in
      let line = skip_line-keeps l.rest l p in
      let block = skip_block-keeps (skip (skip l)).rest (skip (skip l)) (twice l p) in
      let closed = twice _ block in ground arith

  pub skip_rounds-keeps : (fuel : ℕ) (l : Lexer) → P l → P (skip_rounds fuel l)
  unfolding skip_rounds
  skip_rounds-keeps zero l p = p
  skip_rounds-keeps (suc fuel) l p =
      let after = skip_round-keeps l p in
      if-has P _ (skip_rounds-keeps fuel (skip_round l).1 after) after

  pub skip_whitespace_and_comments-keeps : (l : Lexer) → P l → P (skip_whitespace_and_comments l)
  unfolding skip_whitespace_and_comments
  skip_whitespace_and_comments-keeps l = skip_rounds-keeps _ l

  take_if-keeps : (b : Bool) (l : Lexer) → P l → P (take_if b l).1
  take_if-keeps true l p = keep l p
  take_if-keeps false l p = p

  digits_if-keeps : (b : Bool) (test : ℕ → Bool) (l : Lexer) → P l → P (digits_if b test l).1
  digits_if-keeps true test l p = scan_while-keeps test l.rest l p
  digits_if-keeps false test l p = p

  pub scan_identifier-keeps :
      (l : Lexer) → is_word (peek_char l) ≡ true → P (skip l) → P (scan_identifier_or_keyword l).1
  unfolding scan_identifier_or_keyword
  scan_identifier-keeps l h p = scan_while-takes is_word l.rest l refl h p

  scan_based-keeps : (l : Lexer) → P l → P (scan_based l).1
  unfolding scan_based
  scan_based-keeps l p =
      let marked = peek_char l == b'X' || peek_char l == b'x' in
      scan_while-keeps (if marked then is_xdigit else is_octal) (take_if marked l).1.rest
        (take_if marked l).1 (take_if-keeps marked l p)

  scan_fraction-keeps : (l : Lexer) → P l → P (scan_fraction l).1
  unfolding scan_fraction
  scan_fraction-keeps l p = digits_if-keeps _ _ _ (take_if-keeps _ l p)

  scan_exponent-keeps : (l : Lexer) → P l → P (scan_exponent l).1
  unfolding scan_exponent
  scan_exponent-keeps l p = digits_if-keeps _ _ _ (take_if-keeps _ _ (take_if-keeps _ l p))

  scan_decimal-keeps :
      (l : Lexer) → is_digit (peek_char l) ≡ true → P (skip l) → P (scan_decimal l).1
  unfolding scan_decimal
  scan_decimal-keeps l h p =
      scan_exponent-keeps _ (scan_fraction-keeps _ (scan_while-takes is_digit l.rest l refl h p))

  pub scan_number-keeps :
      (l : Lexer)
      → (is_digit (peek_char l) || peek_char l == b'#') ≡ true
      → P (skip l)
      → P (scan_number l).1
  unfolding scan_number
  scan_number-keeps l h p = elim (Bool-cases (peek_char l == b'#')) [
    | inl based ↦ let q = scan_based-keeps (skip l) p in rw based q
    | inr decimal ↦ rw decimal (scan_decimal-keeps l (ground arith) p)
  ]

  star-keeps :
      (o : Option ℕ) (kept taken : Text × Lexer) → P kept.1 → P taken.1 → P (star o kept taken).1
  star-keeps none kept taken p q = p
  star-keeps (some c) kept taken p q = q

  string_body-keeps : (cs : Text) (l : Lexer) → P l → P (string_body cs l).1
  unfolding string_body
  string_body-keeps [] l p = p
  string_body-keeps (c ∷ []) l p = if-has (λ (r : Text × Lexer). P r.1) _ p (keep l p)
  string_body-keeps (c ∷ d ∷ cs) l p =
      let kept = string_body-keeps (d ∷ cs) (skip l) (keep l p) in
      let taken = string_body-keeps cs (skip (skip l)) (twice l p) in
      let Q = λ (r : Text × Lexer). P r.1 in
      let starred =
        star-keeps (escaped d) (string_body (d ∷ cs) (skip l)) (string_body cs (skip (skip l))) kept
          taken in
      if-has Q (c == b'"') {x = ([], l)} p (
        if-has Q (c == b'*')
          {x = star (escaped d) (string_body (d ∷ cs) (skip l)) (string_body cs (skip (skip l)))}
          {y = before c (string_body (d ∷ cs) (skip l))} starred kept)

  pub scan_string-keeps : (l : Lexer) → P (skip l) → P (scan_string l).1
  unfolding scan_string
  scan_string-keeps l p =
      let body = string_body-keeps (skip l).rest (skip l) p in
      if-has (λ (r : Token × Lexer). P r.1) _ body (keep _ body)

  pub scan_char-keeps : (l : Lexer) → P (skip l) → P (scan_char l).1
  unfolding scan_char
  scan_char-keeps l p =
      let two = keep (skip l) p in
      let three = twice (skip l) p in let four = keep (skip (skip (skip l))) three in ground arith
