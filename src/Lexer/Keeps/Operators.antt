-- ===== src/Lexer/Keeps/Operators.antt =====
-- The operators and the dispatch on the first character keep what `advance` keeps.
use bcpl.Prelude.{ℕ, List, [], ◌∷◌, ◌==◌, Bool-cases, inl, inr, arith, ◌||◌}
use bcpl.Lexer.Token.{TokenType}
use bcpl.Lexer.Cursor.{Lexer, advance, skip, peek_char}
use bcpl.Lexer.Scanner.{is_alpha, is_digit}
use bcpl.Lexer.Operator.{
  Scan, one, when, infix_or_prefix, textual_or, unexpected, operators, switch, scan_operator,
}
use bcpl.Lexer.Next.{dispatch}
use bcpl.Lexer.Keeps.{
  if-has, scan_identifier-keeps, scan_number-keeps, scan_string-keeps, scan_char-keeps,
}

module _ (P : Lexer → Type 0) (keep : (l : Lexer) → P l → P (skip l)) where
  pub record Keeps (scan : Scan) : Type 0 where
    pub run : (l : Lexer) → P l → P (scan l).1

  abbrev AllKeep : List (ℕ × Scan) → Type 0
  AllKeep [] = Unit
  AllKeep ((d, scan) ∷ others) = Keeps scan × AllKeep others

  switch-Keeps : (c : ℕ) (cases : List (ℕ × Scan)) → AllKeep cases → Keeps (switch c cases)
  unfolding switch
  switch-Keeps c [] k = record { run = λ l p. p }
  switch-Keeps c ((d, scan) ∷ others) k =
      if-has (λ (s : Scan). Keeps s) (c == d) k.0 (switch-Keeps c others k.1)

  one-Keeps : (type : TokenType) → Keeps (one type)
  one-Keeps type = record { run = λ l p. p }

  when-Keeps :
      (d : ℕ) {matched other : Scan} → Keeps matched → Keeps other → Keeps (when d matched other)
  when-Keeps d m o = record {
    run = λ l p. let p' = m.run (skip l) (keep l p) in let q = o.run l p in ground arith;
  }

  ternary-Keeps : (s t : TokenType) → Keeps (infix_or_prefix s t)
  ternary-Keeps s t = record { run = λ l p. ground arith }

  unexpected-Keeps : (c : ℕ) → Keeps (unexpected c)
  unexpected-Keeps c = record { run = λ l p. p }

  operators-keep : AllKeep operators
  operators-keep = search (one-Keeps, when-Keeps, ternary-Keeps, unexpected-Keeps)

  textual_or-Keeps : (c : ℕ) {other : Scan} → Keeps other → Keeps (textual_or c other)
  textual_or-Keeps c o = record {
    run =
        λ l p. let q = o.run l p in let p' = keep l p in let q' = o.run (skip l) p' in ground arith;
  }

  scan_operator-keeps : (l : Lexer) → P (skip l) → P (scan_operator l).1
  unfolding scan_operator
  scan_operator-keeps l p =
      (textual_or-Keeps (advance l).0 (switch-Keeps (advance l).0 operators operators-keep)).run
        (skip l) p

  -- A token takes a character.
  pub dispatch-keeps : (l : Lexer) → P (skip l) → P (dispatch l).1
  unfolding dispatch
  dispatch-keeps l p =
      let two = keep (skip l) p in
      let word = scan_identifier-keeps P keep l in
      let number = scan_number-keeps P keep l in
      let quoted = scan_string-keeps P keep l p in
      let char = scan_char-keeps P keep l p in
      let op = scan_operator-keeps l p in
      elim (Bool-cases (is_alpha (peek_char l) || peek_char l == b'_')) [
        | inl w ↦ let w' = word (ground arith) p in ground arith
        | inr nw ↦ elim (Bool-cases (is_digit (peek_char l) || peek_char l == b'#')) [
          | inl d ↦ let d' = number d p in ground arith
          | inr nd ↦ ground arith
        ]
      ]
