-- ===== src/Lexer/Strings.antt =====
-- Round trips of string and character literals.
use bcpl.Prelude.{
  ℕ, Bool, true, false, Bool-cases, ◌≡◌, ◌∙◌, inl, inr, refl, sym, ap, subst, some, [], ◌∷◌, Text,
  is_empty, arith, ◌==◌, ◌||◌, if◌then◌else◌,
}
use bcpl.Lexer.Token.{TokenType}
use bcpl.Lexer.Cursor.{Lexer, skip, peek_char, is_at_end}
use bcpl.Lexer.Scanner.{string_body, escaped, before, close_string, scan_string}
use bcpl.Lexer.Next.{dispatch, next, remember, get_next_token}
use bcpl.Lexer.Words.{get_next_token-here, skip-rest, peek_char-here, skip_round-idle}

-- A quote and a star are written behind a star.
abbrev pub quote_char : ℕ → Text → Text
quote_char c more = if c == b'"' || c == b'*' then b'*' ∷ c ∷ more else c ∷ more

abbrev pub escape : Text → Text → Text
escape [] more = more
escape (c ∷ cs) more = quote_char c (escape cs more)

-- A string literal with what follows it.
abbrev pub quoted : Text → Text → Text
quoted s rest = b'"' ∷ escape s (b'"' ∷ rest)

string_body-plain :
    (c : ℕ) (cs : Text) (l : Lexer)
    → (c == b'"' || c == b'*') ≡ false
    → string_body (c ∷ cs) l ≡ before c (string_body cs (skip l))
unfolding string_body
string_body-plain c [] l h = ground arith
string_body-plain c (d ∷ cs) l h = ground arith

-- The three parts of what a scan of a string has found.
abbrev Reads : Text → Text → Text × Lexer → Type 0
Reads s rest r = (r.0 ≡ s) × (r.1.rest ≡ rest)

escaped-quote : (c : ℕ) → (c == b'"' || c == b'*') ≡ true → escaped c ≡ some c
escaped-quote c h = ground arith

string_body-escape :
    (s rest : Text) (l : Lexer)
    → l.rest ≡ escape s (b'"' ∷ rest)
    → Reads s (b'"' ∷ rest) (string_body (escape s (b'"' ∷ rest)) l)
unfolding string_body
string_body-escape [] [] l e = (refl, e)
string_body-escape [] (r ∷ rest) l e = (refl, e)
string_body-escape (c ∷ s) rest l e = elim (Bool-cases (c == b'"' || c == b'*')) [
  | inl special ↦
      let e' =
        subst
          (λ (b : Bool).
            l.rest ≡ (if b then b'*' ∷ c ∷ escape s (b'"' ∷ rest) else c ∷ escape s (b'"' ∷ rest)))
          special e in
      let e1 = skip-rest b'*' (c ∷ escape s (b'"' ∷ rest)) l e' in
      let e2 = skip-rest c (escape s (b'"' ∷ rest)) (skip l) e1 in
      let (v, r) = string_body-escape s rest (skip (skip l)) e2 in
      rw (special, escaped-quote c special) (ap (λ (t : Text). c ∷ t) v, r)
  | inr plain ↦
      let e' =
        subst
          (λ (b : Bool).
            l.rest ≡ (if b then b'*' ∷ c ∷ escape s (b'"' ∷ rest) else c ∷ escape s (b'"' ∷ rest)))
          plain e in
      let e1 = skip-rest c (escape s (b'"' ∷ rest)) l e' in
      let (v, r) = string_body-escape s rest (skip l) e1 in
      rw (plain, string_body-plain c (escape s (b'"' ∷ rest)) l plain)
        (ap (λ (t : Text). c ∷ t) v, r)
]

next-quote :
    (l : Lexer) → is_at_end l ≡ false → peek_char l ≡ b'"' → next l ≡ remember (scan_string l)
unfolding dispatch
next-quote l e h = rw (e, h)

scan_string-Reads :
    (s rest : Text) (l : Lexer)
    → (l1 : Text × Lexer) → Reads s (b'"' ∷ rest) l1
    → ((remember (close_string l.column l1)).0.type ≡ TokenType.string_literal)
      × ((remember (close_string l.column l1)).0.value ≡ s)
      × ((remember (close_string l.column l1)).1.rest ≡ rest)
scan_string-Reads s rest l (value, after) (v, r) =
    let open_end : is_at_end after ≡ false = ap is_empty r in
    rw open_end (refl, v, skip-rest b'"' rest after r)

-- A string written with its quotes and stars behind stars is read back as one literal with the
-- string as its value, whatever its characters and whatever follows.
pub get_next_token-quoted :
    (s rest : Text) (l : Lexer)
    → l.rest ≡ quoted s rest
    → ((get_next_token l).0.type ≡ TokenType.string_literal)
      × ((get_next_token l).0.value ≡ s)
      × ((get_next_token l).1.rest ≡ rest)
unfolding scan_string
get_next_token-quoted s rest l e =
    let k = peek_char-here b'"' (escape s (b'"' ∷ rest)) l e in
    let e1 = skip-rest b'"' (escape s (b'"' ∷ rest)) l e in
    let n =
      get_next_token-here l (skip_round-idle l (rw k refl)) ∙ next-quote l (ap is_empty e) k in
    let body =
      subst (λ (t : Text). Reads s (b'"' ∷ rest) (string_body t (skip l))) (sym e1)
        (string_body-escape s rest (skip l) e1) in
    rw n (scan_string-Reads s rest l (string_body (skip l).rest (skip l)) body)
