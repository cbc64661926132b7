-- ===== src/Lexer/Progress.antt =====
-- Blanks and comments are passed over whole, and the tokens of a source end.
use bcpl.Prelude.{
  ℕ, zero, suc, ◌+◌, ◌≤◌, ◌&&◌, ◌||◌, Bool, true, false, Bool-cases, ◌≡◌, ◌⊎◌, inl, inr, refl, sym,
  ap, subst, ◌∙◌, List, [], ◌∷◌, Text, length, arith, ◌==◌, if◌then◌else◌, is_empty,
}
use bcpl.Lexer.Token.{TokenType, Token}
use bcpl.Lexer.Cursor.{
  Lexer, lexer, advance, skip, peek_char, peek_next_char, is_at_end, skip_block, skip_line,
  skip_round, skip_rounds, skip_whitespace_and_comments, advance_from, first,
}
use bcpl.Lexer.Keeps.{skip_block-keeps, skip_line-keeps, skip_whitespace_and_comments-keeps}
use bcpl.Lexer.Keeps.Operators.{dispatch-keeps}
use bcpl.Lexer.Next.{get_next_token}

-- At most n characters are left.
abbrev pub Within : ℕ → Lexer → Type 0
Within n l = length l.rest ≤ n

advance_from-Within :
    (n : ℕ) (cs : Text) (l : Lexer) → l.rest ≡ cs → Within n l → Within n (advance_from cs l).1
advance_from-Within n [] l e w = w
advance_from-Within n (c ∷ cs) l e w =
    let k : length l.rest ≡ suc (length cs) = ap length e in omega arith

pub skip-Within : (n : ℕ) (l : Lexer) → Within n l → Within n (skip l)
unfolding advance
skip-Within n l w = advance_from-Within n l.rest l refl w

advance_from-shorter :
    (n : ℕ) (cs : Text) (l : Lexer)
    → is_empty cs ≡ false
    → length cs ≤ suc n
    → Within n (advance_from cs l).1
advance_from-shorter n [] l e w = absurd (cc)
advance_from-shorter n (c ∷ cs) l e w = omega arith

skip-shorter : (n : ℕ) (l : Lexer) → is_at_end l ≡ false → Within (suc n) l → Within n (skip l)
unfolding advance
skip-shorter n l e w = advance_from-shorter n l.rest l e w

first_nonempty : (cs : Text) → first cs ≡ b'/' → is_empty cs ≡ false
first_nonempty [] e = absurd (omega arith)
first_nonempty (c ∷ cs) e = refl

-- A line comment begins with a character that the loop takes.
skip_line-shorter :
    (n : ℕ) (cs : Text) (l : Lexer)
    → l.rest ≡ cs
    → first cs ≡ b'/'
    → length cs ≤ suc n
    → Within n (skip_line cs l)
unfolding skip_line
skip_line-shorter n [] l e s w = absurd (omega arith)
skip_line-shorter n (c ∷ cs) l e s w =
    let rest =
      skip_line-keeps (Within n) (skip-Within n) cs (skip l)
        (skip-shorter n l (ap is_empty e) (subst (λ (t : Text). length t ≤ suc n) (sym e) w)) in
    ground arith

-- A round that goes on takes a character.
skip_round-shorter :
    (n : ℕ) (l : Lexer)
    → Within (suc n) l
    → ((skip_round l).0 ≡ false) ⊎ (Within n (skip_round l).1)
unfolding skip_round peek_char
skip_round-shorter n l w = elim (Bool-cases (is_at_end l)) [
  | inl done ↦ inl (ground arith)
  | inr more ↦
      let s = skip-shorter n l more w in
      let t = skip-Within n (skip l) s in
      let block = skip_block (skip (skip l)).rest (skip (skip l)) in
      let b = skip_block-keeps (Within n) (skip-Within n) (skip (skip l)).rest (skip (skip l)) t in
      let b1 = skip-Within n block b in
      let b2 = skip-Within n (skip block) b1 in
      elim (Bool-cases (peek_char l == b'/')) [
        | inl slash ↦ let c = skip_line-shorter n l.rest l refl (ground arith) w in ground arith
        | inr other ↦ ground arith
      ]
]

pub skip_round-false : (l : Lexer) → (skip_round l).0 ≡ false → (skip_round l).1 ≡ l
unfolding skip_round
skip_round-false l e = ground arith

at_end : (cs : Text) → length cs ≤ 0 → is_empty cs ≡ true
at_end [] h = refl
at_end (c ∷ cs) h = absurd (omega arith)

skip_round-at_end : (l : Lexer) → is_at_end l ≡ true → (skip_round l).0 ≡ false
unfolding skip_round
skip_round-at_end l e = ground arith

skip_rounds-stops :
    (n : ℕ) (l : Lexer) → Within n l → (skip_round (skip_rounds (suc n) l)).0 ≡ false
unfolding skip_rounds
skip_rounds-stops zero l h =
    let done = skip_round-at_end l (at_end l.rest h) in
    rw done (ap (λ (k : Lexer). (skip_round k).0) (skip_round-false l done) ∙ done)
skip_rounds-stops (suc n) l h = elim (Bool-cases (skip_round l).0) [
  | inl more ↦ rw more (elim (skip_round-shorter n l h) [
    | inl none_left ↦ absurd (cc)
    | inr shorter ↦ skip_rounds-stops n (skip_round l).1 shorter
  ])
  | inr done ↦ rw done (ap (λ (k : Lexer). (skip_round k).0) (skip_round-false l done) ∙ done)
]

-- A space, a tab, a line feed, a vertical tab, a form feed or a carriage return.
abbrev pub is_blank : ℕ → Bool
is_blank c = c == 32 || c == 9 || c == 10 || c == 11 || c == 12 || c == 13

-- Whether a text begins with a blank, or with two slashes, or with a slash and a star.
abbrev pub begins_blank : Text → Bool
begins_blank [] = false
begins_blank (c ∷ []) = is_blank c
begins_blank (c ∷ d ∷ t) = is_blank c || (c == 47 && (d == 47 || d == 42))

begins_blank-round :
    (cs : Text) (l : Lexer) → l.rest ≡ cs → (skip_round l).0 ≡ false → begins_blank cs ≡ false
unfolding skip_round peek_char peek_next_char
begins_blank-round [] l e h = refl
begins_blank-round (c ∷ []) l e h = let k = rw e at h in ground arith
begins_blank-round (c ∷ d ∷ t) l e h = let k = rw e at h in ground arith

-- What is left behind the blanks and comments is empty or begins neither with a blank nor with the
-- `//` or the `/*` of a comment, on any source: the fuel of the loop is enough.
pub skip_whitespace_and_comments-stops :
    (l : Lexer) → begins_blank (skip_whitespace_and_comments l).rest ≡ false
unfolding skip_whitespace_and_comments
skip_whitespace_and_comments-stops l =
    let e : suc (length l.rest) ≡ length l.rest + 1 = omega arith in
    begins_blank-round (skip_whitespace_and_comments l).rest (skip_whitespace_and_comments l) refl (
      subst (λ (f : ℕ). (skip_round (skip_rounds f l)).0 ≡ false) e
        (skip_rounds-stops (length l.rest) l (omega arith)))

abbrev pub is_eof : TokenType → Bool
is_eof TokenType.eof = true
is_eof _ = false

-- The tokens that one call after another gives, with Eof the last.
abbrev until_eof : Bool → Token → List Token → List Token
until_eof last token others = if last then token ∷ [] else token ∷ others

unfoldable pub tokens : ℕ → Lexer → List Token
tokens zero l = []
tokens (suc calls) l =
    let (token, after) = get_next_token l in
    let others = tokens calls after in until_eof (is_eof token.type) token others

abbrev pub EndsWithEof : List Token → Type 0
EndsWithEof [] = ⊥
EndsWithEof (token ∷ []) = is_eof token.type ≡ true
EndsWithEof (token ∷ second ∷ others) = (is_eof token.type ≡ false) × EndsWithEof (second ∷ others)

-- A call gives Eof, or takes a character.
get_next_token-takes :
    (n : ℕ) (l : Lexer)
    → Within (suc n) l
    → (is_eof (get_next_token l).0.type ≡ true) ⊎ (Within n (get_next_token l).1)
unfolding get_next_token
get_next_token-takes n l w =
    let l' = skip_whitespace_and_comments l in
    let w' = skip_whitespace_and_comments-keeps (Within (suc n)) (skip-Within (suc n)) l w in
    elim (Bool-cases (is_at_end l')) [
      | inl done ↦ inl (ground arith)
      | inr more ↦
          let d = dispatch-keeps (Within n) (skip-Within n) l' (skip-shorter n l' more w') in
          inr (ground arith)
    ]

get_next_token-at_end : (l : Lexer) → Within 0 l → is_eof (get_next_token l).0.type ≡ true
unfolding get_next_token
get_next_token-at_end l w =
    let w' = skip_whitespace_and_comments-keeps (Within 0) (skip-Within 0) l w in
    let e = at_end (skip_whitespace_and_comments l).rest w' in ground arith

until_eof-ends :
    (last : Bool) (token : Token) (others : List Token)
    → is_eof token.type ≡ last
    → (last ≡ false → EndsWithEof others)
    → EndsWithEof (until_eof last token others)
until_eof-ends true token others e h = e
until_eof-ends false token [] e h = absurd (h refl)
until_eof-ends false token (t ∷ others) e h = (e, h refl)

tokens-end : (n : ℕ) (l : Lexer) → Within n l → EndsWithEof (tokens (suc n) l)
unfolding tokens
tokens-end zero l w =
    until_eof-ends _ (get_next_token l).0 [] refl
      (λ more. absurd (let k = get_next_token-at_end l w in cc))
tokens-end (suc n) l w =
    until_eof-ends _ (get_next_token l).0 (tokens (suc n) (get_next_token l).1) refl (λ more.
      elim (get_next_token-takes n l w) [
        | inl last ↦ absurd (cc)
        | inr shorter ↦ tokens-end n (get_next_token l).1 shorter
      ])

-- From any source, one call of get_next_token for each character and one more reach Eof, which is
-- the last token and the only one of its kind.
pub get_next_token-reaches_eof :
    (source : Text) → EndsWithEof (tokens (suc (length source)) (lexer source))
unfolding lexer
get_next_token-reaches_eof source = tokens-end (length source) (lexer source) (omega arith)
