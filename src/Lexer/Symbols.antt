-- ===== src/Lexer/Symbols.antt =====
-- Operators and brackets are read as they are spelled, the longest first, but `#%`.
use bcpl.Prelude.{Bool, true, false, ◌≡◌, refl, List, [], ◌∷◌, ◌++◌, Text, codes, if◌then◌else◌}
use bcpl.Lexer.Token.{TokenType}
use bcpl.Lexer.Cursor.{Lexer, skip_round, advance}
use bcpl.Lexer.Next.{dispatch, next, get_next_token}
use bcpl.Lexer.Words.{get_next_token-here}

-- The spellings, without `#%`; two depend on whether a value stands before.
abbrev pub symbols : Bool → List (Text × TokenType)
symbols infix_place =
    (codes "(", TokenType.lparen)
    ∷ (codes ")", TokenType.rparen)
    ∷ (codes "$(", TokenType.lbrace)
    ∷ (codes "$)", TokenType.rbrace)
    ∷ (codes "{", TokenType.lbrace)
    ∷ (codes "}", TokenType.rbrace)
    ∷ (codes ",", TokenType.comma)
    ∷ (codes ";", TokenType.semicolon)
    ∷ (codes ":", TokenType.colon)
    ∷ (codes ":=", TokenType.assign)
    ∷ (codes "@", TokenType.address_of)
    ∷ (codes "!", if infix_place then TokenType.vec_indirection else TokenType.indirection)
    ∷ (
      codes "%",
      if infix_place then TokenType.char_vector_indirection else TokenType.char_indirection,
    )
    ∷ (codes "%%", TokenType.bitfield)
    ∷ (codes "&", TokenType.bitwise_and)
    ∷ (codes "&&", TokenType.logical_and)
    ∷ (codes "|", TokenType.bitwise_or)
    ∷ (codes "||", TokenType.logical_or)
    ∷ (codes "+", TokenType.plus)
    ∷ (codes "+#", TokenType.float_plus)
    ∷ (codes "-", TokenType.minus)
    ∷ (codes "-#", TokenType.float_minus)
    ∷ (codes "->", TokenType.conditional)
    ∷ (codes "*", TokenType.multiply)
    ∷ (codes "*#", TokenType.float_multiply)
    ∷ (codes "/", TokenType.divide)
    ∷ (codes "/#", TokenType.float_divide)
    ∷ (codes "~", TokenType.bitwise_not)
    ∷ (codes "~=", TokenType.not_equal)
    ∷ (codes "~=#", TokenType.float_not_equal)
    ∷ (codes "=", TokenType.equal)
    ∷ (codes "=#", TokenType.float_equal)
    ∷ (codes "<", TokenType.less)
    ∷ (codes "<=", TokenType.less_equal)
    ∷ (codes "<#", TokenType.float_less)
    ∷ (codes "<=#", TokenType.float_less_equal)
    ∷ (codes "<<", TokenType.left_shift)
    ∷ (codes ">", TokenType.greater)
    ∷ (codes ">=", TokenType.greater_equal)
    ∷ (codes ">#", TokenType.float_greater)
    ∷ (codes ">=#", TokenType.float_greater_equal)
    ∷ (codes ">>", TokenType.right_shift)
    ∷ []

-- The lexer reads a symbol that a blank follows, and leaves the blank.
abbrev pub ReadsSymbol : Lexer → Text → Text × TokenType → Type 0
ReadsSymbol l rest (text, type) =
    let r = get_next_token (record l { rest = text ++ (b' ' ∷ rest) }) in
    (r.0.type ≡ type) × (r.1.rest ≡ b' ' ∷ rest)

abbrev pub ReadsAll : Lexer → Text → List (Text × TokenType) → Type 0
ReadsAll l rest [] = Unit
ReadsAll l rest (s ∷ others) = ReadsSymbol l rest s × ReadsAll l rest others

-- The same of what follows the blanks, of which there are none.
abbrev AllNext : Lexer → Text → List (Text × TokenType) → Type 0
AllNext l rest [] = Unit
AllNext l rest ((text, type) ∷ others) =
    let l' = record l { rest = text ++ (b' ' ∷ rest) } in
    ((skip_round l').0 ≡ false)
    × ((next l').0.type ≡ type)
    × ((next l').1.rest ≡ b' ' ∷ rest)
    × AllNext l rest others

next-symbols :
    (b : Bool) (l : Lexer) (rest : Text)
    → AllNext (record l { last_token_was_value = b }) rest (symbols b)
unfolding skip_round dispatch advance
next-symbols true l rest = search (refl)
next-symbols false l rest = search (refl)

AllNext-ReadsAll :
    (l : Lexer) (rest : Text) (cases : List (Text × TokenType))
    → AllNext l rest cases
    → ReadsAll l rest cases
AllNext-ReadsAll l rest [] h = tt
AllNext-ReadsAll l rest ((text, type) ∷ others) h =
    let n = get_next_token-here (record l { rest = text ++ (b' ' ∷ rest) }) h.0 in
    rw n ((h.1, h.2), AllNext-ReadsAll l rest others h.3)

-- `#%` is not read as an operator.
abbrev pub ReadsHash : Lexer → Text → Type 0
ReadsHash l rest =
    let r = get_next_token (record l { rest = codes "#%" ++ rest }) in
    (r.0.type ≡ TokenType.number_literal) × (r.0.value ≡ codes "#") × (r.1.rest ≡ b'%' ∷ rest)

hash_percent-ReadsHash : (l : Lexer) (rest : Text) → ReadsHash l rest
unfolding skip_round dispatch
hash_percent-ReadsHash l rest =
    rw (get_next_token-here (record l { rest = codes "#%" ++ rest }) refl) (refl, refl, refl)

-- Each operator and each bracket but `#%`, with a blank behind it, is read as its own kind of token
-- and whole, in any state of the lexer; `!` and `%` are infix exactly where a value came before. Of
-- `#%` the lexer reads, in any state, a number that consists of `#` alone, and leaves the `%`.
pub get_next_token-symbols :
    (l : Lexer) (rest : Text) → ReadsAll l rest (symbols l.last_token_was_value) × ReadsHash l rest
get_next_token-symbols l rest = (
  AllNext-ReadsAll l rest (symbols l.last_token_was_value)
      (next-symbols l.last_token_was_value l rest),
  hash_percent-ReadsHash l rest,
)
