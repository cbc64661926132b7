-- ===== src/Lexer/Place.antt =====
-- The line and the column of the lexer are those of the source that has been read.
use bcpl.Prelude.{
  ℕ, ◌+◌, Bool, false, Bool-cases, ◌≡◌, ◌∙◌, inl, inr, refl, sym, ap, [], ◌∷◌, ◌++◌, Text, length,
  length-append, arith, ◌==◌, ◌||◌, if◌then◌else◌,
}
use mathlib.Core.List.{append_assoc}
use bcpl.Lexer.Cursor.{Lexer, lexer, advance, advance_from, skip, is_at_end}
use bcpl.Lexer.Cursor.{skip_whitespace_and_comments}
use bcpl.Lexer.Keeps.{skip_whitespace_and_comments-keeps}
use bcpl.Lexer.Keeps.Operators.{dispatch-keeps}
use bcpl.Lexer.Next.{set_last, dispatch, get_next_token}

abbrev pub has_newline : Text → Bool
has_newline [] = false
has_newline (c ∷ cs) = c == b'\n' || has_newline cs

abbrev pub newlines : Text → ℕ
newlines [] = 0
newlines (c ∷ cs) = (if c == b'\n' then 1 else 0) + newlines cs

-- What stands behind the last newline.
abbrev pub last_line : Text → Text
last_line [] = []
last_line (c ∷ cs) = if has_newline (c ∷ cs) then last_line cs else c ∷ cs

-- The lexer stands in the source where its position says, and lines and columns count from 1.
pub record Tracks (source : Text) (l : Lexer) : Type 0 where
  pub done : Text
  pub split : source ≡ done ++ l.rest
  pub position : l.position ≡ length done
  pub line : l.line ≡ 1 + newlines done
  pub column : l.column ≡ 1 + length (last_line done)

newlines-snoc :
    (cs : Text) (c : ℕ)
    → newlines (cs ++ c ∷ []) ≡ (if c == b'\n' then newlines cs + 1 else newlines cs)
newlines-snoc [] c = ground arith
newlines-snoc (d ∷ cs) c = ground (arith, newlines-snoc cs c)

has_newline-snoc : (cs : Text) (c : ℕ) → has_newline (cs ++ c ∷ []) ≡ (has_newline cs || c == b'\n')
has_newline-snoc [] c = ground arith
has_newline-snoc (d ∷ cs) c = ground (arith, has_newline-snoc cs c)

last_line-snoc :
    (cs : Text) (c : ℕ)
    → last_line (cs ++ c ∷ []) ≡ (if c == b'\n' then [] else last_line cs ++ c ∷ [])
last_line-snoc [] c = ground arith
last_line-snoc (d ∷ cs) c = ground (arith, last_line-snoc cs c, has_newline-snoc cs c)

length-last_line-snoc :
    (cs : Text) (c : ℕ)
    → length (last_line (cs ++ c ∷ [])) ≡ (if c == b'\n' then 0 else length (last_line cs) + 1)
length-last_line-snoc cs c =
    ap length (last_line-snoc cs c) ∙ ground (arith, length-append {A = ℕ} (last_line cs) (c ∷ []))

advance_from-Tracks :
    (source : Text) (cs : Text) (l : Lexer)
    → l.rest ≡ cs
    → Tracks source l
    → Tracks source (advance_from cs l).1
advance_from-Tracks source [] l e t = t
advance_from-Tracks source (c ∷ cs) l e t =
    let p = t.position in
    let n = t.line in
    let k = t.column in
    record {
      done = t.done ++ c ∷ [];
      split = t.split ∙ ap (λ (s : Text). t.done ++ s) e ∙ sym (append_assoc t.done (c ∷ []) cs);
      position = omega (arith, length-append {A = ℕ} t.done (c ∷ []));
      line = ground (arith, newlines-snoc t.done c);
      column = ground (arith, length-last_line-snoc t.done c);
    }

advance-Tracks : (source : Text) (l : Lexer) → Tracks source l → Tracks source (skip l)
unfolding advance
advance-Tracks source l t = advance_from-Tracks source l.rest l refl t

set_last-Tracks :
    (source : Text) (b : Bool) (l : Lexer) → Tracks source l → Tracks source (set_last b l)
set_last-Tracks source b l t = record {
  done = t.done;
  split = t.split;
  position = t.position;
  line = t.line;
  column = t.column;
}

-- The lexer of a source begins in its first line and column.
pub lexer-Tracks : (source : Text) → Tracks source (lexer source)
unfolding lexer
lexer-Tracks source = record {
  done = [];
  split = refl;
  position = refl;
  line = refl;
  column = refl;
}

-- A lexer that stands in its source, at the line and the column of what it has read, does so behind
-- the next token too, also behind comments, strings over several lines, errors and the end.
pub get_next_token-Tracks :
    (source : Text) (l : Lexer) → Tracks source l → Tracks source (get_next_token l).1
unfolding get_next_token
get_next_token-Tracks source l t =
    let keep = advance-Tracks source in
    let l' = skip_whitespace_and_comments l in
    let t' = skip_whitespace_and_comments-keeps (Tracks source) keep l t in
    elim (Bool-cases (is_at_end l')) [
      | inl end ↦ rw end (set_last-Tracks source false l' t')
      | inr more ↦ rw more (
          set_last-Tracks source _ (dispatch l').1
            (dispatch-keeps (Tracks source) keep l' (keep l' t')))
    ]
