-- ===== src/ConstantFolding/Sound/Identities.antt =====
-- Each identity of visit(BinaryOp&) keeps the value of the node.
use bcpl.Prelude.{
  ◌≡◌, refl, sym, ap, ◌∙◌, Bool, true, false, not, ◌&&◌, ◌||◌, Bool-cases, inl, inr, Option, none,
  some, arith, if◌then◌else◌,
}
use bcpl.Prelude.Int.{ℤ, pos, negsuc}
use bcpl.Ast.{Expression, Operator, integer, number_literal}
use bcpl.ConstantFolding.Constants.{int64, eq_ℤ, add_ℤ, sub_ℤ, mul_ℤ, quotient, nonzero}
use bcpl.ConstantFolding.Operators.{overflows, is_int, simplify}
use bcpl.ConstantFolding.Semantics.{InRange, Env, eval}
use bcpl.ConstantFolding.Range.{fold_operator, int64-of-InRange, defined_if-some}

eq_ℤ-sound : (a b : ℤ) → eq_ℤ a b ≡ true → a ≡ b
eq_ℤ-sound (pos n) (pos m) h = ground arith
eq_ℤ-sound (pos n) (negsuc m) h = absurd (ground arith)
eq_ℤ-sound (negsuc n) (pos m) h = absurd (ground arith)
eq_ℤ-sound (negsuc n) (negsuc m) h = ground arith

-- `c` is the value `a`, where it is one.
abbrev pub Knows : Option ℤ → ℤ → Type 0
Knows c a = (w : ℤ) → c ≡ some w → w ≡ a

is_int-eq : (k : ℤ) (c : Option ℤ) {a : ℤ} → Knows c a → is_int k c ≡ true → a ≡ k
is_int-eq k none h e = absurd (cc)
is_int-eq k (some w) h e = sym (h w refl) ∙ eq_ℤ-sound w k e

module _ (env : Env) (v : ℤ) where
  abbrev pub Replaced : Option Expression → Type 0
  Replaced none = Unit
  Replaced (some e) = eval env e ≡ some v

  pub Replaced-if :
      (b : Bool) (m n : Option Expression)
      → (b ≡ true → Replaced m)
      → Replaced n
      → Replaced (if b then m else n)
  Replaced-if true m n h k = h refl
  Replaced-if false m n h k = k

zero-add : (a b : ℤ) → a ≡ pos 0 → add_ℤ a b ≡ b
zero-add a (pos n) h = ground arith
zero-add a (negsuc n) h = ground arith

add-zero : (a b : ℤ) → b ≡ pos 0 → add_ℤ a b ≡ a
add-zero (pos n) b h = ground arith
add-zero (negsuc n) b h = ground arith

sub-zero : (a b : ℤ) → b ≡ pos 0 → sub_ℤ a b ≡ a
sub-zero (pos n) b h = ground arith
sub-zero (negsuc n) b h = ground arith

one-mul : (a b : ℤ) → a ≡ pos 1 → mul_ℤ a b ≡ b
one-mul a (pos n) h = ground arith
one-mul a (negsuc n) h = ground arith

mul-one : (a b : ℤ) → b ≡ pos 1 → mul_ℤ a b ≡ a
mul-one (pos n) b h = ground arith
mul-one (negsuc n) b h = ground arith

zero-mul : (a b : ℤ) → a ≡ pos 0 → mul_ℤ a b ≡ pos 0
zero-mul a b h = ground arith

mul-zero : (a b : ℤ) → b ≡ pos 0 → mul_ℤ a b ≡ pos 0
mul-zero a b h = ground arith

quotient-one : (a b : ℤ) → b ≡ pos 1 → quotient a b ≡ a
unfolding quotient
quotient-one (pos n) b h = ground arith
quotient-one (negsuc n) b h = ground arith

kept-value :
    (m : Option ℤ) {w b v : ℤ}
    → InRange b
    → m ≡ some b
    → w ≡ b
    → some (int64 w) ≡ some v
    → m ≡ some v
kept-value m {w} {b} h q p e =
    q ∙ (sym (ap some (int64-of-InRange b h)) ∙ (sym (ap (λ (u : ℤ). some (int64 u)) p) ∙ e))

-- A product with a factor that is known to be 0.
product-zero :
    (c d : Option ℤ) (a b : ℤ)
    → Knows c a
    → Knows d b
    → (is_int (pos 0) c || is_int (pos 0) d) ≡ true
    → mul_ℤ a b ≡ pos 0
product-zero c d a b kc kd t = elim (Bool-cases (is_int (pos 0) c)) [
  | inl z ↦ zero-mul a b (is_int-eq (pos 0) c kc z)
  | inr n ↦ mul-zero a b (is_int-eq (pos 0) d kd (rw n at t))
]

pub simplify-eval :
    (env : Env) (op : Operator) (left right : Expression) (c d : Option ℤ) (a b v : ℤ)
    → Knows c a
    → Knows d b
    → InRange a
    → InRange b
    → eval env left ≡ some a
    → eval env right ≡ some b
    → fold_operator op a b ≡ some v
    → Replaced env v (simplify op left right c d)
unfolding simplify eval
simplify-eval env Operator.add left right c d a b v kc kd ha hb ea eb e =
    Replaced-if env v (is_int (pos 0) c) (some right) _
      (λ t. kept-value (eval env right) hb eb (zero-add a b (is_int-eq (pos 0) c kc t)) e)
      (Replaced-if env v (is_int (pos 0) d) (some left) none
        (λ t. kept-value (eval env left) ha ea (add-zero a b (is_int-eq (pos 0) d kd t)) e) tt)
simplify-eval env Operator.subtract left right c d a b v kc kd ha hb ea eb e =
    Replaced-if env v (is_int (pos 0) d) (some left) none
      (λ t. kept-value (eval env left) ha ea (sub-zero a b (is_int-eq (pos 0) d kd t)) e) tt
simplify-eval env Operator.multiply left right c d a b v kc kd ha hb ea eb e =
    Replaced-if env v (is_int (pos 1) c) (some right) _
      (λ t. kept-value (eval env right) hb eb (one-mul a b (is_int-eq (pos 1) c kc t)) e)
      (Replaced-if env v (is_int (pos 1) d) (some left) _
        (λ t. kept-value (eval env left) ha ea (mul-one a b (is_int-eq (pos 1) d kd t)) e)
        (Replaced-if env v (is_int (pos 0) c || is_int (pos 0) d)
          (some (number_literal (integer (pos 0)))) none
          (λ t. kept-value (some (pos 0)) (omega arith) refl (product-zero c d a b kc kd t) e) tt))
simplify-eval env Operator.divide left right c d a b v kc kd ha hb ea eb e =
    Replaced-if env v (is_int (pos 1) d) (some left) none
      (λ t.
        let q = quotient-one a b (is_int-eq (pos 1) d kd t) in
        ea ∙ ap some (sym q ∙ (defined_if-some (nonzero b && not (overflows a b)) e).1))
      tt
simplify-eval env _ left right c d a b v kc kd ha hb ea eb e = tt
