-- ===== src/BitPatcher/Fields.antt =====
-- What `patch` does to the fields of a word.
use native.Mathlib.Nat.{
  zero-add, one-mul, div-add-mod', add-mul-div_right, div-eq_of_lt, div-lt_iff_lt-mul, mod-lt,
  mod-mod, mod-mod_of_dvd, dvd-mul_right, mul-pos, mul-lt-mul_of_pos_right, mod-eq_of_lt, pow-suc,
  pow-le-pow_right, add-mul-mod_self_right,
}
use bcpl.Prelude.{
  ℕ, zero, suc, ◌+◌, ◌-◌, ◌*◌, ◌/◌, ◌%◌, ◌^◌, ◌≤◌, ◌<◌, ◌≡◌, refl, sym, subst, ok-injective, ◌∙◌,
  arith, bit_and, ok, ◌==◌, ==_iff, Bool-cases, inl, inr, ap,
}
use bcpl.Prelude.Int.{ℤ, pos, negsuc, pos_part}
use bcpl.Prelude.Bits.{pow_pos, bit_and_field, bit_and_complement, bit_or_field}
use bcpl.BitPatcher.{lsl, mvn, ones, patch_word, patch}

-- The word with bits `s` to `s + n - 1` replaced by the low `n` bits of `v`, by arithmetic alone.
abbrev pub splice : ℕ → ℕ → ℕ → ℕ → ℕ
splice word v s n = (word / 2 ^ s / 2 ^ n * 2 ^ n + v % 2 ^ n) * 2 ^ s + word % 2 ^ s

pub pow_add : (a b : ℕ) → 2 ^ (a + b) ≡ 2 ^ a * 2 ^ b
pow_add zero b = rw zero-add (omega arith)
pow_add (suc a) b =
    let e : suc a + b ≡ suc (a + b) = omega arith in
    rw (e, pow-suc)
      (omega (arith, pow_add a b, pow-suc 2 a, ap (λ (t : ℕ). t * 2 ^ b) (pow-suc 2 a)))

-- The three parts into which a field of `n` bits from bit `s` on divides a 32-bit word.
pow_parts : (s n k : ℕ) → s + n + k ≡ 32 → 2 ^ s * (2 ^ n * 2 ^ k) ≡ 2 ^ 32
pow_parts s n k e = omega (
  arith,
  pow_add (s + n) k,
  pow_add s n,
  ap (λ (t : ℕ). 2 ^ t) e,
  ap (λ (t : ℕ). t * 2 ^ k) (pow_add s n),
)

-- Both ways of the assembly to make the mask give `n` ones.
ones_lem : (n : ℕ) → n ≤ 32 → ones n ≡ 2 ^ n - 1
ones_lem n h = elim (Bool-cases (n == 32)) [
  | inl e ↦ rw ((==_iff n 32).0 e) refl
  | inr e ↦ rw (e, one-mul, mod-eq_of_lt (small (ground arith))) refl
]
  where
    small : suc n ≤ 32 → 2 ^ n < 2 ^ 32
    small lt = omega (arith, pow-le-pow_right {n = 2} (omega arith) lt, pow-suc 2 n, pow_pos n)

-- Multiplying by a power of two and wrapping is wrapping and multiplying.
mul_mod_mul : (v a b : ℕ) → 0 < a → 0 < b → v * a % (a * b) ≡ v % b * a
mul_mod_mul v a b pa pb =
    let e : v * a ≡ v % b * a + v / b * (a * b) =
      omega (arith, ap (λ (t : ℕ). t * a) (div-add-mod' v b)) in
    rw (e, add-mul-mod_self_right)
      (mod-eq_of_lt (omega (arith, mul-lt-mul_of_pos_right (mod-lt v pb) pa)))

-- A number by its quotient and remainder.
pub two_digits : {h l a b : ℕ} → h < a → l < b → h * b + l < a * b
two_digits p q = grind arith

pub digits-mod : (h l b : ℕ) → l < b → (h * b + l) % b ≡ l
digits-mod h l b p =
    let e : h * b + l ≡ l + h * b = omega arith in rw (e, add-mul-mod_self_right) (mod-eq_of_lt p)

digits-div : (h l b : ℕ) → l < b → (h * b + l) / b ≡ h
digits-div h l b p =
    let e : h * b + l ≡ l + h * b = omega arith in
    rw (e, add-mul-div_right l h {z = b} (omega arith), div-eq_of_lt p) (omega arith)

module _ (word v s n k : ℕ) (fits : s + n + k ≡ 32) (small : word < 2 ^ 32) where
  -- The word by its three parts.
  word_parts : word ≡ (word / 2 ^ s / 2 ^ n * 2 ^ n + word / 2 ^ s % 2 ^ n) * 2 ^ s + word % 2 ^ s
  word_parts = omega (
    arith,
    div-add-mod' word (2 ^ s),
    ap (λ (t : ℕ). t * 2 ^ s) (div-add-mod' (word / 2 ^ s) (2 ^ n)),
  )

  -- A shift of a value that wraps keeps its low `n + k` bits.
  lsl_lem : (x : ℕ) → lsl x s ≡ x % (2 ^ n * 2 ^ k) * 2 ^ s
  lsl_lem x =
      ap (λ (t : ℕ). x * 2 ^ s % t) (sym (pow_parts s n k fits))
      ∙ mul_mod_mul x (2 ^ s) (2 ^ n * 2 ^ k) (pow_pos s) (mul-pos (pow_pos n) (pow_pos k))

  field_lt : 2 ^ n - 1 < 2 ^ n * 2 ^ k
  field_lt = grind (arith, pow_pos n, pow_pos k)

  mask_lem : lsl (ones n) s ≡ (2 ^ n - 1) * 2 ^ s
  mask_lem =
      lsl_lem (ones n)
      ∙ rw (ones_lem n (omega arith)) (ap (λ (t : ℕ). t * 2 ^ s) (mod-eq_of_lt field_lt))

  mask_small : (2 ^ n - 1) * 2 ^ s < 2 ^ 32
  mask_small = omega (arith, pow_parts s n k fits, mul-lt-mul_of_pos_right field_lt (pow_pos s))

  -- The field of the shifted value under the mask.
  value_lem : bit_and (lsl v s) ((2 ^ n - 1) * 2 ^ s) ≡ v % 2 ^ n * 2 ^ s
  value_lem =
      let t = v % (2 ^ n * 2 ^ k) in
      let parts : lsl v s ≡ (t / 2 ^ n * 2 ^ n + t % 2 ^ n) * 2 ^ s + 0 =
        lsl_lem v ∙ omega (arith, ap (λ (u : ℕ). u * 2 ^ s) (div-add-mod' t (2 ^ n))) in
      ap (λ (u : ℕ). bit_and u ((2 ^ n - 1) * 2 ^ s)) parts
      ∙ bit_and_field s n (t / 2 ^ n) (t % 2 ^ n) 0 (mod-lt t (pow_pos n)) (pow_pos s)
      ∙ ap (λ (u : ℕ). u * 2 ^ s) (mod-mod_of_dvd (2 ^ n) v (dvd-mul_right (2 ^ n) (2 ^ k)))

  cleared_lem :
      bit_and word (mvn ((2 ^ n - 1) * 2 ^ s)) ≡ word / 2 ^ s / 2 ^ n * 2 ^ n * 2 ^ s + word % 2 ^ s
  cleared_lem = omega (
    arith,
    word_parts,
    bit_and_complement 32 word ((2 ^ n - 1) * 2 ^ s) small mask_small,
    ap (λ (u : ℕ). bit_and u ((2 ^ n - 1) * 2 ^ s)) word_parts
        ∙ bit_and_field s n (word / 2 ^ s / 2 ^ n) (word / 2 ^ s % 2 ^ n) (word % 2 ^ s)
            (mod-lt (word / 2 ^ s) (pow_pos n)) (mod-lt word (pow_pos s)),
  )

  patch_word_lem : patch_word word v s n ≡ splice word v s n
  patch_word_lem =
      rw (mask_lem, cleared_lem, value_lem)
        (bit_or_field s n (word / 2 ^ s / 2 ^ n) (v % 2 ^ n) (word % 2 ^ s) (mod-lt v (pow_pos n))
          (mod-lt word (pow_pos s)))

  splice_small : splice word v s n < 2 ^ 32
  splice_small =
      let top : word / 2 ^ s / 2 ^ n < 2 ^ k =
        (div-lt_iff_lt-mul (pow_pos n)).1
          ((div-lt_iff_lt-mul (pow_pos s)).1 (omega (arith, pow_parts s n k fits))) in
      omega (
        arith,
        pow_parts s n k fits,
        mod-lt word (pow_pos s),
        mul-lt-mul_of_pos_right (two_digits top (mod-lt v (pow_pos n))) (pow_pos s),
        two_digits (two_digits top (mod-lt v (pow_pos n))) (mod-lt word (pow_pos s)),
      )

-- A patch whose field lies in the word succeeds, and overwrites the field by the low bits of the
-- value.
pub patch-eq-splice :
    (word v s n : ℕ)
    → 0 < n
    → s + n ≤ 32
    → word < 2 ^ 32
    → patch word v (pos s) (pos n) ≡ ok (splice word v s n)
unfolding patch
patch-eq-splice word v s n hn hs small =
    let e : patch_word word v s n ≡ splice word v s n =
      patch_word_lem word v s n (32 - (s + n)) (omega arith) small in
    rw (← e) (ground arith)

-- A patch succeeds only on a field that lies in the word.
patch_bounds :
    (word v : ℕ) (s n : ℤ) {w : ℕ}
    → patch word v s n ≡ ok w
    → (s ≡ pos (pos_part s))
      × (n ≡ pos (pos_part n))
      × (0 < pos_part n)
      × (pos_part s + pos_part n ≤ 32)
unfolding patch
patch_bounds word v (pos s) (pos n) h = ground arith
patch_bounds word v (pos s) (negsuc n) h = ground arith
patch_bounds word v (negsuc s) n h = ground arith

splice_fields :
    (word v s n : ℕ)
    → (splice word v s n / 2 ^ s % 2 ^ n ≡ v % 2 ^ n)
      × (splice word v s n % 2 ^ s ≡ word % 2 ^ s)
      × (splice word v s n / 2 ^ s / 2 ^ n ≡ word / 2 ^ s / 2 ^ n)
splice_fields word v s n =
    let l = mod-lt word (pow_pos s) in
    let m = mod-lt v (pow_pos n) in
    let h = word / 2 ^ s / 2 ^ n in
    let high : splice word v s n / 2 ^ s ≡ h * 2 ^ n + v % 2 ^ n =
      digits-div (h * 2 ^ n + v % 2 ^ n) (word % 2 ^ s) (2 ^ s) l in
    (
      ap (λ (t : ℕ). t % 2 ^ n) high ∙ digits-mod h (v % 2 ^ n) (2 ^ n) m,
      digits-mod (h * 2 ^ n + v % 2 ^ n) (word % 2 ^ s) (2 ^ s) l,
      ap (λ (t : ℕ). t / 2 ^ n) high ∙ digits-div h (v % 2 ^ n) (2 ^ n) m,
    )

-- What a successful patch of the field from bit `i` with `k` bits leaves in the word `w`.
pub record Patched (word v i k w : ℕ) : Type 0 where
  pub inside : i + k ≤ 32
  pub field : w / 2 ^ i % 2 ^ k ≡ v % 2 ^ k
  pub below : w % 2 ^ i ≡ word % 2 ^ i
  pub above : w / 2 ^ i / 2 ^ k ≡ word / 2 ^ i / 2 ^ k
  pub small : w < 2 ^ 32

-- A patch of a 32-bit word that succeeds was given a field inside the word. It leaves in the field
-- the low bits of the value, keeps all bits below and above the field, and the result has 32 bits.
pub patch-Patched :
    (word v : ℕ) (s n : ℤ) {w : ℕ}
    → word < 2 ^ 32
    → patch word v s n ≡ ok w
    → (s ≡ pos (pos_part s)) × (n ≡ pos (pos_part n)) × Patched word v (pos_part s) (pos_part n) w
patch-Patched word v s n {w} small h =
    let (es, en, positive, inside) = patch_bounds word v s n h in
    let i = pos_part s in
    let k = pos_part n in
    let e : splice word v i k ≡ w =
      ok-injective (sym (patch-eq-splice word v i k positive inside small) ∙ rw (← es, ← en) h) in
    let (field, below, above) = splice_fields word v i k in
    (
      es,
      en,
      subst (Patched word v i k) e (record {
        inside = inside;
        field = field;
        below = below;
        above = above;
        small = splice_small word v i k (32 - (i + k)) (omega arith) small;
      }),
    )

-- A field that is still zero receives the low bits of the value by addition.
pub patch_zero :
    (word v s n : ℕ)
    → word / 2 ^ s % 2 ^ n ≡ 0
    → 0 < n
    → s + n ≤ 32
    → word < 2 ^ 32
    → patch word v (pos s) (pos n) ≡ ok (word + v % 2 ^ n * 2 ^ s)
patch_zero word v s n unset hn hs small =
    patch-eq-splice word v s n hn hs small
    ∙ ap ok (
        omega (
          arith,
          word_parts word v s n (32 - (s + n)) (omega arith) small,
          ap (λ (t : ℕ). t * 2 ^ s) unset,
        ))

-- A value that fits is added whole.
pub patch_fresh :
    (word v s n : ℕ)
    → word / 2 ^ s % 2 ^ n ≡ 0
    → 0 < n
    → s + n ≤ 32
    → v < 2 ^ n
    → word < 2 ^ 32
    → patch word v (pos s) (pos n) ≡ ok (word + v * 2 ^ s)
patch_fresh word v s n unset hn hs hv small =
    patch_zero word v s n unset hn hs small
    ∙ ap (λ (t : ℕ). ok (word + t * 2 ^ s)) (mod-eq_of_lt hv)

-- Patching what the field holds already changes nothing.
pub patch_again :
    (word v s n : ℕ)
    → word / 2 ^ s % 2 ^ n ≡ v
    → 0 < n
    → s + n ≤ 32
    → word < 2 ^ 32
    → patch word v (pos s) (pos n) ≡ ok word
patch_again word v s n there hn hs small =
    patch-eq-splice word v s n hn hs small
    ∙ ap ok (
        omega (
          arith,
          word_parts word v s n (32 - (s + n)) (omega arith) small,
          ap (λ (t : ℕ). t * 2 ^ s)
              (ap (λ (t : ℕ). t % 2 ^ n) (sym there) ∙ mod-mod (word / 2 ^ s) (2 ^ n)),
        ))
