-- ===== src/Prelude/Bits.antt =====
-- Laws of `bit_and` and `bit_or` at variables, for the masks that bit fields need.
use Prim.Native.Nat.{
  ℕ, zero, suc, ◌+◌, ◌-◌, ◌*◌, ◌/◌, ◌%◌, ◌^◌, ◌≤◌, ◌<◌, min, max, bit_and, bit_or, digits,
  bit_and-bitwise, bit_or-bitwise,
}
use mathlib.Core.Path.{◌≡◌, refl, ap, ◌∙◌}
use native.Mathlib.Omega.{arith}
use native.Mathlib.Nat.{pow-suc, mod-lt, div-add-mod'}

-- The digit recursion behind the native operations does not depend on its fuel.
digits_fuel :
    (end : ℕ → ℕ) (digit : ℕ → ℕ → ℕ) (more fewer x y : ℕ)
    → x ≤ more
    → x ≤ fewer
    → digits end digit more x y ≡ digits end digit fewer x y
digits_fuel end digit zero zero x y p q = refl
digits_fuel end digit zero (suc fewer) (suc x) y p q = absurd (omega arith)
digits_fuel end digit (suc more) zero (suc x) y p q = absurd (omega arith)
digits_fuel end digit zero (suc fewer) zero y p q = refl
digits_fuel end digit (suc more) zero zero y p q = refl
digits_fuel end digit (suc more) (suc fewer) zero y p q = refl
digits_fuel end digit (suc more) (suc fewer) (suc x) y p q =
    let shorter =
      digits_fuel end digit more fewer (suc x / 2) (y / 2) (omega arith) (omega arith) in
    omega arith

pub bit_and_step : (a b : ℕ) → bit_and a b ≡ bit_and (a / 2) (b / 2) * 2 + min (a % 2) (b % 2)
bit_and_step zero b = omega (arith, bit_and-bitwise 0 b, bit_and-bitwise 0 (b / 2))
bit_and_step (suc a) b = omega (
  arith,
  bit_and-bitwise (suc a) b,
  bit_and-bitwise (suc a / 2) (b / 2),
  digits_fuel (λ b. zero) min a (suc a / 2) (suc a / 2) (b / 2) (omega arith) (omega arith),
)

pub bit_or_step : (a b : ℕ) → bit_or a b ≡ bit_or (a / 2) (b / 2) * 2 + max (a % 2) (b % 2)
bit_or_step zero b = omega (arith, bit_or-bitwise 0 b, bit_or-bitwise 0 (b / 2))
bit_or_step (suc a) b = omega (
  arith,
  bit_or-bitwise (suc a) b,
  bit_or-bitwise (suc a / 2) (b / 2),
  digits_fuel (λ b. b) max a (suc a / 2) (suc a / 2) (b / 2) (omega arith) (omega arith),
)

bit_and-zero_below : (n a : ℕ) → a ≤ n → bit_and a 0 ≡ 0
bit_and-zero_below n zero h = refl
bit_and-zero_below zero (suc a) h = absurd (omega arith)
bit_and-zero_below (suc n) (suc a) h =
    omega (arith, bit_and_step (suc a) 0, bit_and-zero_below n (suc a / 2) (omega arith))

bit_or-zero_below : (n a : ℕ) → a ≤ n → bit_or a 0 ≡ a
bit_or-zero_below n zero h = refl
bit_or-zero_below zero (suc a) h = absurd (omega arith)
bit_or-zero_below (suc n) (suc a) h =
    omega (arith, bit_or_step (suc a) 0, bit_or-zero_below n (suc a / 2) (omega arith))

pub bit_and-zero : (a : ℕ) → bit_and a 0 ≡ 0
bit_and-zero a = bit_and-zero_below a a (omega arith)

pub bit_or-zero : (a : ℕ) → bit_or a 0 ≡ a
bit_or-zero a = bit_or-zero_below a a (omega arith)

-- The two laws for numbers whose lowest digits are at hand.
bit_and_cons :
    {a b : ℕ} (a' x b' y : ℕ)
    → a ≡ a' * 2 + x
    → b ≡ b' * 2 + y
    → x < 2
    → y < 2
    → bit_and a b ≡ bit_and a' b' * 2 + min x y
bit_and_cons {a} {b} a' x b' y p q hx hy =
    let pa : a / 2 ≡ a' = omega arith in
    let pb : b / 2 ≡ b' = omega arith in bit_and_step a b ∙ rw (pa, pb) (omega arith)

bit_or_cons :
    {a b : ℕ} (a' x b' y : ℕ)
    → a ≡ a' * 2 + x
    → b ≡ b' * 2 + y
    → x < 2
    → y < 2
    → bit_or a b ≡ bit_or a' b' * 2 + max x y
bit_or_cons {a} {b} a' x b' y p q hx hy =
    let pa : a / 2 ≡ a' = omega arith in
    let pb : b / 2 ≡ b' = omega arith in bit_or_step a b ∙ rw (pa, pb) (omega arith)

pub pow_pos : (n : ℕ) → 0 < 2 ^ n
pow_pos zero = omega arith
pow_pos (suc n) = rw pow-suc (omega (arith, pow_pos n))

-- A mask of `n` ones keeps the low `n` bits.
bit_and_low : (n h m : ℕ) → m < 2 ^ n → bit_and (h * 2 ^ n + m) (2 ^ n - 1) ≡ m
bit_and_low zero h m p = bit_and-zero (h * 1 + m) ∙ omega arith
bit_and_low (suc n) h m p =
    bit_and_cons (h * 2 ^ n + m / 2) (m % 2) (2 ^ n - 1) 1 (rw pow-suc (omega arith))
      (rw pow-suc (omega (arith, pow_pos n))) (omega arith) (omega arith)
    ∙ omega (arith, bit_and_low n h (m / 2) (omega (arith, pow-suc 2 n)))

-- The mask of the `n` bits from bit `s` on keeps the middle part of a number.
pub bit_and_field :
    (s n h m l : ℕ)
    → m < 2 ^ n
    → l < 2 ^ s
    → bit_and ((h * 2 ^ n + m) * 2 ^ s + l) ((2 ^ n - 1) * 2 ^ s) ≡ m * 2 ^ s
bit_and_field zero n h m l pm pl =
    let e : (h * 2 ^ n + m) * 1 + l ≡ h * 2 ^ n + m = omega arith in
    let k : (2 ^ n - 1) * 1 ≡ 2 ^ n - 1 = omega arith in
    rw (e, k) (bit_and_low n h m pm ∙ omega arith)
bit_and_field (suc s) n h m l pm pl =
    bit_and_cons ((h * 2 ^ n + m) * 2 ^ s + l / 2) (l % 2) ((2 ^ n - 1) * 2 ^ s) 0
      (rw pow-suc (omega arith)) (rw pow-suc (omega arith)) (omega arith) (omega arith)
    ∙ rw pow-suc (omega (arith, bit_and_field s n h m (l / 2) pm (omega (arith, pow-suc 2 s))))

-- Among `k` bits, `a & ~m` and `a & m` make up `a`.
pub bit_and_complement :
    (k a m : ℕ) → a < 2 ^ k → m < 2 ^ k → bit_and a (2 ^ k - 1 - m) + bit_and a m ≡ a
bit_and_complement zero zero zero p q = refl
bit_and_complement zero zero (suc m) p q = absurd (omega arith)
bit_and_complement zero (suc a) m p q = absurd (omega arith)
bit_and_complement (suc k) a m p q = omega (
  arith,
  bit_and_cons {a = a} {b = 2 ^ suc k - 1 - m} (a / 2) (a % 2) (2 ^ k - 1 - m / 2) (1 - m % 2)
      (omega arith) (omega (arith, pow-suc 2 k)) (omega arith) (omega arith),
  bit_and_step a m,
  bit_and_complement k (a / 2) (m / 2) (omega (arith, pow-suc 2 k)) (omega (arith, pow-suc 2 k)),
)

-- Or-ing a field into a number that is zero there adds it.
bit_or_low : (n h m : ℕ) → m < 2 ^ n → bit_or (h * 2 ^ n) m ≡ h * 2 ^ n + m
bit_or_low zero h zero p = bit_or-zero (h * 1) ∙ omega arith
bit_or_low zero h (suc m) p = absurd (omega arith)
bit_or_low (suc n) h m p =
    bit_or_cons (h * 2 ^ n) 0 (m / 2) (m % 2) (rw pow-suc (omega arith)) (omega arith) (omega arith)
      (omega arith)
    ∙ rw pow-suc (omega (arith, bit_or_low n h (m / 2) (omega (arith, pow-suc 2 n))))

pub bit_or_field :
    (s n h m l : ℕ)
    → m < 2 ^ n
    → l < 2 ^ s
    → bit_or (h * 2 ^ n * 2 ^ s + l) (m * 2 ^ s) ≡ (h * 2 ^ n + m) * 2 ^ s + l
bit_or_field zero n h m l pm pl =
    let e : h * 2 ^ n * 1 + l ≡ h * 2 ^ n = omega arith in
    let k : m * 1 ≡ m = omega arith in rw (e, k) (bit_or_low n h m pm ∙ omega arith)
bit_or_field (suc s) n h m l pm pl =
    bit_or_cons (h * 2 ^ n * 2 ^ s + l / 2) (l % 2) (m * 2 ^ s) 0 (rw pow-suc (omega arith))
      (rw pow-suc (omega arith)) (omega arith) (omega arith)
    ∙ rw pow-suc (omega (arith, bit_or_field s n h m (l / 2) pm (omega (arith, pow-suc 2 s))))

-- Or-ing a value that fits into a field that is still zero adds it.
pub bit_or_fresh :
    (w v s n : ℕ) → w / 2 ^ s % 2 ^ n ≡ 0 → v < 2 ^ n → bit_or w (v * 2 ^ s) ≡ w + v * 2 ^ s
bit_or_fresh w v s n unset small =
    let h = w / 2 ^ s / 2 ^ n in
    let parts : w ≡ h * 2 ^ n * 2 ^ s + w % 2 ^ s = omega (
      arith,
      div-add-mod' w (2 ^ s),
      ap (λ (t : ℕ). t * 2 ^ s) (div-add-mod' (w / 2 ^ s) (2 ^ n)),
      ap (λ (t : ℕ). t * 2 ^ s) unset,
    ) in
    ap (λ t. bit_or t (v * 2 ^ s)) parts
    ∙ bit_or_field s n h v (w % 2 ^ s) small (mod-lt w (pow_pos s))
    ∙ omega (arith, parts)
