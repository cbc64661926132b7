-- ===== src/Prelude/Results.antt =====
-- C++ exceptions as values. Messages are left out. `undefined` stands for what the language leaves
-- undefined, such as `back()` of an empty list.
use mathlib.Core.Path.{◌≡◌, refl, sym, subst}
use mathlib.Core.Bool.{Bool, true, false}

pub data Error : Type 0 where
  invalid_argument out_of_range runtime_error undefined : Error

-- What a call returns or throws.
pub data Result {ℓ} (A : Type ℓ) : Type ℓ where
  err : (thrown : Error) → Result A
  ok : (returned : A) → Result A

-- `if (bad) throw e;`
abbrev pub throw_if : (bad : Bool) → Error → Result (Unit {0})
throw_if false e = ok tt
throw_if true e = err e

-- The statements behind a call run only if it returns.
infixl 5 ◌>>=◌
abbrev pub ◌>>=◌ {ℓ κ} :
    {A : Type ℓ} {B : Type κ} (call : Result A) (next : A → Result B) → Result B
err thrown >>= next = err thrown
ok returned >>= next = next returned

infixl 5 ◌>>◌
abbrev pub ◌>>◌ {ℓ κ} : {A : Type ℓ} {B : Type κ} (call : Result A) (next : Result B) → Result B
call >> next = call >>= λ returned. next

-- The two calls of a bind that returned `b`.
abbrev pub Returned {ℓ κ} : {A : Type ℓ} {B : Type κ} → B → Result A → (A → Result B) → Type (ℓ ⊔ κ)
Returned {A = A} b call next = (a : A) × (call ≡ ok a) × (next a ≡ ok b)

-- Inversion of a successful bind.
pub >>=-eq-ok {ℓ κ} :
    {A : Type ℓ} {B : Type κ} {b : B} (call : Result A) (next : A → Result B)
    → (call >>= next) ≡ ok b
    → Returned b call next
>>=-eq-ok (err e) next h = cc
>>=-eq-ok (ok a) next h = (a, refl, h)

pub throw_if-eq-ok : (b : Bool) (e : Error) {u : Unit {0}} → throw_if b e ≡ ok u → b ≡ false
throw_if-eq-ok true e h = cc
throw_if-eq-ok false e h = refl

pub ok-injective {ℓ} : {A : Type ℓ} {a b : A} → ok a ≡ ok b → a ≡ b
ok-injective h = cc

-- A bind returns where both of its calls do.
pub >>=-returns {ℓ κ} :
    {A : Type ℓ} {B : Type κ} {call : Result A} {a : A} (next : A → Result B)
    → call ≡ ok a
    → (b : B) × (next a ≡ ok b)
    → (b : B) × ((call >>= next) ≡ ok b)
>>=-returns {call = err e} next h r = absurd (cc)
>>=-returns {call = ok c} {a} next h r =
    subst (λ d. (b : _) × (next d ≡ ok b)) (sym (ok-injective h)) r

abbrev pub is_ok {ℓ} : {A : Type ℓ} → Result A → Bool
is_ok (err e) = false
is_ok (ok a) = true

pub is_ok-returns {ℓ} : {A : Type ℓ} (r : Result A) → is_ok r ≡ true → (a : A) × (r ≡ ok a)
is_ok-returns (err e) h = absurd (cc)
is_ok-returns (ok a) h = (a, refl)
