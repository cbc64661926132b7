-- ===== src/Encoder/Pairs/Decode.antt =====
-- What the encoders of register pairs make, by the instruction set.
use bcpl.Prelude.{
  ℕ, suc, ◌+◌, ◌-◌, ◌*◌, ◌/◌, ◌%◌, ◌^◌, ◌<◌, ◌≤◌, ◌≡◌, ◌∙◌, ap, arith, Bool, false, true, Text,
  if◌then◌else◌, ok, >>=-eq-ok, some, bit_or,
}
use bcpl.Prelude.Int.{ℤ, pos, negsuc, signed, quot, wrap}
use bcpl.Prelude.Bits.{bit_or_fresh}
use bcpl.BitPatcher.Fields.{patch_fresh}
use bcpl.Arm64.{
  stp_pre, stp_offset, ldp_offset, ldnp, decode, decode_at, class_decode, load_store_pair,
}
use bcpl.Encoder.Registers.{parse_register, parse_register-le}
use bcpl.Encoder.Operands.Fits.{bit, bit-le}
use bcpl.Encoder.Pairs.{
  PairOperands, parse_pair, pair_scale, not_pair_offset, imm7_of, unsigned_imm7, patch_pair,
}

pub record PairFits (t : PairOperands) : Type 0 where
  pub rt1_fits : t.rt1 < 32
  pub rt2_fits : t.rt2 < 32
  pub rn_fits : t.rn < 32

pub parse_pair-PairFits :
    (xt1 xt2 xn : Text) {t : PairOperands} → parse_pair xt1 xt2 xn ≡ ok t → PairFits t
unfolding parse_pair
parse_pair-PairFits xt1 xt2 xn e =
    let (d, ed, e1) = >>=-eq-ok (parse_register true 31 xt1) _ e in
    let (n, en, e2) = >>=-eq-ok (parse_register true 31 xt2) _ e1 in
    let (m, em, e3) = >>=-eq-ok (parse_register true 31 xn) _ e2 in
    ground (
      arith,
      parse_register-le true 31 xt1 (omega arith) ed,
      parse_register-le true 31 xt2 (omega arith) en,
      parse_register-le true 31 xn (omega arith) em,
    )

abbrev pub pair_word : ℕ → PairOperands → ℕ → ℕ
pair_word base t i = base + i * 2 ^ 15 + t.rt2 * 2 ^ 10 + t.rn * 2 ^ 5 + t.rt1

-- The byte offset that a pair's 7-bit immediate stands for.
abbrev pub times : ℕ → ℤ → ℤ
times k (pos n) = pos (k * n)
times k (negsuc n) = negsuc (k * n + (k - 1))

abbrev pub pair_offset : Bool → ℕ → ℤ
pair_offset sf imm7 = times (pair_scale sf) (signed 7 imm7)

quot_negsuc : (n d : ℕ) → 0 < suc n / d → quot (negsuc n) d ≡ negsuc (suc n / d - 1)
quot_negsuc n d h = ground arith

-- A negative word offset survives its seven bits.
signed-wrap : (q : ℕ) → q < 64 → signed 7 (wrap 7 (negsuc q)) ≡ negsuc q
signed-wrap q h = ground arith

pub imm7_lem :
    (sf : Bool) (immediate : ℤ)
    → not_pair_offset sf immediate ≡ false
    → pair_offset sf (imm7_of sf immediate) ≡ immediate
imm7_lem true (pos n) h = ground arith
imm7_lem true (negsuc n) h =
    let e : suc n ≡ 8 * (suc n / 8) = ground arith in
    let low : suc n ≤ 512 = ground arith in
    rw (quot_negsuc n 8 (omega arith), signed-wrap (suc n / 8 - 1) (omega arith))
      (ap negsuc (omega arith))
imm7_lem false (pos n) h = ground arith
imm7_lem false (negsuc n) h =
    let e : suc n ≡ 4 * (suc n / 4) = ground arith in
    let low : suc n ≤ 256 = ground arith in
    rw (quot_negsuc n 4 (omega arith), signed-wrap (suc n / 4 - 1) (omega arith))
      (ap negsuc (omega arith))

-- The unsigned division of the post-index encoder agrees.
pub unsigned_lem :
    (sf : Bool) (immediate : ℤ)
    → not_pair_offset sf immediate ≡ false
    → unsigned_imm7 sf immediate ≡ imm7_of sf immediate
unsigned_lem true (pos n) h = ground arith
unsigned_lem true (negsuc n) h =
    let e : suc n ≡ 8 * (suc n / 8) = ground arith in
    let low : suc n ≤ 512 = ground arith in rw (quot_negsuc n 8 (omega arith)) (omega arith)
unsigned_lem false (pos n) h = ground arith
unsigned_lem false (negsuc n) h =
    let e : suc n ≡ 4 * (suc n / 4) = ground arith in
    let low : suc n ≤ 256 = ground arith in rw (quot_negsuc n 4 (omega arith)) (omega arith)

-- Or-ing the fields into the base is patching them.
pub or_pair_lem :
    (t : PairOperands) (i base : ℕ)
    → PairFits t
    → i < 2 ^ 7
    → base % 2 ^ 22 ≡ 0
    → bit_or (bit_or (bit_or (bit_or base (i * 2 ^ 15)) (t.rt2 * 2 ^ 10)) (t.rn * 2 ^ 5)) t.rt1
      ≡ pair_word base t i
or_pair_lem t i base f hi hb =
    let w1 = base + i * 2 ^ 15 in
    let w2 = w1 + t.rt2 * 2 ^ 10 in
    let w3 = w2 + t.rn * 2 ^ 5 in
    let last : t.rt1 ≡ t.rt1 * 2 ^ 0 = omega arith in
    rw
      (
        bit_or_fresh base i 15 7 (omega arith) hi,
        bit_or_fresh w1 t.rt2 10 5 (omega arith) f.rt2_fits,
        bit_or_fresh w2 t.rn 5 5 (omega arith) f.rn_fits,
      )
      (ap (λ v. bit_or w3 v) last
        ∙ bit_or_fresh w3 t.rt1 0 5 (omega arith) f.rt1_fits
        ∙ omega arith)

pub wrap-lt : (i : ℤ) → wrap 7 i < 2 ^ 7
wrap-lt (pos n) = omega arith
wrap-lt (negsuc n) = omega arith

pub imm7_of-lt : (sf : Bool) (immediate : ℤ) → imm7_of sf immediate < 2 ^ 7
imm7_of-lt sf immediate = wrap-lt (quot immediate (pair_scale sf))

pub patch_pair_lem :
    (t : PairOperands) (i base : ℕ)
    → PairFits t
    → i < 2 ^ 7
    → base % 2 ^ 22 ≡ 0
    → base < 2 ^ 32
    → patch_pair t i base ≡ ok (pair_word base t i)
unfolding patch_pair
patch_pair_lem t i base f hi hb hs =
    let w1 = base + i * 2 ^ 15 in
    let w2 = w1 + t.rt2 * 2 ^ 10 in
    let w3 = w2 + t.rn * 2 ^ 5 in
    rw
      (
        patch_fresh base i 15 7 (omega arith) (omega arith) (omega arith) hi hs,
        patch_fresh w1 t.rt2 10 5 (omega arith) (omega arith) (omega arith) f.rt2_fits
            (omega arith),
        patch_fresh w2 t.rn 5 5 (omega arith) (omega arith) (omega arith) (omega arith)
            (omega arith),
        patch_fresh w3 t.rt1 0 5 (omega arith) (omega arith) (omega arith) (omega arith)
            (omega arith),
      )
      (ap ok (omega arith))

sized_base : (sf : Bool) (base : ℕ) → (if sf then base + 2 ^ 31 else base) ≡ base + bit sf * 2 ^ 31
sized_base true base = omega arith
sized_base false base = omega arith

pub decode_stp_pre :
    (t : PairOperands) (i : ℕ)
    → PairFits t
    → i < 2 ^ 7
    → decode (pair_word (0x29800000 + bit t.sf * 2 ^ 31) t i)
      ≡ some (stp_pre t.sf t.rt1 t.rt2 t.rn i)
unfolding class_decode load_store_pair
decode_stp_pre t i f hi =
    let a = f.rt1_fits in
    let b = f.rt2_fits in
    let c = f.rn_fits in
    decode_at (pair_word (0x29800000 + bit t.sf * 2 ^ 31) t i) 19 (omega (arith, bit-le))
    ∙ ground arith

pub decode_stp_offset :
    (t : PairOperands) (i : ℕ)
    → PairFits t
    → i < 2 ^ 7
    → decode (pair_word (0x29000000 + bit t.sf * 2 ^ 31) t i)
      ≡ some (stp_offset t.sf t.rt1 t.rt2 t.rn i)
unfolding class_decode load_store_pair
decode_stp_offset t i f hi =
    let a = f.rt1_fits in
    let b = f.rt2_fits in
    let c = f.rn_fits in
    decode_at (pair_word (0x29000000 + bit t.sf * 2 ^ 31) t i) 18 (omega (arith, bit-le))
    ∙ ground arith

pub decode_ldp_offset :
    (t : PairOperands) (i : ℕ)
    → PairFits t
    → i < 2 ^ 7
    → decode (pair_word (0x29400000 + bit t.sf * 2 ^ 31) t i)
      ≡ some (ldp_offset t.sf t.rt1 t.rt2 t.rn i)
unfolding class_decode load_store_pair
decode_ldp_offset t i f hi =
    let a = f.rt1_fits in
    let b = f.rt2_fits in
    let c = f.rn_fits in
    decode_at (pair_word (0x29400000 + bit t.sf * 2 ^ 31) t i) 18 (omega (arith, bit-le))
    ∙ ground arith

pub decode_ldnp :
    (t : PairOperands) (i : ℕ)
    → PairFits t
    → i < 2 ^ 7
    → decode (pair_word (0x28400000 + bit t.sf * 2 ^ 31) t i) ≡ some (ldnp t.sf t.rt1 t.rt2 t.rn i)
unfolding class_decode load_store_pair
decode_ldnp t i f hi =
    let a = f.rt1_fits in
    let b = f.rt2_fits in
    let c = f.rn_fits in
    decode_at (pair_word (0x28400000 + bit t.sf * 2 ^ 31) t i) 16 (omega (arith, bit-le))
    ∙ ground arith
