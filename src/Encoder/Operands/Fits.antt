-- ===== src/Encoder/Operands/Fits.antt =====
-- Operands that were read fit their fields, and what setting the size bit does.
use bcpl.Prelude.{ℕ, ◌+◌, ◌*◌, ◌^◌, ◌≤◌, ◌<◌, ◌≡◌, arith, Bool, false, true, Text, ok, >>=-eq-ok}
use bcpl.BitPatcher.Fields.{patch_fresh}
use bcpl.Encoder.Registers.{parse_register, parse_register-le}
use bcpl.Encoder.Operands.{Pair, Triple, parse_two, parse_three, patch_sf}

-- The size bit as a number.
abbrev pub bit : Bool → ℕ
bit true = 1
bit false = 0

pub record Fits (t : Triple) : Type 0 where
  pub rd_fits : t.rd < 32
  pub rn_fits : t.rn < 32
  pub rm_fits : t.rm < 32

pub parse_three-Fits :
    (limit : ℕ) (xd xn xm : Text) {t : Triple}
    → limit ≤ 31
    → parse_three limit xd xn xm ≡ ok t
    → Fits t
unfolding parse_three
parse_three-Fits limit xd xn xm h e =
    let (d, ed, e1) = >>=-eq-ok (parse_register true limit xd) _ e in
    let (n, en, e2) = >>=-eq-ok (parse_register true limit xn) _ e1 in
    let (m, em, e3) = >>=-eq-ok (parse_register true limit xm) _ e2 in
    ground (
      arith,
      parse_register-le true limit xd h ed,
      parse_register-le true limit xn h en,
      parse_register-le true limit xm h em,
    )

pub record PairFits (t : Pair) : Type 0 where
  pub rd_fits : t.rd < 32
  pub rn_fits : t.rn < 32

pub parse_two-Fits :
    (limit : ℕ) (xd xn : Text) {t : Pair} → limit ≤ 31 → parse_two limit xd xn ≡ ok t → PairFits t
unfolding parse_two
parse_two-Fits limit xd xn h e =
    let (d, ed, e1) = >>=-eq-ok (parse_register true limit xd) _ e in
    let (n, en, e2) = >>=-eq-ok (parse_register true limit xn) _ e1 in
    ground (arith, parse_register-le true limit xd h ed, parse_register-le true limit xn h en)

pub bit-le : (b : Bool) → bit b ≤ 1
bit-le b = ground arith

pub patch_sf_lem :
    (sf : Bool) (word : ℕ) → word < 2 ^ 31 → patch_sf sf word ≡ ok (word + bit sf * 2 ^ 31)
unfolding patch_sf
patch_sf_lem true word h =
    patch_fresh word 1 31 1 (omega arith) (omega arith) (omega arith) (omega arith) (omega arith)
patch_sf_lem false word h = ground arith
