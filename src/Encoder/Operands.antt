-- ===== src/Encoder/Operands.antt =====
-- What the encoders share: reading two or three register operands of one size, and setting the size
-- bit of the word.
pub mod Fits
use bcpl.Prelude.{
  ℕ, Bool, false, true, not, ◌&&◌, Text, if◌then◌else◌, same, Result, ok, invalid_argument, ◌>>=◌,
  ◌>>◌, throw_if,
}
use bcpl.Prelude.Int.{pos}
use bcpl.BitPatcher.{patch}
use bcpl.Encoder.Registers.{parse_register}

pub record Pair : Type 0 where
  pub rd : ℕ
  pub rn : ℕ
  pub sf : Bool

pub record Triple : Type 0 where
  pub rd : ℕ
  pub rn : ℕ
  pub rm : ℕ
  pub sf : Bool

-- `parse_register(xd)`, `parse_register(xn)`, and the check that both have one size.
unfoldable pub parse_two : ℕ → Text → Text → Result Pair
parse_two limit xd xn = do
  (rd_num, rd_is_64) ← parse_register true limit xd
  (rn_num, rn_is_64) ← parse_register true limit xn
  throw_if (not (same rd_is_64 rn_is_64)) invalid_argument
  ok (record { rd = rd_num; rn = rn_num; sf = rd_is_64 })

-- The same with a third operand.
unfoldable pub parse_three : ℕ → Text → Text → Text → Result Triple
parse_three limit xd xn xm = do
  (rd_num, rd_is_64) ← parse_register true limit xd
  (rn_num, rn_is_64) ← parse_register true limit xn
  (rm_num, rm_is_64) ← parse_register true limit xm
  throw_if (not (same rd_is_64 rn_is_64 && same rn_is_64 rm_is_64)) invalid_argument
  ok (record { rd = rd_num; rn = rn_num; rm = rm_num; sf = rd_is_64 })

-- `if (is_64) patcher.patch(1, 31, 1);`
unfoldable pub patch_sf : Bool → ℕ → Result ℕ
patch_sf is_64 word = if is_64 then patch word 1 (pos 31) (pos 1) else ok word
