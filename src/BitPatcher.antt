-- ===== src/BitPatcher.antt =====
-- BitPatcher.cpp: a 32-bit word in which one bit field at a time is overwritten.
-- `patch` is the inline assembly, one binding for each instruction. The object is its `data` word,
-- so `get_value` and `set_value` are the identity and are not written.
pub mod Fields
use bcpl.Prelude.{
  ℕ, ◌+◌, ◌-◌, ◌*◌, ◌%◌, ◌^◌, bit_and, bit_or, ltb, ◌==◌, if◌then◌else◌, ◌||◌, not, Result, ok,
  out_of_range, ◌>>=◌, ◌>>◌, throw_if,
}
use bcpl.Prelude.Int.{ℤ, pos, pos_part, neg_part, ltb_ℤ}

-- LSL of a W register by a number below 32.
abbrev pub lsl : ℕ → ℕ → ℕ
lsl x k = x * 2 ^ k % 2 ^ 32

-- MVN of a W register.
abbrev pub mvn : ℕ → ℕ
mvn x = 2 ^ 32 - 1 - x

-- `CMP num_bits, #32` and the two ways to make a mask of ones.
abbrev pub ones : ℕ → ℕ
ones num_bits = if num_bits == 32 then 0xFFFFFFFF else lsl 1 num_bits - 1

abbrev pub patch_word : ℕ → ℕ → ℕ → ℕ → ℕ
patch_word word value start_bit num_bits =
    let mask = lsl (ones num_bits) start_bit in
    let cleared = bit_and word (mvn mask) in
    let shifted = lsl value start_bit in let masked = bit_and shifted mask in bit_or cleared masked

unfoldable pub patch : ℕ → ℕ → ℤ → ℤ → Result ℕ
patch word value start_bit num_bits = do
  throw_if (not (ltb_ℤ (pos 0) num_bits) || ltb_ℤ (pos 32) num_bits) out_of_range
  throw_if (ltb_ℤ start_bit (pos 0) || ltb_ℤ (pos 31) start_bit) out_of_range
  throw_if
      (ltb (32 + neg_part start_bit + neg_part num_bits) (pos_part start_bit + pos_part num_bits))
      out_of_range
  ok (patch_word word value (pos_part start_bit) (pos_part num_bits))
