-- ===== src/Tests/Moves.antt =====
-- Runs of the encoders of wide moves and of register pairs.
use bcpl.Prelude.{ℕ, ◌≡◌, refl, arith, true, Text, codes, text_eq, some, ok}
use bcpl.Prelude.Int.{pos}
use bcpl.Prelude.Decimal.{stoul}
use bcpl.BitPatcher.{patch}
use bcpl.Arm64.{ldnp, decode}
use bcpl.Encoder.Registers.{parse_register, get_reg_encoding}
use bcpl.Encoder.MoveWide.{create_movz_movk_abs64}
use bcpl.Encoder.MoveWide.Value.{load, create_movz_movk_abs64-load}
use bcpl.Encoder.Pairs.{PairOperands, parse_pair, create_ldp_post_imm}
use bcpl.Encoder.Pairs.Decode.{pair_offset}
use bcpl.Encoder.Pairs.Laws.{create_ldp_post_imm-decode}
use bcpl.Tests.Data.{value, ok-value, values, ok-values}

abbrev x0 : Text
x0 = codes "x0"

abbrev x29 : Text
x29 = codes "x29"

abbrev x30 : Text
x30 = codes "x30"

abbrev sp : Text
sp = codes "SP"

create_movz_movk_abs64-load_example :
    load 0 (values (create_movz_movk_abs64 x0 0x7F0000401000)) 5 ≡ some 0x7F0000401000
unfolding create_movz_movk_abs64 parse_register text_eq stoul patch get_reg_encoding
create_movz_movk_abs64-load_example =
    create_movz_movk_abs64-load x0 0 true 0x7F0000401000 5 refl (omega arith) (omega arith)
      (ok-values (create_movz_movk_abs64 x0 0x7F0000401000) refl)

create_ldp_post_imm-decode_example :
    (t : PairOperands) × (i : ℕ) × (parse_pair x29 x30 sp ≡ ok t)
    × (pair_offset t.sf i ≡ pos 16)
    × (decode (value (create_ldp_post_imm x29 x30 sp (pos 16))).encoding
        ≡ some (ldnp t.sf t.rt1 t.rt2 t.rn i))
unfolding create_ldp_post_imm parse_register text_eq stoul patch get_reg_encoding
create_ldp_post_imm-decode_example =
    create_ldp_post_imm-decode x29 x30 sp (pos 16)
      (ok-value (create_ldp_post_imm x29 x30 sp (pos 16)) refl)
