-- ===== src/Tests/Encoders.antt =====
-- Runs of the encoders of arithmetic, of logic and of moves between registers.
use bcpl.Prelude.{ℕ, ◌%◌, ◌≡◌, refl, Bool, false, Text, codes, text_eq, some, ok}
use bcpl.Prelude.Int.{pos}
use bcpl.Prelude.Decimal.{stoul, stoi}
use bcpl.BitPatcher.{patch}
use bcpl.Arm64.{ubfm, orr_reg, orn_reg, decode}
use bcpl.Encoder.Registers.{parse_register, parse_register_unchecked, get_reg_encoding}
use bcpl.Encoder.Operands.{Triple, parse_three}
use bcpl.Encoder.ThreeReg.{create_add_reg, create_orr_reg, opt_create_asr_reg}
use bcpl.Encoder.ThreeReg.Laws.{
  create_of, asm_of, add_op, create_of-decode, AsrFields, opt_create_asr_reg-decode,
}
use bcpl.Encoder.ThreeReg.Special.{create_orr_reg-decode}
use bcpl.Encoder.AddSub.{create_mvn_reg}
use bcpl.Encoder.AddSub.Registers.{create_mvn_reg-decode}
use bcpl.Encoder.Branch.{starts_with_x}
use bcpl.Encoder.BitField.{opt_create_ubfx}
use bcpl.Encoder.BitField.Decode.{Extracts, opt_create_ubfx-decode}
use bcpl.Tests.Data.{value, ok-value}

abbrev x0 : Text
x0 = codes "x0"

abbrev x1 : Text
x1 = codes "X1"

abbrev x30 : Text
x30 = codes "x30"

abbrev sp : Text
sp = codes "SP"

create_of-decode_example :
    (t : Triple) × (parse_three 30 x0 x1 x30 ≡ ok t)
    × (decode (value (create_of add_op x0 x1 x30)).encoding ≡ some (asm_of add_op t))
unfolding create_add_reg parse_register text_eq stoul patch get_reg_encoding
create_of-decode_example =
    create_of-decode add_op x0 x1 x30 (ok-value (create_of add_op x0 x1 x30) refl)

create_orr_reg-decode_example :
    (t : Triple) × (parse_three 31 x0 x1 x30 ≡ ok t)
    × (decode (value (create_orr_reg x0 x1 x30)).encoding ≡ some (orr_reg false t.rd t.rn t.rm 0))
unfolding create_orr_reg parse_register text_eq stoul patch get_reg_encoding
create_orr_reg-decode_example =
    create_orr_reg-decode x0 x1 x30 (ok-value (create_orr_reg x0 x1 x30) refl)

opt_create_asr_reg-decode_example :
    (t : Triple) × (parse_three 31 x0 x1 x30 ≡ ok t)
    × AsrFields t (value (opt_create_asr_reg x0 x1 x30)).encoding
unfolding opt_create_asr_reg parse_register text_eq stoul patch get_reg_encoding
opt_create_asr_reg-decode_example =
    opt_create_asr_reg-decode x0 x1 x30 (ok-value (opt_create_asr_reg x0 x1 x30) refl)

create_mvn_reg-decode_example :
    (d : ℕ × Bool) × (m : ℕ × Bool) × (parse_register_unchecked x0 ≡ ok d)
    × (parse_register_unchecked x30 ≡ ok m)
    × (decode (value (create_mvn_reg x0 x30)).encoding
        ≡ some (orn_reg d.1 (d.0 % 32) 31 (m.0 % 32) 2))
unfolding create_mvn_reg parse_register text_eq stoul patch get_reg_encoding
    parse_register_unchecked stoi
create_mvn_reg-decode_example = create_mvn_reg-decode x0 x30 (ok-value (create_mvn_reg x0 x30) refl)

opt_create_ubfx-decode_example :
    Extracts
      (ubfm (starts_with_x x0))
      x0
      x1
      (pos 4)
      (pos 8)
      (value (opt_create_ubfx x0 x1 (pos 4) (pos 8)))
unfolding opt_create_ubfx text_eq stoul patch get_reg_encoding
opt_create_ubfx-decode_example =
    opt_create_ubfx-decode x0 x1 (pos 4) (pos 8)
      (ok-value (opt_create_ubfx x0 x1 (pos 4) (pos 8)) refl)
