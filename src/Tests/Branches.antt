-- ===== src/Tests/Branches.antt =====
-- Runs of the encoders of branches and addresses.
use bcpl.Prelude.{ℕ, ◌+◌, ◌≡◌, refl, arith, true, Text, codes, text_eq, some, ok}
use bcpl.Prelude.Decimal.{stoul}
use bcpl.BitPatcher.{patch}
use bcpl.Arm64.{adrp, add_imm, decode}
use bcpl.Linker.{relocate_word}
use bcpl.Linker.RelocateAddress.{adrp_page}
use bcpl.Encoder.Registers.{get_reg_encoding}
use bcpl.Encoder.Branch.{create_adrp, create_add_literal, parse_x_register, parse_address_register}
use bcpl.Encoder.Branch.Address.{create_adrp-create_add_literal}
use bcpl.Prelude.Int.{pos}
use bcpl.Instruction.{Instruction, instruction, OpType, RelocationType}

abbrev x0 : Text
x0 = codes "x0"

abbrev loop : Text
loop = codes "LOOP"

abbrev adrp_x0 : Instruction
adrp_x0 = record (instruction 0x90000000 (codes "ADRP x0, LOOP")) {
  opcode = OpType.adrp;
  dest_reg = pos 0;
  relocation = RelocationType.page_21_bit_pc_relative;
  target_label = loop;
}

abbrev add_x0 : Instruction
add_x0 = record (instruction 0x91000000 (codes "ADD x0, x0, #:lo12:LOOP")) {
  opcode = OpType.add;
  dest_reg = pos 0;
  src_reg1 = pos 0;
  uses_immediate = true;
  relocation = RelocationType.add_12_bit_unsigned_offset;
  target_label = loop;
}

create_adrp-create_add_literal_example :
    (rd : ℕ) × (re : ℕ) × (rn : ℕ) × (page : ℕ) × (low : ℕ) × (parse_x_register 30 x0 ≡ ok rd)
    × (parse_address_register x0 ≡ ok re)
    × (parse_address_register x0 ≡ ok rn)
    × (decode 0x90000020 ≡ some (adrp rd page))
    × (decode 0x9104D000 ≡ some (add_imm true re rn low))
    × (adrp_page 0x1000 page + low ≡ 0x5134)
unfolding create_adrp create_add_literal parse_x_register parse_address_register relocate_word
    text_eq stoul patch get_reg_encoding
create_adrp-create_add_literal_example =
    create_adrp-create_add_literal x0 loop x0 x0 loop 0x1000 0x1004 0x5134 {instr = adrp_x0}
      {add_instr = add_x0} {w = 0x90000020} {x = 0x9104D000} (omega arith) (omega arith)
      (omega arith) (omega arith) refl refl refl refl
