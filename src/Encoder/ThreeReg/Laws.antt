-- ===== src/Encoder/ThreeReg/Laws.antt =====
-- What the three-register encoders emit, read back by the decoder.
use bcpl.Prelude.{
  ℕ, ◌/◌, ◌%◌, ◌^◌, ◌≡◌, ◌≢◌, ◌∙◌, sym, ap, arith, Bool, Text, codes, Result, ok, none, some,
}
use bcpl.Instruction.{Instruction, OpType}
use bcpl.Arm64.{
  Asm, add_reg, sub_reg, and_reg, lslv, lsrv, asrv, decode, decode_at, class_decode, add_sub_reg,
  logical_reg, other_reg,
}
use bcpl.Encoder.Operands.{Triple, parse_three}
use bcpl.Encoder.ThreeReg.{
  create_add_reg, create_sub_reg, create_and_reg, create_lsl_reg, create_lsr_reg,
  opt_create_asr_reg,
}
use bcpl.Encoder.Operands.Fits.{Fits, bit, bit-le}
use bcpl.Encoder.ThreeReg.Decode.{three_word, three_reg-word}

pub data ThreeOp : Type 0 where
  add_op sub_op and_op lsl_op lsr_op : ThreeOp

-- The encoder of an operation, the largest register number that it takes, and its base opcode.
abbrev pub create_of : ThreeOp → Text → Text → Text → Result Instruction
create_of add_op = create_add_reg
create_of sub_op = create_sub_reg
create_of and_op = create_and_reg
create_of lsl_op = create_lsl_reg
create_of lsr_op = create_lsr_reg

abbrev pub limit_of : ThreeOp → ℕ
limit_of add_op = 30
limit_of sub_op = 31
limit_of and_op = 30
limit_of lsl_op = 31
limit_of lsr_op = 31

abbrev base_of : ThreeOp → ℕ
base_of add_op = 0x0B000000
base_of sub_op = 0x4B000000
base_of and_op = 0x0A000000
base_of lsl_op = 0x1AC02000
base_of lsr_op = 0x1AC02400

-- The instruction that the operation is named for.
abbrev pub asm_of : ThreeOp → Triple → Asm
asm_of add_op t = add_reg t.sf t.rd t.rn t.rm 0
asm_of sub_op t = sub_reg t.sf t.rd t.rn t.rm 0
asm_of and_op t = and_reg t.sf t.rd t.rn t.rm 0
asm_of lsl_op t = lslv t.sf t.rd t.rn t.rm
asm_of lsr_op t = lsrv t.sf t.rd t.rn t.rm

other_reg_lsl : (t : Triple) → Fits t → other_reg (three_word 0x1AC02000 t) ≡ some (asm_of lsl_op t)
unfolding other_reg
other_reg_lsl t f = ground arith

other_reg_lsr : (t : Triple) → Fits t → other_reg (three_word 0x1AC02400 t) ≡ some (asm_of lsr_op t)
unfolding other_reg
other_reg_lsr t f = ground arith

decode_word :
    (op : ThreeOp) (t : Triple) → Fits t → decode (three_word (base_of op) t) ≡ some (asm_of op t)
unfolding class_decode add_sub_reg logical_reg
decode_word add_op t f =
    decode_at (three_word 0x0B000000 t) 22 (omega (arith, bit-le)) ∙ ground arith
decode_word sub_op t f =
    decode_at (three_word 0x4B000000 t) 22 (omega (arith, bit-le)) ∙ ground arith
decode_word and_op t f =
    decode_at (three_word 0x0A000000 t) 20 (omega (arith, bit-le)) ∙ ground arith
decode_word lsl_op t f =
    decode_at (three_word 0x1AC02000 t) 53 (omega (arith, bit-le)) ∙ other_reg_lsl t f
decode_word lsr_op t f =
    decode_at (three_word 0x1AC02400 t) 53 (omega (arith, bit-le)) ∙ other_reg_lsr t f

create_of-word :
    (op : ThreeOp) (xd xn xm : Text) {instr : Instruction}
    → create_of op xd xn xm ≡ ok instr
    → (t : Triple) × (parse_three (limit_of op) xd xn xm ≡ ok t)
      × Fits t
      × (instr.encoding ≡ three_word (base_of op) t)
unfolding create_add_reg create_sub_reg create_and_reg create_lsl_reg create_lsr_reg
create_of-word add_op xd xn xm e =
    three_reg-word 30 0x0B000000 OpType.add (codes "ADD") xd xn xm (omega arith) (omega arith) e
create_of-word sub_op xd xn xm e =
    three_reg-word 31 0x4B000000 OpType.sub (codes "SUB") xd xn xm (omega arith) (omega arith) e
create_of-word and_op xd xn xm e =
    three_reg-word 30 0x0A000000 OpType.and (codes "AND") xd xn xm (omega arith) (omega arith) e
create_of-word lsl_op xd xn xm e =
    three_reg-word 31 0x1AC02000 OpType.lsl (codes "LSL") xd xn xm (omega arith) (omega arith) e
create_of-word lsr_op xd xn xm e =
    three_reg-word 31 0x1AC02400 OpType.lsr (codes "LSR") xd xn xm (omega arith) (omega arith) e

-- Every word that the ADD, SUB, AND, LSL and LSR encoders make from three register operands decodes to
-- the instruction of that name, with the size and the numbers of those operands.
pub create_of-decode :
    (op : ThreeOp) (xd xn xm : Text) {instr : Instruction}
    → create_of op xd xn xm ≡ ok instr
    → (t : Triple) × (parse_three (limit_of op) xd xn xm ≡ ok t)
      × (decode instr.encoding ≡ some (asm_of op t))
create_of-decode op xd xn xm e =
    let (t, et, f, ew) = create_of-word op xd xn xm e in (t, et, ap decode ew ∙ decode_word op t f)

decode_asr : (t : Triple) → Fits t → decode (three_word 0x1AC01000 t) ≡ none
unfolding class_decode other_reg
decode_asr t f = decode_at (three_word 0x1AC01000 t) 53 (omega (arith, bit-le)) ∙ ground arith

-- The fields of the word, and that no arithmetic shift is read from it.
abbrev pub AsrFields : Triple → ℕ → Type 0
AsrFields t word =
    (word / 2 ^ 21 % 2 ^ 10 ≡ 0x0D6)
    × (word / 2 ^ 10 % 2 ^ 6 ≡ 4)
    × (word / 2 ^ 31 ≡ bit t.sf)
    × (word % 2 ^ 5 ≡ t.rd)
    × (word / 2 ^ 5 % 2 ^ 5 ≡ t.rn)
    × (word / 2 ^ 16 % 2 ^ 5 ≡ t.rm)
    × ((sf : Bool) (rd rn rm : ℕ) → decode word ≢ some (asrv sf rd rn rm))

asr_fields : (t : Triple) → Fits t → AsrFields t (three_word 0x1AC01000 t)
asr_fields t f = (
  omega (arith, bit-le),
  omega (arith, bit-le),
  omega (arith, bit-le),
  omega (arith, bit-le),
  omega (arith, bit-le),
  omega (arith, bit-le),
  λ sf rd rn rm e. let k = sym e ∙ decode_asr t f in cc,
)

-- Every word that the ASR (register) encoder makes from three register operands is in the two-source
-- group, with the registers and the size of those operands, but has opcode 4 there, where ASRV has 10
-- (4 with 64 bits is IRG): so it decodes to an arithmetic shift of no registers.
pub opt_create_asr_reg-decode :
    (xd xn xm : Text) {instr : Instruction}
    → opt_create_asr_reg xd xn xm ≡ ok instr
    → (t : Triple) × (parse_three 31 xd xn xm ≡ ok t) × AsrFields t instr.encoding
unfolding opt_create_asr_reg
opt_create_asr_reg-decode xd xn xm e =
    let (t, et, f, ew) =
      three_reg-word 31 0x1AC01000 OpType.asr (codes "ASR") xd xn xm (omega arith) (omega arith)
        e in
    (t, et, rw ew (asr_fields t f))
