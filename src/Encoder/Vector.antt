-- ===== src/Encoder/Vector.antt =====
-- Arithmetic on vectors: encoders/enc_create_add_vector_reg.cpp, enc_create_fmla_vector_reg.cpp,
-- enc_create_fmul_vector_reg.cpp, enc_create_mul_vector_reg.cpp, enc_create_fadd_vector_reg.cpp and
-- enc_create_ld1_vector_reg.cpp.
use bcpl.Prelude.{
  ℕ, ◌*◌, ◌^◌, bit_or, true, ◌++◌, Text, codes, text_eq, if◌then◌else◌, Result, ok, err,
  runtime_error, ◌>>=◌,
}
use bcpl.Prelude.Int.{pos}
use bcpl.Instruction.{Instruction, instruction, OpType}
use bcpl.Encoder.Registers.{get_reg_encoding}
use bcpl.Encoder.FloatingPoint.{or_three}

-- `v << "." << arrangement`
abbrev pub arranged : Text → Text → Text
arranged v arrangement = v ++ (codes "." ++ arrangement)

unfoldable pub finish_vector : OpType → Text → Text → Text → Text → Text → ℕ → Result Instruction
finish_vector op mnemonic vd vn vm arrangement word = do
  dest ← get_reg_encoding vd
  src1 ← get_reg_encoding vn
  src2 ← get_reg_encoding vm
  ok
      (record (instruction word (
        mnemonic
        ++ (codes " "
            ++ (arranged vd arrangement
                ++ (codes ", "
                    ++ (arranged vn arrangement ++ (codes ", " ++ arranged vm arrangement))))))) {
                      opcode = op;
                      dest_reg = pos dest;
                      src_reg1 = pos src1;
                      src_reg2 = pos src2;
                    })

-- Four of the files differ in their base opcode and their name: the arrangement is not in the word.
unfoldable pub vector_reg : ℕ → OpType → Text → Text → Text → Text → Text → Result Instruction
unfolding finish_vector
vector_reg base op mnemonic vd vn vm arrangement = do
  rd ← get_reg_encoding vd
  rn ← get_reg_encoding vn
  rm ← get_reg_encoding vm
  finish_vector op mnemonic vd vn vm arrangement (or_three base rm rn rd)

pub create_add_vector_reg : Text → Text → Text → Text → Result Instruction
unfolding vector_reg
create_add_vector_reg = vector_reg 0x4E208000 OpType.add_vector (codes "ADD")

pub create_fmla_vector_reg : Text → Text → Text → Text → Result Instruction
unfolding vector_reg
create_fmla_vector_reg = vector_reg 0x4E208000 OpType.fmla_vector (codes "FMLA")

pub create_fmul_vector_reg : Text → Text → Text → Text → Result Instruction
unfolding vector_reg
create_fmul_vector_reg = vector_reg 0x4E209000 OpType.fmul_vector (codes "FMUL")

pub create_mul_vector_reg : Text → Text → Text → Text → Result Instruction
unfolding vector_reg
create_mul_vector_reg = vector_reg 0x4E209C00 OpType.mul_vector (codes "MUL")

-- The size bits of the two arrangements.
abbrev pub size_bits : Text → Result ℕ
size_bits arrangement =
    if text_eq arrangement (codes "4S")
    then ok 1
    else (if text_eq arrangement (codes "2D") then ok 2 else err runtime_error)

pub create_fadd_vector_reg : Text → Text → Text → Text → Result Instruction
unfolding finish_vector
create_fadd_vector_reg vd vn vm arrangement = do
  rd ← get_reg_encoding vd
  rn ← get_reg_encoding vn
  rm ← get_reg_encoding vm
  size ← size_bits arrangement
  finish_vector OpType.fadd_vector (codes "FADD") vd vn vm arrangement
      (bit_or (or_three 0x4E208400 rm rn rd) (size * 2 ^ 22))

pub create_ld1_vector_reg : Text → Text → Text → Result Instruction
create_ld1_vector_reg vt xn arrangement = do
  rt ← get_reg_encoding vt
  rn ← get_reg_encoding xn
  dest ← get_reg_encoding vt
  base ← get_reg_encoding xn
  ok
      (record (instruction (bit_or (bit_or 0x4C40CC00 (rn * 2 ^ 5)) rt)
        (codes "LD1 {" ++ (arranged vt arrangement ++ (codes "}, [" ++ (xn ++ codes "]"))))) {
          opcode = OpType.ld1_vector;
          dest_reg = pos dest;
          base_reg = pos base;
          is_mem_op = true;
        })
