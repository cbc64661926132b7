-- ===== src/Encoder/ThreeReg/Decode.antt =====
-- The words of the three-register encoders decode to the instructions that they are named for.
use bcpl.Prelude.{ℕ, ◌+◌, ◌*◌, ◌/◌, ◌%◌, ◌^◌, ◌≤◌, ◌<◌, ◌≡◌, arith, Text, ok, ap, >>=-eq-ok}
use bcpl.BitPatcher.Fields.{patch_fresh}
use bcpl.Instruction.{Instruction, OpType}
use bcpl.Encoder.Operands.{Triple, parse_three}
use bcpl.Encoder.Operands.Fits.{bit, bit-le, Fits, parse_three-Fits, patch_sf_lem}
use bcpl.Encoder.ThreeReg.{patch_three, finish_three, three_reg}

pub patch_three_lem :
    (t : Triple) (word : ℕ)
    → Fits t
    → word % 2 ^ 10 ≡ 0
    → word / 2 ^ 16 % 2 ^ 5 ≡ 0
    → word < 2 ^ 32
    → patch_three t word ≡ ok (word + t.rd + t.rn * 2 ^ 5 + t.rm * 2 ^ 16)
unfolding patch_three
patch_three_lem t word f low mid small =
    rw
      (
        patch_fresh word t.rd 0 5 (omega arith) (omega arith) (omega arith) (omega arith) small,
        patch_fresh (word + t.rd * 2 ^ 0) t.rn 5 5 (omega arith) (omega arith) (omega arith)
            (omega arith) (omega arith),
        patch_fresh (word + t.rd * 2 ^ 0 + t.rn * 2 ^ 5) t.rm 16 5 (omega arith) (omega arith)
            (omega arith) (omega arith) (omega arith),
      )
      (ap ok (omega arith))

-- The word of three registers over a base opcode, and what the decoder makes of it.
abbrev pub three_word : ℕ → Triple → ℕ
three_word base t = base + bit t.sf * 2 ^ 31 + t.rd + t.rn * 2 ^ 5 + t.rm * 2 ^ 16

pub finish_three-encoding :
    (op : OpType) (m xd xn xm : Text) (word : ℕ) {instr : Instruction}
    → finish_three op m xd xn xm word ≡ ok instr
    → instr.encoding ≡ word
unfolding finish_three
finish_three-encoding op m xd xn xm word e = ground arith

-- What a base opcode must leave free.
pub record IsBase (base : ℕ) : Type 0 where
  pub low_free : base % 2 ^ 10 ≡ 0
  pub rm_free : base / 2 ^ 16 % 2 ^ 5 ≡ 0
  pub sf_free : base < 2 ^ 31

pub three_reg-word :
    (limit base : ℕ) (op : OpType) (m xd xn xm : Text) {instr : Instruction}
    → limit ≤ 31
    → IsBase base
    → three_reg limit base op m xd xn xm ≡ ok instr
    → (t : Triple) × (parse_three limit xd xn xm ≡ ok t)
      × Fits t
      × (instr.encoding ≡ three_word base t)
unfolding three_reg
three_reg-word limit base op m xd xn xm h f e =
    let (t, et, e1) = >>=-eq-ok (parse_three limit xd xn xm) _ e in
    let fits = parse_three-Fits limit xd xn xm h et in
    let e2 = rw (patch_sf_lem t.sf base f.sf_free) at e1 in
    let e3 =
      rw
        (patch_three_lem t (base + bit t.sf * 2 ^ 31) fits (omega (arith, bit-le))
          (omega (arith, bit-le)) (omega (arith, bit-le)))
        at e2 in
    (t, et, fits, finish_three-encoding op m xd xn xm (three_word base t) e3)
