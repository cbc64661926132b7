-- ===== src/Linker/Relocate.antt =====
-- Relocations of branches: the processor goes from a relocated word to the target.
use bcpl.Prelude.{
  ℕ, suc, ◌+◌, ◌-◌, ◌*◌, ◌/◌, ◌%◌, ◌^◌, ◌≤◌, ◌<◌, ◌≡◌, ap, arith, ltb, leb, if◌then◌else◌, ok,
  Bool-cases, inl, inr, leb→le,
}
use bcpl.Prelude.Int.{pos, negsuc, quot, wrap}
use bcpl.BitPatcher.Fields.{patch-eq-splice}
use bcpl.Instruction.{RelocationType}
use bcpl.Linker.{difference, apply_pc_relative_relocation, relocate_word}

-- The address that a branch at `pc` with a signed word offset of `width` bits goes to.
abbrev pub branch_to : ℕ → ℕ → ℕ → ℕ
branch_to width pc imm =
    if ltb imm (2 ^ (width - 1))
    then (pc + 4 * imm) % 2 ^ 64
    else (pc + 2 ^ 64 - 4 * (2 ^ width - imm)) % 2 ^ 64

offset_forward : (a k : ℕ) → 4 * k < 2 ^ 63 → quot (difference (a + 4 * k) a) 4 ≡ pos k
offset_forward a k h =
    let e : (a + 4 * k + 2 ^ 64 - a) % 2 ^ 64 ≡ 4 * k = omega arith in rw e (ground arith)

offset_back : (t k : ℕ) → 4 * suc k < 2 ^ 63 → quot (difference t (t + 4 * suc k)) 4 ≡ negsuc k
offset_back t k h =
    let e : (t + 2 ^ 64 - (t + 4 * suc k)) % 2 ^ 64 ≡ 2 ^ 64 - 4 * suc k = omega arith in
    rw e (ground arith)

-- A target within reach, as a number of words forward or back.
data Reach (a t far near : ℕ) : Type 0 where
  forward : (k : ℕ) → t ≡ a + 4 * k → k ≤ near → Reach a t far near
  back : (k : ℕ) → a ≡ t + 4 * suc k → suc k ≤ far → Reach a t far near

reach :
    (a t far near : ℕ)
    → a % 4 ≡ 0
    → t % 4 ≡ 0
    → t ≤ a + 4 * near
    → a ≤ t + 4 * far
    → Reach a t far near
reach a t far near ha ht hn hf = elim (Bool-cases (leb a t)) [
  | inl e ↦ let h : a ≤ t = leb→le a t e in forward ((t - a) / 4) (omega arith) (omega arith)
  | inr e ↦ let h : suc t ≤ a = ground arith in back ((a - t) / 4 - 1) (omega arith) (omega arith)
]

-- The word of a relocation with a 26-bit field.
word_26 :
    (word address target v : ℕ)
    → word < 2 ^ 32
    → wrap 26 (quot (difference target address) 4) ≡ v
    → v < 2 ^ 26
    → relocate_word RelocationType.pc_relative_26_bit_offset word address target
      ≡ ok (word / 2 ^ 26 * 2 ^ 26 + v)
unfolding relocate_word apply_pc_relative_relocation
word_26 word address target v small e h =
    rw (e, patch-eq-splice word v 0 26 (omega arith) (omega arith) small) (ap ok (omega arith))

-- The relocation of a B or BL succeeds, keeps its six opcode bits, and makes it branch to the target,
-- when both addresses are multiples of 4 below 2^64 and the target is at most 2^25 words back or
-- 2^25 - 1 words forward.
pub relocate_word-branch_26 :
    (word address target : ℕ)
    → word < 2 ^ 32
    → address % 4 ≡ 0
    → target % 4 ≡ 0
    → address < 2 ^ 64
    → target < 2 ^ 64
    → target ≤ address + 4 * (2 ^ 25 - 1)
    → address ≤ target + 4 * 2 ^ 25
    → (w : ℕ) × (relocate_word RelocationType.pc_relative_26_bit_offset word address target ≡ ok w)
      × (branch_to 26 address (w % 2 ^ 26) ≡ target)
      × (w / 2 ^ 26 ≡ word / 2 ^ 26)
relocate_word-branch_26 word address target small ha ht la lt near far =
    elim (reach address target (2 ^ 25) (2 ^ 25 - 1) ha ht near far) [
      | forward k e h ↦
          let d : quot (difference target address) 4 ≡ pos k =
            rw e (offset_forward address k (omega arith)) in
          (
            word / 2 ^ 26 * 2 ^ 26 + k,
            word_26 word address target k small (rw d (ground arith)) (omega arith),
            ground arith,
            omega arith,
          )
      | back k e h ↦
          let d : quot (difference target address) 4 ≡ negsuc k =
            rw e (offset_back target k (omega arith)) in
          (
            word / 2 ^ 26 * 2 ^ 26 + (2 ^ 26 - suc k),
            word_26 word address target (2 ^ 26 - suc k) small (rw d (ground arith)) (omega arith),
            ground arith,
            omega arith,
          )
    ]

-- The word of a relocation with a 19-bit field.
word_19 :
    (word address target v : ℕ)
    → word < 2 ^ 32
    → wrap 19 (quot (difference target address) 4) ≡ v
    → v < 2 ^ 19
    → relocate_word RelocationType.pc_relative_19_bit_offset word address target
      ≡ ok ((word / 2 ^ 24 * 2 ^ 19 + v) * 2 ^ 5 + word % 2 ^ 5)
unfolding relocate_word apply_pc_relative_relocation
word_19 word address target v small e h =
    rw (e, patch-eq-splice word v 5 19 (omega arith) (omega arith) small) (ap ok (omega arith))

-- The relocation of a conditional branch (B.cond, CBZ, CBNZ) succeeds, keeps the eight bits above and
-- the five bits below the offset, and makes it branch to the target, when both addresses are multiples
-- of 4 below 2^64 and the target is at most 2^18 words back or 2^18 - 1 words forward.
pub relocate_word-branch_19 :
    (word address target : ℕ)
    → word < 2 ^ 32
    → address % 4 ≡ 0
    → target % 4 ≡ 0
    → address < 2 ^ 64
    → target < 2 ^ 64
    → target ≤ address + 4 * (2 ^ 18 - 1)
    → address ≤ target + 4 * 2 ^ 18
    → (w : ℕ) × (relocate_word RelocationType.pc_relative_19_bit_offset word address target ≡ ok w)
      × (branch_to 19 address (w / 2 ^ 5 % 2 ^ 19) ≡ target)
      × (w / 2 ^ 24 ≡ word / 2 ^ 24)
      × (w % 2 ^ 5 ≡ word % 2 ^ 5)
relocate_word-branch_19 word address target small ha ht la lt near far =
    elim (reach address target (2 ^ 18) (2 ^ 18 - 1) ha ht near far) [
      | forward k e h ↦
          let d : quot (difference target address) 4 ≡ pos k =
            rw e (offset_forward address k (omega arith)) in
          (
            (word / 2 ^ 24 * 2 ^ 19 + k) * 2 ^ 5 + word % 2 ^ 5,
            word_19 word address target k small (rw d (ground arith)) (omega arith),
            (let f : ((word / 2 ^ 24 * 2 ^ 19 + k) * 2 ^ 5 + word % 2 ^ 5) / 2 ^ 5 % 2 ^ 19 ≡ k =
                  omega arith in
                rw f (ground arith)),
            omega arith,
            omega arith,
          )
      | back k e h ↦
          let d : quot (difference target address) 4 ≡ negsuc k =
            rw e (offset_back target k (omega arith)) in
          let v = 2 ^ 19 - suc k in
          (
            (word / 2 ^ 24 * 2 ^ 19 + v) * 2 ^ 5 + word % 2 ^ 5,
            word_19 word address target v small (rw d (ground arith)) (omega arith),
            (let f : ((word / 2 ^ 24 * 2 ^ 19 + v) * 2 ^ 5 + word % 2 ^ 5) / 2 ^ 5 % 2 ^ 19 ≡ v =
                  omega arith in
                rw f (ground arith)),
            omega arith,
            omega arith,
          )
    ]
