-- ===== src/Encoder/MoveWide/Value.antt =====
-- The address that a MOVZ/MOVK sequence leaves in its register.
use native.Mathlib.Nat.{mod-lt, div-add-mod', mod-eq_of_lt, div-eq_of_lt}
use bcpl.Prelude.{
  ℕ, zero, suc, ◌+◌, ◌*◌, ◌/◌, ◌%◌, ◌^◌, ◌<◌, ◌≡◌, refl, sym, ◌∙◌, ap, arith, Bool, false, true,
  not, ◌&&◌, ◌==◌, if◌then◌else◌, Option, none, some, List, [], ◌∷◌, Text, ok, >>=-eq-ok,
  ok-injective, Bool-cases, inl, inr, ==_refl, ==_iff, length,
}
use bcpl.Prelude.Bits.{pow_pos}
use bcpl.Prelude.Int.{pos, pos_part}
use bcpl.BitPatcher.Fields.{digits-mod, pow_add, two_digits}
use bcpl.Instruction.{Instruction}
use bcpl.Arm64.{Asm, movz, movk, decode}
use bcpl.Encoder.Registers.{parse_register}
use bcpl.Encoder.MoveWide.{
  is_high_shift, create_movz_imm, create_movk_imm, movz_movk_chunks, create_movz_movk_abs64,
  create_movz_movk_jit_addr,
}
use bcpl.Encoder.MoveWide.Decode.{create_movz_imm-decode, create_movk_imm-decode}

-- What MOVZ or MOVK makes of the value of its register `rd`. A W register is the low half of the
-- X register, and a write to it clears the high half.
abbrev pub move_into : ℕ → Option Asm → ℕ → Option ℕ
move_into rd (some (movz sf r imm hw)) v = if r == rd then some (imm * 2 ^ (16 * hw)) else none
move_into rd (some (movk sf r imm hw)) v =
    let p = 2 ^ (16 * hw) in
    let old = if sf then v else v % 2 ^ 32 in
    if r == rd then some ((old / p / 2 ^ 16 * 2 ^ 16 + imm) * p + old % p) else none
move_into rd _ v = none

abbrev pub and_then : Option ℕ → (ℕ → Option ℕ) → Option ℕ
and_then none f = none
and_then (some v) f = f v

-- The value of register `rd` behind a sequence of MOVZ and MOVK to it.
unfoldable pub load : ℕ → List Instruction → ℕ → Option ℕ
load rd [] v = some v
load rd (i ∷ is) v = and_then (move_into rd (decode i.encoding) v) (load rd is)

power : (i : ℕ) → 2 ^ (16 * (i + 1)) ≡ 2 ^ 16 * 2 ^ (16 * i)
power i =
    let e : 16 * (i + 1) ≡ 16 + 16 * i = omega arith in
    ap (λ (t : ℕ). 2 ^ t) e ∙ pow_add 16 (16 * i)

-- The low chunks of a number with one more.
next_chunk :
    (a i : ℕ) → a % 2 ^ (16 * (i + 1)) ≡ a / 2 ^ (16 * i) % 2 ^ 16 * 2 ^ (16 * i) + a % 2 ^ (16 * i)
next_chunk a i =
    let p = 2 ^ (16 * i) in
    let c = a / p % 2 ^ 16 in
    let high : a ≡ a / p / 2 ^ 16 * (2 ^ 16 * p) + (c * p + a % p) =
      omega (arith, div-add-mod' a p, ap (λ (t : ℕ). t * p) (div-add-mod' (a / p) (2 ^ 16))) in
    let small : c * p + a % p < 2 ^ 16 * p =
      two_digits {h = c} (omega arith) (mod-lt a (pow_pos (16 * i))) in
    rw (power i) (
      ap (λ t. t % (2 ^ 16 * p)) high
      ∙ digits-mod (a / p / 2 ^ 16) (c * p + a % p) (2 ^ 16 * p) small)

-- A W register takes no chunk above the second, so its low half is all of it.
kept :
    (sf : Bool) (i v : ℕ)
    → i < 4
    → (not sf && is_high_shift (pos (16 * i))) ≡ false
    → v < 2 ^ (16 * i)
    → (if sf then v else v % 2 ^ 32) ≡ v
kept true i v a b c = refl
kept false zero v a b c = omega arith
kept false (suc zero) v a b c = omega arith
kept false (suc (suc zero)) v a b c = cc
kept false (suc (suc (suc zero))) v a b c = cc
kept false (suc (suc (suc (suc i)))) v a b c = absurd (omega arith)

-- A MOVK of chunk `i` onto the chunks below it.
onto_low :
    (sf : Bool) (a i : ℕ)
    → i < 4
    → (not sf && is_high_shift (pos (16 * i))) ≡ false
    → (let p = 2 ^ (16 * i) in
        let v = a % p in
        let old = if sf then v else v % 2 ^ 32 in
        (old / p / 2 ^ 16 * 2 ^ 16 + a / p % 2 ^ 16) * p + old % p)
      ≡ a % 2 ^ (16 * (i + 1))
onto_low sf a i hi h =
    let p = 2 ^ (16 * i) in
    let below : a % p < p = mod-lt a (pow_pos (16 * i)) in
    rw (kept sf i (a % p) hi h below, next_chunk a i, div-eq_of_lt below, mod-eq_of_lt below)
      (omega arith)

module _ (xd : Text) (rd : ℕ) (sf : Bool) (reg : parse_register false 31 xd ≡ ok (rd, sf)) where
  same_rd : {r : ℕ} {b : Bool} → parse_register false 31 xd ≡ ok (r, b) → r ≡ rd
  same_rd e = ap (λ t. t.0) (ok-injective (sym e ∙ reg))

  mul_comm : (i : ℕ) → 16 * i ≡ i * 16
  mul_comm i = omega arith

  movk_step :
      (a i : ℕ) {instr : Instruction}
      → create_movk_imm xd (a / 2 ^ (16 * i) % 2 ^ 16) (pos (i * 16)) ≡ ok instr
      → move_into rd (decode instr.encoding) (a % 2 ^ (16 * i)) ≡ some (a % 2 ^ (16 * (i + 1)))
  movk_step a i e =
      let (o, d) =
        create_movk_imm-decode xd (a / 2 ^ (16 * i) % 2 ^ 16) (pos (i * 16)) (omega arith) e in
      let same_hw : o.hw ≡ i = omega (arith, ap pos_part o.amount) in
      let high = ap (λ (t : ℕ). not o.sf && is_high_shift (pos t)) (mul_comm i) ∙ o.high_is_64 in
      rw (d, same_rd o.register, same_hw, ==_refl rd)
        (ap some (onto_low o.sf a i (omega (arith, same_hw, o.hw_fits)) high))

  movz_step :
      (a i v : ℕ) {instr : Instruction}
      → a % 2 ^ (16 * i) ≡ 0
      → create_movz_imm xd (a / 2 ^ (16 * i) % 2 ^ 16) (pos (i * 16)) ≡ ok instr
      → move_into rd (decode instr.encoding) v ≡ some (a % 2 ^ (16 * (i + 1)))
  movz_step a i v none_below e =
      let (o, d) =
        create_movz_imm-decode xd (a / 2 ^ (16 * i) % 2 ^ 16) (pos (i * 16)) (omega arith) e in
      let same_hw : o.hw ≡ i = omega (arith, ap pos_part o.amount) in
      rw (d, same_rd o.register, same_hw, ==_refl rd, next_chunk a i, none_below)
        (ap some (omega arith))

  movk_chunks :
      (a i left : ℕ) {is : List Instruction}
      → i + left ≡ 4
      → movz_movk_chunks xd a false i left ≡ ok is
      → load rd is (a % 2 ^ (16 * i)) ≡ some (a % 2 ^ 64)
  unfolding movz_movk_chunks load
  movk_chunks a i zero h e = let four : i ≡ 4 = omega arith in rw (sym (ok-injective e), four) refl
  movk_chunks a i (suc left) {is} h e = elim (Bool-cases (a / 2 ^ (16 * i) % 2 ^ 16 == 0)) [
    | inl z ↦
        let c = (==_iff (a / 2 ^ (16 * i) % 2 ^ 16) 0).0 z in
        let e' : movz_movk_chunks xd a false (i + 1) left ≡ ok is = rw z at e in
        let same : a % 2 ^ (16 * (i + 1)) ≡ a % 2 ^ (16 * i) =
          rw (next_chunk a i, c) (omega arith) in
        rw (← same) (movk_chunks a (i + 1) left (omega arith) e')
    | inr z ↦
        let e' = rw z at e in
        let (instr, e1, f) =
          >>=-eq-ok (create_movk_imm xd (a / 2 ^ (16 * i) % 2 ^ 16) (pos (i * 16))) _ e' in
        let (others, e2, g) = >>=-eq-ok (movz_movk_chunks xd a false (i + 1) left) _ f in
        rw (sym (ok-injective g), movk_step a i e1) (movk_chunks a (i + 1) left (omega arith) e2)
  ]

  movz_chunks :
      (a i left v : ℕ) {is : List Instruction}
      → i + left ≡ 4
      → a % 2 ^ (16 * i) ≡ 0
      → 0 < a % 2 ^ 64
      → movz_movk_chunks xd a true i left ≡ ok is
      → load rd is v ≡ some (a % 2 ^ 64)
  unfolding movz_movk_chunks load
  movz_chunks a i zero v h low some_chunk e =
      let four : i ≡ 4 = omega arith in
      absurd (omega (arith, sym (ap (λ (t : ℕ). a % 2 ^ (16 * t)) four) ∙ low))
  movz_chunks a i (suc left) v {is} h low some_chunk e =
      elim (Bool-cases (a / 2 ^ (16 * i) % 2 ^ 16 == 0)) [
        | inl z ↦
            let c = (==_iff (a / 2 ^ (16 * i) % 2 ^ 16) 0).0 z in
            let e' : movz_movk_chunks xd a true (i + 1) left ≡ ok is = rw z at e in
            movz_chunks a (i + 1) left v (omega arith) (rw (next_chunk a i, c, low) (omega arith))
              some_chunk e'
        | inr z ↦
            let e' = rw z at e in
            let (instr, e1, f) =
              >>=-eq-ok (create_movz_imm xd (a / 2 ^ (16 * i) % 2 ^ 16) (pos (i * 16))) _ e' in
            let (others, e2, g) = >>=-eq-ok (movz_movk_chunks xd a false (i + 1) left) _ f in
            rw (sym (ok-injective g), movz_step a i v low e1)
              (movk_chunks a (i + 1) left (omega arith) e2)
      ]

-- When the encoder of an address below 2^64 that skips its zero chunks succeeds for a register of
-- number below 31, the instructions that it makes leave the address in the register, whatever the
-- register held before. Number 31 would be the zero register, which keeps nothing.
pub create_movz_movk_abs64-load :
    (xd : Text) (rd : ℕ) (sf : Bool) (address v : ℕ) {is : List Instruction}
    → parse_register false 31 xd ≡ ok (rd, sf)
    → rd < 31
    → address < 2 ^ 64
    → create_movz_movk_abs64 xd address ≡ ok is
    → load rd is v ≡ some address
unfolding create_movz_movk_abs64 load
create_movz_movk_abs64-load xd rd sf zero v reg general h e =
    let (instr, e1, f) = >>=-eq-ok (create_movz_imm xd 0 (pos 0)) _ e in
    rw (sym (ok-injective f), movz_step xd rd sf reg 0 0 v refl e1) refl
create_movz_movk_abs64-load xd rd sf (suc a) v reg general h e =
    let nonzero : (suc a == 0) ≡ false = ground arith in
    let e' = rw nonzero at e in
    movz_chunks xd rd sf reg (suc a) 0 4 v refl (omega arith) (omega arith) e'
    ∙ ap some (omega arith)

-- When the encoder of an address that a later pass may patch succeeds for a register of number
-- below 31, its four instructions leave the address in the register, whatever the register held before.
pub create_movz_movk_jit_addr-load :
    (xd : Text) (rd : ℕ) (sf : Bool) (address v : ℕ) {is : List Instruction}
    → parse_register false 31 xd ≡ ok (rd, sf)
    → rd < 31
    → address < 2 ^ 64
    → create_movz_movk_jit_addr xd address ≡ ok is
    → (length is ≡ 4) × (load rd is v ≡ some address)
unfolding create_movz_movk_jit_addr load
create_movz_movk_jit_addr-load xd rd sf a v reg general h e =
    let (i0, e0, f0) = >>=-eq-ok (create_movz_imm xd (a % 2 ^ 16) (pos 0)) _ e in
    let (i1, e1, f1) = >>=-eq-ok (create_movk_imm xd (a / 2 ^ 16 % 2 ^ 16) (pos 16)) _ f0 in
    let (i2, e2, f2) = >>=-eq-ok (create_movk_imm xd (a / 2 ^ 32 % 2 ^ 16) (pos 32)) _ f1 in
    let (i3, e3, f3) = >>=-eq-ok (create_movk_imm xd (a / 2 ^ 48 % 2 ^ 16) (pos 48)) _ f2 in
    let s0 =
      movz_step xd rd sf reg a 0 v (omega arith)
        (ap (λ t. create_movz_imm xd (t % 2 ^ 16) (pos 0)) (omega arith) ∙ e0) in
    let s1 = movk_step xd rd sf reg a 1 e1 in
    let s2 = movk_step xd rd sf reg a 2 e2 in
    let s3 = movk_step xd rd sf reg a 3 e3 in
    (
      ap length (sym (ok-injective f3)),
      rw (sym (ok-injective f3), s0, s1, s2, s3) (ap some (omega arith)),
    )
