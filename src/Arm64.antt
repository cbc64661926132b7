-- ===== src/Arm64.antt =====
-- The part of the A64 instruction set that the encoders use, after the Arm reference manual: an
-- independent description, against which the encoders are checked. No source file holds it.
use bcpl.Prelude.{
  ◌≡◌, refl, ◌∙◌, arith, ap, ℕ, ◌+◌, ◌*◌, ◌/◌, ◌%◌, ◌^◌, Bool, Option, none, some, ◌==◌,
  if◌then◌else◌,
}

-- Register numbers and immediates are the contents of their fields; `sf` is true for 64 bits.
pub data Asm : Type 0 where
  add_imm sub_imm subs_imm : (sf : Bool) (rd rn imm12 : ℕ) → Asm
  movz movk : (sf : Bool) (rd imm16 hw : ℕ) → Asm
  ubfm sbfm : (sf : Bool) (rd rn immr imms : ℕ) → Asm
  add_reg sub_reg subs_reg : (sf : Bool) (rd rn rm imm6 : ℕ) → Asm
  and_reg orr_reg eor_reg orn_reg : (sf : Bool) (rd rn rm imm6 : ℕ) → Asm
  madd : (sf : Bool) (rd rn rm ra : ℕ) → Asm
  lslv lsrv asrv sdiv : (sf : Bool) (rd rn rm : ℕ) → Asm
  csinc : (sf : Bool) (rd rn rm cond : ℕ) → Asm
  ldr_uimm str_uimm : (sf : Bool) (rt rn imm12 : ℕ) → Asm
  stp_pre stp_offset ldp_offset ldp_post ldnp : (sf : Bool) (rt rt2 rn imm7 : ℕ) → Asm
  b bl : (imm26 : ℕ) → Asm
  b_cond : (cond imm19 : ℕ) → Asm
  cbz cbnz : (sf : Bool) (rt imm19 : ℕ) → Asm
  adrp : (rd imm21 : ℕ) → Asm
  br blr ret : (rn : ℕ) → Asm

-- Bits `hi` to `lo` of a word are its bits from `lo` on, `width` many.
abbrev pub field : ℕ → ℕ → ℕ → ℕ
field w lo width = w / 2 ^ lo % 2 ^ width

abbrev pub sf_of : ℕ → Bool
sf_of w = field w 31 1 == 1

-- Data processing (immediate): add and subtract with `sh` = 0.
unfoldable pub add_sub_imm : ℕ → Option Asm
add_sub_imm w =
    let op = field w 29 2 in
    let rd = field w 0 5 in
    let rn = field w 5 5 in
    let imm = field w 10 12 in
    if field w 22 1 == 1
    then none
    else (if op == 0
        then some (add_imm (sf_of w) rd rn imm)
        else (if op == 2
            then some (sub_imm (sf_of w) rd rn imm)
            else (if op == 3 then some (subs_imm (sf_of w) rd rn imm) else none)))

unfoldable pub move_wide : ℕ → Option Asm
move_wide w =
    let opc = field w 29 2 in
    if opc == 2
    then some (movz (sf_of w) (field w 0 5) (field w 5 16) (field w 21 2))
    else (if opc == 3
        then some (movk (sf_of w) (field w 0 5) (field w 5 16) (field w 21 2))
        else none)

-- `N` must repeat `sf`.
unfoldable pub bitfield : ℕ → Option Asm
bitfield w =
    let opc = field w 29 2 in
    if field w 22 1 == field w 31 1
    then (if opc == 2
        then some (ubfm (sf_of w) (field w 0 5) (field w 5 5) (field w 16 6) (field w 10 6))
        else (if opc == 0
            then some (sbfm (sf_of w) (field w 0 5) (field w 5 5) (field w 16 6) (field w 10 6))
            else none))
    else none

-- Data processing (shifted register), with shift type LSL and bit 21 clear.
unfoldable pub add_sub_reg : ℕ → Option Asm
add_sub_reg w =
    let op = field w 29 2 in
    let rd = field w 0 5 in
    let rn = field w 5 5 in
    let rm = field w 16 5 in
    let imm6 = field w 10 6 in
    if field w 21 2 == 0
    then (if op == 0
        then some (add_reg (sf_of w) rd rn rm imm6)
        else (if op == 2
            then some (sub_reg (sf_of w) rd rn rm imm6)
            else (if op == 3 then some (subs_reg (sf_of w) rd rn rm imm6) else none)))
    else none

unfoldable pub logical_reg : ℕ → Option Asm
logical_reg w =
    let op = field w 29 2 in
    let rd = field w 0 5 in
    let rn = field w 5 5 in
    let rm = field w 16 5 in
    let imm6 = field w 10 6 in
    if field w 22 1 == 1
    then none
    else (if field w 21 1 == 1
        then (if op == 1 then some (orn_reg (sf_of w) rd rn rm imm6) else none)
        else (if op == 0
            then some (and_reg (sf_of w) rd rn rm imm6)
            else (if op == 1
                then some (orr_reg (sf_of w) rd rn rm imm6)
                else (if op == 2 then some (eor_reg (sf_of w) rd rn rm imm6) else none))))

-- Load/store register (unsigned immediate): `size` is 10 or 11, `opc` 00 or 01.
unfoldable pub load_store_uimm : ℕ → Option Asm
load_store_uimm w =
    let sf = field w 30 2 == 3 in
    let opc = field w 22 1 in
    let rt = field w 0 5 in
    let rn = field w 5 5 in
    let imm = field w 10 12 in
    if field w 31 1 == 1
    then (if opc == 1 then some (ldr_uimm sf rt rn imm) else some (str_uimm sf rt rn imm))
    else none

-- Load/store pair; bits 24 and 23 give the addressing mode.
unfoldable pub load_store_pair : ℕ → Option Asm
load_store_pair w =
    let mode = field w 23 2 in
    let load = field w 22 1 in
    let rt = field w 0 5 in
    let rt2 = field w 10 5 in
    let rn = field w 5 5 in
    let imm = field w 15 7 in
    if field w 30 1 == 1
    then none
    else (if mode == 3
        then (if load == 0 then some (stp_pre (sf_of w) rt rt2 rn imm) else none)
        else (if mode == 2
            then (if load == 0
                then some (stp_offset (sf_of w) rt rt2 rn imm)
                else some (ldp_offset (sf_of w) rt rt2 rn imm))
            else (if mode == 1
                then (if load == 1 then some (ldp_post (sf_of w) rt rt2 rn imm) else none)
                else (if load == 1 then some (ldnp (sf_of w) rt rt2 rn imm) else none))))

-- Data processing (register): three and two sources, conditional select.
unfoldable pub other_reg : ℕ → Option Asm
other_reg w =
    let rd = field w 0 5 in
    let rn = field w 5 5 in
    let rm = field w 16 5 in
    let low6 = field w 10 6 in
    let family = field w 21 10 in
    if family == 0b0011011000
    then (if field w 15 1 == 0 then some (madd (sf_of w) rd rn rm (field w 10 5)) else none)
    else (if family == 0b0011010100
        then (if field w 10 2 == 1 then some (csinc (sf_of w) rd rn rm (field w 12 4)) else none)
        else (if family == 0b0011010110
            then (if low6 == 0b001000
                then some (lslv (sf_of w) rd rn rm)
                else (if low6 == 0b001001
                    then some (lsrv (sf_of w) rd rn rm)
                    else (if low6 == 0b001010
                        then some (asrv (sf_of w) rd rn rm)
                        else (if low6 == 0b000011 then some (sdiv (sf_of w) rd rn rm) else none))))
            else none))

-- Branches, by bits 31 to 26 and below.
unfoldable pub branch : ℕ → Option Asm
branch w =
    let op = field w 26 6 in
    let imm19 = field w 5 19 in
    if op == 0b000101
    then some (b (field w 0 26))
    else (if op == 0b100101
        then some (bl (field w 0 26))
        else (if field w 24 8 == 0b01010100
            then (if field w 4 1 == 0 then some (b_cond (field w 0 4) imm19) else none)
            else (if field w 24 7 == 0b0110100
                then some (cbz (sf_of w) (field w 0 5) imm19)
                else (if field w 24 7 == 0b0110101
                    then some (cbnz (sf_of w) (field w 0 5) imm19)
                    else (if field w 10 22 == 0b1101011000011111000000
                        then (if field w 0 5 == 0 then some (br (field w 5 5)) else none)
                        else (if field w 10 22 == 0b1101011000111111000000
                            then (if field w 0 5 == 0 then some (blr (field w 5 5)) else none)
                            else (if field w 10 22 == 0b1101011001011111000000
                                then (if field w 0 5 == 0 then some (ret (field w 5 5)) else none)
                                else none)))))))

-- ADRP has its two low immediate bits above the others.
unfoldable pub pc_relative : ℕ → Option Asm
pc_relative w =
    if field w 31 1 == 1 then some (adrp (field w 0 5) (field w 5 19 * 4 + field w 29 2)) else none

-- The class of a word, by its bits 28 to 23.
unfoldable pub class_decode : ℕ → ℕ → Option Asm
class_decode c w =
    if c == 34
    then add_sub_imm w
    else (if c == 37
        then move_wide w
        else (if c == 38
            then bitfield w
            else (if c == 22
                then add_sub_reg w
                else (if c == 20
                    then logical_reg w
                    else (if c == 50
                        then load_store_uimm w
                        else (if c / 4 == 4
                            then load_store_pair w
                            else (if c / 8 == 6
                                then other_reg w
                                else (if c / 2 == 16 then pc_relative w else branch w))))))))

unfoldable pub decode : ℕ → Option Asm
unfolding class_decode add_sub_imm move_wide bitfield add_sub_reg logical_reg load_store_uimm
    load_store_pair other_reg pc_relative branch
decode w = class_decode (field w 23 6) w

-- The class of a word decides what decodes it.
pub decode_at : (w c : ℕ) → field w 23 6 ≡ c → decode w ≡ class_decode c w
unfolding decode
decode_at w c e = ap (λ (k : ℕ). class_decode k w) e

branch_class : (c w : ℕ) → c / 8 ≡ 5 → class_decode c w ≡ branch w
unfolding class_decode
branch_class c w e = ground arith

-- A word whose bits 28 to 26 are 101 is a branch.
pub decode-branch : (w : ℕ) → field w 26 3 ≡ 5 → decode w ≡ branch w
decode-branch w e = decode_at w (field w 23 6) refl ∙ branch_class (field w 23 6) w (omega arith)

pc_relative_class : (c w : ℕ) → c / 2 ≡ 16 → class_decode c w ≡ pc_relative w
unfolding class_decode
pc_relative_class c w e = ground arith

-- A word whose bits 28 to 24 are 10000 is relative to the program counter.
pub decode-pc_relative : (w : ℕ) → field w 24 5 ≡ 16 → decode w ≡ pc_relative w
decode-pc_relative w e =
    decode_at w (field w 23 6) refl ∙ pc_relative_class (field w 23 6) w (omega arith)
