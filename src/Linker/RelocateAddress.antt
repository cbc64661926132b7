-- ===== src/Linker/RelocateAddress.antt =====
-- Relocations of whole addresses: MOVZ and MOVK, and ADRP with ADD.
use bcpl.Prelude.{
  ℕ, ◌+◌, ◌-◌, ◌*◌, ◌/◌, ◌%◌, ◌^◌, ◌≤◌, ◌<◌, ◌≡◌, ◌∙◌, ap, arith, ltb, if◌then◌else◌, ok, ◌>>=◌,
  >>=-eq-ok,
}
use bcpl.Prelude.Int.{pos, wrap, signed}
use bcpl.Prelude.Bits.{bit_and_field}
use bcpl.BitPatcher.{patch}
use bcpl.BitPatcher.Fields.{patch-Patched}
use bcpl.Instruction.{RelocationType}
use bcpl.Linker.{
  difference, page, page_number, apply_pc_relative_relocation, apply_movz_movk_relocation,
  relocate_word,
}

movz_word :
    (word v : ℕ) {w : ℕ}
    → word < 2 ^ 32
    → patch word v (pos 5) (pos 16) ≡ ok w
    → (w / 2 ^ 5 % 2 ^ 16 ≡ v % 2 ^ 16) × (w / 2 ^ 21 ≡ word / 2 ^ 21) × (w % 2 ^ 5 ≡ word % 2 ^ 5)
movz_word word v {w} small e =
    let (_, _, p) = patch-Patched word v (pos 5) (pos 16) small e in
    let a = p.above in (p.field, omega arith, p.below)

-- The four words of a MOVZ/MOVK sequence, relocated against one target below 2^64, hold its four
-- 16-bit parts, the lowest in the first, and keep all bits outside the immediate field.
pub relocate_word-movz_movk :
    (a b c d address target : ℕ) {a' b' c' d' : ℕ}
    → a < 2 ^ 32
    → b < 2 ^ 32
    → c < 2 ^ 32
    → d < 2 ^ 32
    → target < 2 ^ 64
    → relocate_word RelocationType.movz_movk_imm_0 a address target ≡ ok a'
    → relocate_word RelocationType.movz_movk_imm_16 b address target ≡ ok b'
    → relocate_word RelocationType.movz_movk_imm_32 c address target ≡ ok c'
    → relocate_word RelocationType.movz_movk_imm_48 d address target ≡ ok d'
    → (a' / 2 ^ 5 % 2 ^ 16
          + b' / 2 ^ 5 % 2 ^ 16 * 2 ^ 16
          + c' / 2 ^ 5 % 2 ^ 16 * 2 ^ 32
          + d' / 2 ^ 5 % 2 ^ 16 * 2 ^ 48
        ≡ target)
      × ((a' / 2 ^ 21 ≡ a / 2 ^ 21) × (a' % 2 ^ 5 ≡ a % 2 ^ 5))
      × ((b' / 2 ^ 21 ≡ b / 2 ^ 21) × (b' % 2 ^ 5 ≡ b % 2 ^ 5))
      × ((c' / 2 ^ 21 ≡ c / 2 ^ 21) × (c' % 2 ^ 5 ≡ c % 2 ^ 5))
      × ((d' / 2 ^ 21 ≡ d / 2 ^ 21) × (d' % 2 ^ 5 ≡ d % 2 ^ 5))
unfolding relocate_word apply_movz_movk_relocation
relocate_word-movz_movk a b c d address target sa sb sc sd st ea eb ec ed =
    let (fa, ha, la) = movz_word a _ sa ea in
    let (fb, hb, lb) = movz_word b _ sb eb in
    let (fc, hc, lc) = movz_word c _ sc ec in
    let (fd, hd, ld) = movz_word d _ sd ed in (omega arith, (ha, la), (hb, lb), (hc, lc), (hd, ld))

-- A 64-bit number without its low 12 bits.
pub page_lem : (x : ℕ) → x < 2 ^ 64 → page x ≡ x / 2 ^ 12 * 2 ^ 12
page_lem x h =
    let e : x ≡ (0 * 2 ^ 52 + x / 2 ^ 12) * 2 ^ 12 + x % 2 ^ 12 = omega arith in
    ap page e ∙ bit_and_field 12 52 0 (x / 2 ^ 12) (x % 2 ^ 12) (omega arith) (omega arith)

-- The page that ADRP at `pc` computes from its immediate.
abbrev pub adrp_page : ℕ → ℕ → ℕ
adrp_page pc imm21 =
    if ltb imm21 (2 ^ 20)
    then (pc / 2 ^ 12 * 2 ^ 12 + imm21 * 2 ^ 12) % 2 ^ 64
    else (pc / 2 ^ 12 * 2 ^ 12 + 2 ^ 64 - (2 ^ 21 - imm21) * 2 ^ 12) % 2 ^ 64

abbrev pub adrp_imm : ℕ → ℕ
adrp_imm w = w / 2 ^ 5 % 2 ^ 19 * 2 ^ 2 + w / 2 ^ 29 % 2 ^ 2

wrap-signed : (x : ℕ) → x < 2 ^ 64 → wrap 64 (signed 64 x) ≡ x
wrap-signed x h = ground arith

-- The immediate of ADRP is the distance of the pages, modulo 2^21.
page_distance :
    (address target : ℕ)
    → address < 2 ^ 64
    → target < 2 ^ 64
    → page_number (difference (page target) (page address))
      ≡ (target / 2 ^ 12 + 2 ^ 52 - address / 2 ^ 12) % 2 ^ 21
page_distance address target la lt =
    rw
      (
        page_lem target lt,
        page_lem address la,
        wrap-signed ((target / 2 ^ 12 * 2 ^ 12 + 2 ^ 64 - address / 2 ^ 12 * 2 ^ 12) % 2 ^ 64)
            (omega arith),
      )
      (omega arith)

adrp_reaches :
    (address target imm : ℕ)
    → address < 2 ^ 64
    → target < 2 ^ 64
    → target / 2 ^ 12 < address / 2 ^ 12 + 2 ^ 20
    → address / 2 ^ 12 ≤ target / 2 ^ 12 + 2 ^ 20
    → imm ≡ (target / 2 ^ 12 + 2 ^ 52 - address / 2 ^ 12) % 2 ^ 21
    → adrp_page address imm ≡ target / 2 ^ 12 * 2 ^ 12
adrp_reaches address target imm la lt near far e = ground arith

-- What the two patches of ADRP leave.
adrp_word :
    (word v : ℕ) {w : ℕ}
    → word < 2 ^ 32
    → v < 2 ^ 21
    → (patch word (v % 2 ^ 2) (pos 29) (pos 2) >>= λ low. patch low (v / 2 ^ 2) (pos 5) (pos 19))
      ≡ ok w
    → (adrp_imm w ≡ v)
      × (w % 2 ^ 5 ≡ word % 2 ^ 5)
      × (w / 2 ^ 24 % 2 ^ 5 ≡ word / 2 ^ 24 % 2 ^ 5)
      × (w / 2 ^ 31 ≡ word / 2 ^ 31)
      × (w < 2 ^ 32)
adrp_word word v {w} small h e =
    let (low, el, e1) = >>=-eq-ok (patch word (v % 2 ^ 2) (pos 29) (pos 2)) _ e in
    let (_, _, p) = patch-Patched word (v % 2 ^ 2) (pos 29) (pos 2) small el in
    let (_, _, q) = patch-Patched low (v / 2 ^ 2) (pos 5) (pos 19) p.small e1 in
    let pf = p.field in
    let pb = p.below in
    let pa = p.above in
    let qf = q.field in
    let qb = q.below in
    let qa = q.above in (omega arith, omega arith, omega arith, omega arith, q.small)

-- The relocations of an ADRP and of the ADD that follows it keep the other bits of the two words, and
-- the page of the first and the immediate of the second add up to the target, when both addresses are below
-- 2^64 and the target's page is less than 2^20 pages forward or at most 2^20 back from the ADRP.
pub relocate_word-adrp_add :
    (word add_word address add_address target : ℕ) {w x : ℕ}
    → word < 2 ^ 32
    → add_word < 2 ^ 32
    → address < 2 ^ 64
    → target < 2 ^ 64
    → target / 2 ^ 12 < address / 2 ^ 12 + 2 ^ 20
    → address / 2 ^ 12 ≤ target / 2 ^ 12 + 2 ^ 20
    → relocate_word RelocationType.page_21_bit_pc_relative word address target ≡ ok w
    → relocate_word RelocationType.add_12_bit_unsigned_offset add_word add_address target ≡ ok x
    → (adrp_page address (adrp_imm w) + x / 2 ^ 10 % 2 ^ 12 ≡ target)
      × (w % 2 ^ 5 ≡ word % 2 ^ 5)
      × (w / 2 ^ 24 % 2 ^ 5 ≡ word / 2 ^ 24 % 2 ^ 5)
      × (w / 2 ^ 31 ≡ word / 2 ^ 31)
      × (x % 2 ^ 10 ≡ add_word % 2 ^ 10)
      × (x / 2 ^ 22 ≡ add_word / 2 ^ 22)
unfolding relocate_word apply_pc_relative_relocation
relocate_word-adrp_add word add_word address add_address target {w} {x} sw sx la lt near far ew ex =
    let d = page_distance address target la lt in
    let (ei, el, ek, em, _) = adrp_word word _ sw (omega (arith, d)) ew in
    let (_, _, p) = patch-Patched add_word (target % 2 ^ 12) (pos 10) (pos 12) sx ex in
    let pf = p.field in
    let pb = p.below in
    let pa = p.above in
    let reached = adrp_reaches address target (adrp_imm w) la lt near far (ei ∙ d) in
    (rw reached (omega arith), el, ek, em, pb, omega arith)
