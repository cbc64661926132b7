-- ===== src/Linker/Segments.antt =====
-- The linker's read-only data lies behind its code.
use bcpl.Prelude.{
  ℕ, ◌+◌, ◌*◌, ◌%◌, ◌^◌, ◌<◌, ◌≤◌, ◌≡◌, ◌∙◌, arith, Bool, true, ◌&&◌, not, if◌then◌else◌, List, [],
  ◌∷◌, length,
}
use bcpl.Instruction.{Instruction, SegmentType}
use bcpl.Linker.{emits, code_size, counts_as_code, rodata_start, add_size}
use bcpl.Linker.Addresses.{emitted, same_segment}
use bcpl.Linker.RelocateAddress.{page_lem}

-- Whether no label definition emits a word.
unfoldable pub labels_are_bare : List Instruction → Bool
labels_are_bare [] = true
labels_are_bare (x ∷ xs) = not (x.is_label_definition && emits x) && labels_are_bare xs

code_count : List Instruction → ℕ
code_count [] = 0
code_count (x ∷ xs) = (if counts_as_code x then 1 else 0) + code_count xs

code_size_lem :
    (size : ℕ) (xs : List Instruction)
    → size < 2 ^ 64
    → code_size size xs ≡ (size + 4 * code_count xs) % 2 ^ 64
unfolding code_size code_count
code_size_lem size [] h = omega arith
code_size_lem size (x ∷ xs) h =
    ground (arith, code_size_lem size xs h, code_size_lem (add_size size 4) xs (omega arith))

code_count-le : (xs : List Instruction) → code_count xs ≤ length xs
unfolding code_count
code_count-le [] = omega arith
code_count-le (x ∷ xs) = ground (arith, code_count-le xs)

one_emitted :
    (x : Instruction)
    → not (x.is_label_definition && emits x) ≡ true
    → (if emits x && same_segment x.segment SegmentType.code then 1 else 0)
      ≤ (if counts_as_code x then 1 else 0)
one_emitted x h = ground arith

emitted-le-code_count :
    (xs : List Instruction)
    → labels_are_bare xs ≡ true
    → emitted SegmentType.code xs ≤ code_count xs
unfolding labels_are_bare emitted code_count
emitted-le-code_count [] h = omega arith
emitted-le-code_count (x ∷ xs) h = ground (arith, one_emitted x, emitted-le-code_count xs)

-- When no label definition emits a word and the code with its padding fits below 2^64, the read-only
-- data starts at a page boundary, at least 16 KiB behind the end of the code.
pub rodata_start-behind_code :
    (base : ℕ) (xs : List Instruction)
    → labels_are_bare xs ≡ true
    → base + 4 * length xs + 20 * 1024 ≤ 2 ^ 64
    → (base + 4 * emitted SegmentType.code xs + 16 * 1024 ≤ rodata_start base (code_size 0 xs))
      × (rodata_start base (code_size 0 xs) % 4096 ≡ 0)
unfolding rodata_start
rodata_start-behind_code base xs h fits =
    let n = code_count-le xs in
    let e = emitted-le-code_count xs h in
    let size : code_size 0 xs ≡ 4 * code_count xs =
      code_size_lem 0 xs (omega arith) ∙ omega arith in
    rw
      (
        size,
        page_lem (add_size (add_size (add_size base (4 * code_count xs)) (16 * 1024)) 0xFFF)
            (omega arith),
      )
      (omega arith, omega arith)
