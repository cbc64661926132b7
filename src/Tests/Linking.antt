-- ===== src/Tests/Linking.antt =====
-- Runs of the bit patcher, of the label manager and of the linker.
use bcpl.Prelude.{
  ℕ, ◌+◌, ◌*◌, ◌/◌, ◌%◌, ◌^◌, ◌≤◌, ◌≡◌, refl, arith, true, List, [], ◌∷◌, ◌++◌, length, Text, codes,
  text_eq, some, ok,
}
use bcpl.Prelude.Int.{pos, pos_part}
use bcpl.Prelude.Dict.{lookup, insert}
use bcpl.BitPatcher.{patch}
use bcpl.BitPatcher.Fields.{Patched, patch-Patched}
use bcpl.Instruction.{Instruction, instruction, SegmentType, RelocationType}
use bcpl.RuntimeManager.{RuntimeManager, is_function_registered, to_upper, upper}
use bcpl.LabelManager.{LabelManager, define_label, is_label_defined, get_label_address}
use bcpl.Linker.{
  Cursors, assign, code_size, rodata_start, relocate_word, process, enter_label, place, move_cursor,
}
use bcpl.Linker.Addresses.{emitted}
use bcpl.Linker.Layout.{
  assign-address, assign-label, assign-distinct, is_ok, distinct_labels, occurs,
}
use bcpl.Linker.Segments.{labels_are_bare, rodata_start-behind_code}
use bcpl.Linker.Relocate.{branch_to, relocate_word-branch_26}
use bcpl.Linker.RelocateAddress.{relocate_word-movz_movk}
use bcpl.Linker.Process.{process-branch_26}
use bcpl.Tests.Data.{outcome, ok-outcome}

abbrev loop : Text
loop = codes "LOOP"

abbrev loop_label : Instruction
loop_label = record (instruction 0 []) { is_label_definition = true; target_label = loop }

abbrev nop : Instruction
nop = instruction 0xD503201F (codes "NOP")

abbrev branch_back : Instruction
branch_back = record (instruction 0x14000000 (codes "B LOOP")) {
  relocation = RelocationType.pc_relative_26_bit_offset;
  target_label = loop;
}

abbrev stream : List Instruction
stream = loop_label ∷ nop ∷ branch_back ∷ []

abbrev no_labels : LabelManager
no_labels = record { defined_labels = []; next_label_id = 0 }

abbrev no_runtime : RuntimeManager
no_runtime = record { functions = []; next_table_offset = 0 }

abbrev start : Cursors
start = record { code = 0x1000; rodata = 0x6000; data_ = 0x9000 }

patch-Patched_example :
    (pos 5 ≡ pos (pos_part (pos 5)))
    × (pos 16 ≡ pos (pos_part (pos 16)))
    × Patched 0xFFFFFFFF 0xABCD 5 16 0xFFF579BF
unfolding patch
patch-Patched_example = patch-Patched 0xFFFFFFFF 0xABCD (pos 5) (pos 16) (omega arith) refl

relocate_word-branch_26_example :
    (w : ℕ) × (relocate_word RelocationType.pc_relative_26_bit_offset 0x14000000 0x2000 0x1000
      ≡ ok w)
    × (branch_to 26 0x2000 (w % 2 ^ 26) ≡ 0x1000)
    × (w / 2 ^ 26 ≡ 0x14000000 / 2 ^ 26)
relocate_word-branch_26_example =
    relocate_word-branch_26 0x14000000 0x2000 0x1000 (omega arith) refl refl (omega arith)
      (omega arith) (omega arith) (omega arith)

relocate_word-movz_movk_example :
    (0xD29BDE00 / 2 ^ 5 % 2 ^ 16
        + 0xF2B35780 / 2 ^ 5 % 2 ^ 16 * 2 ^ 16
        + 0xF2CACF00 / 2 ^ 5 % 2 ^ 16 * 2 ^ 32
        + 0xF2E24680 / 2 ^ 5 % 2 ^ 16 * 2 ^ 48
      ≡ 0x123456789ABCDEF0)
    × ((0xD29BDE00 / 2 ^ 21 ≡ 0xD2800000 / 2 ^ 21) × (0xD29BDE00 % 2 ^ 5 ≡ 0xD2800000 % 2 ^ 5))
    × ((0xF2B35780 / 2 ^ 21 ≡ 0xF2A00000 / 2 ^ 21) × (0xF2B35780 % 2 ^ 5 ≡ 0xF2A00000 % 2 ^ 5))
    × ((0xF2CACF00 / 2 ^ 21 ≡ 0xF2C00000 / 2 ^ 21) × (0xF2CACF00 % 2 ^ 5 ≡ 0xF2C00000 % 2 ^ 5))
    × ((0xF2E24680 / 2 ^ 21 ≡ 0xF2E00000 / 2 ^ 21) × (0xF2E24680 % 2 ^ 5 ≡ 0xF2E00000 % 2 ^ 5))
unfolding relocate_word patch
relocate_word-movz_movk_example =
    relocate_word-movz_movk 0xD2800000 0xF2A00000 0xF2C00000 0xF2E00000 0x1000 0x123456789ABCDEF0
      (omega arith) (omega arith) (omega arith) (omega arith) (omega arith) refl refl refl refl

assign-address_example :
    (p1 : List Instruction) × (p2 : List Instruction) × (length p1 ≡ 2)
    × ((outcome (assign stream start no_labels)).0
        ≡ p1
          ++ (record branch_back {
            address = (0x1000 + 4 * emitted SegmentType.code (loop_label ∷ nop ∷ [])) % 2 ^ 64;
          }
              ∷ p2))
unfolding assign enter_label place move_cursor define_label is_label_defined lookup text_eq
assign-address_example =
    assign-address (loop_label ∷ nop ∷ []) branch_back [] start no_labels (omega arith) refl
      (ok-outcome (assign stream start no_labels) refl)

assign-label_example :
    lookup loop (outcome (assign stream start no_labels)).1.defined_labels
    ≡ some ((0x1000 + 4 * emitted SegmentType.code []) % 2 ^ 64)
unfolding assign enter_label place move_cursor define_label is_label_defined lookup text_eq
assign-label_example =
    assign-label [] loop_label (nop ∷ branch_back ∷ []) start no_labels (omega arith) refl
      (ok-outcome (assign stream start no_labels) refl)

assign-distinct_example :
    is_ok (assign (loop_label ∷ stream) start no_labels) ≡ distinct_labels [] (loop_label ∷ stream)
unfolding lookup occurs
assign-distinct_example = assign-distinct [] (loop_label ∷ stream) start no_labels (λ k. refl)

rodata_start-behind_code_example :
    (0x1000 + 4 * emitted SegmentType.code stream + 16 * 1024
      ≤ rodata_start 0x1000 (code_size 0 stream))
    × (rodata_start 0x1000 (code_size 0 stream) % 4096 ≡ 0)
unfolding labels_are_bare
rodata_start-behind_code_example = rodata_start-behind_code 0x1000 stream refl (omega arith)

process-branch_26_example :
    (q1 : List Instruction) × (z : Instruction) × (q2 : List Instruction) × ((outcome
        (process stream no_labels no_runtime 0x1000 0x9000)).0
      ≡ q1 ++ (z ∷ q2))
    × (length q1 ≡ 2)
    × (z.address ≡ 0x1000 + 4 * emitted SegmentType.code (loop_label ∷ nop ∷ []))
    × (z.encoding / 2 ^ 26 ≡ 0x14000000 / 2 ^ 26)
    × (branch_to 26 z.address (z.encoding % 2 ^ 26) ≡ 0x1000 + 4 * emitted SegmentType.code [])
unfolding process enter_label place move_cursor define_label is_label_defined get_label_address
    lookup insert text_eq is_function_registered to_upper upper patch
process-branch_26_example =
    process-branch_26 (loop_label ∷ nop ∷ []) branch_back [] [] loop_label (nop ∷ branch_back ∷ [])
      no_labels no_runtime 0x1000 0x9000 refl (omega arith) refl (omega arith) refl refl
      (omega arith) refl refl refl refl refl refl
      (ok-outcome (process stream no_labels no_runtime 0x1000 0x9000) refl)
