-- ===== src/Linker.antt =====
-- Linker.cpp and linker_helpers/: addresses for a stream of instructions, then relocations.
-- Tracing is left out. A `size_t` is a number below 2^64, and its additions wrap.
pub mod Addresses
pub mod Layout
pub mod Process
pub mod Segments
pub mod Relocate
pub mod RelocateAddress
use bcpl.Prelude.{
  ℕ, ◌+◌, ◌-◌, ◌*◌, ◌/◌, ◌%◌, ◌^◌, bit_and, Bool, true, false, not, ◌&&◌, ◌||◌, List, [], ◌∷◌, Text,
  is_empty, if◌then◌else◌, Result, ok, err, runtime_error, ◌>>=◌,
}
use bcpl.Prelude.Int.{ℤ, pos, quot, signed, wrap}
use bcpl.BitPatcher.{patch}
use bcpl.Instruction.{Instruction, RelocationType, SegmentType}
use bcpl.RuntimeManager.{RuntimeManager, is_function_registered, get_function}
use bcpl.LabelManager.{LabelManager, define_label, is_label_defined, get_label_address}

abbrev pub add_size : ℕ → ℕ → ℕ
add_size a b = (a + b) % 2 ^ 64

-- `x & ~0xFFF` of a 64-bit number.
abbrev pub page : ℕ → ℕ
page x = bit_and x (2 ^ 64 - 2 ^ 12)

-- `instr.segment == SegmentType::CODE && !instr.is_label_definition`
abbrev pub counts_as_code : Instruction → Bool
counts_as_code instr = elim (instr.segment) [
  | SegmentType.code ↦ not instr.is_label_definition
  | _ ↦ false
]

-- Pass 1a: the size of the code segment.
unfoldable pub code_size : ℕ → List Instruction → ℕ
code_size size [] = size
code_size size (instr ∷ rest) =
    code_size (if counts_as_code instr then add_size size 4 else size) rest

unfoldable pub rodata_start : ℕ → ℕ → ℕ
rodata_start code_base size = page (add_size (add_size (add_size code_base size) (16 * 1024)) 0xFFF)

pub record Cursors : Type 0 where
  pub code : ℕ
  pub rodata : ℕ
  pub data_ : ℕ

abbrev pub cursor : SegmentType → Cursors → ℕ
cursor SegmentType.code c = c.code
cursor SegmentType.rodata c = c.rodata
cursor SegmentType.data_ c = c.data_

abbrev pub advance : SegmentType → Cursors → Cursors
advance SegmentType.code c = record c { code = add_size c.code 4 }
advance SegmentType.rodata c = record c { rodata = add_size c.rodata 4 }
advance SegmentType.data_ c = record c { data_ = add_size c.data_ 4 }

-- `!instr.assembly_text.empty() || instr.is_data_value`
abbrev pub emits : Instruction → Bool
emits instr = not (is_empty instr.assembly_text) || instr.is_data_value

-- Step 1 of pass 1b: a label definition is entered at the cursor of its segment.
unfoldable pub enter_label : Instruction → Cursors → LabelManager → Result LabelManager
enter_label instr c m =
    if instr.is_label_definition
    then define_label m instr.target_label (cursor instr.segment c)
    else ok m

-- Step 2: what emits a word gets the address, and moves the cursor.
unfoldable pub place : Instruction → Cursors → Instruction
place instr c = if emits instr then record instr { address = cursor instr.segment c } else instr

unfoldable pub move_cursor : Instruction → Cursors → Cursors
move_cursor instr c = if emits instr then advance instr.segment c else c

-- Pass 1b.
unfoldable pub assign :
    List Instruction → Cursors → LabelManager → Result (List Instruction × LabelManager)
assign [] c m = ok ([], m)
assign (instr ∷ rest) c m = do
  m' ← enter_label instr c m
  (placed, m'') ← assign rest (move_cursor instr c) m'
  ok (place instr c ∷ placed, m'')

unfoldable pub assign_addresses_and_resolve_labels :
    List Instruction → LabelManager → ℕ → ℕ → Result (List Instruction × LabelManager)
unfolding assign code_size rodata_start
assign_addresses_and_resolve_labels stream manager code_base data_base =
    let start : Cursors = record {
      code = code_base;
      rodata = rodata_start code_base (code_size 0 stream);
      data_ = data_base;
    } in
    assign stream start manager

-- `static_cast<int64_t>(a) - static_cast<int64_t>(b)`, wrapping.
abbrev pub difference : ℕ → ℕ → ℤ
difference a b = signed 64 ((a + 2 ^ 64 - b) % 2 ^ 64)

-- `x >> 12` of an `int64_t` is arithmetic: the page numbers are taken as 64-bit patterns.
abbrev pub page_number : ℤ → ℕ
page_number d = wrap 64 d / 2 ^ 12 % 2 ^ 21

unfoldable pub apply_pc_relative_relocation : ℕ → ℕ → ℕ → RelocationType → Result ℕ
apply_pc_relative_relocation word address target RelocationType.pc_relative_26_bit_offset =
    let imm26 = wrap 26 (quot (difference target address) 4) in patch word imm26 (pos 0) (pos 26)
apply_pc_relative_relocation word address target RelocationType.pc_relative_19_bit_offset =
    let imm19 = wrap 19 (quot (difference target address) 4) in patch word imm19 (pos 5) (pos 19)
apply_pc_relative_relocation word address target RelocationType.page_21_bit_pc_relative =
    let imm21 = page_number (difference (page target) (page address)) in
    do
      with_low ← patch word (imm21 % 2 ^ 2) (pos 29) (pos 2)
      patch with_low (imm21 / 2 ^ 2) (pos 5) (pos 19)
apply_pc_relative_relocation word address target RelocationType.add_12_bit_unsigned_offset =
    patch word (target % 2 ^ 12) (pos 10) (pos 12)
apply_pc_relative_relocation word address target _ = err runtime_error

unfoldable pub apply_movz_movk_relocation : ℕ → ℕ → RelocationType → Result ℕ
apply_movz_movk_relocation word target RelocationType.movz_movk_imm_0 =
    patch word (target % 2 ^ 16) (pos 5) (pos 16)
apply_movz_movk_relocation word target RelocationType.movz_movk_imm_16 =
    patch word (target / 2 ^ 16 % 2 ^ 16) (pos 5) (pos 16)
apply_movz_movk_relocation word target RelocationType.movz_movk_imm_32 =
    patch word (target / 2 ^ 32 % 2 ^ 16) (pos 5) (pos 16)
apply_movz_movk_relocation word target RelocationType.movz_movk_imm_48 =
    patch word (target / 2 ^ 48 % 2 ^ 16) (pos 5) (pos 16)
apply_movz_movk_relocation word target _ = err runtime_error

-- The `switch` of pass 2.
unfoldable pub relocate_word : RelocationType → ℕ → ℕ → ℕ → Result ℕ
unfolding apply_pc_relative_relocation apply_movz_movk_relocation
relocate_word RelocationType.pc_relative_26_bit_offset word address target =
    apply_pc_relative_relocation word address target RelocationType.pc_relative_26_bit_offset
relocate_word RelocationType.pc_relative_19_bit_offset word address target =
    apply_pc_relative_relocation word address target RelocationType.pc_relative_19_bit_offset
relocate_word RelocationType.page_21_bit_pc_relative word address target =
    apply_pc_relative_relocation word address target RelocationType.page_21_bit_pc_relative
relocate_word RelocationType.add_12_bit_unsigned_offset word address target =
    apply_pc_relative_relocation word address target RelocationType.add_12_bit_unsigned_offset
relocate_word RelocationType.movz_movk_imm_0 word address target =
    apply_movz_movk_relocation word target RelocationType.movz_movk_imm_0
relocate_word RelocationType.movz_movk_imm_16 word address target =
    apply_movz_movk_relocation word target RelocationType.movz_movk_imm_16
relocate_word RelocationType.movz_movk_imm_32 word address target =
    apply_movz_movk_relocation word target RelocationType.movz_movk_imm_32
relocate_word RelocationType.movz_movk_imm_48 word address target =
    apply_movz_movk_relocation word target RelocationType.movz_movk_imm_48
relocate_word RelocationType.absolute_address_lo32 word address target = ok (target % 2 ^ 32)
relocate_word RelocationType.absolute_address_hi32 word address target =
    ok (target / 2 ^ 32 % 2 ^ 32)
relocate_word _ word address target = ok word

-- Runtime functions come before labels.
unfoldable pub target_address : RuntimeManager → LabelManager → Text → Result ℕ
target_address runtime manager label =
    if is_function_registered runtime label
    then (do f ← get_function runtime label; ok f.address)
    else (if is_label_defined manager label
        then get_label_address manager label
        else err runtime_error)

abbrev pub is_none : RelocationType → Bool
is_none RelocationType.none = true
is_none _ = false

unfoldable pub perform_relocation : RuntimeManager → LabelManager → Instruction → Result Instruction
unfolding target_address relocate_word
perform_relocation runtime manager instr =
    if is_none instr.relocation || is_empty instr.target_label then ok instr else (do
      target ← target_address runtime manager instr.target_label
      word ← relocate_word instr.relocation instr.encoding instr.address target
      ok (record instr {
        encoding = word;
        resolved_symbol_name = instr.target_label;
        relocation_applied = true;
        resolved_target_address = target;
      }))

unfoldable pub perform_relocations :
    RuntimeManager → LabelManager → List Instruction → Result (List Instruction)
unfolding perform_relocation
perform_relocations runtime manager [] = ok []
perform_relocations runtime manager (instr ∷ rest) = do
  done ← perform_relocation runtime manager instr
  others ← perform_relocations runtime manager rest
  ok (done ∷ others)

-- `Linker::process`.
unfoldable pub process :
    List Instruction
    → LabelManager
    → RuntimeManager
    → ℕ
    → ℕ
    → Result (List Instruction × LabelManager)
unfolding assign_addresses_and_resolve_labels perform_relocations
process stream manager runtime code_base data_base = do
  (placed, manager') ← assign_addresses_and_resolve_labels stream manager code_base data_base
  linked ← perform_relocations runtime manager' placed
  ok (linked, manager')
