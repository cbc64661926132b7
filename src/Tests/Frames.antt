-- ===== src/Tests/Frames.antt =====
-- Runs of the call frame manager.
use bcpl.Prelude.{
  ◌+◌, ◌%◌, ◌≤◌, ◌≡◌, ◌≢◌, refl, arith, true, false, List, [], ◌∷◌, codes, text_eq, text_eq_iff,
  Result, ok, err, invalid_argument,
}
use bcpl.Prelude.Decimal.{stoul}
use bcpl.Prelude.Dict.{lookup, insert}
use bcpl.Prelude.TextSets.{has_text}
use bcpl.BitPatcher.{patch}
use bcpl.Instruction.{Instruction}
use bcpl.Encoder.Registers.{parse_register, get_reg_encoding}
use bcpl.Encoder.Pairs.{create_stp_pre_imm}
use bcpl.Encoder.AddSub.{create_mov_fp_sp}
use bcpl.Encoder.Memory.{create_str_imm}
use bcpl.CallFrameManager.{
  CallFrameManager, call_frame_manager, canary_space, get_offset, get_size_for_type,
}
use bcpl.CallFrameManager.Prologue.{
  generate_prologue, lay_out, required_content_size, sort, insert_sorted, place_register,
}
use bcpl.CallFrameManager.Slots.{Apart, slot_size}
use bcpl.CallFrameManager.Invariant.{Call, perform_all, Valid, reachable-Valid}
use bcpl.CallFrameManager.Layout.{generate_prologue-separate, generate_prologue-inside}
use bcpl.CallFrameManager.Saved.{Restored, generate_epilogue-generate_prologue}
use bcpl.CallFrameManager.Large.{generate_prologue-too_large}
use bcpl.Tests.Data.{succeeds, values}

-- An integer, a vector, one saved register and one spill slot.
abbrev calls : List Call
calls =
    Call.local (codes "a") 1
    ∷ Call.local (codes "v") (4096 + 256 + 1)
    ∷ Call.save_register (codes "X20")
    ∷ Call.spill_slots 1
    ∷ []

abbrev declared : CallFrameManager
declared = perform_all (call_frame_manager (codes "f") false) calls

abbrev prologue : List Instruction
prologue = values (generate_prologue declared).0

abbrev framed : CallFrameManager
framed = (generate_prologue declared).1

ok-prologue :
    (r : Result (List Instruction) × CallFrameManager)
    → succeeds r.0 ≡ true
    → r ≡ (ok (values r.0), r.1)
ok-prologue (ok is, m) h = refl
ok-prologue (err e, m) h = absurd (cc)

generates : generate_prologue declared ≡ (ok prologue, framed)
unfolding generate_prologue perform_all parse_register text_eq stoul patch get_reg_encoding
    call_frame_manager has_text create_stp_pre_imm create_mov_fp_sp create_str_imm insert lookup
    get_size_for_type sort insert_sorted place_register
generates = ok-prologue (generate_prologue declared) refl

different : codes "a" ≢ codes "v"
unfolding text_eq
different h = let k : false ≡ true = (text_eq_iff (codes "a") (codes "v")).1 h in cc

reachable-Valid_example : Valid declared
reachable-Valid_example = reachable-Valid (codes "f") false calls

generate_prologue-separate_example :
    (16 + canary_space framed.enable_stack_canaries ≤ 16)
    × Apart 16
        (slot_size framed.local_declarations (codes "a"))
        24
        (slot_size framed.local_declarations (codes "v"))
unfolding generate_prologue perform_all text_eq call_frame_manager has_text insert lookup get_offset
    parse_register stoul patch get_reg_encoding create_stp_pre_imm create_mov_fp_sp create_str_imm
    get_size_for_type sort insert_sorted place_register
generate_prologue-separate_example =
    generate_prologue-separate (codes "f") false calls framed (codes "a") (codes "v") generates
      different refl refl

generate_prologue-inside_example :
    (16 + slot_size framed.local_declarations (codes "a") ≤ framed.next_spill_offset)
    × (framed.next_spill_offset + framed.spill_area_size ≤ framed.final_frame_size)
    × (framed.final_frame_size % 16 ≡ 0)
unfolding generate_prologue perform_all text_eq call_frame_manager has_text insert lookup get_offset
    parse_register stoul patch get_reg_encoding create_stp_pre_imm create_mov_fp_sp create_str_imm
    get_size_for_type sort insert_sorted place_register required_content_size
generate_prologue-inside_example =
    generate_prologue-inside (codes "f") false calls framed (codes "a") generates (omega arith) refl

generate_epilogue-generate_prologue_example : Restored framed prologue
generate_epilogue-generate_prologue_example =
    generate_epilogue-generate_prologue declared framed generates

-- 64 spill slots are more than a frame can have.
abbrev crowded : CallFrameManager
crowded = perform_all (call_frame_manager (codes "f") false) (Call.spill_slots 64 ∷ [])

generate_prologue-too_large_example :
    generate_prologue crowded ≡ (err invalid_argument, lay_out crowded)
unfolding perform_all call_frame_manager lay_out sort
generate_prologue-too_large_example = generate_prologue-too_large crowded refl (omega arith)
