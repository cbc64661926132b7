-- ===== src/CallFrameManager/Large.antt =====
-- Frames that are too large for their prologue.
use bcpl.Prelude.{
  ℕ, ◌<◌, ◌≡◌, ◌∙◌, refl, ap, if-false, arith, true, false, text_eq, codes, err, invalid_argument,
}
use bcpl.Prelude.Decimal.{stoul}
use bcpl.Prelude.Int.{negate}
use bcpl.Encoder.Registers.{parse_register}
use bcpl.Encoder.Pairs.{parse_pair, not_pair_offset, create_stp_pre_imm}
use bcpl.CallFrameManager.{CallFrameManager}
use bcpl.CallFrameManager.Prologue.{generate_prologue, lay_out, prologue_code, finish_prologue}

far : (n : ℕ) → 512 < n → not_pair_offset true (negate n) ≡ true
far n h = ground arith

create_stp_pre_imm-far :
    (n : ℕ)
    → 512 < n
    → create_stp_pre_imm (codes "X29") (codes "X30") (codes "SP") (negate n) ≡ err invalid_argument
unfolding create_stp_pre_imm parse_pair parse_register text_eq stoul
create_stp_pre_imm-far n h = rw (far n h) refl

prologue_code-large :
    (q : CallFrameManager) → 512 < q.final_frame_size → prologue_code q ≡ err invalid_argument
unfolding prologue_code
prologue_code-large q large = rw (create_stp_pre_imm-far q.final_frame_size large) refl

-- A frame of more than 512 bytes cannot be pushed: the offset of its STP does not fit.
pub generate_prologue-too_large :
    (p : CallFrameManager)
    → p.is_prologue_generated ≡ false
    → 512 < (lay_out p).final_frame_size
    → generate_prologue p ≡ (err invalid_argument, lay_out p)
unfolding generate_prologue
generate_prologue-too_large p fresh large =
    if-false _ _ fresh ∙ ap (finish_prologue (lay_out p)) (prologue_code-large (lay_out p) large)
