-- ===== src/CallFrameManager/Saved.antt =====
-- What the epilogue restores is what the prologue saved.
use bcpl.Prelude.{
  ℕ, ◌*◌, ◌≡◌, ◌∙◌, refl, sym, ap, subst, arith, Bool, true, false, some, List, [], ◌∷◌, ◌++◌,
  length, Text, text_eq, is_ok-returns, codes, if◌then◌else◌, Result, ok, invalid_argument,
  >>=-eq-ok, ok-injective, throw_if, >>=-returns,
}
use bcpl.Prelude.Decimal.{stoul}
use bcpl.Prelude.Int.{ℤ, pos, wrap, quot, negate}
use bcpl.Prelude.Dict.{Dict, lookup}
use bcpl.BitPatcher.{patch}
use bcpl.Arm64.{decode, str_uimm, ldr_uimm}
use bcpl.Instruction.{Instruction}
use bcpl.Encoder.Registers.{parse_register, get_reg_encoding}
use bcpl.Encoder.AddSub.{create_add_imm, create_cmp_reg, create_mov_fp_sp, create_mov_sp_fp}
use bcpl.Encoder.MoveWide.{create_movz_movk_abs64}
use bcpl.Encoder.Branch.{create_branch_conditional, create_return}
use bcpl.Encoder.Pairs.{create_stp_pre_imm}
use bcpl.Encoder.Memory.{
  Access, parse_access, access_scale, not_offset, create_ldr_imm, create_str_imm,
}
use bcpl.Encoder.Memory.Decode.{create_ldr_imm-decode, create_str_imm-decode}
use bcpl.RuntimeManager.{to_upper}
use bcpl.CallFrameManager.{CallFrameManager}
use bcpl.CallFrameManager.Prologue.{
  comment, register_comment, store_canaries, save_registers, prologue_code, generate_prologue,
  finished, lay_out, or_out_of_range,
}
use bcpl.CallFrameManager.Epilogue.{
  restore_registers, generate_epilogue, check_canaries, tear_down, handlers, create_brk,
}
use bcpl.CallFrameManager.Layout.{generate_prologue_lem}

-- Each load has the register, the base, the size and the offset of the store it stands beside.
pub data Undoes : List Instruction → List Instruction → Type 0 where
  nothing : Undoes [] []
  one :
      {s r : Instruction} {ss rs : List Instruction} (sf : Bool) (rt rn imm12 : ℕ)
      → decode s.encoding ≡ some (str_uimm sf rt rn imm12)
      → decode r.encoding ≡ some (ldr_uimm sf rt rn imm12)
      → Undoes ss rs
      → Undoes (s ∷ ss) (r ∷ rs)

-- What can be stored can be loaded.
create_ldr_imm-create_str_imm :
    (xt xn : Text) (immediate : ℤ) {s : Instruction}
    → create_str_imm xt xn immediate [] ≡ ok s
    → (r : Instruction) × (create_ldr_imm xt xn immediate [] ≡ ok r)
unfolding create_ldr_imm create_str_imm
create_ldr_imm-create_str_imm xt xn immediate {s} e =
    let (t, et, e1) = >>=-eq-ok (parse_access xt xn) _ e in
    let (u, e2, e3) = >>=-eq-ok (throw_if (not_offset t.sf immediate) invalid_argument) _ e1 in
    let base = if t.sf then 0xF9000000 else 0xB9000000 in
    let imm12 = wrap 32 (quot immediate (access_scale t.sf)) in
    let (w1, p1, e4) = >>=-eq-ok (patch base imm12 (pos 10) (pos 12)) _ e3 in
    let (w2, p2, e5) = >>=-eq-ok (patch w1 t.rn (pos 5) (pos 5)) _ e4 in
    let (w3, p3, e6) = >>=-eq-ok (patch w2 t.rt (pos 0) (pos 5)) _ e5 in
    let (a, ea, e7) = >>=-eq-ok (get_reg_encoding xt) _ e6 in
    let (b, eb, e8) = >>=-eq-ok (get_reg_encoding xn) _ e7 in
    >>=-returns _ et (>>=-returns _ e2 (>>=-returns _ ea (>>=-returns _ eb (_, refl))))

same_offset : (sf : Bool) (i j : ℕ) → pos (access_scale sf * i) ≡ pos (access_scale sf * j) → i ≡ j
same_offset true i j e = ground arith
same_offset false i j e = ground arith

undone :
    (xt xn : Text) (immediate : ℤ) {s r : Instruction} {ss rs : List Instruction}
    → create_str_imm xt xn immediate [] ≡ ok s
    → create_ldr_imm xt xn immediate [] ≡ ok r
    → (text other : Text) → Undoes ss rs
    → Undoes (comment text s ∷ ss) (comment other r ∷ rs)
unfolding comment
undone xt xn immediate {s} {r} es er text other rest =
    let (t, i, et, ei, ds) = create_str_imm-decode xt xn immediate [] es in
    let (u, j, eu, ej, dr) = create_ldr_imm-decode xt xn immediate [] er in
    let k : u ≡ t = ok-injective (sym eu ∙ et) in
    let ek = subst (λ (v : Access). pos (access_scale v.sf * j) ≡ immediate) k ej in
    let dk = subst (λ (v : Access). decode r.encoding ≡ some (ldr_uimm v.sf v.rt v.rn j)) k dr in
    one t.sf t.rt t.rn i ds (rw (same_offset t.sf i j (ei ∙ sym ek)) dk) rest

restore_one :
    (offsets : Dict ℕ) (reg : Text) (regs : List Text) {offset : ℕ} {r : Instruction}
    {rs : List Instruction}
    → or_out_of_range (lookup reg offsets) ≡ ok offset
    → create_ldr_imm reg (codes "X29") (pos offset) [] ≡ ok r
    → restore_registers offsets regs ≡ ok rs
    → restore_registers offsets (reg ∷ regs)
      ≡ ok (comment (register_comment (codes "Restored Reg: ") reg offset) r ∷ rs)
unfolding restore_registers
restore_one offsets reg regs eo er ers = rw (eo, er, ers) refl

-- The loop of the epilogue returns where that of the prologue did.
restore_registers-save_registers :
    (offsets : Dict ℕ) (regs : List Text) {ss : List Instruction}
    → save_registers offsets regs ≡ ok ss
    → (rs : List Instruction) × (restore_registers offsets regs ≡ ok rs) × Undoes ss rs
unfolding save_registers restore_registers
restore_registers-save_registers offsets [] e = ([], refl, rw⁻¹ (ok-injective e) nothing)
restore_registers-save_registers offsets (reg ∷ regs) e =
    let (offset, eo, e1) = >>=-eq-ok (or_out_of_range (lookup reg offsets)) _ e in
    let (s, es, e2) = >>=-eq-ok (create_str_imm reg (codes "X29") (pos offset) []) _ e1 in
    let (ss, ess, e3) = >>=-eq-ok (save_registers offsets regs) _ e2 in
    let (rs, ers, u) = restore_registers-save_registers offsets regs ess in
    let (r, er) = create_ldr_imm-create_str_imm reg (codes "X29") (pos offset) es in
    let saved = register_comment (codes "Saved Reg: ") reg offset in
    let restored = register_comment (codes "Restored Reg: ") reg offset in
    (
      comment restored r ∷ rs,
      restore_one offsets reg regs eo er ers,
      subst (λ (l : List Instruction). Undoes l (comment restored r ∷ rs)) (ok-injective e3)
          (undone reg (codes "X29") (pos offset) es er saved restored u),
    )

-- The parts of the epilogue behind the loads always return.
check_canaries_lem : (m : CallFrameManager) → (l : List Instruction) × (check_canaries m ≡ ok l)
unfolding check_canaries create_ldr_imm create_movz_movk_abs64 create_cmp_reg
    create_branch_conditional parse_register text_eq stoul patch get_reg_encoding lookup to_upper
check_canaries_lem m = is_ok-returns (check_canaries m) refl

tear_down_lem : (l : List Instruction) × (tear_down ≡ ok l)
unfolding tear_down create_ldr_imm create_mov_sp_fp create_add_imm create_return parse_register
    text_eq stoul patch get_reg_encoding
tear_down_lem = is_ok-returns tear_down refl

handlers_lem : (m : CallFrameManager) → (l : List Instruction) × (handlers m ≡ ok l)
unfolding handlers create_brk patch
handlers_lem m = is_ok-returns (handlers m) refl

if_on :
    (on : Bool) (r : Result (List Instruction))
    → ((l : List Instruction) × (r ≡ ok l))
    → (l : List Instruction) × ((if on then r else ok []) ≡ ok l)
if_on true r h = h
if_on false r h = ([], refl)

generate_epilogue_lem :
    (q : CallFrameManager) {rs : List Instruction}
    → restore_registers q.variable_offsets q.callee_saved_registers_to_save ≡ ok rs
    → (rest : List Instruction) × (generate_epilogue (finished q) ≡ ok (rs ++ rest))
unfolding generate_epilogue
generate_epilogue_lem q {rs} er =
    let (checks, ec) =
      if_on q.enable_stack_canaries (check_canaries (finished q))
        (check_canaries_lem (finished q)) in
    let (leave, el) = tear_down_lem in
    let (traps, et) =
      if_on q.enable_stack_canaries (handlers (finished q)) (handlers_lem (finished q)) in
    (checks ++ (leave ++ traps), rw (er, ec, el, et) refl)

length-save_registers :
    (offsets : Dict ℕ) (regs : List Text) {ss : List Instruction}
    → save_registers offsets regs ≡ ok ss
    → length ss ≡ length regs
unfolding save_registers
length-save_registers offsets [] e = ap length (sym (ok-injective e))
length-save_registers offsets (reg ∷ regs) e =
    let (offset, eo, e1) = >>=-eq-ok (or_out_of_range (lookup reg offsets)) _ e in
    let (s, es, e2) = >>=-eq-ok (create_str_imm reg (codes "X29") (pos offset) []) _ e1 in
    let (ss, ess, e3) = >>=-eq-ok (save_registers offsets regs) _ e2 in
    ap length (sym (ok-injective e3)) ∙ omega (arith, length-save_registers offsets regs ess)

prologue_code_lem :
    (q : CallFrameManager) {pro : List Instruction}
    → prologue_code q ≡ ok pro
    → (front saves : List Instruction) × (pro ≡ front ++ saves)
      × (save_registers q.variable_offsets q.callee_saved_registers_to_save ≡ ok saves)
unfolding prologue_code
prologue_code_lem q e =
    let (push, e1, e2) =
      >>=-eq-ok
        (create_stp_pre_imm (codes "X29") (codes "X30") (codes "SP") (negate q.final_frame_size)) _
        e in
    let (frame, e3, e4) = >>=-eq-ok create_mov_fp_sp _ e2 in
    let (canaries, e5, e6) =
      >>=-eq-ok (if q.enable_stack_canaries then store_canaries else ok []) _ e4 in
    let (saves, e7, e8) =
      >>=-eq-ok (save_registers q.variable_offsets q.callee_saved_registers_to_save) _ e6 in
    (push ∷ frame ∷ canaries, saves, sym (ok-injective e8), e7)

-- The last instructions of a prologue store registers; the first of an epilogue load the same
-- registers from the same places.
pub Restored : CallFrameManager → List Instruction → Type 0
Restored m pro =
    (front saves restores rest : List Instruction) × (pro ≡ front ++ saves)
    × (generate_epilogue m ≡ ok (restores ++ rest))
    × Undoes saves restores
    × (length saves ≡ length m.callee_saved_registers_to_save)

restored_lem :
    (q : CallFrameManager) {pro : List Instruction}
    → prologue_code q ≡ ok pro
    → Restored (finished q) pro
unfolding Restored
restored_lem q e =
    let (front, saves, ep, es) = prologue_code_lem q e in
    let (restores, er, u) =
      restore_registers-save_registers q.variable_offsets q.callee_saved_registers_to_save es in
    let (rest, ee) = generate_epilogue_lem q er in
    let l = length-save_registers q.variable_offsets q.callee_saved_registers_to_save es in
    (front, saves, restores, rest, ep, ee, u, l)

-- After a prologue that returned, the epilogue returns too. Its first instructions load, one by
-- one, the registers that the last instructions of the prologue stored, from the same places.
pub generate_epilogue-generate_prologue :
    (p m : CallFrameManager) {pro : List Instruction}
    → generate_prologue p ≡ (ok pro, m)
    → Restored m pro
generate_epilogue-generate_prologue p m {pro} e =
    let (em, ep) = generate_prologue_lem p m e in
    subst (λ (k : CallFrameManager). Restored k pro) (sym em) (restored_lem (lay_out p) ep)
