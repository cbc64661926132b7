-- ===== src/Instruction.antt =====
-- Encoder.h and OpType.h: an encoded instruction with its metadata.
-- A `std::string` is a `Text`. The register fields are `int`s with -1 for none.
use bcpl.Prelude.{ℕ, Bool, true, false, [], Text}
use bcpl.Prelude.Int.{ℤ, pos, negsuc}

pub data ConditionCode : Type 0 where
  eq ne cs cc_ mi pl vs vc hi ls ge lt gt le al nv unknown : ConditionCode

pub data JitAttribute : Type 0 where
  none jit_address jit_call jit_store jit_restore : JitAttribute

pub data OpType : Type 0 where
  unknown : OpType
  mov movz movk fmov mov_fp_sp mov_sp_fp : OpType
  add sub subs : OpType
  mul madd fadd fsub fmul fmsub fmadd : OpType
  div sdiv fdiv : OpType
  and orr eor bic : OpType
  cmp fcmp : OpType
  str ldr ldur ldrb stp ldp str_fp ldr_fp str_word ldr_word ldr_scaled : OpType
  b bl br blr ret b_cond adrp adr : OpType
  nop dmb brk svc directive : OpType
  lsl lsr asr ubfx sbfx bfi : OpType
  cset csetm csinv : OpType
  cbz cbnz : OpType
  scvtf fcvtzs fcvtms : OpType
  fmla_vector fmul_vector add_vector ld1_vector fadd_vector mul_vector : OpType
  fsqrt : OpType

pub data RelocationType : Type 0 where
  none pc_relative_19_bit_offset pc_relative_26_bit_offset page_21_bit_pc_relative : RelocationType
  add_12_bit_unsigned_offset : RelocationType
  movz_movk_imm_0 movz_movk_imm_16 movz_movk_imm_32 movz_movk_imm_48 : RelocationType
  absolute_address_lo32 absolute_address_hi32 jump label : RelocationType

pub data SegmentType : Type 0 where
  code rodata data_ : SegmentType

pub record Instruction : Type 0 where
  pub encoding : ℕ
  pub assembly_text : Text
  pub address : ℕ
  pub relocation : RelocationType
  pub target_label : Text
  pub is_data_value : Bool
  pub is_label_definition : Bool
  pub relocation_applied : Bool
  pub resolved_symbol_name : Text
  pub resolved_target_address : ℕ
  pub segment : SegmentType
  pub branch_target : Text
  pub label : Text
  pub opcode : OpType
  pub dest_reg : ℤ
  pub src_reg1 : ℤ
  pub src_reg2 : ℤ
  pub base_reg : ℤ
  pub ra_reg : ℤ
  pub cond : ConditionCode
  pub immediate : ℤ
  pub uses_immediate : Bool
  pub is_mem_op : Bool
  pub jit_attribute : JitAttribute

-- `Instruction(enc, text)`: every other field has its default.
abbrev pub instruction : ℕ → Text → Instruction
instruction enc text = record {
  encoding = enc;
  assembly_text = text;
  address = 0;
  relocation = RelocationType.none;
  target_label = [];
  is_data_value = false;
  is_label_definition = false;
  relocation_applied = false;
  resolved_symbol_name = [];
  resolved_target_address = 0;
  segment = SegmentType.code;
  branch_target = [];
  label = [];
  opcode = OpType.unknown;
  dest_reg = negsuc 0;
  src_reg1 = negsuc 0;
  src_reg2 = negsuc 0;
  base_reg = negsuc 0;
  ra_reg = negsuc 0;
  cond = ConditionCode.unknown;
  immediate = pos 0;
  uses_immediate = false;
  is_mem_op = false;
  jit_attribute = JitAttribute.none;
}

-- `Instruction::as_label`.
unfoldable pub as_label : Text → SegmentType → Instruction
as_label label_name segment = record (instruction 0 []) {
  is_label_definition = true;
  target_label = label_name;
  segment = segment;
}

-- `Instruction::as_relocatable_data`.
pub as_relocatable_data : Text → SegmentType → Instruction
as_relocatable_data target segment = record (instruction 0 []) {
  is_data_value = true;
  relocation = RelocationType.label;
  target_label = target;
  segment = segment;
}
