-- ===== src/Lib.antt =====
-- BCPL: the compiler, from the lexer to the linker.
--
-- The program and what is modelled of it. The compiler translates BCPL to AArch64 machine code in
-- memory. The lexer makes tokens of the source, of which a parser makes a syntax tree; passes over
-- the tree fold constants and find the variables that are live. The code generator takes the frame
-- of each function from a call frame manager and the registers of its variables from a register
-- manager, calls one encoder for each instruction and appends the result to a stream; labels are
-- entries of the stream; the linker gives every entry an address, enters the labels in the label
-- manager, and patches the words that name a label or a runtime function.
--
--   Lexer           Lexer.h, Lexer.cpp and lex_*.cpp. Token: the kinds of tokens and the keywords.
--                   Cursor: the record of the lexer, advance, and skip_whitespace_and_comments.
--                   Scanner: words, numbers, strings and characters. Operator: scan_operator, its
--                   switch as a table of scans. Next: get_next_token and peek. Keeps, Progress,
--                   Place, Words, Strings and Symbols hold what is proved.
--   Ast             AST.h: the classes of the syntax tree as data types, a null pointer as a
--                   constructor. Clone: AST_Cloner.cpp and the clone functions of AST.cpp.
--   ConstantFolding
--                   ConstantFoldingPass.cpp, and of Optimizer.cpp the visitors that it keeps.
--                   Constants: 64-bit arithmetic and the evaluators of literals. Operators: one
--                   operator with folded children. Pass: the visitors of expressions and statements.
--                   Program: those of declarations, and apply. Semantics describes, on
--                   its own arithmetic, the values that the code of NewCodeGenerator.cpp and
--                   generators/ computes for integer expressions, which folding is compared with; it
--                   has no value where the two do not agree, as for TRUE and for most comparisons.
--                   Range and Sound hold the proof.
--   ManifestResolution
--                   passes/ManifestResolutionPass.cpp: uses of manifest constants become literals.
--   SymbolTable     Symbol.h, SymbolTable.h and SymbolTable.cpp: the scopes and what is declared in
--                   them. Levels, Invariant, Laws and Blocks hold what is proved.
--   BitPatcher      BitPatcher.cpp: one bit field of a 32-bit word is overwritten. The inline assembly
--                   is written one instruction at a time; a guard that throws is an error result.
--   Instruction     Encoder.h and OpType.h: the record of an instruction with its enums.
--   Encoder         encoders/*.cpp. Registers holds the lambda parse_register that the files repeat
--                   and get_reg_encoding; Operands reads two or three operands of one size.
--                   ThreeReg: create_add_reg.cpp, create_sub_reg.cpp, create_and_reg.cpp,
--                   create_orr_reg.cpp, create_mul_reg.cpp, create_sdiv_reg.cpp, create_lsl_reg.cpp,
--                   create_lsr_reg.cpp, opt_create_asr_reg.cpp. AddSub: additions, subtractions,
--                   comparisons and moves. MoveWide: MOVZ, MOVK and the sequences that load an
--                   address. Pairs: STP and LDP. Memory: LDR and STR with an unsigned offset.
--                   BitField: UBFX, SBFX, and ASR and LSL by an immediate. Conditional: conditional selects.
--                   FloatingPoint, Vector: arithmetic on doubles and on vectors. Narrow: loads and
--                   stores of bytes and words.
--                   Branch: branches, and ADRP with ADD.
--   LabelManager    LabelManager.cpp: fresh names, and the addresses of defined labels.
--   RuntimeManager  RuntimeManager.cpp: the registered functions by upper-cased name.
--   Linker          Linker.cpp and linker_helpers/: both passes and all kinds of relocation.
--   CallFrameManager
--                   CallFrameManager.h and .cpp and cf_*.cpp: declarations of locals, spill slots and
--                   saved registers. Prologue: the layout and generate_prologue. Epilogue:
--                   generate_epilogue with create_brk. Slots, Invariant, Layout, Saved and Large hold
--                   what is proved of them.
--   RegisterManager RegisterManager.cpp and rm_*.cpp: the pools, the entries of the registers, and the
--                   map of variables to registers. Variables: acquiring with eviction and spilling;
--                   Floating: variables in floating-point and vector registers.
--                   Releases: giving back and resetting. A Context is the manager with the frame and
--                   the instructions emitted, since evictions ask the frame for a slot and emit a
--                   store. Invariant has the calls as a step relation,
--                   and Apart and Floats what the floating-point and vector calls keep.
--   Liveness        live_run_data_flow_analysis.cpp: the loop over the data-flow equations on a graph
--                   of basic blocks. Uses: LivenessAnalysisPass.cpp and live_analyze_block.cpp, the
--                   visitors that make the use and def sets of a block. Programs: live_run.cpp and
--                   live_compute_use_def_sets.cpp. Order, Events and Copies hold what is proved of
--                   Uses: Events has the reads and writes of all parts of a block, and which parts the
--                   visitors pass over.
--   Arm64           The part of the A64 instruction set that is used, as a decoder of words after
--                   the Arm reference manual. It is no code of the repository: it is the independent
--                   description that the encoders are compared with.
--   Tests           Runs of the theorems at concrete inputs.
--
-- How the code corresponds. A std::string is a list of character codes, an unordered_map an
-- association list, an exception an error result without its message (Prelude/Results). An int or
-- int64_t is an integer of Prelude/Int; a uint32_t or size_t is a natural number with its wrap-around
-- written out. Encoders return the word, the text and the metadata of the source. State is passed
-- explicitly: the linker's first pass takes and returns the label manager. Visitors are functions by
-- cases on the tree; what a pass keeps in its fields is an argument and a result. The lexer keeps the
-- text that is left; its line and column are natural numbers. The tests of characters are those of
-- the C locale. A double is its pattern, and the operations on doubles are a parameter (Doubles).
-- Overflow of an int64_t is taken to wrap around, and what C++ leaves undefined is an error result.
--
-- Bounds and fuel. There is no fuel in the linker or the encoders: their loops run over lists or over
-- the four chunks of an address. Decimal printing runs on a fuel of n + 1 digits for n, which is
-- enough, since each step divides the number by ten. The loop of the liveness analysis runs on a fuel
-- of iterations; one more than the number of blocks times the number of uses is enough, since each
-- iteration with a change adds a variable to a set. The loop over blanks and comments runs on a fuel
-- of the characters left and one, which is enough, since each round but the last takes one.
--
-- Not modelled: tracing and messages; the encoders of fused multiplications, scaled loads,
-- shifted additions, moves of doubles, directives, system calls and logical immediates;
-- the listing of a frame; the state that an exception leaves in the register manager; the parser, the
-- analyses that fill the symbol table, the graph of basic blocks, the optimizers other than
-- constant folding, and the code generator, left to further modules; the heap, the runtime,
-- just-in-time memory and signals, which are system calls; and printing.
pub mod Arm64
pub mod Ast
pub mod BitPatcher
pub mod CallFrameManager
pub mod ConstantFolding
pub mod Encoder
pub mod Instruction
pub mod LabelManager
pub mod Lexer
pub mod Linker
pub mod Liveness
pub mod ManifestResolution
pub mod Prelude
pub mod RegisterManager
pub mod RuntimeManager
pub mod SymbolTable
pub mod Tests
