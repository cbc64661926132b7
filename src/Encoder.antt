-- ===== src/Encoder.antt =====
-- encoders/: one function for each machine instruction.
pub mod Registers
pub mod Operands
pub mod ThreeReg
pub mod AddSub
pub mod MoveWide
pub mod Branch
pub mod BitField
pub mod Conditional
pub mod FloatingPoint
pub mod Narrow
pub mod Vector
pub mod Pairs
pub mod Memory
