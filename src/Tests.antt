-- ===== src/Tests.antt =====
-- Concrete runs of the theorems, by the part of the program that they are about.
pub mod Data
pub mod Flow
pub mod Frames
pub mod Registers
pub mod Branches
pub mod Encoders
pub mod Linking
pub mod Memory
pub mod Moves
pub mod Lexing
pub mod Trees
pub mod Symbols
pub mod Manifests
