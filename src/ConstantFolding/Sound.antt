-- ===== src/ConstantFolding/Sound.antt =====
-- What folding does to the value of an expression over 64-bit integers.
mod Operators
mod Identities
pub mod Values
pub mod Total
