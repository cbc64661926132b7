-- ===== src/ConstantFolding.antt =====
-- ConstantFoldingPass.cpp, and of Optimizer.cpp the visitors that the pass does not replace.
pub mod Constants
pub mod Operators
pub mod Pass
pub mod Program
pub mod Semantics
mod Range
pub mod Sound
