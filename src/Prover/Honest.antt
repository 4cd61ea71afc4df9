-- ===== src/Prover/Honest.antt =====
-- The honest trace: proofs that what `build_trace` returns meets every constraint and assertion.
pub mod Cells
pub mod Kinds
pub mod Job
pub mod Stages
pub mod Loops
pub mod Whole
pub mod Rounds
pub mod Links
pub mod Types
pub mod Range
pub mod Vanish
pub mod Complete
