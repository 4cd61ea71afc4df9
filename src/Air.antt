-- ===== src/Air.antt =====
-- air/src/lib.rs: the hash, the layout of the trace, and the constraints of `TitleAir`.
pub mod Layout
pub mod Permutation
pub mod Inputs
pub mod Context
pub mod Constraints
pub mod Job
pub mod Shape
pub mod Degrees
pub mod Typed
pub mod Facts
pub mod Ranged
pub mod Sound
