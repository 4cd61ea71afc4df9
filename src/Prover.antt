-- ===== src/Prover.antt =====
-- prover/src/lib.rs: the owner's side, which builds traces and mirrors the registry's tree.
pub mod Tree
pub mod Mirror
pub mod Trace
pub mod Jobs
pub mod Statement
pub mod Honest
pub mod Cli
pub mod Demo
pub mod Registered
