-- ===== src/Canister.antt =====
-- canister/src/lib.rs: the registry, its challenges and the verification of proofs.
pub mod Outcome
pub mod Text
pub mod State
pub mod Admin
pub mod Tree
pub mod Throttle
pub mod Challenges
pub mod Verify
pub mod System
pub mod Upgrade
