-- ===== src/Examples.antt =====
-- Small concrete instances of what the development takes as parameters, and the theorems at them.
pub mod Instances
mod Accounts
mod Proofs
mod Runs
mod Timing
mod Upgrades
mod Heartbeats
mod Contexts
mod Polynomials
mod Circuit
mod Harness
mod Five
mod Soundness
