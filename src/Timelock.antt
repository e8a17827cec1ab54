-- ===== src/Timelock.antt =====
-- contracts/leaseflow_contracts/src/timelock_upgrade.rs: upgrades by several signers behind a
-- timelock.
pub mod Types
pub mod Calls
pub mod Invariant
pub mod Evolving
pub mod Entries
pub mod Approvals
pub mod Steps
pub mod Liveness
mod Examples
