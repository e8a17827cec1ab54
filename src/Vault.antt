-- ===== src/Vault.antt =====
-- contracts/leaseflow_contracts/src/escrow_vault.rs: the escrow vault and its emergency freeze.
pub mod Types
pub mod Calls
pub mod Solvency
pub mod Kept
pub mod Steps
pub mod Custody
pub mod Freeze
mod Examples
