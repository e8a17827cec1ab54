-- ===== src/Lease.antt =====
-- contracts/leaseflow/src/lib.rs: the lease contract.
pub mod Types
pub mod Create
pub mod Arrears
pub mod Payment
pub mod Oracle
pub mod Invariant
pub mod Preserve
pub mod Activation
pub mod Deduction
pub mod Calls
pub mod States
pub mod Life
pub mod Expiry
mod Examples
