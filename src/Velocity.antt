-- ===== src/Velocity.antt =====
-- contracts/leaseflow_contracts/src/velocity_guard.rs: the limit on a lessor's terminations.
pub mod Types
pub mod Calls
pub mod Limits
pub mod Steps
mod Examples
