-- ===== src/Division.antt =====
-- contracts/leaseflow_contracts/src/division_safety.rs: divisions that check and count what they lose.
mod Types
mod Calls
mod Exact
mod Examples
