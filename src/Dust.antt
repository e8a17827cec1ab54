-- ===== src/Dust.antt =====
-- contracts/leaseflow_contracts/src/dust_accounting.rs: the accounts of the remainders of divisions.
mod Types
mod Calls
mod Sums
mod Books
mod Shares
mod Refund
mod Examples
mod Verdict
mod Recovery
