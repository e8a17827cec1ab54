-- ===== src/Rental.antt =====
-- contracts/leaseflow_contracts/src/lib.rs: the main contract, whose leases are `LeaseInstance`s.
mod Types
mod LeaseFlags
mod Store
mod Create
mod Payment
mod Maintenance
mod Deposit
mod Termination
mod Oracle
mod Slash
mod History
mod Admin
mod Books
mod Rules
mod Split
mod Acceptance
mod Keeps
mod Calls
mod Payouts
mod Endings
mod OnTime
mod Charges
mod Slashes
mod Simulation
mod Pages
mod Scene
mod Examples
