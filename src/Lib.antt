-- ===== src/Lib.antt =====
-- LeaseFlow Protocol: Soroban contracts for leases, with rent, deposits, escrow and governance.
--
-- The development models these parts of the repository, a folder each:
--   Math      crates/leaseflow_math/src/lib.rs: the civil calendar (Math/Calendar), the length of a
--             month (Math/MonthSeconds), and prorated rent, refunds and splits (Math/Proration);
--             and contracts/leaseflow_contracts/src/proration.rs (Math/FirstMonth).
--   Lease     contracts/leaseflow/src/lib.rs: the lease contract. It uses Math for the first rent
--             and for refunds. Types holds the stored data, Create, Payment, Arrears and Oracle the
--             entry points, Invariant what every call keeps, Preserve, Activation and Deduction the
--             proofs, Calls the sequences of calls, States and Life the state machine, and
--             Expiry the success of an expiry.
--   Timelock  contracts/leaseflow_contracts/src/timelock_upgrade.rs: upgrades by several signers.
--             Approvals says where approvals come from, Steps what any calls keep, and Liveness
--             that a quorum can upgrade.
--   Vault     contracts/leaseflow_contracts/src/escrow_vault.rs: token deposits and their freeze.
--   Velocity  contracts/leaseflow_contracts/src/velocity_guard.rs: the limit on terminations.
--   Rental    contracts/leaseflow_contracts/src/lib.rs: the main contract's lease instances. Types and
--             Store hold the data and what the entry points share, and LeaseFlags the packed bits;
--             Admin, Create, Payment, Maintenance, Deposit, Termination, Oracle, Slash and History
--             the entry points. The terminations and slashes call the operations of Velocity on a
--             part of the storage. Books says what every call keeps, Keeps that each does, and Calls
--             what holds after any sequence; Split, Payouts and Endings the payments at the end
--             of a lease, OnTime the end of a lease whose term is over, Acceptance and Slashes
--             an oracle's slash, Charges the late fees, Simulation the simulated termination,
--             and Pages the reading of the archive.
--   Dust      contracts/leaseflow_contracts/src/dust_accounting.rs: the remainders of divisions. Calls
--             holds the operations, Books what they keep, Shares and Refund the split of a sum
--             among signers, Verdict the verification, and Recovery that of a settlement's dust.
--   Division  contracts/leaseflow_contracts/src/division_safety.rs: the fixed-point and the ceiling
--             division, which check and count what they lose.
--   Base      what they share: tests, integers, maps, results, postconditions, invocations, tokens.
--
-- A function keeps its name in the source, in the spelling of this language. An entry point is
-- a state-passing function (Base/Outcome): it ends with a value, an `Err` or a panic, and with
-- the state that it leaves. `invoke` is the host's call, which drops the writes of a call that
-- does not succeed. Arithmetic traps on overflow, as `overflow-checks = true` in Cargo.toml
-- demands; signed integers are mathematical ones with a range test at each operation. Storage
-- keys become fields of a record, and Soroban maps association lists in the order of their
-- keys. Addresses, hashes and signatures are numbers, which are only compared; texts are lists
-- of numbers.
--
-- Code outside the repository is a parameter: the ledger's time and sequence number and the
-- authorisations (Env, Host), the answers of a price oracle and the SDK's conversion to U256
-- (Host), the token contracts (the record Token of Base/Tokens, with the law of a transfer),
-- and the other contracts that the main contract calls (the record World of Rental/Store).
--
-- The two loops of get_seconds_in_month recur on fuel, one more than the days in hand; that is
-- enough, by Math/MonthSeconds/Loops, since each round uses up at least 365 days. Its theorems
-- reach to 2^50 seconds, beyond which the i32 arithmetic of the years would have to be
-- followed.
--
-- Where the source does not compile, the evident meaning is taken: deposit_amount in
-- activate_lease is the lease's, and the percentages of the velocity guard are u64. The struct
-- LeaseInstance repeats some fields, release_reentrancy_lock lacks its closing brace, and the
-- registry and the asset of a lease, which terminations read and the struct does not declare,
-- are fields that a new lease leaves empty. The index of active leases, whose function is
-- called and not defined, is a part of World, and so are the managers of access tokens, whose
-- modules are not modelled.
--
-- The pauses of rent that EMERGENCY_RENT_PAUSE_IMPLEMENTATION.md describes have no entry point in
-- the source, and no operation reads the fields for them.
--
-- Not modelled: of the main contract the older leases by symbol (initialize_lease to
-- end_lease), the yield of deposits, derived tokens and asset metadata; and the modules that it
-- declares beside those above, among them continuous billing, the payment router and the access
-- tokens. Of division_safety.rs the divisions that estimate their loss by floating-point
-- numbers are left out, and so are the tests, the fuzz targets and the files at the root.
pub mod Base
pub mod Math
pub mod Lease
pub mod Timelock
pub mod Vault
pub mod Velocity
pub mod Rental
pub mod Dust
pub mod Division
