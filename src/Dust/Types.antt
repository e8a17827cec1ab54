-- ===== src/Dust/Types.antt =====
-- contracts/leaseflow_contracts/src/dust_accounting.rs: the accounts, the results and the errors.
use lease_flow_protocol_cont.Base.{ℕ, Bool, List, [], ℤ, pos, Map, Action}

pub record DustAccounting : Type 0 where
  pub total_dust : ℤ
  pub lease_dust : Map ℤ
  pub signer_dust : Map ℤ
  pub dust_recovered : ℤ
  pub dust_operations : ℕ

pub record MultiSignerDustResult : Type 0 where
  pub individual_shares : Map ℤ
  pub dust_amount : ℤ
  pub lease_id : ℕ
  pub verification_passed : Bool

pub record PartialSettlementDustResult : Type 0 where
  pub settlement_amounts : List ℤ
  pub dust_amount : ℤ
  pub remaining_amount : ℤ
  pub lease_id : ℕ

pub record DustAccountingReport : Type 0 where
  pub total_dust : ℤ
  pub dust_recovered : ℤ
  pub dust_operations : ℕ
  pub active_leases_with_dust : ℕ
  pub active_signers_with_dust : ℕ
  pub net_dust : ℤ
  pub accounting_verified : Bool

pub data DustAccountingError : Type 0 where
  negative_amount negative_settlement_amount negative_recovery_amount : ℤ → DustAccountingError
  invalid_basis_points_sum : ℕ → DustAccountingError
  dust_accounting_mismatch : (expected actual dust_tracked : ℤ) → DustAccountingError
  settlement_exceeds_available : (settlement available : ℤ) → DustAccountingError
  recovery_exceeds_dust : (recovery available : ℤ) → DustAccountingError
  no_dust_for_lease : ℕ → DustAccountingError
  negative_total_dust : ℤ → DustAccountingError
  recovery_exceeds_total : (recovered total : ℤ) → DustAccountingError
  lease_dust_mismatch : (lease_sum total_dust : ℤ) → DustAccountingError
  signer_dust_exceeds_total : (signer_sum total_dust : ℤ) → DustAccountingError

-- What ends an operation early: an error of the accounts, or the `CalculationOverflow` of
-- escrow_invariant.rs that `?` passes on from the safe arithmetic.
pub data DustFailure : Type 0 where
  accounting : DustAccountingError → DustFailure
  calculation_overflow : DustFailure

-- The operations borrow the accounts mutably: what they wrote before a failure stays.
abbrev pub Dust : Type 0 → Type 0
Dust A = Action DustAccounting DustFailure A

-- `DustAccounting::new`, and what `reset` writes.
abbrev pub no_dust : DustAccounting
no_dust = record {
  total_dust = pos 0;
  lease_dust = [];
  signer_dust = [];
  dust_recovered = pos 0;
  dust_operations = 0;
}
