-- ===== src/Division/Types.antt =====
-- contracts/leaseflow_contracts/src/division_safety.rs: the counts of the divisions and the errors of
-- the divisions without floating-point numbers.
use lease_flow_protocol_cont.Base.{ℕ, Bool, ℤ, pos, Action}

pub record DivisionSafety : Type 0 where
  pub cumulative_truncation_loss : ℤ
  pub division_dust : ℤ
  pub division_count : ℕ
  pub max_truncation_loss : ℤ

pub record DivisionSafetyReport : Type 0 where
  pub cumulative_truncation_loss : ℤ
  pub division_dust : ℤ
  pub division_count : ℕ
  pub max_truncation_loss : ℤ
  pub average_truncation_loss : ℤ
  pub safety_verified : Bool

pub data DivisionSafetyError : Type 0 where
  negative_amount : ℤ → DivisionSafetyError
  invalid_bps : ℕ → DivisionSafetyError
  division_by_zero : DivisionSafetyError
  negative_inputs : (numerator denominator : ℤ) → DivisionSafetyError
  negative_result : ℤ → DivisionSafetyError
  result_exceeds_amount : (result amount : ℤ) → DivisionSafetyError
  excessive_truncation_loss : (loss max_allowed : ℤ) → DivisionSafetyError
  reconstruction_exceeds_original : (reconstructed original : ℤ) → DivisionSafetyError
  multiplication_exceeds_numerator : (result denominator numerator : ℤ) → DivisionSafetyError
  invalid_remainder : (remainder scale : ℤ) → DivisionSafetyError
  reconstruction_mismatch : (value result scale remainder reconstructed : ℤ) → DivisionSafetyError
  ceiling_less_than_floor ceiling_exceeds_bound zero_remainder_ceiling_mismatch :
      (ceiling floor : ℤ) → DivisionSafetyError
  ceiling_multiplication_insufficient : (ceiling denominator numerator : ℤ) → DivisionSafetyError

-- An error of the divisions, or the `CalculationOverflow` that `?` passes on.
pub data DivisionFailure : Type 0 where
  unsafe_division : DivisionSafetyError → DivisionFailure
  calculation_overflow : DivisionFailure

abbrev pub Division : Type 0 → Type 0
Division A = Action DivisionSafety DivisionFailure A

-- `DivisionSafety::new`, and what `reset` writes.
abbrev pub no_divisions : DivisionSafety
no_divisions = record {
  cumulative_truncation_loss = pos 0;
  division_dust = pos 0;
  division_count = 0;
  max_truncation_loss = pos 0;
}
