-- ===== src/Division/Calls.antt =====
-- contracts/leaseflow_contracts/src/division_safety.rs: the fixed-point and the ceiling division.
use lease_flow_protocol_cont.Base.{
  checked, suc, ◌%◌, not, ◌&&◌, ◌||◌, ℤ, pos, negsuc, neg_ℕ, ◌+ℤ◌, ◌*ℤ◌, half_128, ltb_ℤ, leb_ℤ,
  eqb_ℤ, ltb, ⊤, pure, trap, gets, modify, raise_if, or_raise, branch, ◌>>=◌, ◌>>◌, div_i128,
  in_int, add_u64,
}
use lease_flow_protocol_cont.Division.Types.{
  DivisionSafety, DivisionSafetyReport, DivisionSafetyError, Division, unsafe_division,
  calculation_overflow, no_divisions,
}

-- Rust's `%` has the sign of the dividend.
infixl 70 ◌%ℤ◌
abbrev pub ◌%ℤ◌ : ℤ → ℤ → ℤ
pos a %ℤ pos b = pos (a % b)
pos a %ℤ negsuc b = pos (a % suc b)
negsuc a %ℤ pos b = neg_ℕ (suc a % b)
negsuc a %ℤ negsuc b = neg_ℕ (suc a % suc b)

abbrev pub rem_i128 : ℤ → ℤ → Division ℤ
rem_i128 a b = branch (eqb_ℤ b (pos 0)) trap (in_int half_128 (a %ℤ b))

abbrev pub add_safely : ℤ → ℤ → Division ℤ
add_safely a b = or_raise (checked (a +ℤ b)) calculation_overflow

abbrev pub mul_safely : ℤ → ℤ → Division ℤ
mul_safely a b = or_raise (checked (a *ℤ b)) calculation_overflow

-- The guards on the inputs of a division.
unfoldable pub check_inputs : ℤ → ℤ → Division ⊤
check_inputs numerator denominator = do
  raise_if (eqb_ℤ denominator (pos 0)) (unsafe_division DivisionSafetyError.division_by_zero)
  raise_if (ltb_ℤ numerator (pos 0) || ltb_ℤ denominator (pos 0))
      (unsafe_division (DivisionSafetyError.negative_inputs numerator denominator))

-- The count of a division and of its remainder.
unfoldable pub track_remainder : ℤ → Division ⊤
track_remainder remainder = do
  before ← gets (λ d. d.division_dust)
  dust ← add_safely before remainder
  modify λ d. record d { division_dust = dust }
  count ← gets (λ d. d.division_count)
  divisions ← add_u64 count 1
  modify λ d. record d { division_count = divisions }

unfoldable pub verify_fixed_point_properties : ℤ → ℤ → ℤ → ℤ → Division ⊤
verify_fixed_point_properties value scale result remainder = do
  raise_if (ltb_ℤ result (pos 0)) (unsafe_division (DivisionSafetyError.negative_result result))
  raise_if (leb_ℤ scale remainder)
      (unsafe_division (DivisionSafetyError.invalid_remainder remainder scale))
  reconstructed ← mul_safely result scale
  sum ← add_safely reconstructed remainder
  raise_if (not (eqb_ℤ sum value)) (
      unsafe_division
        (DivisionSafetyError.reconstruction_mismatch value result scale remainder reconstructed))

unfoldable pub verify_fixed_point_division_safety : ℤ → ℤ → Division ℤ
verify_fixed_point_division_safety value scale = do
  check_inputs value scale
  result ← div_i128 value scale
  remainder ← rem_i128 value scale
  verify_fixed_point_properties value scale result remainder
  track_remainder remainder
  pure result

unfoldable pub verify_ceiling_properties : ℤ → ℤ → ℤ → ℤ → ℤ → Division ⊤
verify_ceiling_properties numerator denominator floor_result ceiling_result remainder = do
  raise_if (ltb_ℤ ceiling_result floor_result)
      (unsafe_division (DivisionSafetyError.ceiling_less_than_floor ceiling_result floor_result))
  bound ← add_safely floor_result (pos 1)
  raise_if (ltb_ℤ bound ceiling_result)
      (unsafe_division (DivisionSafetyError.ceiling_exceeds_bound ceiling_result floor_result))
  raise_if (eqb_ℤ remainder (pos 0) && not (eqb_ℤ ceiling_result floor_result)) (
      unsafe_division
        (DivisionSafetyError.zero_remainder_ceiling_mismatch ceiling_result floor_result))
  product ← mul_safely ceiling_result denominator
  raise_if (ltb_ℤ product numerator) (
      unsafe_division (
        DivisionSafetyError.ceiling_multiplication_insufficient ceiling_result denominator
          numerator))

unfoldable pub verify_ceiling_division_safety : ℤ → ℤ → Division ℤ
verify_ceiling_division_safety numerator denominator = do
  check_inputs numerator denominator
  floor_result ← div_i128 numerator denominator
  remainder ← rem_i128 numerator denominator
  ceiling_result ←
      branch (ltb_ℤ (pos 0) remainder) (add_safely floor_result (pos 1)) (pure floor_result)
  verify_ceiling_properties numerator denominator floor_result ceiling_result remainder
  track_remainder remainder
  pure ceiling_result

unfoldable pub get_safety_report : Division DivisionSafetyReport
get_safety_report = do
  d ← gets (λ (d : DivisionSafety). d)
  average ←
      branch (ltb 0 d.division_count) (div_i128 d.cumulative_truncation_loss (pos d.division_count))
        (pure (pos 0))
  pure (record {
    cumulative_truncation_loss = d.cumulative_truncation_loss;
    division_dust = d.division_dust;
    division_count = d.division_count;
    max_truncation_loss = d.max_truncation_loss;
    average_truncation_loss = average;
    safety_verified = leb_ℤ (pos 0) d.cumulative_truncation_loss && leb_ℤ (pos 0) d.division_dust;
  })

unfoldable pub reset : Division ⊤
reset = modify λ _. no_divisions
