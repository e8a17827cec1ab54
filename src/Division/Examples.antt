-- ===== src/Division/Examples.antt =====
-- The theorems on contracts/leaseflow_contracts/src/division_safety.rs at concrete divisions.
use lease_flow_protocol_cont.Base.{◌+◌, ◌*◌, ◌≡◌, ◌≤◌, ◌<◌, refl, arith, pos, ok, ◌+ℤ◌}
use lease_flow_protocol_cont.Division.Types.{DivisionSafety, no_divisions}
use lease_flow_protocol_cont.Division.Calls.{
  verify_fixed_point_division_safety, verify_ceiling_division_safety,
}
use lease_flow_protocol_cont.Division.Exact.{
  verify_fixed_point_division_safety_lem, verify_ceiling_division_safety_lem,
}

abbrev one_division : DivisionSafety
one_division = record no_divisions { division_dust = pos 1; division_count = 1 }

verify_fixed_point_division_safety_lem_example :
    verify_fixed_point_division_safety (pos 10) (pos 3) no_divisions ≡ (ok (pos 3), one_division)
unfolding ◌+ℤ◌
verify_fixed_point_division_safety_lem_example =
    verify_fixed_point_division_safety_lem 10 3 no_divisions (omega arith) (omega arith)
      (refl, omega arith)

verify_ceiling_division_safety_lem_example :
    (verify_ceiling_division_safety (pos 10) (pos 3) no_divisions ≡ (ok (pos 4), one_division))
    × (10 ≤ 4 * 3)
    × (4 * 3 < 10 + 3)
unfolding ◌+ℤ◌
verify_ceiling_division_safety_lem_example =
    verify_ceiling_division_safety_lem 10 3 no_divisions (omega arith) (omega arith)
      (refl, omega arith)
