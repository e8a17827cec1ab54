-- ===== src/Dust/Examples.antt =====
-- The theorems on contracts/leaseflow_contracts/src/dust_accounting.rs at concrete accounts.
use lease_flow_protocol_cont.Base.{◌≡◌, refl, true, [], ◌∷◌, pos, ok, err, ◌+ℤ◌, ◌-ℤ◌, ◌>>=◌, arith}
use lease_flow_protocol_cont.Dust.Types.{
  PartialSettlementDustResult, DustAccounting, DustAccountingError, accounting, no_dust,
}
use lease_flow_protocol_cont.Dust.Calls.{
  sum_i128, refuse_negative, record_dust, recover_dust, verify_dust_accounting,
  calculate_partial_settlement_dust, calculate_multi_signer_dust,
}
use lease_flow_protocol_cont.Dust.Sums.{sum_ℤ}
use lease_flow_protocol_cont.Dust.Books.{IsBalanced, Reach, Reach-IsBalanced, DustCall}
use lease_flow_protocol_cont.Dust.Verdict.{verify_dust_accounting_lem}
use lease_flow_protocol_cont.Dust.Recovery.{recover_dust-calculate_partial_settlement_dust}
use lease_flow_protocol_cont.Dust.Refund.{calculate_multi_signer_dust_lem}

-- A settlement of 90 out of 100 for the lease 7, and then the recovery of 6 of the 10 left.
abbrev settled_7 : DustAccounting
settled_7 = record no_dust {
  total_dust = pos 10;
  lease_dust = (7, pos 10) ∷ [];
  dust_operations = 1;
}

abbrev recovered_7 : DustAccounting
recovered_7 = record settled_7 {
  total_dust = pos 4;
  dust_recovered = pos 6;
  lease_dust = (7, pos 4) ∷ [];
}

Reach_settled : Reach settled_7
unfolding calculate_partial_settlement_dust refuse_negative sum_i128 record_dust ◌>>=◌ ◌+ℤ◌ ◌-ℤ◌
Reach_settled = Reach.next (DustCall.settles (pos 100) (pos 60 ∷ pos 30 ∷ []) 7) Reach.start refl

Reach_recovered : Reach recovered_7
unfolding recover_dust ◌>>=◌ ◌+ℤ◌ ◌-ℤ◌
Reach_recovered = Reach.next (DustCall.recovers 7 (pos 6)) Reach_settled refl

settled_7-IsBalanced : IsBalanced settled_7
settled_7-IsBalanced = Reach-IsBalanced Reach_settled

Reach-IsBalanced_example : IsBalanced recovered_7
Reach-IsBalanced_example = Reach-IsBalanced Reach_recovered

-- A settlement of 95 out of 100 for the lease 8.
abbrev left_8 : PartialSettlementDustResult
left_8 = record {
  settlement_amounts = pos 60 ∷ pos 35 ∷ [];
  dust_amount = pos 5;
  remaining_amount = pos 5;
  lease_id = 8;
}

abbrev settled_8 : DustAccounting
settled_8 = record settled_7 {
  total_dust = pos 15;
  lease_dust = (7, pos 10) ∷ (8, pos 5) ∷ [];
  dust_operations = 2;
}

settled_8_run :
    calculate_partial_settlement_dust (pos 100) (pos 60 ∷ pos 35 ∷ []) 8 settled_7
    ≡ (ok left_8, settled_8)
unfolding calculate_partial_settlement_dust refuse_negative sum_i128 record_dust ◌>>=◌ ◌+ℤ◌ ◌-ℤ◌
settled_8_run = refl

recover_dust-calculate_partial_settlement_dust_example :
    let e = (recover_dust 8 (pos 5) settled_8).1 in
    (pos 5 +ℤ sum_ℤ (pos 60 ∷ pos 35 ∷ []) ≡ pos 100)
    × ((recover_dust 8 (pos 5) settled_8).0 ≡ ok tt)
    × (e.lease_dust ≡ (7, pos 10) ∷ [])
    × (e.total_dust ≡ pos 10)
    × (e.dust_recovered ≡ pos 5)
unfolding ◌+ℤ◌
recover_dust-calculate_partial_settlement_dust_example =
    recover_dust-calculate_partial_settlement_dust settled_7 settled_8 (pos 100)
      (pos 60 ∷ pos 35 ∷ []) 8 left_8 settled_7-IsBalanced refl settled_8_run refl

-- Balanced accounts do not pass the verification once more was recovered than is left.
verify_dust_accounting_lem_example :
    verify_dust_accounting recovered_7
    ≡ (err (accounting (DustAccountingError.recovery_exceeds_total (pos 6) (pos 4))), recovered_7)
verify_dust_accounting_lem_example =
    verify_dust_accounting_lem recovered_7 (Reach-IsBalanced Reach_recovered) refl

-- 100 units among three signers with a third of the basis points each.
calculate_multi_signer_dust_lem_example :
    ((calculate_multi_signer_dust (pos 100) ((1, 3333) ∷ (2, 3333) ∷ (3, 3334) ∷ []) 7 no_dust).0
      ≡ ok (record {
        individual_shares = (1, pos 33) ∷ (2, pos 33) ∷ (3, pos 34) ∷ [];
        dust_amount = pos 0;
        lease_id = 7;
        verification_passed = true;
      }))
    × (sum_ℤ (pos 33 ∷ pos 33 ∷ pos 34 ∷ []) ≡ pos 100)
calculate_multi_signer_dust_lem_example =
    calculate_multi_signer_dust_lem no_dust 100 (1, 3333) ((2, 3333) ∷ (3, 3334) ∷ []) 7
      (omega arith) (omega arith) refl (omega arith)
