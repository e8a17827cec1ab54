-- ===== src/Dust/Verdict.antt =====
-- contracts/leaseflow_contracts/src/dust_accounting.rs: the verification of the accounts, the
-- recovery of dust, and the shares of the signers.
use mathlib.Core.Path.{subst}
use lease_flow_protocol_cont.Base.{
  checked-fits, ℕ, ◌≡◌, refl, ◌∙◌, true, false, not, inl, inr, Bool-cases, some, ℤ, pos, ◌+ℤ◌, ◌-ℤ◌,
  ◌≤ℤ◌, fits, half_128, ltb_ℤ, eqb_ℤ, if◌then◌else◌, lookup, Res, ok, err, ⊤, int_laws, arith,
  parts, run-bind, run-guard, run-refused, run-gets, run-found, run-check, modify,
}
use lease_flow_protocol_cont.Dust.Types.{
  DustAccounting, DustAccountingError, DustFailure, accounting,
}
use lease_flow_protocol_cont.Dust.Calls.{
  amounts, after_recovery, recover_dust, verify_dust_accounting,
}
use lease_flow_protocol_cont.Dust.Sums.{sum_ℤ, sum_nonneg, sum_of, checked_le, lookup_le}
use lease_flow_protocol_cont.Dust.Books.{IsBalanced}

-- What the verification of balanced accounts says.
abbrev pub verdict : DustAccounting → Res DustFailure ⊤
verdict d =
    if ltb_ℤ d.total_dust d.dust_recovered
    then err (accounting (DustAccountingError.recovery_exceeds_total d.dust_recovered d.total_dust))
    else if ltb_ℤ d.total_dust (sum_ℤ (amounts d.signer_dust))
    then err (
        accounting (
          DustAccountingError.signer_dust_exceeds_total (sum_ℤ (amounts d.signer_dust))
            d.total_dust))
    else ok tt

-- For accounts that are balanced and whose signers' dust adds up to an i128, the verification
-- succeeds exactly if no more dust was recovered than is left and the signers have no more than the
-- leases; it names the first of the two that fails, and it leaves the accounts alone.
pub verify_dust_accounting_lem :
    (d : DustAccounting)
    → IsBalanced d
    → fits half_128 (sum_ℤ (amounts d.signer_dust)) ≡ true
    → verify_dust_accounting d ≡ (verdict d, d)
unfolding verify_dust_accounting
verify_dust_accounting_lem d h k =
    run-gets _ _ d
    ∙ run-guard _ _ _ d nonneg
    ∙ elim (Bool-cases (ltb_ℤ d.total_dust d.dust_recovered)) [
      | inl exceeds ↦ run-refused _ _ _ d exceeds ∙ rw exceeds refl
      | inr within ↦
          run-guard _ _ _ d within
          ∙ run-bind _ _ (
              sum_of d.lease_dust d h.leases
                (subst (λ z. fits half_128 z ≡ true) h.total h.bounded))
          ∙ run-guard _ _ _ d (agrees _ _ h.total)
          ∙ run-bind _ _ (sum_of d.signer_dust d h.signers k)
          ∙ run-check _ _ d
          ∙ rw within refl
    ]
  where
    below : (a : ℤ) → pos 0 ≤ℤ a → ltb_ℤ a (pos 0) ≡ false
    below a l = ground arith

    nonneg : ltb_ℤ d.total_dust (pos 0) ≡ false
    nonneg = below d.total_dust (omega (int_laws, parts h.total, sum_nonneg d.lease_dust h.leases))

    agrees : (a b : ℤ) → a ≡ b → not (eqb_ℤ b a) ≡ false
    agrees a b e = ground arith

-- The recovery of dust that a lease has, into a count that stays an i128: the total and the entry of
-- the lease, which goes when nothing is left, lose the amount, and the count of what was recovered
-- gains it.
pub recover_dust_lem :
    (d : DustAccounting) (id : ℕ) (amount dust : ℤ)
    → IsBalanced d
    → lookup id d.lease_dust ≡ some dust
    → pos 0 ≤ℤ amount
    → amount ≤ℤ dust
    → fits half_128 (d.dust_recovered +ℤ amount) ≡ true
    → recover_dust id amount d ≡ (
      ok tt,
      record d {
        total_dust = d.total_dust -ℤ amount;
        dust_recovered = d.dust_recovered +ℤ amount;
        lease_dust = after_recovery id (dust -ℤ amount) d.lease_dust;
      },
    )
unfolding recover_dust modify
recover_dust_lem d id amount dust h found nonneg covered fit =
    run-guard _ _ _ d (not_below amount (pos 0) nonneg)
    ∙ run-gets _ _ d
    ∙ run-found _ _ _ d found
    ∙ run-guard _ _ _ d (not_below dust amount covered)
    ∙ run-gets _ _ d
    ∙ run-found _ _ _ d (
        checked-fits (d.total_dust -ℤ amount)
          (kept (d.total_dust -ℤ amount) (omega (int_laws, below)) (omega (int_laws, nonneg))))
    ∙ run-bind _ _ refl
    ∙ run-gets _ _ _
    ∙ run-found _ _ _ _ (checked-fits (d.dust_recovered +ℤ amount) fit)
    ∙ run-bind _ _ refl
    ∙ run-found _ _ _ _ (
        checked-fits (dust -ℤ amount)
          (kept (dust -ℤ amount) (omega (int_laws, covered)) (omega (int_laws, nonneg, below))))
  where
    not_below : (a b : ℤ) → b ≤ℤ a → ltb_ℤ a b ≡ false
    not_below a b l = ground arith

    below : (amount ≤ℤ d.total_dust) × (dust ≤ℤ d.total_dust)
    below =
        let in_sum = lookup_le id dust d.lease_dust h.leases found in
        (omega (int_laws, parts h.total, in_sum, covered), omega (int_laws, parts h.total, in_sum))

    kept : (z : ℤ) → pos 0 ≤ℤ z → z ≤ℤ d.total_dust → fits half_128 z ≡ true
    kept z l u = checked_le z d.total_dust l u h.bounded
