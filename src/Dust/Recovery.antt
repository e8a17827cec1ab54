-- ===== src/Dust/Recovery.antt =====
-- contracts/leaseflow_contracts/src/dust_accounting.rs: a settlement and the recovery of its dust.
use mathlib.Core.Path.{subst}
use lease_flow_protocol_cont.Base.{
  ℕ, ◌≡◌, refl, ap, ◌∙◌, true, false, none, some, List, [], ◌∷◌, ◌++◌, Map, lookup, ℤ, pos, ◌+ℤ◌,
  ◌-ℤ◌, ◌≤ℤ◌, fits, half_128, ltb_ℤ, ok, int_laws, arith, parts, After, After-pure, After-bind,
  After-gets, After-guard, After-checked, After-modify, After-modified, After-map, IfOk,
}
use lease_flow_protocol_cont.Dust.Types.{DustAccounting, PartialSettlementDustResult}
use lease_flow_protocol_cont.Dust.Calls.{
  sum_i128, record_dust, calculate_partial_settlement_dust, recover_dust, remove_first,
  after_recovery,
}
use lease_flow_protocol_cont.Dust.Sums.{sum_ℤ, After-safe}
use lease_flow_protocol_cont.Dust.Books.{
  IsBalanced, after_facts, After-Reads, refuse_negative-Reads,
  calculate_partial_settlement-Balances,
}
use lease_flow_protocol_cont.Dust.Verdict.{recover_dust_lem}

sum_i128-value :
    (sum : ℤ) (xs : List ℤ) (s : DustAccounting)
    → After (λ v d. (v ≡ sum +ℤ sum_ℤ xs) × (d ≡ s)) s (sum_i128 sum xs)
unfolding sum_i128
sum_i128-value sum [] s = After-pure sum (omega int_laws, refl)
sum_i128-value sum (x ∷ xs) s =
    After-checked _ _ _
      λ _. After-map (λ v d h. (omega (int_laws, parts h.0), h.1)) (sum_i128-value (sum +ℤ x) xs s)

-- What a settlement writes.
record Settled (available : ℤ) (settlements : List ℤ) (id : ℕ) (s : DustAccounting)
    (r : PartialSettlementDustResult) (d : DustAccounting) : Type 0 where
  left : r.dust_amount +ℤ sum_ℤ settlements ≡ available
  nonneg : pos 0 ≤ℤ r.dust_amount
  leases : d.lease_dust ≡ s.lease_dust ++ (id, r.dust_amount) ∷ []
  total : d.total_dust ≡ s.total_dust +ℤ r.dust_amount
  recovered : d.dust_recovered ≡ s.dust_recovered

settle-Settled :
    (available : ℤ) (settlements : List ℤ) (id : ℕ) (s : DustAccounting)
    → After
        (Settled available settlements id s)
        s
        (calculate_partial_settlement_dust available settlements id)
unfolding calculate_partial_settlement_dust record_dust
settle-Settled available settlements id s = After-guard _ _ _ λ _.
    After-Reads _ _ (refuse_negative-Reads settlements s) λ _.
      after_facts _ _ (sum_i128-value (pos 0) settlements s) λ settled value.
        After-guard _ _ _ λ covered. After-checked _ _ _ λ _. After-bind _ _ (
          After-bind _ _ (
            After-gets _ (
              After-safe (s.total_dust +ℤ (available -ℤ settled)) _ λ _. After-modified _ _ (
                After-bind _ _ (
                  After-gets _ (
                    After-checked _ _ _ λ _. After-modify _ (
                      After-pure _ (record {
                        left = omega (int_laws, parts value);
                        nonneg = omega (int_laws, covered_le settled available covered);
                        leases = refl;
                        total = refl;
                        recovered = refl;
                      }))))))))
  where
    covered_le : (a b : ℤ) → ltb_ℤ b a ≡ false → a ≤ℤ b
    covered_le a b e = ground arith

lookup-snoc :
    (id : ℕ) (z : ℤ) (m : Map ℤ) → lookup id m ≡ none → lookup id (m ++ (id, z) ∷ []) ≡ some z
lookup-snoc id z [] h = ground arith
lookup-snoc id z (e ∷ m) h = ground (arith, lookup-snoc id z m)

remove_first-snoc :
    (id : ℕ) (z : ℤ) (m : Map ℤ) → lookup id m ≡ none → remove_first id (m ++ (id, z) ∷ []) ≡ m
remove_first-snoc id z [] h = ground arith
remove_first-snoc id z (e ∷ m) h = ground (arith, remove_first-snoc id z m)

after_recovery-whole :
    (id : ℕ) (z : ℤ) (m : Map ℤ)
    → lookup id m ≡ none
    → after_recovery id (z -ℤ z) (m ++ (id, z) ∷ []) ≡ m
after_recovery-whole id z m h =
    let nothing : z -ℤ z ≡ pos 0 = omega int_laws in rw nothing (remove_first-snoc id z m h)

-- From balanced accounts in which the lease has no dust, let a settlement succeed and the count of the
-- recovered dust have room for what it leaves. What it leaves and the settled amounts are the
-- available amount; and its recovery succeeds, gives the entries and the total from before the
-- settlement back, and counts the recovered amount.
pub recover_dust-calculate_partial_settlement_dust :
    (s d : DustAccounting) (available : ℤ) (settlements : List ℤ) (id : ℕ)
    (r : PartialSettlementDustResult)
    → IsBalanced s
    → lookup id s.lease_dust ≡ none
    → calculate_partial_settlement_dust available settlements id s ≡ (ok r, d)
    → fits half_128 (s.dust_recovered +ℤ r.dust_amount) ≡ true
    → let e = (recover_dust id r.dust_amount d).1 in
      (r.dust_amount +ℤ sum_ℤ settlements ≡ available)
      × ((recover_dust id r.dust_amount d).0 ≡ ok tt)
      × (e.lease_dust ≡ s.lease_dust)
      × (e.total_dust ≡ s.total_dust)
      × (e.dust_recovered ≡ s.dust_recovered +ℤ r.dust_amount)
recover_dust-calculate_partial_settlement_dust s d available settlements id r h absent run fit =
    let k =
      subst (IfOk (Settled available settlements id s)) run
        (settle-Settled available settlements id s).holds in
    let b =
      subst (IfOk λ _ d. IsBalanced d) run
        (calculate_partial_settlement-Balances s h available settlements id).holds in
    let found : lookup id d.lease_dust ≡ some r.dust_amount =
      ap (lookup id) k.leases ∙ lookup-snoc id r.dust_amount s.lease_dust absent in
    let done =
      recover_dust_lem d id r.dust_amount r.dust_amount b found k.nonneg (omega arith)
        (rw k.recovered fit) in
    (
      k.left,
      ap (λ x. x.0) done,
      ap (λ x. x.1.lease_dust) done
          ∙ ap (after_recovery id (r.dust_amount -ℤ r.dust_amount)) k.leases
          ∙ after_recovery-whole id r.dust_amount s.lease_dust absent,
      ap (λ x. x.1.total_dust) done ∙ omega (int_laws, parts k.total),
      ap (λ x. x.1.dust_recovered) done ∙ ap (λ z. z +ℤ r.dust_amount) k.recovered,
    )
