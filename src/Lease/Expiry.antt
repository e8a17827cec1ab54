-- ===== src/Lease/Expiry.antt =====
-- The expiry of a grace period succeeds, and takes the arrears from the deposit.
use lease_flow_protocol_cont.Base.{
  ℕ, ◌+◌, ◌≤◌, ◌<◌, ◌≡◌, ◌⊎◌, inl, inr, ap, ◌∙◌, negsuc, ◌∷◌, refl, arith, true, false, some,
  lookup, insert, lookup-insert_self, insert-insert, sum-lookup_le, ℤ, pos, pos_part, fits, half_64,
  u64_max, ◌+ℤ◌, ◌-ℤ◌, ◌≤ℤ◌, ltb_ℤ, leb_ℤ, int_laws, parts, ok, ◌>>=◌,
}
use native.Mathlib.Decide.{ℕ_discrete}
use lease_flow_protocol_cont.Lease.Types.{
  Event, grace_period, eviction_pending, Lease, ContractData, Host, Chain,
}
use lease_flow_protocol_cont.Lease.Arrears.{
  calculate_deduction_amount, saturating_sub_i64, execute_arrears_deduction, evict,
  check_grace_period_expiry,
}
use lease_flow_protocol_cont.Lease.Invariant.{IsSound, unspent}
use lease_flow_protocol_cont.Lease.Preserve.{IsGood-of}

-- The data after the arrears of the evicted lease `l` were paid from its deposit.
abbrev pub settled : ContractData → ℕ → Lease → ℤ → ContractData
settled d id l arrears = record d {
  leases = insert id (record l { state = eviction_pending; arrears_processed = true }) d.leases;
  escrow_vault = record d.escrow_vault {
    available_balance = d.escrow_vault.available_balance -ℤ arrears;
    lessor_treasury = d.escrow_vault.lessor_treasury +ℤ arrears;
  };
}

-- The tests that the deduction makes.
record CanDeduct (d : ContractData) (l : Lease) (arrears : ℤ) : Type 0 where
  total : l.outstanding_balance +ℤ l.accumulated_late_fees ≡ arrears
  total_fits : fits half_64 arrears ≡ true
  some_arrears : leb_ℤ arrears (pos 0) ≡ false
  some_deposit : leb_ℤ l.deposit_amount (pos 0) ≡ false
  deducted : (l.deposit_amount ≡ arrears) ⊎ (leb_ℤ l.deposit_amount arrears ≡ false)
  enough : ltb_ℤ d.escrow_vault.available_balance arrears ≡ false
  balance_fits : fits half_64 (d.escrow_vault.available_balance -ℤ arrears) ≡ true
  treasury_fits : fits half_64 (d.escrow_vault.lessor_treasury +ℤ arrears) ≡ true
  nothing_left : saturating_sub_i64 arrears arrears ≡ pos 0

deduct_lem :
    (host : Host) (c : Chain) (d : ContractData) (id : ℕ) (l : Lease) (start : ℕ) (arrears : ℤ)
    → c.stored ≡ some d
    → lookup id d.leases ≡ some l
    → l.state ≡ eviction_pending
    → l.arrears_processed ≡ false
    → l.dunning_start_timestamp ≡ some start
    → CanDeduct d l arrears
    → let r = execute_arrears_deduction host id c in
      (r.0 ≡ ok tt) × (r.1.stored ≡ some (settled d id l arrears))
unfolding execute_arrears_deduction calculate_deduction_amount ◌>>=◌
deduct_lem host c d id l start arrears e found st fresh dun can = (ground arith, ground arith)

deducted_cases :
    (deposit : ℤ) (arrears : ℕ)
    → pos arrears ≤ℤ deposit
    → (deposit ≡ pos arrears) ⊎ (leb_ℤ deposit (pos arrears) ≡ false)
deducted_cases (pos n) arrears h = elim (ℕ_discrete n arrears) [
  | yes same ↦ inl (ap pos same)
  | no other ↦ inr (ground arith)
]
deducted_cases (negsuc n) arrears h = absurd (omega arith)

-- Sound data pass the tests, within the bounds of i64.
can_deduct :
    (d : ContractData) (id : ℕ) (l : Lease) (arrears : ℕ)
    → IsSound d
    → lookup id d.leases ≡ some l
    → l.state ≡ grace_period
    → l.rent_amount +ℤ l.accumulated_late_fees ≡ pos arrears
    → pos arrears ≤ℤ l.deposit_amount
    → arrears < half_64
    → pos_part d.escrow_vault.available_balance < half_64
    → pos_part d.escrow_vault.lessor_treasury + arrears < half_64
    → CanDeduct
        (record d { leases = insert id (record l { state = eviction_pending }) d.leases })
        (record l { state = eviction_pending })
        (pos arrears)
unfolding ◌+ℤ◌ ◌-ℤ◌
can_deduct d id l arrears s found grace total covered small balance treasury =
    let g = IsGood-of s found in
    let owed = g.owed grace in
    let rent_pos = g.rent_pos in
    let fees = g.fees in
    let fresh = g.processed in
    let share = sum-lookup_le unspent id l d.leases found in
    let cover = s.covered in
    let treasury_low = s.treasury in
    let positive : 0 < arrears = omega (int_laws, parts total, rent_pos, fees) in
    let deposit = g.deposit_pos in
    let held : unspent l ≡ pos_part l.deposit_amount = ground arith in
    record {
      total = rw owed total;
      total_fits = ground arith;
      some_arrears = ground arith;
      some_deposit = ground arith;
      deducted = deducted_cases l.deposit_amount arrears covered;
      enough = ground arith;
      balance_fits = ground arith;
      treasury_fits = ground arith;
      nothing_left = ground arith;
    }

evict_lem :
    (host : Host) (c : Chain) (d : ContractData) (id : ℕ) (l : Lease) (start : ℕ) (arrears : ℤ)
    → lookup id d.leases ≡ some l
    → l.arrears_processed ≡ false
    → l.dunning_start_timestamp ≡ some start
    → CanDeduct
        (record d { leases = insert id (record l { state = eviction_pending }) d.leases })
        (record l { state = eviction_pending })
        arrears
    → let r = evict host d id l c in (r.0 ≡ ok tt) × (r.1.stored ≡ some (settled d id l arrears))
unfolding evict ◌>>=◌
evict_lem host c d id l start arrears found fresh dun can =
    let evicted = record l { state = eviction_pending } in
    let d1 = record d { leases = insert id evicted d.leases } in
    let total = l.outstanding_balance +ℤ l.accumulated_late_fees in
    let c1 = record c {
      stored = some d1;
      events = Event.lease_eviction_pending id host.timestamp total ∷ c.events;
    } in
    let paid =
      deduct_lem host c1 d1 id evicted start arrears refl (lookup-insert_self id evicted d.leases)
        refl fresh dun can in
    let once =
      ap (λ m. some (record (settled d id l arrears) { leases = m }))
        (insert-insert id evicted (record evicted { arrears_processed = true }) d.leases) in
    let fits_total : fits half_64 total ≡ true = rw can.total can.total_fits in
    let then_deducts : evict host d id l c ≡ execute_arrears_deduction host id c1 = ground arith in
    rw then_deducts (paid.0, paid.1 ∙ once)

-- On sound data a lease whose grace period is over at a u64 time, and whose rent and late fee its
-- deposit covers, is evicted by the check, which succeeds, takes the rent and the fee from the
-- vault's available balance, adds them to the treasury and marks them as processed. The rent with
-- the fee, the available balance and the treasury after the call are to be below 2^63.
pub check_grace_period_expiry_lem :
    (host : Host) (c : Chain) (d : ContractData) (id : ℕ) (l : Lease) (start arrears : ℕ)
    → c.stored ≡ some d
    → IsSound d
    → lookup id d.leases ≡ some l
    → l.state ≡ grace_period
    → l.dunning_start_timestamp ≡ some start
    → start + l.max_grace_period < host.timestamp
    → host.timestamp ≤ u64_max
    → l.rent_amount +ℤ l.accumulated_late_fees ≡ pos arrears
    → pos arrears ≤ℤ l.deposit_amount
    → arrears < half_64
    → pos_part d.escrow_vault.available_balance < half_64
    → pos_part d.escrow_vault.lessor_treasury + arrears < half_64
    → let r = check_grace_period_expiry host id c in
      (r.0 ≡ ok tt) × (r.1.stored ≡ some (settled d id l (pos arrears)))
unfolding check_grace_period_expiry ◌>>=◌
check_grace_period_expiry_lem host c d id l start arrears e s found grace dun late last total
      covered small balance treasury =
    let g = IsGood-of s found in
    let fresh : l.arrears_processed ≡ false = ground (arith, g.processed) in
    let can = can_deduct d id l arrears s found grace total covered small balance treasury in
    let then_evicts : check_grace_period_expiry host id c ≡ evict host d id l c = ground arith in
    rw then_evicts (evict_lem host c d id l start (pos arrears) found fresh dun can)
