-- ===== src/Lease/Deduction.antt =====
-- The deduction of arrears and the expiry of the grace period keep the invariant of the stored
-- data. On sound data the deduction is refused unless the expiry has just set it off.
use lease_flow_protocol_cont.Base.{
  parts, ℕ, ◌≡◌, refl, true, false, some, arith, lookup, insert, lookup-insert_self, insert-insert,
  ap, ◌∙◌, ℤ, pos, pos_part, ◌+ℤ◌, ◌-ℤ◌, ◌≤ℤ◌, ◌<ℤ◌, int_laws, neg_part_zero, After, After-guard,
  After-found, After-bind, After-checked, After-pure, After-branch, After-modified, After-modify,
  After-map,
}
use lease_flow_protocol_cont.Lease.Types.{
  Address, Lease, grace_period, eviction_pending, ContractData, EscrowVault, Host, Chain,
  After-load,
}
use lease_flow_protocol_cont.Lease.Create.{is_state}
use lease_flow_protocol_cont.Lease.Arrears.{
  calculate_deduction_amount, update_credit_record, execute_arrears_deduction, evict,
  check_grace_period_expiry, trigger_grace_period_check,
}
use lease_flow_protocol_cont.Lease.Invariant.{IsSound, Holds, is_state-eq, update-IsSound, unspent}
use lease_flow_protocol_cont.Lease.Preserve.{KeepsSound, IsSound-of, IsGood-of}

calculate_deduction_amount-After :
    (arrears deposit : ℤ) (c : Chain)
    → After
        (λ a c'. (pos 0 <ℤ a) × (a ≤ℤ deposit) × (c' ≡ c))
        c
        (calculate_deduction_amount arrears deposit)
unfolding calculate_deduction_amount
calculate_deduction_amount-After arrears deposit c = After-guard _ _ _ λ positive.
    After-branch _ _ _ (λ big. After-pure _ (ground arith, ground arith, refl))
      (λ small. After-pure _ (ground arith, ground arith, refl))

-- Only the credit records change.
abbrev SameBut : ContractData → ContractData → Type 0
SameBut d d' =
    (d'.leases ≡ d.leases)
    × (d'.next_lease_id ≡ d.next_lease_id)
    × (d'.escrow_vault ≡ d.escrow_vault)

pub update_credit_record-After :
    (host : Host) (d : ContractData) (lessee : Address) (debt : ℤ) (id : ℕ) (c : Chain)
    → After (λ d' c'. SameBut d d') c (update_credit_record host d lessee debt id)
unfolding update_credit_record
update_credit_record-After host d lessee debt id c =
    After-checked _ _ _ λ _. After-checked _ _ _ λ _. After-pure _ (refl, refl, refl)

-- What a deduction of `a` leaves in the vault.
abbrev slashed : EscrowVault → ℤ → EscrowVault
slashed v a = record v {
  available_balance = v.available_balance -ℤ a;
  lessor_treasury = v.lessor_treasury +ℤ a;
}

-- The data after the lease `l`, in its grace period, was evicted and its arrears deducted.
slashed-IsSound :
    (d d' : ContractData) (id : ℕ) (l : Lease) (a : ℤ)
    → IsSound d
    → lookup id d.leases ≡ some l
    → l.state ≡ grace_period
    → pos 0 <ℤ a
    → a ≤ℤ l.deposit_amount
    → d'.leases
      ≡ insert id (record l { state = eviction_pending; arrears_processed = true }) d.leases
    → d'.next_lease_id ≡ d.next_lease_id
    → d'.escrow_vault ≡ slashed d.escrow_vault a
    → IsSound d'
slashed-IsSound d d' id l a s found st low high e next v =
    let g = IsGood-of s found in
    let l' = record l { state = eviction_pending; arrears_processed = true } in
    let na = neg_part_zero a (omega arith) in
    let nd = neg_part_zero l.deposit_amount (omega (arith, g.deposit_pos)) in
    let old : l.arrears_processed ≡ false = ground arith in
    let before : unspent l ≡ pos_part l.deposit_amount = ground arith in
    update-IsSound d d' id l l' s found e next (ground arith)
      (rw v (omega (int_laws, s.treasury, na))) (rw v (omega (int_laws, parts s.split)))
      (rw v (ground arith)) (rw v (omega (int_laws, before, na, nd)))

-- The same, from the data and the lease that the deduction loads after the eviction.
deducted-IsSound :
    (d d2 d3 : ContractData) (id : ℕ) (l l2 : Lease) (a : ℤ)
    → IsSound d
    → lookup id d.leases ≡ some l
    → l.state ≡ grace_period
    → pos 0 <ℤ a
    → a ≤ℤ l2.deposit_amount
    → d2 ≡ record d { leases = insert id (record l { state = eviction_pending }) d.leases }
    → l2 ≡ record l { state = eviction_pending }
    → SameBut (record d2 { escrow_vault = slashed d2.escrow_vault a }) d3
    → IsSound (record d3 { leases = insert id (record l2 { arrears_processed = true }) d3.leases })
deducted-IsSound d d2 d3 id l l2 a s found st low high same lease kept =
    slashed-IsSound d
      (record d3 { leases = insert id (record l2 { arrears_processed = true }) d3.leases }) id l a s
      found st low (rw lease at high)
      (rw (lease, kept.0, same)
        (insert-insert id (record l { state = eviction_pending })
          (record l { state = eviction_pending; arrears_processed = true }) d.leases))
      (kept.1 ∙ ap (λ (x : ContractData). x.next_lease_id) same)
      (kept.2 ∙ ap (λ (x : ContractData). slashed x.escrow_vault a) same)

module _ (host : Host) (id : ℕ) where
  -- The deduction that an eviction sets off.
  deduct_evicted :
      (d d1 : ContractData) (l : Lease) (c : Chain)
      → IsSound d
      → lookup id d.leases ≡ some l
      → l.state ≡ grace_period
      → d1 ≡ record d { leases = insert id (record l { state = eviction_pending }) d.leases }
      → c.stored ≡ some d1
      → After KeepsSound c (execute_arrears_deduction host id)
  unfolding execute_arrears_deduction
  deduct_evicted d d1 l c s found st e1 e =
      let evicted = record l { state = eviction_pending } in
      After-load _ λ d2 e2. After-found _ _ _ λ l2 found2.
        let same : d2 ≡ record d { leases = insert id evicted d.leases } = cc in
        let there = rw same at found2 in
        let lease : l2 ≡ evicted = cc (there, lookup-insert_self id evicted d.leases) in
        After-guard _ _ _ λ _. After-guard _ _ _ λ _. After-found _ _ _ λ start _.
          After-checked _ _ _ λ _. After-bind _ _ (
            After-map
              (λ a c' (low, high, _). After-guard _ _ _ λ _. After-checked _ _ _ λ _.
                After-checked _ _ _ λ _. After-bind _ _ (
                  After-branch _ _ _
                    (λ _.
                      After-map
                        (λ d3 c'' kept. After-modified _ _ (
                          After-modify _ (
                            deducted-IsSound d d2 d3 id l l2 a s found st low high same lease
                              kept)))
                        (update_credit_record-After host _ _ _ id c'))
                    (λ _. After-pure _ (
                      After-modified _ _ (
                        After-modify _ (
                          deducted-IsSound d d2 _ id l l2 a s found st low high same lease
                            (refl, refl, refl)))))))
              (calculate_deduction_amount-After _ l2.deposit_amount c))

  evict-KeepsSound :
      (d : ContractData) (l : Lease) (c : Chain)
      → IsSound d
      → lookup id d.leases ≡ some l
      → l.state ≡ grace_period
      → After KeepsSound c (evict host d id l)
  unfolding evict
  evict-KeepsSound d l c s found st =
      After-checked _ _ _
        λ _. After-modified _ _ (After-modified _ _ (deduct_evicted d _ l _ s found st refl refl))

  pub expire-KeepsSound :
      (c : Chain) → Holds IsSound c.stored → After KeepsSound c (check_grace_period_expiry host id)
  unfolding check_grace_period_expiry
  expire-KeepsSound c h = After-load _ λ d e. After-found _ _ _ λ l found.
      After-branch _ _ _
        (λ (grace : is_state l.state grace_period ≡ true). After-found _ _ _ λ start _.
          After-checked _ _ _ λ _.
            After-branch _ _ _
              (λ late.
                evict-KeepsSound d l c (IsSound-of c h e) found
                  (is_state-eq l.state grace_period grace))
              (λ _. After-pure _ h))
        (λ _. After-pure _ h)

  pub trigger-KeepsSound :
      (caller : Address) (c : Chain)
      → Holds IsSound c.stored
      → After KeepsSound c (trigger_grace_period_check host id caller)
  unfolding trigger_grace_period_check
  trigger-KeepsSound caller c h =
      After-load _ λ d e. After-found _ _ _ λ l found. After-guard _ _ _ λ _. expire-KeepsSound c h

  -- On sound data a deduction that is called by itself never succeeds.
  pub deduct-refused :
      (c : Chain) → Holds IsSound c.stored → After (λ a c'. ⊥) c (execute_arrears_deduction host id)
  unfolding execute_arrears_deduction
  deduct-refused c h = After-load _ λ d e. After-found _ _ _ λ l found. After-guard _ _ _ λ evicted.
      After-guard _ _ _ λ fresh.
        let g = IsGood-of (IsSound-of c h e) found in let p = g.processed in absurd (ground arith)
