-- ===== src/Lease/Activation.antt =====
-- Creating and activating a lease keep the invariant of the stored data.
use lease_flow_protocol_cont.Base.{
  parts, ℕ, ◌+◌, ◌≤◌, ◌≡◌, refl, false, none, some, arith, lookup, insert, All, All-lookup, All-map,
  All-insert, insert-IsSorted, sum-insert_new, ℤ, pos_part, ◌+ℤ◌, int_laws, Map, neg_part_zero,
  After, After-guard, After-found, After-bind, After-checked, After-pure, After-modified,
  After-modify, After-any, Option-cases, inl, inr,
}
use lease_flow_protocol_cont.Lease.Types.{
  Address, Lease, active, pending, ContractData, Host, Chain, After-load,
}
use lease_flow_protocol_cont.Lease.Create.{activate_lease, create_lease, CreateArgs, new_lease}
use lease_flow_protocol_cont.Lease.Invariant.{
  IsGood, IsSound, Holds, update-IsSound, deposited, unspent,
}
use lease_flow_protocol_cont.Lease.Preserve.{KeepsSound, IsSound-of, IsGood-of}

-- The data after the activation of the pending lease `l`.
abbrev activated : ContractData → ℕ → Lease → ℕ → ContractData
activated d id l now =
    let v = d.escrow_vault in
    record d {
      leases = insert id (record l { state = active; last_rent_payment_timestamp = now }) d.leases;
      escrow_vault = record v {
        total_locked = v.total_locked +ℤ l.deposit_amount;
        available_balance = v.available_balance +ℤ l.deposit_amount;
      };
    }

activated-IsSound :
    (d : ContractData) (id : ℕ) (l : Lease) (now : ℕ)
    → IsSound d
    → lookup id d.leases ≡ some l
    → l.state ≡ pending
    → IsSound (activated d id l now)
activated-IsSound d id l now s found st =
    let g = IsGood-of s found in
    let l' = record l { state = active; last_rent_payment_timestamp = now } in
    let fresh : l.arrears_processed ≡ false = ground arith in
    let before : deposited l ≡ 0 = ground arith in
    let free : unspent l ≡ 0 = ground arith in
    let nonneg = neg_part_zero l.deposit_amount (omega (arith, g.deposit_pos)) in
    let after : unspent l' ≡ pos_part l.deposit_amount = ground arith in
    update-IsSound d (activated d id l now) id l l' s found refl refl (ground arith) s.treasury
      (omega (int_laws, parts s.split)) (omega (int_laws, before, nonneg))
      (omega (int_laws, free, after, nonneg))

module _ (host : Host) where
  pub activate-KeepsSound :
      (id : ℕ) (lessee : Address) (c : Chain)
      → Holds IsSound c.stored
      → After KeepsSound c (activate_lease host id lessee)
  unfolding activate_lease
  activate-KeepsSound id lessee c h = After-load _ λ d e. After-found _ _ _ λ l found.
      After-guard _ _ _ λ _. After-guard _ _ _ λ pend.
        let s = activated-IsSound d id l host.timestamp (IsSound-of c h e) found (ground arith) in
        After-checked _ _ _ λ _.
          After-checked _ _ _
            λ _. After-bind _ _ (After-any _ λ _ c'. After-modified _ _ (After-modify _ s))

IsGood-later : (n m id : ℕ) (l : Lease) → n ≤ m → IsGood n id l → IsGood m id l
IsGood-later n m id l h g = ground arith

pub lookup_fresh : (n : ℕ) (m : Map Lease) → All (IsGood n) m → lookup n m ≡ none
lookup_fresh n m h = elim (Option-cases (lookup n m)) [
  | inl e ↦ e
  | inr (l, e) ↦ let g = All-lookup (IsGood n) n m h e in absurd (omega (arith, g.id_lt))
]

created-IsSound :
    (d : ContractData) (args : CreateArgs) (rent : ℤ)
    → IsSound d
    → IsGood (d.next_lease_id + 1) d.next_lease_id (new_lease d.next_lease_id args rent)
    → IsSound (record d {
      leases = insert d.next_lease_id (new_lease d.next_lease_id args rent) d.leases;
      next_lease_id = d.next_lease_id + 1;
    })
created-IsSound d args rent s g =
    let n = d.next_lease_id in
    let l = new_lease n args rent in
    let fresh = lookup_fresh n d.leases s.good in
    let later =
      All-map (IsGood n) (IsGood (n + 1)) d.leases (λ k v. IsGood-later n (n + 1) k v (omega arith))
        s.good in
    record {
      sorted = insert-IsSorted n l d.leases s.sorted;
      good = All-insert (IsGood (n + 1)) n l d.leases later g;
      treasury = s.treasury;
      split = s.split;
      locked = rw (sum-insert_new deposited n l d.leases fresh) (omega (int_laws, parts s.locked));
      covered = rw (sum-insert_new unspent n l d.leases fresh) (omega (int_laws, s.covered));
    }

module _ (host : Host) where
  pub create-KeepsSound :
      (args : CreateArgs) (c : Chain)
      → Holds IsSound c.stored
      → After KeepsSound c (create_lease host args)
  unfolding create_lease
  create-KeepsSound args c h = After-guard _ _ _ λ amounts. After-guard _ _ _ λ term.
      After-guard _ _ _ λ _. After-load _ λ d e. After-bind _ _ (
        After-any _ λ rent c'. After-checked _ _ _ λ _. After-modified _ _ (
          After-modified _ _
            (After-pure _ (created-IsSound d args rent (IsSound-of c h e) (ground arith)))))
