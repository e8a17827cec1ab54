-- ===== src/Lease/Preserve.antt =====
-- The entry points of the lease contract that replace one lease keep the invariant of the stored
-- data; the deduction of arrears is in the sibling module Deduction.
use lease_flow_protocol_cont.Base.{
  ℕ, ◌≡◌, refl, some, arith, lookup, insert, All-lookup, ℤ, pos, ◌≤ℤ◌, After, After-guard,
  After-found, After-bind, After-checked, After-pure, After-raise, After-modified, After-modify,
  After-any, After-map, +ℤ_pos,
}
use lease_flow_protocol_cont.Lease.Types.{
  LeaseState, Address, Lease, ContractData, Host, Chain, After-load, store,
}
use lease_flow_protocol_cont.Lease.Create.{terminate_lease, initialize}
use lease_flow_protocol_cont.Lease.Payment.{
  process_rent_payment, apply_payment, handle_rent_payment_failure, calculate_late_fee,
}
use lease_flow_protocol_cont.Lease.Oracle.{process_fiat_pegged_rent_payment}
use lease_flow_protocol_cont.Lease.Invariant.{
  IsGood, IsSound, Holds, replace-IsSound, deposited, unspent,
}

-- The lease may take the place of `l` in the data `d`.
pub record Replaces (d : ContractData) (id : ℕ) (l l' : Lease) : Type 0 where
  pub good : IsGood d.next_lease_id id l'
  pub same_deposit : deposited l' ≡ deposited l
  pub same_unspent : unspent l' ≡ unspent l

abbrev pub KeepsSound : {A : Type 0} → A → Chain → Type 0
KeepsSound a c = Holds IsSound c.stored

pub IsSound-of :
    (c : Chain) {d : ContractData} → Holds IsSound c.stored → c.stored ≡ some d → IsSound d
IsSound-of c h e = rw e at h

pub IsGood-of :
    {d : ContractData} {id : ℕ} {l : Lease}
    → IsSound d
    → lookup id d.leases ≡ some l
    → IsGood d.next_lease_id id l
IsGood-of {d} {id} s found = All-lookup (IsGood d.next_lease_id) id d.leases s.good found

pub store_replaced :
    {d : ContractData} {id : ℕ} {l l' : Lease} {c : Chain}
    → IsSound d
    → lookup id d.leases ≡ some l
    → Replaces d id l l'
    → After KeepsSound c (store (record d { leases = insert id l' d.leases }))
store_replaced {d} {id} {l} {l'} s found r =
    After-modify _ (replace-IsSound d id l l' s found r.good r.same_deposit r.same_unspent)

module _ (host : Host) (id : ℕ) where
  pub apply_payment-Replaces :
      (amount : ℤ) (d : ContractData) (l : Lease) (st : LeaseState) (c : Chain)
      → IsGood d.next_lease_id id l
      → l.state ≡ st
      → After (λ l' c'. Replaces d id l l') c (apply_payment host id amount l st)
  unfolding apply_payment
  apply_payment-Replaces amount d l LeaseState.active c g e =
      After-checked _ _ _ λ _. After-pure _ (ground arith)
  apply_payment-Replaces amount d l LeaseState.grace_period c g e = After-checked _ _ _ λ _.
      After-guard _ _ _
        λ _. After-checked _ _ _ λ _. After-modified _ _ (After-pure _ (ground arith))
  apply_payment-Replaces amount d l _ c g e = After-raise _

  pub pay-KeepsSound :
      (amount : ℤ) (c : Chain)
      → Holds IsSound c.stored
      → After KeepsSound c (process_rent_payment host id amount)
  unfolding process_rent_payment
  pay-KeepsSound amount c h = After-load _ λ d e. After-found _ _ _ λ l found.
      After-guard _ _ _ λ _.
        let s = IsSound-of c h e in
        After-bind _ _ (
          After-map (λ l' c' r. store_replaced s found r)
            (apply_payment-Replaces amount d l l.state c (IsGood-of s found) refl))

  pub calculate_late_fee-After :
      (l : Lease) (base : ℤ) (c : Chain)
      → After (λ fee c'. (pos 0 ≤ℤ fee) × (c' ≡ c)) c (calculate_late_fee host l base)
  unfolding calculate_late_fee
  calculate_late_fee-After l base c = After-guard _ _ _ λ _. After-pure _ (omega arith, refl)

  pub fail-KeepsSound :
      (c : Chain)
      → Holds IsSound c.stored
      → After KeepsSound c (handle_rent_payment_failure host id)
  unfolding handle_rent_payment_failure
  fail-KeepsSound c h = After-load _ λ d e. After-found _ _ _ λ l found. After-guard _ _ _ λ act.
      let s = IsSound-of c h e in
      let g = IsGood-of s found in
      After-bind _ _ (
        After-map
          (λ fee c' (nonneg, _).
            After-checked _ _ _ λ _. After-modified _ _ (store_replaced s found (ground arith)))
          (calculate_late_fee-After l l.rent_amount c))

  pub terminate-KeepsSound :
      (caller : Address) (c : Chain)
      → Holds IsSound c.stored
      → After KeepsSound c (terminate_lease host id caller)
  unfolding terminate_lease
  terminate-KeepsSound caller c h = After-load _ λ d e. After-found _ _ _ λ l found.
      After-guard _ _ _ λ _. After-guard _ _ _ λ act.
        let s = IsSound-of c h e in
        let g = IsGood-of s found in
        After-bind _ _ (
          After-any _ λ r c'. After-modified _ _ (
            After-bind _ _
              (After-map (λ _ c'' k. After-pure _ k) (store_replaced s found (ground arith)))))

  pub fiat-KeepsSound :
      (c : Chain)
      → Holds IsSound c.stored
      → After KeepsSound c (process_fiat_pegged_rent_payment host id)
  unfolding process_fiat_pegged_rent_payment
  fiat-KeepsSound c h = After-load _ λ d e. After-found _ _ _ λ l found. After-guard _ _ _ λ _.
      After-found _ _ _ λ config _. After-guard _ _ _ λ _.
        let s = IsSound-of c h e in
        let g = IsGood-of s found in
        After-bind _ _ (
          After-any _ λ rent c1. After-bind _ _ (
            After-any _ λ price c2.
              After-checked _ _ _ λ _. After-modified _ _ (store_replaced s found (ground arith))))

pub initialize-KeepsSound : (oracle : Address) (c : Chain) → After KeepsSound c (initialize oracle)
unfolding initialize
initialize-KeepsSound oracle c = After-modify _ (ground (arith, +ℤ_pos 0 0))
