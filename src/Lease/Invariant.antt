-- ===== src/Lease/Invariant.antt =====
-- The invariant of the lease contract's data, and its preservation when one lease is replaced.
use lease_flow_protocol_cont.Base.{
  arith, parts, ℕ, ◌<◌, ◌≡◌, refl, true, false, Option, none, some, All, All-insert, IsSorted,
  insert-IsSorted, lookup, insert, sum, sum-insert, pos, pos_part, ◌+ℤ◌, ◌≤ℤ◌, ◌<ℤ◌, int_laws,
  is_some,
}
use lease_flow_protocol_cont.Lease.Types.{
  LeaseState, grace_period, eviction_pending, Lease, ContractData,
}
use lease_flow_protocol_cont.Lease.Create.{is_state}

pub is_state-eq : (a b : LeaseState) → is_state a b ≡ true → a ≡ b
is_state-eq a b h = ground arith

-- The deposit that a lease has brought into the vault.
abbrev pub deposited : Lease → ℕ
deposited l = elim l.state [ LeaseState.pending ↦ 0 | _ ↦ pos_part l.deposit_amount ]

-- The part of it that may still be deducted.
abbrev pub unspent : Lease → ℕ
unspent l = elim l.arrears_processed [ true ↦ 0 | false ↦ deposited l ]

pub record IsGood (next id : ℕ) (l : Lease) : Type 0 where
  pub id_eq : l.lease_id ≡ id
  pub id_lt : id < next
  pub rent_pos : pos 0 <ℤ l.rent_amount
  pub deposit_pos : pos 0 <ℤ l.deposit_amount
  pub term : l.start_date < l.end_date
  pub dunned : l.state ≡ grace_period → is_some l.dunning_start_timestamp ≡ true
  pub processed : is_state l.state eviction_pending ≡ l.arrears_processed
  pub owed : l.state ≡ grace_period → l.outstanding_balance ≡ l.rent_amount
  pub fees : pos 0 ≤ℤ l.accumulated_late_fees

pub record IsSound (d : ContractData) : Type 0 where
  pub sorted : IsSorted d.leases
  pub good : All (IsGood d.next_lease_id) d.leases
  pub treasury : pos 0 ≤ℤ d.escrow_vault.lessor_treasury
  pub split :
      d.escrow_vault.total_locked
      ≡ d.escrow_vault.available_balance +ℤ d.escrow_vault.lessor_treasury
  pub locked : d.escrow_vault.total_locked ≡ pos (sum deposited d.leases)
  pub covered : pos (sum unspent d.leases) ≤ℤ d.escrow_vault.available_balance

-- What holds of the stored data, once there is any.
abbrev pub Holds : (ContractData → Type 0) → Option ContractData → Type 0
Holds P none = Unit
Holds P (some d) = P d

-- A lease is replaced, and the vault moves by what the lease brings in or gives up.
pub update-IsSound :
    (d d' : ContractData) (id : ℕ) (l l' : Lease)
    → IsSound d
    → lookup id d.leases ≡ some l
    → d'.leases ≡ insert id l' d.leases
    → d'.next_lease_id ≡ d.next_lease_id
    → IsGood d.next_lease_id id l'
    → pos 0 ≤ℤ d'.escrow_vault.lessor_treasury
    → d'.escrow_vault.total_locked
      ≡ d'.escrow_vault.available_balance +ℤ d'.escrow_vault.lessor_treasury
    → d'.escrow_vault.total_locked +ℤ pos (deposited l)
      ≡ d.escrow_vault.total_locked +ℤ pos (deposited l')
    → d.escrow_vault.available_balance +ℤ pos (unspent l')
      ≤ℤ d'.escrow_vault.available_balance +ℤ pos (unspent l)
    → IsSound d'
update-IsSound d d' id l l' s found e next g t sp lock cover = record {
  sorted = rw e (insert-IsSorted id l' d.leases s.sorted);
  good = rw (e, next) (All-insert (IsGood d.next_lease_id) id l' d.leases s.good g);
  treasury = t;
  split = sp;
  locked = rw e (
      omega (
        int_laws,
        parts s.locked,
        parts lock,
        sum-insert deposited id l' l d.leases s.sorted found,
      ));
  covered =
      rw e (omega (int_laws, s.covered, cover, sum-insert unspent id l' l d.leases s.sorted found));
}

-- A lease is replaced, and the vault stays.
pub replace-IsSound :
    (d : ContractData) (id : ℕ) (l l' : Lease)
    → IsSound d
    → lookup id d.leases ≡ some l
    → IsGood d.next_lease_id id l'
    → deposited l' ≡ deposited l
    → unspent l' ≡ unspent l
    → IsSound (record d { leases = insert id l' d.leases })
replace-IsSound d id l l' s found g dep uns =
    update-IsSound d (record d { leases = insert id l' d.leases }) id l l' s found refl refl g
      s.treasury s.split (rw dep) (omega (int_laws, uns))
