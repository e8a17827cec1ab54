-- ===== src/Lease/Examples.antt =====
-- The theorems on contracts/leaseflow/src/lib.rs at concrete calls.
use lease_flow_protocol_cont.Base.{ℕ, refl, none, [], pos, pos_part, invoke}
use lease_flow_protocol_cont.Lease.Types.{Host, Chain}
use lease_flow_protocol_cont.Lease.Create.{CreateArgs}
use lease_flow_protocol_cont.Lease.Invariant.{IsSound, Holds}
use lease_flow_protocol_cont.Lease.Calls.{
  pays, Request, Reach, initializes, creates, activates, fails, expires, dispatch, call, here, next,
  Reach-IsSound,
}
use lease_flow_protocol_cont.Lease.States.{Advances}
use lease_flow_protocol_cont.Lease.Life.{Reach-Advances}
use lease_flow_protocol_cont.Lease.Expiry.{settled, check_grace_period_expiry_lem}
use lease_flow_protocol_cont.Lease.Arrears.{check_grace_period_expiry}
use lease_flow_protocol_cont.Lease.Payment.{handle_rent_payment_failure, calculate_late_fee}
use lease_flow_protocol_cont.Lease.Create.{
  initialize, create_lease, initial_rent, activate_lease, new_lease,
}
use lease_flow_protocol_cont.Lease.Types.{Lease, ContractData, grace_period}
use lease_flow_protocol_cont.Base.{some, ◌≡◌, arith, +ℤ_pos, ◌+ℤ◌, ◌∷◌, ok, ◌>>=◌}

abbrev at_time : ℕ → Host
at_time t = record { timestamp = t; get_price = λ n o a. none; u256_from_i64 = pos_part }

abbrev empty : Chain
empty = record { stored = none; events = [] }

abbrev args : CreateArgs
args = record {
  lessor = 1;
  lessee = 2;
  rent_amount = pos 1000;
  deposit_amount = pos 3000;
  start_date = 1677628800;
  end_date = 1680307200;
  max_grace_period = 86400;
  late_fee_rate = 500;
  property_uri = [];
  fiat_peg_config = none;
}

abbrev after : Chain → ℕ → Request → Chain
after c t r = (invoke (dispatch (at_time t) r) c).1

-- A lease whose tenant does not pay, up to the eviction after the grace period.
abbrev evicted : Chain
evicted =
    let c = after empty 1677000000 (initializes 9) in
    let c = after c 1677000100 (creates args) in
    let c = after c 1677628900 (activates 1 2) in
    let c = after c 1677700000 (fails 1) in after c 1677800000 (expires 1)

Reach-IsSound_example : Holds IsSound evicted.stored
Reach-IsSound_example = Reach-IsSound refl (
    next
      (next
        (next
          (next (next here (call (at_time 1677000000) (initializes 9)))
            (call (at_time 1677000100) (creates args)))
          (call (at_time 1677628900) (activates 1 2)))
        (call (at_time 1677700000) (fails 1)))
      (call (at_time 1677800000) (expires 1)))

abbrev lapsed : Chain
lapsed =
    let c = after empty 1677000000 (initializes 9) in
    let c = after c 1677000100 (creates args) in
    let c = after c 1677628900 (activates 1 2) in after c 1677700000 (fails 1)

to_lapsed : Reach empty lapsed
to_lapsed =
    next
      (next
        (next (next here (call (at_time 1677000000) (initializes 9)))
          (call (at_time 1677000100) (creates args)))
        (call (at_time 1677628900) (activates 1 2)))
      (call (at_time 1677700000) (fails 1))

-- The tenant recovers by paying the rent and the fee.
Reach-Advances_example : Advances lapsed.stored (after lapsed 1677750000 (pays 1 (pos 1050))).stored
Reach-Advances_example = Reach-Advances (at_time 1677750000) (pays 1 (pos 1050)) refl to_lapsed refl

-- The lease of `lapsed`, and the contract's data around it.
abbrev lapsed_lease : Lease
lapsed_lease = record (new_lease 1 args (pos 1000)) {
  state = grace_period;
  last_rent_payment_timestamp = 1677628900;
  dunning_start_timestamp = some 1677700000;
  outstanding_balance = pos 1000;
  accumulated_late_fees = pos 50;
}

abbrev lapsed_data : ContractData
lapsed_data = record {
  leases = (1, lapsed_lease) ∷ [];
  next_lease_id = 2;
  escrow_vault = record {
    total_locked = pos 3000;
    available_balance = pos 3000;
    lessor_treasury = pos 0;
  };
  credit_records = [];
  oracle_config = record {
    oracle_address = 9;
    staleness_threshold = 900;
    volatility_threshold = 2000;
    max_price_age = 3600;
  };
}

lapsed_stored : lapsed.stored ≡ some lapsed_data
unfolding dispatch initialize create_lease initial_rent activate_lease handle_rent_payment_failure
    calculate_late_fee invoke ◌>>=◌ ◌+ℤ◌
lapsed_stored = refl

lapsed_data-IsSound : IsSound lapsed_data
lapsed_data-IsSound =
    let h : Holds IsSound lapsed.stored = Reach-IsSound refl to_lapsed in rw lapsed_stored at h

-- A day and a second after the grace period began, the deposit pays 1050.
check_grace_period_expiry_lem_example :
    let r = check_grace_period_expiry (at_time 1677786401) 1 lapsed in
    (r.0 ≡ ok tt) × (r.1.stored ≡ some (settled lapsed_data 1 lapsed_lease (pos 1050)))
check_grace_period_expiry_lem_example =
    check_grace_period_expiry_lem (at_time 1677786401) lapsed lapsed_data 1 lapsed_lease 1677700000
      1050 lapsed_stored lapsed_data-IsSound refl refl refl (omega arith) (omega arith)
      (+ℤ_pos 1000 50) (omega arith) (omega arith) (omega arith) (omega arith)
