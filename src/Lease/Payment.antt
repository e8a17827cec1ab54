-- ===== src/Lease/Payment.antt =====
-- contracts/leaseflow/src/lib.rs: rent payments, their failure, and the queries.
use lease_flow_protocol_cont.Base.{
  ℕ, ◌*◌, ◌/◌, not, ◌||◌, none, some, List, [], ◌∷◌, Map, lookup, insert, ltb, ◌==◌, if◌then◌else◌,
  ℤ, pos, ltb_ℤ, ⊤, pure, raise, raise_if, or_raise, ◌>>=◌, ◌>>◌, add_u64, add_i64, half_64,
}
use lease_flow_protocol_cont.Lease.Types.{
  Address, LeaseState, active, grace_period, Error, Lease, ProtocolCreditRecord, EscrowVault, Event,
  Host, Call, load, store, publish,
}
use lease_flow_protocol_cont.Lease.Create.{is_state}

-- The U256 product of an i64 and a u32 cannot overflow; the conversion to i64 can.
unfoldable pub calculate_late_fee : Host → Lease → ℤ → Call ℤ
calculate_late_fee host lease base_amount = do
  let fee_amount = host.u256_from_i64 base_amount * lease.late_fee_rate / 10000
  raise_if (not (ltb fee_amount half_64)) Error.late_fee_calculation_error
  pure (pos fee_amount)

-- The lease after a payment, whose events are published on the way.
unfoldable pub apply_payment : Host → ℕ → ℤ → Lease → LeaseState → Call Lease
apply_payment host lease_id amount lease LeaseState.active = do
  total_paid_rent ← add_i64 lease.total_paid_rent amount
  pure (record lease {
    last_rent_payment_timestamp = host.timestamp;
    outstanding_balance = pos 0;
    accumulated_late_fees = pos 0;
    total_paid_rent = total_paid_rent;
  })
apply_payment host lease_id amount lease LeaseState.grace_period = do
  total_required ← add_i64 lease.rent_amount lease.accumulated_late_fees
  raise_if (ltb_ℤ amount total_required) Error.insufficient_rent_funds
  total_paid_rent ← add_i64 lease.total_paid_rent amount
  let recovered = record lease {
    state = active;
    last_rent_payment_timestamp = host.timestamp;
    outstanding_balance = pos 0;
    accumulated_late_fees = pos 0;
    dunning_start_timestamp = none;
    total_paid_rent = total_paid_rent;
  }
  publish (Event.lease_recovered lease_id host.timestamp amount recovered.accumulated_late_fees)
  pure recovered
apply_payment host lease_id amount lease _ = raise Error.lease_not_active

unfoldable pub process_rent_payment : Host → ℕ → ℤ → Call ⊤
process_rent_payment host lease_id amount = do
  data' ← load
  lease ← or_raise (lookup lease_id data'.leases) Error.lease_not_found
  raise_if (ltb_ℤ amount lease.rent_amount) Error.insufficient_rent_funds
  paid ← apply_payment host lease_id amount lease lease.state
  store (record data' { leases = insert lease_id paid data'.leases })

unfoldable pub handle_rent_payment_failure : Host → ℕ → Call ⊤
handle_rent_payment_failure host lease_id = do
  data' ← load
  lease ← or_raise (lookup lease_id data'.leases) Error.lease_not_found
  raise_if (not (is_state lease.state active)) Error.invalid_state_transition
  late_fee_amount ← calculate_late_fee host lease lease.rent_amount
  grace_period_end ← add_u64 host.timestamp lease.max_grace_period
  publish (
      Event.rent_delinquency_started lease_id host.timestamp grace_period_end lease.rent_amount
        late_fee_amount)
  store (record data' {
    leases =
        insert lease_id
          (record lease {
            state = grace_period;
            dunning_start_timestamp = some host.timestamp;
            outstanding_balance = lease.rent_amount;
            accumulated_late_fees = late_fee_amount;
          })
          data'.leases;
  })

unfoldable pub get_lease : ℕ → Call Lease
get_lease lease_id = do data' ← load; or_raise (lookup lease_id data'.leases) Error.lease_not_found

-- The loop of `get_user_leases`.
unfoldable pub leases_of : Address → Map Lease → List ℕ
leases_of user [] = []
leases_of user ((lease_id, lease) ∷ m) =
    let rest = leases_of user m in
    if lease.lessor == user || lease.lessee == user then lease_id ∷ rest else rest

unfoldable pub get_user_leases : Address → Call (List ℕ)
unfolding leases_of
get_user_leases user = do data' ← load; pure (leases_of user data'.leases)

unfoldable pub get_credit_record : Address → Call ProtocolCreditRecord
get_credit_record lessee = do
  data' ← load
  or_raise (lookup lessee data'.credit_records) Error.credit_record_error

unfoldable pub get_escrow_vault : Call EscrowVault
get_escrow_vault = do data' ← load; pure data'.escrow_vault
