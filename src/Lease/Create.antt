-- ===== src/Lease/Create.antt =====
-- contracts/leaseflow/src/lib.rs: initialize, create_lease, activate_lease, terminate_lease.
use lease_flow_protocol_cont.Base.{
  ℕ, ◌-◌, Bool, true, false, not, ◌&&◌, ◌||◌, Option, none, some, List, [], lookup, insert, ltb,
  leb, ◌==◌, if◌then◌else◌, ℤ, pos, ◌/ℤ◌, leb_ℤ, ltb_ℤ, eqb_ℤ, ◌-ℤ◌, ⊤, pure, trap, branch,
  raise_if, or_raise, ◌>>=◌, ◌>>◌, add_u64, add_i64,
}
use lease_flow_protocol_cont.Math.Proration.{calculate_prorated_rent, calculate_termination_refund}
use lease_flow_protocol_cont.Lease.Types.{
  Address, LeaseState, pending, active, closed, Error, FiatPegConfig, Lease, initialization,
  termination, Event, Host, Call, load, store, publish,
}

abbrev pub is_state : LeaseState → LeaseState → Bool
is_state LeaseState.pending LeaseState.pending = true
is_state LeaseState.active LeaseState.active = true
is_state LeaseState.grace_period LeaseState.grace_period = true
is_state LeaseState.eviction_pending LeaseState.eviction_pending = true
is_state LeaseState.closed LeaseState.closed = true
is_state _ _ = false

unfoldable pub initialize : Address → Call ⊤
initialize oracle_address = store (record {
  leases = [];
  next_lease_id = 1;
  escrow_vault = record {
    total_locked = pos 0;
    available_balance = pos 0;
    lessor_treasury = pos 0;
  };
  credit_records = [];
  oracle_config = record {
    oracle_address = oracle_address;
    staleness_threshold = 900;
    volatility_threshold = 2000;
    max_price_age = 3600;
  };
})

-- The arguments of `create_lease`.
pub record CreateArgs : Type 0 where
  pub lessor : Address
  pub lessee : Address
  pub rent_amount : ℤ
  pub deposit_amount : ℤ
  pub start_date : ℕ
  pub end_date : ℕ
  pub max_grace_period : ℕ
  pub late_fee_rate : ℕ
  pub property_uri : List ℕ
  pub fiat_peg_config : Option FiatPegConfig

-- The test of a fiat peg configuration.
abbrev pub valid_peg : Option FiatPegConfig → Bool
valid_peg none = true
valid_peg (some config) =
    not (leb_ℤ config.target_usd_amount (pos 0))
    && not (config.staleness_threshold == 0 || config.volatility_threshold == 0)

-- The amount that was computed, or another: `.map(|(amount, _)| amount).unwrap_or(rent_amount)`.
unfoldable pub amount_or : ℤ → Option (Option (ℤ × ℕ)) → Call ℤ
amount_or rent_amount none = trap
amount_or rent_amount (some none) = pure rent_amount
amount_or rent_amount (some (some (amount, _))) = pure amount

-- The rent for the rest of the term, if it has begun; the full rent if that cannot be computed.
unfoldable pub initial_rent : Host → CreateArgs → Call ℤ
initial_rent host args =
    branch (ltb args.start_date host.timestamp)
      (amount_or args.rent_amount
        (calculate_prorated_rent args.rent_amount host.timestamp args.end_date))
      (pure args.rent_amount)

-- `.unwrap_or(0)`
unfoldable pub refund_or_zero : Option (Option ℤ) → Call ℤ
refund_or_zero none = trap
refund_or_zero (some none) = pure (pos 0)
refund_or_zero (some (some refund)) = pure refund

abbrev pub new_lease : ℕ → CreateArgs → ℤ → Lease
new_lease lease_id args prorated_initial_rent = record {
  lease_id = lease_id;
  lessor = args.lessor;
  lessee = args.lessee;
  rent_amount = args.rent_amount;
  deposit_amount = args.deposit_amount;
  start_date = args.start_date;
  end_date = args.end_date;
  state = pending;
  max_grace_period = args.max_grace_period;
  late_fee_rate = args.late_fee_rate;
  dunning_start_timestamp = none;
  outstanding_balance = pos 0;
  accumulated_late_fees = pos 0;
  last_rent_payment_timestamp = 0;
  property_uri = args.property_uri;
  arrears_processed = false;
  prorated_initial_rent = prorated_initial_rent;
  total_paid_rent = pos 0;
  fiat_peg_config = args.fiat_peg_config;
  last_oracle_price = none;
  last_oracle_timestamp = none;
}

unfoldable pub create_lease : Host → CreateArgs → Call ℕ
create_lease host args = do
  raise_if (leb_ℤ args.rent_amount (pos 0) || leb_ℤ args.deposit_amount (pos 0))
      Error.invalid_amount
  raise_if (leb args.end_date args.start_date) Error.invalid_amount
  raise_if (not (valid_peg args.fiat_peg_config)) Error.invalid_fiat_peg_config
  data' ← load
  prorated_initial_rent ← initial_rent host args
  next ← add_u64 data'.next_lease_id 1
  store (record data' {
    leases =
        insert data'.next_lease_id (new_lease data'.next_lease_id args prorated_initial_rent)
          data'.leases;
    next_lease_id = next;
  })
  publish (
      Event.lease_created data'.next_lease_id args.lessor args.lessee args.rent_amount
        args.deposit_amount args.start_date args.end_date args.max_grace_period args.late_fee_rate)
  pure data'.next_lease_id

-- `deposit_amount`, which `activate_lease` uses and does not declare, is the lease's.
unfoldable pub activate_lease : Host → ℕ → Address → Call ⊤
activate_lease host lease_id lessee = do
  data' ← load
  lease ← or_raise (lookup lease_id data'.leases) Error.lease_not_found
  raise_if (not (lessee == lease.lessee)) Error.unauthorized
  raise_if (not (is_state lease.state pending)) Error.lease_already_active
  let vault = data'.escrow_vault
  total_locked ← add_i64 vault.total_locked lease.deposit_amount
  available_balance ← add_i64 vault.available_balance lease.deposit_amount
  branch (eqb_ℤ lease.prorated_initial_rent lease.rent_amount) (pure tt) (
      publish (
        Event.prorated_rent_calculated lease_id lease.rent_amount (lease.end_date - host.timestamp)
          lease.prorated_initial_rent initialization))
  store (record data' {
    leases =
        insert lease_id
          (record lease { state = active; last_rent_payment_timestamp = host.timestamp })
          data'.leases;
    escrow_vault = record vault {
      total_locked = total_locked;
      available_balance = available_balance;
    };
  })
  publish (Event.lease_activated lease_id host.timestamp)

-- The refund less a tenth, if rent was paid within the last day. i64 `saturating_sub` of a tenth of
-- a positive amount does not saturate.
abbrev pub adjusted_refund : Host → Lease → ℤ → ℤ
adjusted_refund host lease refund =
    if ltb (host.timestamp - lease.last_rent_payment_timestamp) 86400 && ltb_ℤ (pos 0) refund
    then refund -ℤ refund /ℤ pos 10
    else refund

unfoldable pub terminate_lease : Host → ℕ → Address → Call ℤ
terminate_lease host lease_id caller = do
  data' ← load
  lease ← or_raise (lookup lease_id data'.leases) Error.lease_not_found
  raise_if (not (caller == lease.lessor) && not (caller == lease.lessee)) Error.unauthorized
  raise_if (not (is_state lease.state active)) Error.lease_not_active
  refund_amount ← refund_or_zero (
      calculate_termination_refund lease.rent_amount lease.start_date lease.end_date host.timestamp
        lease.total_paid_rent)
  let refund = adjusted_refund host lease refund_amount
  publish (
      Event.prorated_rent_calculated lease_id lease.rent_amount (lease.end_date - host.timestamp)
        refund termination)
  store (record data' { leases = insert lease_id (record lease { state = closed }) data'.leases })
  pure refund
