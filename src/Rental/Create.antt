-- ===== src/Rental/Create.antt =====
-- contracts/leaseflow_contracts/src/lib.rs: `create_lease_instance` and what it calls.
use lease_flow_protocol_cont.Base.{
  ℕ, Bool, true, false, not, none, List, [], contains, lookup, insert, get_or, ◌==◌, if◌then◌else◌,
  ℤ, pos, ltb_ℤ, ◌-ℤ◌, ◌*ℤ◌, ◌/ℤ◌, saturate, half_128, Address, Env, ok, err, panic, ⊤, pure, gets,
  modify, raise, raise_if, or_raise, or_trap, branch, if_some, when_some, attempt, of_result, ◌>>=◌,
  ◌>>◌, require_auth,
}
use lease_flow_protocol_cont.Velocity.Calls.{initialize_lessor, update_portfolio_size}
use lease_flow_protocol_cont.Rental.LeaseFlags
use lease_flow_protocol_cont.Rental.LeaseFlags.{set_flag}
use lease_flow_protocol_cont.Rental.Types.{
  DepositStatus, pending, nothing, LeaseInstance, CreateLeaseParams, LeaseError, RentalEvent,
}
use lease_flow_protocol_cont.Rental.Store.{
  World, RentalStore, Rental, publish, save_lease_instance, acquire_reentrancy_lock,
  release_reentrancy_lock, insert2, guarded,
}

abbrev pub initial_flags : CreateLeaseParams → ℕ
initial_flags params =
    let flags = LeaseFlags.active in
    let delegated =
      if params.yield_delegation_enabled
      then set_flag LeaseFlags.yield_delegation_enabled flags
      else flags in
    if params.has_pet then set_flag LeaseFlags.has_pet delegated else delegated

-- The literal does not set the registry and the asset.
abbrev pub new_lease : Address → CreateLeaseParams → ℤ → LeaseInstance
new_lease landlord params locked_amount = record {
  landlord = landlord;
  tenant = params.tenant;
  rent_amount = params.rent_amount;
  deposit_amount = params.deposit_amount;
  security_deposit = locked_amount;
  start_date = params.start_date;
  end_date = params.end_date;
  rent_paid_through = 0;
  deposit_status = DepositStatus.held;
  status = pending;
  property_uri = params.property_uri;
  nft_contract = none;
  token_id = none;
  debt = pos 0;
  rent_paid = pos 0;
  expiry_time = params.end_date;
  buyout_price = none;
  cumulative_payments = pos 0;
  rent_per_sec = params.rent_per_sec;
  grace_period_end = params.grace_period_end;
  late_fee_flat = params.late_fee_flat;
  late_fee_per_sec = params.late_fee_per_sec;
  seconds_late_charged = 0;
  withdrawal_address = none;
  rent_withdrawn = pos 0;
  arbitrators = params.arbitrators;
  maintenance_status = nothing;
  withheld_rent = pos 0;
  repair_proof_hash = none;
  inspector = none;
  pause_reason = none;
  paused_at = none;
  pause_initiator = none;
  total_paused_duration = 0;
  rent_pull_authorized_amount = none;
  last_rent_pull_timestamp = none;
  billing_cycle_duration = 2592000;
  yield_accumulated = pos 0;
  equity_balance = pos 0;
  equity_percentage_bps = params.equity_percentage_bps;
  pet_deposit_amount = params.pet_deposit_amount;
  pet_rent_amount = params.pet_rent_amount;
  payment_token = params.payment_token;
  flags = initial_flags params;
  early_termination_fee_bps = none;
  fixed_penalty = none;
  lessor_reference_id = params.lessor_reference_id;
  asset_registry_address = none;
  asset_id = none;
}

abbrev pub is_empty : List ℕ → Bool
is_empty [] = true
is_empty xs = false

-- What 99% of an amount gives, and the least that the slippage allows.
abbrev pub simulated_output : ℤ → ℤ
simulated_output amount = saturate half_128 (amount *ℤ pos 9900) /ℤ pos 10000

abbrev pub min_out : ℤ → ℕ → ℤ
min_out amount slippage = saturate half_128 (amount *ℤ (pos 10000 -ℤ pos slippage)) /ℤ pos 10000

module _ {W : Type 0} (world : World W) (self : Address) (env : Env) where
  unfoldable pub verify_asset_ownership : ℕ → Address → Address → ℕ → Rental W ℕ
  verify_asset_ownership lease_id landlord registry asset = do
    known ← gets (λ (s : RentalStore W). contains registry s.whitelisted_registries)
    raise_if (not known) LeaseError.asset_registry_invalid
    w ← gets (λ (s : RentalStore W). s.tokens)
    whitelisted ← or_raise (world.registry_info w registry) LeaseError.asset_registry_invalid
    raise_if (not whitelisted) LeaseError.asset_registry_invalid
    raise_if (not (world.verify_ownership w registry asset landlord)) LeaseError.asset_not_owned
    (proof, w') ← or_raise (world.freeze_asset w registry asset) LeaseError.asset_freeze_failed
    modify (λ (s : RentalStore W). record s {
      tokens = w';
      freeze_proofs =
          let proofs = get_or (lookup lease_id s.freeze_proofs) [] in
          insert lease_id (insert2 registry asset proof proofs) s.freeze_proofs;
    })
    publish
        (RentalEvent.asset_ownership_verified lease_id registry asset landlord proof env.timestamp)
    pure proof

  -- Without a DEX contract the swap is simulated.
  unfoldable pub swap_output : CreateLeaseParams → Address → Rental W ℤ
  swap_output params original_asset =
      if_some params.dex_contract
        (λ dex. do
          w ← gets (λ (s : RentalStore W). s.tokens)
          (output, w') ← or_trap (
              world.path_payment w dex params.tenant params.payment_token params.security_deposit
                params.max_slippage_bps params.swap_path)
          modify (λ (s : RentalStore W). record s { tokens = w' })
          pure output)
        (do
          let output = simulated_output params.security_deposit
          raise_if (ltb_ℤ output (min_out params.security_deposit params.max_slippage_bps))
              LeaseError.slippage_exceeded
          pure output)

  unfoldable pub execute_deposit_swap : ℕ → CreateLeaseParams → Address → Rental W ℤ
  execute_deposit_swap lease_id params original_asset =
      branch (original_asset == params.payment_token) (pure params.security_deposit) (do
        raise_if (is_empty params.swap_path) LeaseError.path_payment_failed
        final_locked_amount ← swap_output params original_asset
        publish (
            RentalEvent.cross_asset_deposit_locked lease_id original_asset params.payment_token
              params.swap_path params.security_deposit final_locked_amount)
        pure final_locked_amount)

  unfoldable pub verify_asset : ℕ → Address → CreateLeaseParams → Rental W ⊤
  verify_asset lease_id landlord params = when_some params.asset_registry_address λ registry.
      when_some params.asset_id
        λ asset. verify_asset_ownership lease_id landlord registry asset >> pure tt

  unfoldable pub lock_deposit : ℕ → CreateLeaseParams → Rental W ℤ
  lock_deposit lease_id params =
      if_some params.deposit_asset (execute_deposit_swap lease_id params)
        (pure params.security_deposit)

  -- A call of the index; one that fails leaves it.
  unfoldable pub index_lease : ℕ → Rental W ⊤
  index_lease lease_id = do
    index ← gets (λ (s : RentalStore W). s.active_leases_index)
    added ← of_result (world.add_to_active_leases_index lease_id index)
    modify (λ (s : RentalStore W). record s { active_leases_index = added })

  unfoldable pub create_lease_instance : ℕ → Address → CreateLeaseParams → Rental W ⊤
  create_lease_instance lease_id landlord params = do
    acquire_reentrancy_lock
    taken ← gets (λ (s : RentalStore W). contains lease_id s.leases)
    branch taken (release_reentrancy_lock >> raise LeaseError.lease_already_exists) (do
      require_auth env landlord
      require_auth env params.tenant
      verify_asset lease_id landlord params
      swapped ← attempt (lock_deposit lease_id params)
      elim swapped [
        | err e ↦ release_reentrancy_lock >> raise e
        | panic ↦ or_trap none
        | ok locked_amount ↦ do
          save_lease_instance lease_id (new_lease landlord params locked_amount)
          idx_result ← attempt (index_lease lease_id)
          vel_init ← attempt (guarded (initialize_lessor landlord))
          vel_port ← attempt (guarded (update_portfolio_size landlord (pos 1)))
          release_reentrancy_lock
          of_result idx_result
          of_result vel_init
          of_result vel_port
          publish (RentalEvent.lease_signed lease_id params.property_uri)
      ])
