-- ===== src/Rental/Termination.antt =====
-- contracts/leaseflow_contracts/src/lib.rs: the terminations of a lease and their simulation.
use lease_flow_protocol_cont.Base.{
  ℕ, ◌-◌, not, ◌&&◌, [], lookup, insert, ltb, ◌==◌, if◌then◌else◌, ℤ, pos, negsuc, ltb_ℤ, min_ℤ,
  max_ℤ, Address, Env, ⊤, pure, gets, modify, raise_if, or_raise, or_trap, branch, if_some,
  when_some, attempt, ◌>>=◌, ◌>>◌, add_i128, sub_i128, mul_i128, div_i128, sub_u64, get_or,
  require_auth,
}
use lease_flow_protocol_cont.Velocity.Calls.{
  initialize_lessor, check_velocity_limits, record_termination, update_portfolio_size,
  get_velocity_stats,
}
use lease_flow_protocol_cont.Rental.Types.{
  terminated, LeaseInstance, TerminationSimulation, LeaseError, RentalEvent,
}
use lease_flow_protocol_cont.Rental.Store.{
  World, RentalStore, Rental, publish, load_lease, archive_lease, is_admin, is_status, is_settled,
  transfer_tokens, pay_out, guarded, lookup2, erase2,
}
use lease_flow_protocol_cont.Rental.Payment.{hand_over}
use lease_flow_protocol_cont.Rental.Deposit.{closed}

module _ {W : Type 0} where
  -- `remaining_time as i128 * rent_per_sec * fee_bps / 10_000`, where both are positive.
  unfoldable pub percentage_penalty : ℕ → ℕ → LeaseInstance → Rental W ℤ
  percentage_penalty fee_bps remaining_time lease =
      branch (ltb 0 fee_bps && ltb 0 remaining_time)
        (do
          remaining_value ← mul_i128 (pos remaining_time) lease.rent_per_sec
          scaled ← mul_i128 remaining_value (pos fee_bps)
          div_i128 scaled (pos 10000))
        (pure (pos 0))

  unfoldable pub early_penalty : ℕ → LeaseInstance → Rental W ℤ
  early_penalty remaining_time lease =
      if_some lease.early_termination_fee_bps
        (λ fee_bps. do
          percentage ← percentage_penalty fee_bps remaining_time lease
          if_some lease.fixed_penalty (λ fixed. pure (max_ℤ percentage fixed)) (pure percentage))
        (pure (get_or lease.fixed_penalty (pos 0)))

  -- What the tenant and the landlord get at an early termination.
  unfoldable pub early_split : Env → LeaseInstance → Rental W (ℤ × ℤ)
  early_split env lease = do
    total_duration ← sub_u64 lease.end_date lease.start_date
    elapsed_time ← sub_u64 env.timestamp lease.start_date
    remaining_time ← sub_u64 lease.end_date env.timestamp
    penalty_amount ← early_penalty remaining_time lease
    total_deposit ← add_i128 lease.security_deposit lease.deposit_amount
    let final_penalty = min_ℤ penalty_amount total_deposit
    tenant_refund ← sub_i128 total_deposit final_penalty
    pure (tenant_refund, final_penalty)

  -- The frozen asset's release, whose failure the terminations ignore.
  unfoldable pub thaw_asset : World W → ℕ → Address → ℕ → Rental W ⊤
  thaw_asset world lease_id registry asset = do
    proofs ← gets (λ (s : RentalStore W). get_or (lookup lease_id s.freeze_proofs) [])
    proof ← or_raise (lookup2 registry asset proofs) LeaseError.asset_thaw_failed
    w ← gets (λ (s : RentalStore W). s.tokens)
    w' ← or_raise (world.thaw_asset w registry asset proof) LeaseError.asset_thaw_failed
    modify (λ (s : RentalStore W). record s {
      tokens = w';
      freeze_proofs = insert lease_id (erase2 registry asset proofs) s.freeze_proofs;
    })

  unfoldable pub thaw_lease : World W → ℕ → LeaseInstance → Rental W ⊤
  thaw_lease world lease_id lease = when_some lease.asset_registry_address λ registry.
      when_some lease.asset_id
        λ asset. attempt (thaw_asset world lease_id registry asset) >> pure tt

  -- A tenth of the platform's fee, from its recipient, to who calls `terminate_lease`.
  unfoldable pub pay_bounty : World W → ℕ → Address → ℤ → Address → Address → Rental W ⊤
  pay_bounty world lease_id caller fee_amount fee_token fee_recipient = do
    scaled ← mul_i128 fee_amount (pos 1000)
    bounty ← div_i128 scaled (pos 10000)
    branch (ltb_ℤ (pos 0) bounty)
        (do
          transfer_tokens world fee_token fee_recipient caller bounty
          publish (RentalEvent.terminate_bounty_paid lease_id caller bounty))
        (pure tt)

  unfoldable pub bounty : World W → ℕ → Address → Rental W ⊤
  bounty world lease_id caller = do
    amount ← gets (λ (s : RentalStore W). s.platform_fee_amount)
    token ← gets (λ (s : RentalStore W). s.platform_fee_token)
    recipient ← gets (λ (s : RentalStore W). s.platform_fee_recipient)
    when_some amount λ fee_amount. when_some token λ fee_token.
        when_some recipient
          λ fee_recipient. pay_bounty world lease_id caller fee_amount fee_token fee_recipient

  -- The burn of the lease's access tokens.
  unfoldable pub burn_tokens : World W → ℕ → LeaseInstance → Rental W ⊤
  burn_tokens world lease_id lease = when_some lease.token_id λ access_token_id. do
    w ← gets (λ (s : RentalStore W). s.tokens)
    w' ← or_trap (world.revoke_tokens w lease_id access_token_id)
    modify (λ (s : RentalStore W). record s { tokens = w' })

  unfoldable pub terminate_lease : World W → Env → ℕ → Address → Rental W ⊤
  terminate_lease world env lease_id caller = do
    lease ← load_lease lease_id
    admin ← gets (is_admin caller)
    raise_if (not (caller == lease.landlord) && not (caller == lease.tenant) && not admin)
        LeaseError.unauthorised
    require_auth env caller
    raise_if (ltb env.timestamp lease.end_date) LeaseError.lease_not_expired
    raise_if (not (is_settled lease.deposit_status)) LeaseError.deposit_not_settled
    bounty world lease_id caller
    burn_tokens world lease_id lease
    thaw_lease world lease_id lease
    archive_lease env lease_id lease caller
    publish (RentalEvent.lease_terminated lease_id)

  unfoldable pub execute_early_termination : World W → Address → Env → ℕ → Address → Rental W ⊤
  execute_early_termination world self env lease_id caller = do
    require_auth env caller
    lease ← load_lease lease_id
    raise_if (not (caller == lease.tenant) && not (caller == lease.landlord))
        LeaseError.unauthorised
    raise_if (is_status lease.status terminated) LeaseError.lease_not_terminated
    guarded (initialize_lessor lease.landlord)
    guarded (check_velocity_limits env lease.landlord)
    (tenant_refund, landlord_payout) ← early_split env lease
    pay_out world lease.payment_token self lease.tenant tenant_refund
    pay_out world lease.payment_token self lease.landlord landlord_payout
    hand_over world self lease lease.landlord
    guarded (record_termination env lease.landlord lease_id)
    guarded (update_portfolio_size lease.landlord (negsuc 0))
    thaw_lease world lease_id lease
    archive_lease env lease_id (closed lease) caller
    (portfolio_size, velocity_24h, _, _) ← guarded (get_velocity_stats lease.landlord)
    publish (RentalEvent.lease_terminated lease_id)
    publish (
        RentalEvent.lease_terminated_with_velocity_guard lease_id lease.landlord lease.tenant caller
          env.timestamp portfolio_size velocity_24h)

  -- 10 % of the rent of the rest of the lease, up to the deposits.
  unfoldable pub simulated_penalty : ℕ → LeaseInstance → ℤ → Rental W ℤ
  simulated_penalty remaining_time lease total_deposit =
      branch (ltb 0 remaining_time && ltb_ℤ (pos 0) lease.rent_per_sec)
        (do
          remaining_value ← mul_i128 (pos remaining_time) lease.rent_per_sec
          scaled ← mul_i128 remaining_value (pos 1000)
          penalty ← div_i128 scaled (pos 10000)
          pure (min_ℤ penalty total_deposit))
        (pure (pos 0))

  unfoldable pub simulate_lease : ℕ → LeaseInstance → Rental W TerminationSimulation
  simulate_lease termination_timestamp lease = do
    total_deposit ← add_i128 lease.security_deposit lease.deposit_amount
    let remaining_time =
        if ltb termination_timestamp lease.end_date
        then lease.end_date - termination_timestamp
        else 0
    penalty_amount ← simulated_penalty remaining_time lease total_deposit
    deduction ← add_i128 penalty_amount (max_ℤ lease.debt (pos 0))
    let total_deduction = min_ℤ deduction total_deposit
    projected_refund ← sub_i128 total_deposit total_deduction
    pure (record {
      deposit_amount = total_deposit;
      penalty_amount = total_deduction;
      projected_refund = projected_refund;
    })

  unfoldable pub simulate_termination : ℕ → ℕ → Rental W TerminationSimulation
  simulate_termination lease_id termination_timestamp =
      load_lease lease_id >>= simulate_lease termination_timestamp
