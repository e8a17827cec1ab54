-- ===== src/Rental/Slash.antt =====
-- contracts/leaseflow_contracts/src/lib.rs: `execute_deposit_slash`, the penalty that an oracle
-- reports for damages.
use lease_flow_protocol_cont.Base.{
  ℕ, ◌-◌, Bool, true, false, not, ◌&&◌, ◌||◌, Option, none, some, lookup, insert, ltb, leb, ◌==◌,
  if◌then◌else◌, ℤ, pos, negsuc, leb_ℤ, ◌-ℤ◌, ◌*ℤ◌, ◌/ℤ◌, saturate, half_128, Address, Env, ⊤, pure,
  gets, modify, raise, raise_if, branch, when_some, attempt, of_result, ◌>>=◌, ◌>>◌, add_i128,
  add_u64, get_or,
}
use lease_flow_protocol_cont.Velocity.Calls.{
  initialize_lessor, check_velocity_limits, record_termination, update_portfolio_size,
  get_velocity_stats,
}
use lease_flow_protocol_cont.Rental.LeaseFlags
use lease_flow_protocol_cont.Rental.LeaseFlags.{clear_flag}
use lease_flow_protocol_cont.Rental.Types.{
  DepositStatus, terminated, expired, dao_arbitration, DamageSeverity, normal_wear_and_tear, minor,
  moderate, major, severe, catastrophic, OracleStatus, LeaseInstance, OraclePayload, OracleConfig,
  FallbackHierarchy, LeaseError, RentalEvent,
}
use lease_flow_protocol_cont.Rental.Store.{
  World, RentalStore, Rental, publish, load_lease, save_lease_instance, acquire_reentrancy_lock,
  release_reentrancy_lock, is_status, is_settled, require, pay_out, guarded,
}
use lease_flow_protocol_cont.Rental.Deposit.{return_nft}
use lease_flow_protocol_cont.Rental.Oracle.{
  is_oracle_whitelisted, is_demoted, max_oracle_failures, staleness_check, demote_oracle,
  activate_fallback_hierarchy, trigger_dao_arbitration, check_oracle_availability,
  set_oracle_config,
}

abbrev pub backup_failure_threshold : ℕ
backup_failure_threshold = 604800

abbrev pub massive_slash_threshold : ℤ
massive_slash_threshold = pos 100000000000

abbrev pub severity_code : DamageSeverity → ℕ
severity_code normal_wear_and_tear = 0
severity_code minor = 1
severity_code moderate = 2
severity_code major = 3
severity_code severe = 4
severity_code catastrophic = 5

unfoldable pub calculate_penalty_percentage : DamageSeverity → ℕ
calculate_penalty_percentage normal_wear_and_tear = 0
calculate_penalty_percentage minor = 10
calculate_penalty_percentage moderate = 25
calculate_penalty_percentage major = 50
calculate_penalty_percentage severe = 75
calculate_penalty_percentage catastrophic = 100

-- The penalty of a deposit, and what the tenant gets back.
unfoldable pub slash_penalty : ℤ → DamageSeverity → ℤ
slash_penalty total_deposit severity =
    let percentage = calculate_penalty_percentage severity in
    if percentage == 0
    then pos 0
    else saturate half_128 (total_deposit *ℤ pos percentage) /ℤ pos 100

unfoldable pub slash_refund : ℤ → DamageSeverity → ℤ
slash_refund total_deposit severity =
    saturate half_128 (total_deposit -ℤ slash_penalty total_deposit severity)

-- The oracle of a success, reinstated if it was demoted.
abbrev pub succeeded : Env → OracleConfig → OracleConfig
succeeded env config =
    let seen = record config { last_successful_timestamp = env.timestamp } in
    if is_demoted config.status && ltb config.failure_count max_oracle_failures
    then record seen { status = OracleStatus.active; failure_count = 0; demotion_timestamp = none }
    else seen

-- The hierarchy admits the backup oracle alone while it is active.
abbrev pub bypasses : OraclePayload → Option FallbackHierarchy → Bool
bypasses payload none = false
bypasses payload (some hierarchy) =
    hierarchy.hierarchy_active && not (payload.oracle_pubkey == hierarchy.backup_oracle)

abbrev pub slashed : LeaseInstance → LeaseInstance
slashed lease = record lease {
  deposit_status = DepositStatus.settled;
  flags = clear_flag LeaseFlags.active lease.flags;
}

-- Whether the last demotion is more than 7 days ago.
abbrev pub is_late : Env → Option ℕ → Bool
is_late env none = false
is_late env (some last_demotion) = ltb backup_failure_threshold (env.timestamp - last_demotion)

module _ {W : Type 0} (world : World W) (self : Address) (env : Env) (payload : OraclePayload) where
  -- What happens when the oracle is not available: an error in every case.
  unfoldable pub refuse_backup : FallbackHierarchy → Rental W ⊤
  refuse_backup hierarchy =
      branch (is_late env hierarchy.last_demotion_time)
        (trigger_dao_arbitration env payload.lease_id >> raise LeaseError.oracle_unavailable)
        (demote_oracle env payload.oracle_pubkey >> raise LeaseError.oracle_unavailable)

  unfoldable pub refuse : Option FallbackHierarchy → Rental W ⊤
  refuse none = raise LeaseError.oracle_not_whitelisted
  refuse (some hierarchy) =
      branch (payload.oracle_pubkey == hierarchy.primary_oracle)
        (do
          demote_oracle env payload.oracle_pubkey
          activate_fallback_hierarchy env
          raise LeaseError.oracle_stale)
        (branch (payload.oracle_pubkey == hierarchy.backup_oracle) (refuse_backup hierarchy)
          (raise LeaseError.oracle_not_whitelisted))

  unfoldable pub is_oracle_available : Rental W Bool
  is_oracle_available = do
    listed ← gets (is_oracle_whitelisted payload.oracle_pubkey)
    branch listed (check_oracle_availability env payload.oracle_pubkey) (pure false)

  -- The oracle of the payload, its nonce, time and signature; and the record of its success.
  unfoldable pub accept_payload : Rental W ⊤
  accept_payload = do
    staleness_check env payload.timestamp
    hierarchy ← gets (λ (s : RentalStore W). s.fallback_hierarchy)
    available ← is_oracle_available
    branch available (pure tt) (refuse hierarchy)
    raise_if (bypasses payload hierarchy) LeaseError.oracle_bypass_attempt
    stored_nonce ←
        gets (λ (s : RentalStore W). get_or (lookup payload.oracle_pubkey s.oracle_nonces) 0)
    raise_if (leb payload.nonce stored_nonce) LeaseError.invalid_nonce
    raise_if (ltb env.timestamp payload.timestamp || ltb 86400 (env.timestamp - payload.timestamp))
        LeaseError.invalid_signature
    require (world.signature_holds payload.oracle_pubkey payload.lease_id payload.signature)
    config ← gets (λ (s : RentalStore W). lookup payload.oracle_pubkey s.oracle_configs)
    when_some config λ known. set_oracle_config payload.oracle_pubkey (succeeded env known)
    modify (λ (s : RentalStore W). record s {
      oracle_nonces = insert payload.oracle_pubkey payload.nonce s.oracle_nonces;
    })

  abbrev pub slash_event : LeaseInstance → ℤ → ℤ → RentalEvent
  slash_event lease penalty refund =
      RentalEvent.deposit_slashed payload.lease_id payload.oracle_pubkey
        (severity_code payload.damage_severity) penalty refund penalty lease.lessor_reference_id

  -- A massive slash waits for the council; the call fails, and so the wait is not recorded.
  unfoldable pub hold_massive_slash : ℤ → Rental W ⊤
  hold_massive_slash penalty_amount =
      branch (leb_ℤ massive_slash_threshold penalty_amount)
        (do
          council ← gets (λ (s : RentalStore W). s.security_council)
          branch council
              (do
                timelock_end ← add_u64 env.timestamp 86400
                modify (λ (s : RentalStore W). record s {
                  pending_slashes = insert payload.lease_id penalty_amount s.pending_slashes;
                })
                raise LeaseError.pending_veto)
              (pure tt))
        (pure tt)

  unfoldable pub flag_tenant : LeaseInstance → ℤ → ℤ → Rental W ⊤
  flag_tenant lease penalty_amount total_deposit =
      branch (leb 4 (severity_code payload.damage_severity) && leb_ℤ total_deposit penalty_amount)
        (do
          modify (λ (s : RentalStore W). record s {
            tenant_flags = insert payload.lease_id true s.tenant_flags;
          })
          publish (RentalEvent.tenant_flagged payload.lease_id lease.tenant))
        (pure tt)

  -- The payments of a slash that nobody has to approve, and what follows.
  unfoldable pub settle_slash : LeaseInstance → ℤ → ℤ → ℤ → Rental W ⊤
  settle_slash lease total_deposit penalty_amount tenant_refund = do
    flag_tenant lease penalty_amount total_deposit
    pay_out world lease.payment_token self lease.tenant tenant_refund
    pay_out world lease.payment_token self lease.landlord penalty_amount
    save_lease_instance payload.lease_id (slashed lease)
    guarded (record_termination env lease.landlord payload.lease_id)
    guarded (update_portfolio_size lease.landlord (negsuc 0))
    return_nft world self lease
    (_, _, _, _) ← guarded (get_velocity_stats lease.landlord)
    publish (slash_event lease penalty_amount tenant_refund)

  unfoldable pub execute_deposit_slash_inner : Rental W ⊤
  execute_deposit_slash_inner = do
    accept_payload
    lease ← load_lease payload.lease_id
    raise_if (is_status lease.status dao_arbitration) LeaseError.dao_arbitration_not_enabled
    raise_if (not (is_status lease.status terminated) && not (is_status lease.status expired))
        LeaseError.lease_not_terminated
    raise_if (is_settled lease.deposit_status) LeaseError.deposit_already_settled
    guarded (initialize_lessor lease.landlord)
    guarded (check_velocity_limits env lease.landlord)
    total_deposit ← add_i128 lease.security_deposit lease.deposit_amount
    let penalty_amount = slash_penalty total_deposit payload.damage_severity
    let tenant_refund = slash_refund total_deposit payload.damage_severity
    hold_massive_slash penalty_amount
    settle_slash lease total_deposit penalty_amount tenant_refund

  unfoldable pub execute_deposit_slash : Rental W ⊤
  execute_deposit_slash = do
    acquire_reentrancy_lock
    result ← attempt execute_deposit_slash_inner
    release_reentrancy_lock
    of_result result
