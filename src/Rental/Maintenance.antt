-- ===== src/Rental/Maintenance.antt =====
-- contracts/leaseflow_contracts/src/lib.rs: the repairs of a leased property, and late fees.
use lease_flow_protocol_cont.Base.{
  ℕ, ◌-◌, ◌/◌, not, some, ltb, ◌==◌, if◌then◌else◌, ℤ, pos, ltb_ℤ, leb_ℤ, ◌-ℤ◌, ◌*ℤ◌, saturate,
  half_128, Address, Env, ⊤, pure, raise_if, or_raise, branch, ◌>>=◌, ◌>>◌, add_i128, mul_i128,
  require_auth,
}
use lease_flow_protocol_cont.Rental.LeaseFlags
use lease_flow_protocol_cont.Rental.LeaseFlags.{has_flag, set_flag}
use lease_flow_protocol_cont.Rental.Types.{
  reported, fixed, verified, LeaseInstance, LeaseError, RentalEvent,
}
use lease_flow_protocol_cont.Rental.Store.{
  Rental, publish, load_lease, save_lease_instance, require, maintenance_code,
}

-- The rent of the time since the start that is not paid, from 0 up.
abbrev pub unpaid_rent : Env → LeaseInstance → ℤ
unpaid_rent env lease =
    let expected =
      saturate half_128 (pos (env.timestamp - lease.start_date) *ℤ lease.rent_per_sec) in
    let unpaid = saturate half_128 (expected -ℤ lease.rent_paid) in
    if ltb_ℤ (pos 0) unpaid then unpaid else pos 0

module _ {W : Type 0} where
  unfoldable pub set_inspector : Env → ℕ → Address → Address → Rental W ⊤
  set_inspector env lease_id landlord inspector = do
    lease ← load_lease lease_id
    raise_if (not (lease.landlord == landlord)) LeaseError.unauthorised
    require_auth env landlord
    save_lease_instance lease_id (record lease { inspector = some inspector })

  unfoldable pub report_maintenance_issue : Env → ℕ → Address → Rental W ⊤
  report_maintenance_issue env lease_id tenant = do
    lease ← load_lease lease_id
    raise_if (not (lease.tenant == tenant)) LeaseError.unauthorised
    require_auth env tenant
    save_lease_instance lease_id (record lease { maintenance_status = reported })
    publish (RentalEvent.maintenance_issue_reported lease_id tenant)

  unfoldable pub submit_repair_proof : Env → ℕ → Address → ℕ → Rental W ⊤
  submit_repair_proof env lease_id landlord proof_hash = do
    lease ← load_lease lease_id
    raise_if (not (lease.landlord == landlord)) LeaseError.unauthorised
    require_auth env landlord
    require (maintenance_code lease.maintenance_status == maintenance_code reported)
    save_lease_instance lease_id
        (record lease { maintenance_status = fixed; repair_proof_hash = some proof_hash })
    publish (RentalEvent.repair_proof_submitted lease_id landlord proof_hash)

  unfoldable pub verify_repair : Env → ℕ → Address → Rental W ⊤
  verify_repair env lease_id inspector = do
    lease ← load_lease lease_id
    expected ← or_raise lease.inspector LeaseError.unauthorised
    raise_if (not (expected == inspector)) LeaseError.unauthorised
    require_auth env inspector
    require (maintenance_code lease.maintenance_status == maintenance_code fixed)
    let released = lease.withheld_rent
    cumulative_payments ← add_i128 lease.cumulative_payments released
    rent_paid ← add_i128 lease.rent_paid released
    save_lease_instance lease_id (record lease {
      cumulative_payments = cumulative_payments;
      rent_paid = rent_paid;
      withheld_rent = pos 0;
      maintenance_status = verified;
    })
    publish (RentalEvent.maintenance_verified lease_id inspector released)

  -- The flat fee, once.
  unfoldable pub charge_flat_fee : LeaseInstance → Rental W LeaseInstance
  charge_flat_fee lease = branch (has_flag LeaseFlags.flat_fee_applied lease.flags) (pure lease) (do
    debt ← add_i128 lease.debt lease.late_fee_flat
    pure (record lease { debt = debt; flags = set_flag LeaseFlags.flat_fee_applied lease.flags }))

  -- The fee for the seconds that no call has charged.
  unfoldable pub charge_seconds : ℕ → LeaseInstance → Rental W LeaseInstance
  charge_seconds seconds_late lease =
      branch (ltb lease.seconds_late_charged seconds_late)
        (do
          fee ← mul_i128 (pos (seconds_late - lease.seconds_late_charged)) lease.late_fee_per_sec
          debt ← add_i128 lease.debt fee
          pure (record lease { debt = debt; seconds_late_charged = seconds_late }))
        (pure lease)

  unfoldable pub charge_late_fees : Env → ℕ → LeaseInstance → Rental W LeaseInstance
  charge_late_fees env lease_id lease =
      branch (ltb lease.grace_period_end env.timestamp)
        (do
          let seconds_late = env.timestamp - lease.grace_period_end
          flat ← charge_flat_fee lease
          charged ← charge_seconds seconds_late flat
          publish (RentalEvent.payment_late lease_id (seconds_late / 86400) charged.debt)
          pure charged)
        (pure lease)

  unfoldable pub check_tenant_default : Env → ℕ → Rental W ℤ
  check_tenant_default env lease_id = do
    found ← load_lease lease_id
    lease ← charge_late_fees env lease_id found
    total_debt ← add_i128 (unpaid_rent env lease) lease.debt
    branch (leb_ℤ (saturate half_128 (lease.rent_amount *ℤ pos 2)) total_debt)
        (publish (RentalEvent.eviction_eligible lease_id lease.tenant total_debt)) (pure tt)
    save_lease_instance lease_id lease
    pure total_debt
