-- ===== src/Rental/Deposit.antt =====
-- contracts/leaseflow_contracts/src/lib.rs: disputes, settlements and the release of a deposit.
use lease_flow_protocol_cont.Base.{
  ℕ, Bool, not, ◌&&◌, ◌||◌, List, [], ◌∷◌, ◌==◌, ℤ, pos, ltb_ℤ, eqb_ℤ, Address, Env, ⊤, pure, gets,
  raise_if, when_some, ◌>>=◌, ◌>>◌, add_i128, sub_i128, mem, require_auth,
}
use lease_flow_protocol_cont.Rental.LeaseFlags
use lease_flow_protocol_cont.Rental.LeaseFlags.{clear_flag}
use lease_flow_protocol_cont.Rental.Types.{
  DepositStatus, LeaseStatus, active, expired, terminated, LeaseInstance, LeaseError, RentalEvent,
}
use lease_flow_protocol_cont.Rental.Store.{
  World, Rental, publish, load_lease, save_lease_instance, is_admin, is_status, delete_usage_rights,
  pay_out, send_nft,
}

abbrev pub settled : LeaseInstance → LeaseInstance
settled lease = record lease { status = terminated; deposit_status = DepositStatus.settled }

-- Whether a mutual release may happen in the status.
abbrev pub is_releasable : LeaseStatus → Bool
is_releasable status = is_status status active || is_status status expired

abbrev pub closed : LeaseInstance → LeaseInstance
closed lease = record lease {
  status = terminated;
  deposit_status = DepositStatus.settled;
  flags = clear_flag LeaseFlags.active lease.flags;
}

-- "Payment stream ran dry"
abbrev ran_dry : List ℕ
ran_dry =
    80 ∷ 97 ∷ 121 ∷ 109 ∷ 101 ∷ 110 ∷ 116 ∷ 32 ∷ 115 ∷ 116 ∷ 114 ∷ 101 ∷ 97 ∷ 109 ∷ 32 ∷ 114 ∷ 97
    ∷ 110 ∷ 32 ∷ 100 ∷ 114 ∷ 121 ∷ []

module _ {W : Type 0} where
  -- The amounts are arguments that the source does not read.
  unfoldable pub settle_deposit : Env → ℕ → Address → ℤ → ℤ → ℤ → Rental W ⊤
  settle_deposit env lease_id caller tenant_refund landlord_payout dao_payout = do
    lease ← load_lease lease_id
    admin ← gets (is_admin caller)
    raise_if (not (caller == lease.landlord) && not (caller == lease.tenant) && not admin)
        LeaseError.unauthorised
    require_auth env caller
    save_lease_instance lease_id (record lease { deposit_status = DepositStatus.settled })

  unfoldable pub reclaim_asset : Env → ℕ → Address → List ℕ → Rental W ⊤
  reclaim_asset env lease_id caller reason = do
    lease ← load_lease lease_id
    raise_if (not (caller == lease.landlord) && not (caller == lease.tenant))
        LeaseError.unauthorised
    require_auth env caller
    publish (RentalEvent.asset_reclaimed lease_id reason)

  unfoldable pub conclude_lease : Env → ℕ → Address → ℤ → Rental W ℤ
  conclude_lease env lease_id landlord damage_deduction = do
    lease ← load_lease lease_id
    raise_if (not (landlord == lease.landlord)) LeaseError.unauthorised
    require_auth env landlord
    raise_if (ltb_ℤ damage_deduction (pos 0) || ltb_ℤ lease.deposit_amount damage_deduction)
        LeaseError.invalid_deduction
    save_lease_instance lease_id (settled lease)
    sub_i128 lease.deposit_amount damage_deduction

  unfoldable pub dispute_deposit : Env → ℕ → Address → Rental W ⊤
  dispute_deposit env lease_id caller = do
    lease ← load_lease lease_id
    raise_if (not (caller == lease.landlord) && not (caller == lease.tenant))
        LeaseError.unauthorised
    require_auth env caller
    save_lease_instance lease_id
        (record lease { deposit_status = DepositStatus.disputed; status = LeaseStatus.disputed })
    publish (RentalEvent.deposit_disputed lease_id caller)

  unfoldable pub resolve_dispute : Env → ℕ → Address → ℤ → Rental W ℤ
  resolve_dispute env lease_id arbitrator damage_deduction = do
    lease ← load_lease lease_id
    raise_if (not (mem arbitrator lease.arbitrators)) LeaseError.not_an_arbitrator
    require_auth env arbitrator
    raise_if (ltb_ℤ damage_deduction (pos 0) || ltb_ℤ lease.security_deposit damage_deduction)
        LeaseError.invalid_deduction
    refund_amount ← sub_i128 lease.security_deposit damage_deduction
    save_lease_instance lease_id (settled lease)
    pure refund_amount

  -- `delete_usage_rights` and the return of the lease's token to the landlord.
  unfoldable pub return_nft : World W → Address → LeaseInstance → Rental W ⊤
  return_nft world self lease = when_some lease.nft_contract λ nft.
      when_some lease.token_id
        λ id. delete_usage_rights nft id >> send_nft world self nft id lease.landlord

  unfoldable pub reclaim : World W → Address → Env → ℕ → Address → Rental W ⊤
  reclaim world self env lease_id caller = do
    lease ← load_lease lease_id
    admin ← gets (is_admin caller)
    raise_if (not (caller == lease.landlord) && not admin) LeaseError.unauthorised
    require_auth env caller
    raise_if (ltb_ℤ (pos 0) lease.deposit_amount) LeaseError.deposit_not_settled
    return_nft world self lease
    save_lease_instance lease_id
        (record lease { status = terminated; flags = clear_flag LeaseFlags.active lease.flags })
    publish (RentalEvent.asset_reclaimed lease_id ran_dry)

  -- The deposits, which the two amounts have to add up to.
  unfoldable pub check_release : LeaseInstance → ℤ → ℤ → Rental W ⊤
  check_release lease return_amount slash_amount = do
    raise_if (not (is_releasable lease.status)) LeaseError.lease_not_found
    total_escrowed ← add_i128 lease.security_deposit lease.deposit_amount
    requested ← add_i128 return_amount slash_amount
    raise_if (not (eqb_ℤ requested total_escrowed)) LeaseError.invalid_release_math
    raise_if (ltb_ℤ return_amount (pos 0) || ltb_ℤ slash_amount (pos 0))
        LeaseError.invalid_release_math

  unfoldable pub mutual_deposit_release :
      World W → Address → Env → ℕ → Address → Address → ℤ → ℤ → Rental W ⊤
  mutual_deposit_release world self env lease_id lessee lessor return_amount slash_amount = do
    lease ← load_lease lease_id
    raise_if (not (lessee == lease.tenant) || not (lessor == lease.landlord))
        LeaseError.unauthorised
    require_auth env lessee
    require_auth env lessor
    check_release lease return_amount slash_amount
    pay_out world lease.payment_token self lease.tenant return_amount
    pay_out world lease.payment_token self lease.landlord slash_amount
    return_nft world self lease
    save_lease_instance lease_id (closed lease)
    publish (
        RentalEvent.mutual_lease_finalized lease_id return_amount slash_amount return_amount
          slash_amount)

  unfoldable pub init_mutual_release_fb : Env → ℕ → Address → ℤ → ℤ → Rental W ⊤
  init_mutual_release_fb env lease_id initiator return_amount slash_amount = do
    lease ← load_lease lease_id
    raise_if (not (initiator == lease.tenant) && not (initiator == lease.landlord))
        LeaseError.unauthorised
    require_auth env initiator
    check_release lease return_amount slash_amount
    save_lease_instance lease_id
        (record lease { deposit_status = DepositStatus.disputed; status = LeaseStatus.disputed })
    publish (RentalEvent.deposit_disputed lease_id initiator)
