-- ===== src/Rental/Types.antt =====
-- contracts/leaseflow_contracts/src/lib.rs: the data of the main contract, its errors and events.
-- Texts are lists of numbers; hashes, public keys and signatures are numbers.
use lease_flow_protocol_cont.Base.{ℕ, Bool, Option, List, ℤ, Address}

pub data DepositStatus : Type 0 where
  held settled disputed : DepositStatus

pub data LeaseStatus : Type 0 where
  pending active expired disputed terminated dao_arbitration : LeaseStatus

pub data MaintenanceStatus : Type 0 where
  nothing reported fixed verified : MaintenanceStatus

pub data DamageSeverity : Type 0 where
  normal_wear_and_tear minor moderate major severe catastrophic : DamageSeverity

pub data OracleStatus : Type 0 where
  active demoted failed : OracleStatus

pub data OracleTier : Type 0 where
  primary backup : OracleTier

-- Each field that the struct declares once, though the struct repeats some; less four that
-- `create_lease_instance` does not set (`paused`, `continuous_billing_enabled`,
-- `rent_treasury_address`, `yield_delegation_enabled`); and with the registry and the asset, which
-- the terminations read from a lease.
pub record LeaseInstance : Type 0 where
  pub landlord : Address
  pub tenant : Address
  pub rent_amount : ℤ
  pub deposit_amount : ℤ
  pub security_deposit : ℤ
  pub start_date : ℕ
  pub end_date : ℕ
  pub rent_paid_through : ℕ
  pub deposit_status : DepositStatus
  pub status : LeaseStatus
  pub property_uri : List ℕ
  pub nft_contract : Option Address
  pub token_id : Option ℕ
  pub debt : ℤ
  pub rent_paid : ℤ
  pub expiry_time : ℕ
  pub buyout_price : Option ℤ
  pub cumulative_payments : ℤ
  pub rent_per_sec : ℤ
  pub grace_period_end : ℕ
  pub late_fee_flat : ℤ
  pub late_fee_per_sec : ℤ
  pub seconds_late_charged : ℕ
  pub withdrawal_address : Option Address
  pub rent_withdrawn : ℤ
  pub arbitrators : List Address
  pub maintenance_status : MaintenanceStatus
  pub withheld_rent : ℤ
  pub repair_proof_hash : Option ℕ
  pub inspector : Option Address
  pub pause_reason : Option (List ℕ)
  pub paused_at : Option ℕ
  pub pause_initiator : Option Address
  pub total_paused_duration : ℕ
  pub rent_pull_authorized_amount : Option ℤ
  pub last_rent_pull_timestamp : Option ℕ
  pub billing_cycle_duration : ℕ
  pub yield_accumulated : ℤ
  pub equity_balance : ℤ
  pub equity_percentage_bps : ℕ
  pub pet_deposit_amount : ℤ
  pub pet_rent_amount : ℤ
  pub payment_token : Address
  pub flags : ℕ
  pub early_termination_fee_bps : Option ℕ
  pub fixed_penalty : Option ℤ
  pub lessor_reference_id : Option (List ℕ)
  pub asset_registry_address : Option Address
  pub asset_id : Option ℕ

-- With the registry and the asset, which `create_lease_instance` reads.
pub record CreateLeaseParams : Type 0 where
  pub tenant : Address
  pub rent_amount : ℤ
  pub deposit_amount : ℤ
  pub security_deposit : ℤ
  pub start_date : ℕ
  pub end_date : ℕ
  pub property_uri : List ℕ
  pub payment_token : Address
  pub arbitrators : List Address
  pub rent_per_sec : ℤ
  pub grace_period_end : ℕ
  pub late_fee_flat : ℤ
  pub late_fee_per_sec : ℤ
  pub equity_percentage_bps : ℕ
  pub has_pet : Bool
  pub pet_deposit_amount : ℤ
  pub pet_rent_amount : ℤ
  pub yield_delegation_enabled : Bool
  pub deposit_asset : Option Address
  pub dex_contract : Option Address
  pub max_slippage_bps : ℕ
  pub swap_path : List Address
  pub lessor_reference_id : Option (List ℕ)
  pub asset_registry_address : Option Address
  pub asset_id : Option ℕ

pub record HistoricalLease : Type 0 where
  pub lease : LeaseInstance
  pub terminated_by : Address
  pub terminated_at : ℕ

pub record HistoricalLeasePage : Type 0 where
  pub leases : List HistoricalLease
  pub next_cursor : Option ℕ

pub record TerminationSimulation : Type 0 where
  pub deposit_amount : ℤ
  pub penalty_amount : ℤ
  pub projected_refund : ℤ

pub record OraclePayload : Type 0 where
  pub lease_id : ℕ
  pub oracle_pubkey : ℕ
  pub damage_severity : DamageSeverity
  pub nonce : ℕ
  pub timestamp : ℕ
  pub signature : ℕ

pub record OracleConfig : Type 0 where
  pub pubkey : ℕ
  pub tier : OracleTier
  pub status : OracleStatus
  pub last_successful_timestamp : ℕ
  pub demotion_timestamp : Option ℕ
  pub failure_count : ℕ

pub record FallbackHierarchy : Type 0 where
  pub primary_oracle : ℕ
  pub backup_oracle : ℕ
  pub dao_arbitration_enabled : Bool
  pub hierarchy_active : Bool
  pub last_demotion_time : Option ℕ

-- The last two are used by the source and not declared in its enumeration.
pub data LeaseError : Type 0 where
  lease_not_found lease_not_expired rent_outstanding deposit_not_settled : LeaseError
  unauthorised invalid_deduction nft_transfer_failed usage_rights_not_found : LeaseError
  usage_rights_expired kyc_required invalid_asset nft_not_returned : LeaseError
  withdrawal_address_not_set not_an_arbitrator lease_already_exists : LeaseError
  upgrade_not_allowed path_payment_failed slippage_exceeded invalid_release_math : LeaseError
  oracle_not_whitelisted invalid_signature invalid_nonce lease_not_terminated : LeaseError
  deposit_already_settled yield_underflow insufficient_liquidity_buffer : LeaseError
  yield_protocol_not_whitelisted invalid_yield_distribution oracle_stale : LeaseError
  oracle_unavailable fallback_hierarchy_not_configured dao_arbitration_not_enabled : LeaseError
  oracle_bypass_attempt asset_not_owned asset_registry_invalid asset_freeze_failed : LeaseError
  asset_thaw_failed registry_call_failed asset_verification_failed : LeaseError
  velocity_limit_exceeded pending_veto : LeaseError

-- Each with the fields of its event in the source's order; the fixed texts that give the
-- reason of a flag, a demotion, a fallback and an arbitration are left out.
pub data RentalEvent : Type 0 where
  cross_asset_deposit_locked : ℕ → Address → Address → List Address → ℤ → ℤ → RentalEvent
  asset_ownership_verified : ℕ → Address → ℕ → Address → ℕ → ℕ → RentalEvent
  lease_signed : ℕ → List ℕ → RentalEvent
  rent_paid_partial : ℕ → Address → ℤ → RentalEvent
  rent_payment_executed : ℕ → Address → ℤ → ℕ → Option (List ℕ) → RentalEvent
  terminate_bounty_paid : ℕ → Address → ℤ → RentalEvent
  lease_terminated : ℕ → RentalEvent
  lease_terminated_with_velocity_guard : ℕ → Address → Address → Address → ℕ → ℕ → ℕ → RentalEvent
  asset_reclaimed : ℕ → List ℕ → RentalEvent
  maintenance_issue_reported : ℕ → Address → RentalEvent
  repair_proof_submitted : ℕ → Address → ℕ → RentalEvent
  maintenance_verified : ℕ → Address → ℤ → RentalEvent
  deposit_disputed : ℕ → Address → RentalEvent
  mutual_lease_finalized : ℕ → ℤ → ℤ → ℤ → ℤ → RentalEvent
  payment_late : ℕ → ℕ → ℤ → RentalEvent
  eviction_eligible : ℕ → Address → ℤ → RentalEvent
  roommate_added : ℕ → Address → RentalEvent
  tenant_flagged : ℕ → Address → RentalEvent
  deposit_slashed : ℕ → ℕ → ℕ → ℤ → ℤ → ℤ → Option (List ℕ) → RentalEvent
  oracle_demoted : ℕ → ℕ → ℕ → RentalEvent
  fallback_hierarchy_activated : ℕ → ℕ → ℕ → RentalEvent
  dao_arbitration_triggered : ℕ → ℕ → RentalEvent
