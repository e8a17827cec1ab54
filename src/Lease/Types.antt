-- ===== src/Lease/Types.antt =====
-- contracts/leaseflow/src/lib.rs: the contract's data, errors and events, and its access to storage.
-- An `Address` is a number, which is only compared; `Bytes` are a list of numbers.
use lease_flow_protocol_cont.Base.{
  ℕ, Bool, Option, some, List, ◌∷◌, Map, ℤ, Action, gets, modify, or_trap, ◌>>=◌, ⊤, ◌≡◌, After,
  After-bind, After-gets, After-or_trap,
}

abbrev pub Address : Type 0
Address = ℕ

pub data LeaseState : Type 0 where
  pending active grace_period eviction_pending closed : LeaseState

pub data Error : Type 0 where
  insufficient_rent_funds lease_not_found invalid_state_transition unauthorized : Error
  grace_period_expired insufficient_deposit invalid_amount lease_already_active : Error
  lease_not_active eviction_already_pending late_fee_calculation_error : Error
  arrears_already_processed escrow_vault_underflow credit_record_error oracle_data_stale : Error
  oracle_price_manipulation volatility_circuit_breaker oracle_call_failed : Error
  invalid_fiat_peg_config : Error

pub record PriceData : Type 0 where
  pub price : ℤ
  pub timestamp : ℕ
  pub asset : Address
  pub decimals : ℕ

pub record OracleConfig : Type 0 where
  pub oracle_address : Address
  pub staleness_threshold : ℕ
  pub volatility_threshold : ℕ
  pub max_price_age : ℕ

pub record ProtocolCreditRecord : Type 0 where
  pub lessee : Address
  pub total_debt_amount : ℤ
  pub default_count : ℕ
  pub last_default_timestamp : ℕ
  pub associated_lease_ids : List ℕ

pub record EscrowVault : Type 0 where
  pub total_locked : ℤ
  pub available_balance : ℤ
  pub lessor_treasury : ℤ

pub record FiatPegConfig : Type 0 where
  pub enabled : Bool
  pub target_usd_amount : ℤ
  pub asset_address : Address
  pub oracle_address : Address
  pub staleness_threshold : ℕ
  pub volatility_threshold : ℕ

pub record Lease : Type 0 where
  pub lease_id : ℕ
  pub lessor : Address
  pub lessee : Address
  pub rent_amount : ℤ
  pub deposit_amount : ℤ
  pub start_date : ℕ
  pub end_date : ℕ
  pub state : LeaseState
  pub max_grace_period : ℕ
  pub late_fee_rate : ℕ
  pub dunning_start_timestamp : Option ℕ
  pub outstanding_balance : ℤ
  pub accumulated_late_fees : ℤ
  pub last_rent_payment_timestamp : ℕ
  pub property_uri : List ℕ
  pub arrears_processed : Bool
  pub prorated_initial_rent : ℤ
  pub total_paid_rent : ℤ
  pub fiat_peg_config : Option FiatPegConfig
  pub last_oracle_price : Option ℤ
  pub last_oracle_timestamp : Option ℕ

pub record ContractData : Type 0 where
  pub leases : Map Lease
  pub next_lease_id : ℕ
  pub escrow_vault : EscrowVault
  pub credit_records : Map ProtocolCreditRecord
  pub oracle_config : OracleConfig

pub data CalculationType : Type 0 where
  initialization termination : CalculationType

-- Each with the fields of its event in the source's order.
pub data Event : Type 0 where
  rent_delinquency_started : ℕ → ℕ → ℕ → ℤ → ℤ → Event
  lease_recovered : ℕ → ℕ → ℤ → ℤ → Event
  lease_created : ℕ → Address → Address → ℤ → ℤ → ℕ → ℕ → ℕ → ℕ → Event
  lease_activated : ℕ → ℕ → Event
  lease_eviction_pending : ℕ → ℕ → ℤ → Event
  deposit_slashed_for_arrears : ℕ → ℕ → ℤ → ℤ → ℤ → Event
  prorated_rent_calculated : ℕ → ℤ → ℕ → ℤ → CalculationType → Event
  fiat_pegged_rent_billed : ℕ → ℤ → ℤ → ℤ → ℕ → Address → Event

-- What the host and the other contracts give to one call: the ledger's time, the answer of the
-- n-th call of an oracle about an asset (`none`: it does not convert to `PriceData`), and the
-- SDK's conversion of an i64 to U256.
pub record Host : Type 0 where
  pub timestamp : ℕ
  pub get_price : ℕ → Address → Address → Option PriceData
  pub u256_from_i64 : ℤ → ℕ

-- The instance storage under DATA_KEY, and the events published so far, the latest first.
pub record Chain : Type 0 where
  pub stored : Option ContractData
  pub events : List Event

abbrev pub Call : Type 0 → Type 0
Call A = Action Chain Error A

-- `env.storage().instance().get(&DATA_KEY).unwrap()`
abbrev pub load : Call ContractData
load = gets (λ (c : Chain). c.stored) >>= λ o. or_trap o

abbrev pub store : ContractData → Call ⊤
store d = modify (λ c. record c { stored = some d })

abbrev pub publish : Event → Call ⊤
publish e = modify (λ c. record c { events = e ∷ c.events })

pub After-load :
    {B : Type 0} {Q : B → Chain → Type 0} {c : Chain} (f : ContractData → Call B)
    → ((d : ContractData) → c.stored ≡ some d → After Q c (f d))
    → After Q c (load >>= f)
After-load f h = After-bind load f (
    After-bind (gets (λ (c : Chain). c.stored)) (λ o. or_trap o)
      (After-gets (λ (c : Chain). c.stored) (After-or_trap _ h)))
