-- ===== src/Lease/Arrears.antt =====
-- contracts/leaseflow/src/lib.rs: the deduction of arrears from the deposit, the credit records,
-- and the expiry of the grace period that sets it off.
use lease_flow_protocol_cont.Base.{
  ℕ, ◌-◌, true, not, ◌||◌, Option, none, some, [], ◌∷◌, ◌++◌, lookup, insert, ltb, ◌==◌,
  if◌then◌else◌, ℤ, pos, ◌-ℤ◌, leb_ℤ, ltb_ℤ, ⊤, pure, branch, raise_if, or_raise, ◌>>=◌, ◌>>◌,
  add_u64, add_u32, add_i64, sub_i64, fits, half_64, negsuc, mem,
}
use lease_flow_protocol_cont.Lease.Types.{
  Address, grace_period, eviction_pending, Error, ProtocolCreditRecord, Lease, ContractData, Event,
  Host, Call, load, store, publish,
}
use lease_flow_protocol_cont.Lease.Create.{is_state}

unfoldable pub calculate_deduction_amount : ℤ → ℤ → Call ℤ
calculate_deduction_amount total_arrears deposit_amount = do
  raise_if (leb_ℤ total_arrears (pos 0) || leb_ℤ deposit_amount (pos 0)) Error.invalid_amount
  branch (leb_ℤ deposit_amount total_arrears) (pure deposit_amount) (pure total_arrears)

abbrev pub record_or_new : Address → Option ProtocolCreditRecord → ProtocolCreditRecord
record_or_new lessee none = record {
  lessee = lessee;
  total_debt_amount = pos 0;
  default_count = 0;
  last_default_timestamp = 0;
  associated_lease_ids = [];
}
record_or_new lessee (some r) = r

-- Returns the contract's data with the lessee's record brought up to date.
unfoldable pub update_credit_record : Host → ContractData → Address → ℤ → ℕ → Call ContractData
update_credit_record host data' lessee residual_debt lease_id = do
  let r = record_or_new lessee (lookup lessee data'.credit_records)
  debt ← add_i64 r.total_debt_amount residual_debt
  count ← add_u32 r.default_count 1
  let ids = r.associated_lease_ids
  let r' = record r {
    total_debt_amount = debt;
    default_count = count;
    last_default_timestamp = host.timestamp;
    associated_lease_ids = if mem lease_id ids then ids else ids ++ lease_id ∷ [];
  }
  pure (record data' { credit_records = insert lessee r' data'.credit_records })

-- i64 `saturating_sub`
abbrev pub saturating_sub_i64 : ℤ → ℤ → ℤ
saturating_sub_i64 a b =
    let d = a -ℤ b in
    if fits half_64 d
    then d
    else if ltb_ℤ d (pos 0)
    then negsuc 0x7fffffffffffffff
    else pos 0x7fffffffffffffff

unfoldable pub execute_arrears_deduction : Host → ℕ → Call ⊤
execute_arrears_deduction host lease_id = do
  data' ← load
  lease ← or_raise (lookup lease_id data'.leases) Error.lease_not_found
  raise_if (not (is_state lease.state eviction_pending)) Error.invalid_state_transition
  raise_if lease.arrears_processed Error.arrears_already_processed
  dunning_start ← or_raise lease.dunning_start_timestamp Error.invalid_state_transition
  total_arrears ← add_i64 lease.outstanding_balance lease.accumulated_late_fees
  deduction_amount ← calculate_deduction_amount total_arrears lease.deposit_amount
  let vault = data'.escrow_vault
  raise_if (ltb_ℤ vault.available_balance deduction_amount) Error.escrow_vault_underflow
  available_balance ← sub_i64 vault.available_balance deduction_amount
  lessor_treasury ← add_i64 vault.lessor_treasury deduction_amount
  let vault' = record vault {
    available_balance = available_balance;
    lessor_treasury = lessor_treasury;
  }
  let residual_debt = saturating_sub_i64 total_arrears deduction_amount
  let data_paid = record data' { escrow_vault = vault' }
  data_recorded ←
      branch (ltb_ℤ (pos 0) residual_debt)
        (update_credit_record host data_paid lease.lessee residual_debt lease_id) (pure data_paid)
  publish (
      Event.deposit_slashed_for_arrears lease_id (host.timestamp - dunning_start) deduction_amount
        available_balance residual_debt)
  store (record data_recorded {
    leases = insert lease_id (record lease { arrears_processed = true }) data_recorded.leases;
  })

-- The part of `check_grace_period_expiry` for a lease whose grace period is over.
unfoldable pub evict : Host → ContractData → ℕ → Lease → Call ⊤
evict host data' lease_id lease = do
  total_outstanding ← add_i64 lease.outstanding_balance lease.accumulated_late_fees
  publish (Event.lease_eviction_pending lease_id host.timestamp total_outstanding)
  store (record data' {
    leases = insert lease_id (record lease { state = eviction_pending }) data'.leases;
  })
  execute_arrears_deduction host lease_id

unfoldable pub check_grace_period_expiry : Host → ℕ → Call ⊤
check_grace_period_expiry host lease_id = do
  data' ← load
  lease ← or_raise (lookup lease_id data'.leases) Error.lease_not_found
  branch (is_state lease.state grace_period)
      (do
        dunning_start ← or_raise lease.dunning_start_timestamp Error.invalid_state_transition
        limit ← add_u64 dunning_start lease.max_grace_period
        branch (ltb limit host.timestamp) (evict host data' lease_id lease) (pure tt))
      (pure tt)

unfoldable pub trigger_grace_period_check : Host → ℕ → Address → Call ⊤
trigger_grace_period_check host lease_id caller = do
  data' ← load
  lease ← or_raise (lookup lease_id data'.leases) Error.lease_not_found
  raise_if (not (caller == lease.lessor)) Error.unauthorized
  check_grace_period_expiry host lease_id
