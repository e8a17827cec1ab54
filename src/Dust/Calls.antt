-- ===== src/Dust/Calls.antt =====
-- contracts/leaseflow_contracts/src/dust_accounting.rs: the operations of the accounts.
use lease_flow_protocol_cont.Base.{
  checked, ℕ, Bool, true, false, List, [], ◌∷◌, ◌++◌, ℤ, pos, ◌+ℤ◌, ◌-ℤ◌, ◌*ℤ◌, ◌/ℤ◌, ltb_ℤ, eqb_ℤ,
  ltb, ◌==◌, not, if◌then◌else◌, Map, lookup, ⊤, pure, gets, modify, raise_if, or_raise, or_trap,
  branch, attempt, ◌>>=◌, ◌>>◌, add_i128, sub_i128, add_u32, add_u64, length, Res, ok, err, panic,
}
use lease_flow_protocol_cont.Dust.Types.{
  DustAccounting, MultiSignerDustResult, PartialSettlementDustResult, DustAccountingReport,
  DustAccountingError, Dust, accounting, calculation_overflow, no_dust,
}

abbrev pub safe_add : ℤ → ℤ → Dust ℤ
safe_add a b = or_raise (checked (a +ℤ b)) calculation_overflow

abbrev pub safe_sub : ℤ → ℤ → Dust ℤ
safe_sub a b = or_raise (checked (a -ℤ b)) calculation_overflow

abbrev pub safe_mul : ℤ → ℤ → Dust ℤ
safe_mul a b = or_raise (checked (a *ℤ b)) calculation_overflow

-- `iter().sum()`, with the sum so far.
unfoldable pub sum_i128 : ℤ → List ℤ → Dust ℤ
sum_i128 sum [] = pure sum
sum_i128 sum (x ∷ xs) = do next ← add_i128 sum x; sum_i128 next xs

unfoldable pub sum_bps : ℕ → Map ℕ → Dust ℕ
sum_bps sum [] = pure sum
sum_bps sum (ratio ∷ ratios) = do next ← add_u32 sum ratio.1; sum_bps next ratios

-- `iter().map(|(_, amount)| *amount)`
abbrev pub amounts : Map ℤ → List ℤ
amounts [] = []
amounts (entry ∷ entries) = entry.1 ∷ amounts entries

-- `total_amount * bps / 10000`
abbrev pub expected_share : ℤ → ℕ → Dust ℤ
expected_share total_amount bps = do
  product ← safe_mul total_amount (pos bps)
  pure (product /ℤ pos 10000)

-- The dust of a signer that is not the last.
abbrev pub dust_of_share : ℤ → ℕ → ℤ → ℤ → Dust ℤ
dust_of_share total_amount bps share dust_for_lease = do
  expected ← expected_share total_amount bps
  dust_diff ← sub_i128 expected share
  safe_add dust_for_lease dust_diff

-- The loop over the signers: the shares, and the dust of the lease.
unfoldable pub share_out : ℤ → Map ℕ → ℤ → ℤ → Dust (Map ℤ × ℤ)
share_out total_amount [] allocated_amount dust_for_lease = pure ([], dust_for_lease)
share_out total_amount ((signer, bps) ∷ []) allocated_amount dust_for_lease = do
  share ← sub_i128 total_amount allocated_amount
  _ ← safe_add allocated_amount share
  pure ((signer, share) ∷ [], dust_for_lease)
share_out total_amount ((signer, bps) ∷ ratio ∷ ratios) allocated_amount dust_for_lease = do
  share ← expected_share total_amount bps
  allocated ← safe_add allocated_amount share
  dust ← dust_of_share total_amount bps share dust_for_lease
  rest ← share_out total_amount (ratio ∷ ratios) allocated dust
  pure ((signer, share) ∷ rest.0, rest.1)

-- `lease_dust.push` and the count of the operations.
unfoldable pub record_dust : ℕ → ℤ → Dust ⊤
record_dust lease_id dust = do
  before ← gets (λ d. d.total_dust)
  total ← safe_add before dust
  modify λ d. record d { total_dust = total; lease_dust = d.lease_dust ++ (lease_id, dust) ∷ [] }
  count ← gets (λ d. d.dust_operations)
  operations ← add_u64 count 1
  modify λ d. record d { dust_operations = operations }

unfoldable pub note_dust : ℕ → ℤ → Dust ⊤
note_dust signer dust =
    branch (ltb_ℤ (pos 0) dust)
      (modify λ d. record d { signer_dust = d.signer_dust ++ (signer, dust) ∷ [] }) (pure tt)

unfoldable pub track_signers : ℤ → Map ℕ → Map ℤ → Dust ⊤
track_signers total_amount ratios [] = pure tt
track_signers total_amount ratios ((signer, share) ∷ shares) = do
  bps ← or_trap (lookup signer ratios)
  expected ← expected_share total_amount bps
  dust ← sub_i128 expected share
  note_dust signer dust
  track_signers total_amount ratios shares

unfoldable pub calculate_multi_signer_dust : ℤ → Map ℕ → ℕ → Dust MultiSignerDustResult
calculate_multi_signer_dust total_amount signer_ratios lease_id = do
  raise_if (ltb_ℤ total_amount (pos 0))
      (accounting (DustAccountingError.negative_amount total_amount))
  total_bps ← sum_bps 0 signer_ratios
  raise_if (ltb 10000 total_bps)
      (accounting (DustAccountingError.invalid_basis_points_sum total_bps))
  split ← share_out total_amount signer_ratios (pos 0) (pos 0)
  let (individual_shares, dust_for_lease) = split
  actual_sum ← sum_i128 (pos 0) (amounts individual_shares)
  raise_if (not (eqb_ℤ actual_sum total_amount)) (
      accounting
        (DustAccountingError.dust_accounting_mismatch total_amount actual_sum dust_for_lease))
  record_dust lease_id dust_for_lease
  track_signers total_amount signer_ratios individual_shares
  pure (record {
    individual_shares = individual_shares;
    dust_amount = dust_for_lease;
    lease_id = lease_id;
    verification_passed = true;
  })

unfoldable pub refuse_negative : List ℤ → Dust ⊤
refuse_negative [] = pure tt
refuse_negative (amount ∷ rest) = do
  raise_if (ltb_ℤ amount (pos 0))
      (accounting (DustAccountingError.negative_settlement_amount amount))
  refuse_negative rest

unfoldable pub calculate_partial_settlement_dust : ℤ → List ℤ → ℕ → Dust PartialSettlementDustResult
calculate_partial_settlement_dust total_available settlement_amounts lease_id = do
  raise_if (ltb_ℤ total_available (pos 0))
      (accounting (DustAccountingError.negative_amount total_available))
  refuse_negative settlement_amounts
  total_settlement ← sum_i128 (pos 0) settlement_amounts
  raise_if (ltb_ℤ total_available total_settlement) (
      accounting
        (DustAccountingError.settlement_exceeds_available total_settlement total_available))
  dust ← sub_i128 total_available total_settlement
  record_dust lease_id dust
  pure (record {
    settlement_amounts = settlement_amounts;
    dust_amount = dust;
    remaining_amount = dust;
    lease_id = lease_id;
  })

-- `remove` and `set` at the position of the first entry of the lease.
abbrev pub remove_first : ℕ → Map ℤ → Map ℤ
remove_first lease_id [] = []
remove_first lease_id (e ∷ entries) =
    let rest = remove_first lease_id entries in if lease_id == e.0 then entries else e ∷ rest

abbrev pub set_first : ℕ → ℤ → Map ℤ → Map ℤ
set_first lease_id dust [] = []
set_first lease_id dust (e ∷ entries) =
    let rest = set_first lease_id dust entries in
    if lease_id == e.0 then (lease_id, dust) ∷ entries else e ∷ rest

abbrev pub after_recovery : ℕ → ℤ → Map ℤ → Map ℤ
after_recovery lease_id remaining entries =
    if eqb_ℤ remaining (pos 0)
    then remove_first lease_id entries
    else set_first lease_id remaining entries

unfoldable pub recover_dust : ℕ → ℤ → Dust ⊤
recover_dust lease_id amount = do
  raise_if (ltb_ℤ amount (pos 0)) (accounting (DustAccountingError.negative_recovery_amount amount))
  entries ← gets (λ d. d.lease_dust)
  dust_amount ←
      or_raise (lookup lease_id entries)
        (accounting (DustAccountingError.no_dust_for_lease lease_id))
  raise_if (ltb_ℤ dust_amount amount)
      (accounting (DustAccountingError.recovery_exceeds_dust amount dust_amount))
  before ← gets (λ d. d.total_dust)
  total ← safe_sub before amount
  modify λ d. record d { total_dust = total }
  so_far ← gets (λ d. d.dust_recovered)
  recovered ← safe_add so_far amount
  modify λ d. record d { dust_recovered = recovered }
  remaining_dust ← safe_sub dust_amount amount
  modify λ d. record d { lease_dust = after_recovery lease_id remaining_dust d.lease_dust }

unfoldable pub verify_dust_accounting : Dust ⊤
verify_dust_accounting = do
  d ← gets (λ (d : DustAccounting). d)
  raise_if (ltb_ℤ d.total_dust (pos 0))
      (accounting (DustAccountingError.negative_total_dust d.total_dust))
  raise_if (ltb_ℤ d.total_dust d.dust_recovered)
      (accounting (DustAccountingError.recovery_exceeds_total d.dust_recovered d.total_dust))
  lease_dust_sum ← sum_i128 (pos 0) (amounts d.lease_dust)
  raise_if (not (eqb_ℤ lease_dust_sum d.total_dust))
      (accounting (DustAccountingError.lease_dust_mismatch lease_dust_sum d.total_dust))
  signer_dust_sum ← sum_i128 (pos 0) (amounts d.signer_dust)
  raise_if (ltb_ℤ d.total_dust signer_dust_sum)
      (accounting (DustAccountingError.signer_dust_exceeds_total signer_dust_sum d.total_dust))

-- `is_ok`
abbrev pub is_ok : {E A : Type 0} → Res E A → Bool
is_ok (ok a) = true
is_ok (err e) = false
is_ok panic = false

unfoldable pub get_dust_report : Dust DustAccountingReport
get_dust_report = do
  d ← gets (λ (d : DustAccounting). d)
  net ← sub_i128 d.total_dust d.dust_recovered
  verdict ← attempt verify_dust_accounting
  pure (record {
    total_dust = d.total_dust;
    dust_recovered = d.dust_recovered;
    dust_operations = d.dust_operations;
    active_leases_with_dust = length d.lease_dust;
    active_signers_with_dust = length d.signer_dust;
    net_dust = net;
    accounting_verified = is_ok verdict;
  })

unfoldable pub reset : Dust ⊤
reset = modify λ _. no_dust
