-- ===== src/Rental/Examples.antt =====
-- The theorems on contracts/leaseflow_contracts/src/lib.rs at concrete calls: the tenant 1, the
-- landlord 2, and the contract 100, which holds 5000 units of the token 8.
use lease_flow_protocol_cont.Base.{
  ℕ, ◌-◌, ◌*◌, ◌/◌, ◌≡◌, ◌≤◌, refl, arith, some, none, [], ◌∷◌, pos, ◌+ℤ◌, ◌-ℤ◌, ok, if_some, ◌>>=◌,
  Table,
}
use lease_flow_protocol_cont.Rental.Types.{
  DepositStatus, terminated, DamageSeverity, severe, major, minor, LeaseInstance, OraclePayload,
}
use lease_flow_protocol_cont.Velocity.Calls.{
  check_velocity_limits, cleanup_old_terminations, initialize_lessor, record_termination,
  update_portfolio_size, resized, get_velocity_stats,
}
use lease_flow_protocol_cont.Rental.LeaseFlags.{has_flag}
use lease_flow_protocol_cont.Rental.Store.{
  RentalStore, load_lease, guarded, pay_out, transfer_tokens, acquire_reentrancy_lock,
}
use lease_flow_protocol_cont.Rental.Deposit.{
  check_release, return_nft, mutual_deposit_release, dispute_deposit,
}
use lease_flow_protocol_cont.Rental.Maintenance.{
  charge_late_fees, charge_flat_fee, charge_seconds, check_tenant_default,
}
use lease_flow_protocol_cont.Rental.Termination.{
  bounty, pay_bounty, burn_tokens, terminate_lease, early_split, early_penalty, percentage_penalty,
  thaw_lease, execute_early_termination, simulate_termination,
}
use lease_flow_protocol_cont.Rental.Slash.{
  accept_payload, is_oracle_available, settle_slash, flag_tenant, hold_massive_slash,
  execute_deposit_slash_inner, slash_penalty, slash_refund, calculate_penalty_percentage,
  execute_deposit_slash,
}
use lease_flow_protocol_cont.Rental.Payment.{hand_over}
use lease_flow_protocol_cont.Rental.Oracle.{
  staleness_check, check_oracle_availability, get_oracle_config,
}
use lease_flow_protocol_cont.Rental.Books.{IsConsistent}
use lease_flow_protocol_cont.Rental.Endings.{
  EndedEarly, Released, execute_early_termination-EndedEarly, mutual_deposit_release-Released,
  ended,
}
use lease_flow_protocol_cont.Rental.Charges.{Charged, check_tenant_default-Charged}
use lease_flow_protocol_cont.Rental.Slashes.{
  Slashed, execute_deposit_slash-Slashed, slash_penalty-slash_refund,
}
use lease_flow_protocol_cont.Rental.Simulation.{
  AllReturned, result, simulate_termination-execute_early_termination,
}
use lease_flow_protocol_cont.Rental.Pages.{read_all, read_all-records}
use lease_flow_protocol_cont.Rental.Scene.{world, at_time, blank, lease, leased, leased_out}
use lease_flow_protocol_cont.Rental.OnTime.{EndedOnTime, terminate_lease-EndedOnTime}

-- A lease whose deposit is settled, and a fee of the platform whose tenth is 5.
abbrev over_lease : LeaseInstance
over_lease = record lease { deposit_status = DepositStatus.settled }

abbrev term_over : RentalStore Table
term_over = record leased {
  leases = (5, over_lease) ∷ [];
  platform_fee_amount = some (pos 50);
  platform_fee_token = some 8;
  platform_fee_recipient = some 1;
}

terminate_lease-EndedOnTime_example :
    EndedOnTime
      (at_time 200001)
      5
      over_lease
      2
      term_over
      (terminate_lease world (at_time 200001) 5 2 term_over).1
unfolding terminate_lease load_lease bounty pay_bounty transfer_tokens burn_tokens thaw_lease
    if_some ◌>>=◌
terminate_lease-EndedOnTime_example =
    (terminate_lease-EndedOnTime world (at_time 200001) term_over 5 over_lease refl 2).holds

-- The termination succeeds: 5000 seconds are left, whose tenth is 500.
execute_early_termination-EndedEarly_example :
    EndedEarly world 100
      (at_time 195000)
      5
      lease
      2
      leased_out
      (execute_early_termination world 100 (at_time 195000) 5 2 leased_out).1
unfolding execute_early_termination load_lease guarded early_split early_penalty percentage_penalty
    pay_out transfer_tokens hand_over thaw_lease check_velocity_limits cleanup_old_terminations
    initialize_lessor record_termination update_portfolio_size resized get_velocity_stats if_some
    ◌>>=◌ ◌+ℤ◌ ◌-ℤ◌
execute_early_termination-EndedEarly_example =
    (execute_early_termination-EndedEarly world 100 (at_time 195000) leased_out 5 lease refl 2
      (λ e. omega arith) (λ e. omega arith) (λ e. omega arith)).holds

mutual_deposit_release-Released_example :
    Released world 100
      (at_time 195000)
      5
      lease
      1
      2
      (pos 700)
      (pos 300)
      leased
      (mutual_deposit_release world 100 (at_time 195000) 5 1 2 (pos 700) (pos 300) leased).1
unfolding mutual_deposit_release check_release load_lease pay_out transfer_tokens return_nft if_some
    ◌>>=◌ ◌+ℤ◌
mutual_deposit_release-Released_example =
    (mutual_deposit_release-Released world 100 (at_time 195000) leased 5 lease refl 1 2 (pos 700)
      (pos 300) (λ e. omega arith) (λ e. omega arith) (λ e. omega arith)).holds

leased-Consistent : IsConsistent leased
unfolding ◌+ℤ◌ has_flag
leased-Consistent = record {
  books = (
    record {
      recorded = refl;
      released = refl;
      started = omega arith;
      covered = omega arith;
      charged = refl;
      bounded = omega arith;
      unarbitrated = refl;
    },
    tt,
  );
  counts = tt;
  unlocked = refl;
  inactive = refl;
}

-- 10000 seconds late at a fee of 2 per second, a flat fee of 50, and 60000 of rent.
check_tenant_default-Charged_example :
    Charged (at_time 160000) 5 lease (pos 80050) (check_tenant_default (at_time 160000) 5 leased).1
unfolding check_tenant_default charge_late_fees charge_flat_fee charge_seconds load_lease ◌>>=◌ ◌+ℤ◌
    ◌-ℤ◌ has_flag
check_tenant_default-Charged_example =
    (check_tenant_default-Charged (at_time 160000) leased leased-Consistent 5 lease refl).holds

abbrev payload : OraclePayload
payload = record {
  lease_id = 5;
  oracle_pubkey = 77;
  damage_severity = major;
  nonce = 4;
  timestamp = 250000;
  signature = 7;
}

abbrev terminated_lease : LeaseInstance
terminated_lease = record lease { status = terminated }

abbrev over : RentalStore Table
over = record leased_out { leases = (5, terminated_lease) ∷ [] }

execute_deposit_slash-Slashed_example :
    Slashed world 100
      (at_time 250100)
      payload
      terminated_lease
      over
      (execute_deposit_slash world 100 (at_time 250100) payload over).1
unfolding execute_deposit_slash execute_deposit_slash_inner accept_payload staleness_check
    is_oracle_available check_oracle_availability get_oracle_config settle_slash flag_tenant
    hold_massive_slash slash_penalty slash_refund calculate_penalty_percentage load_lease guarded
    acquire_reentrancy_lock pay_out transfer_tokens return_nft check_velocity_limits
    cleanup_old_terminations initialize_lessor record_termination update_portfolio_size resized
    get_velocity_stats if_some ◌>>=◌ ◌+ℤ◌ ◌-ℤ◌
execute_deposit_slash-Slashed_example =
    (execute_deposit_slash-Slashed world 100 (at_time 250100) payload terminated_lease
      (λ e. omega arith) (λ e. omega arith) (λ e. omega arith) over refl).holds

slash_penalty-slash_refund_example :
    let share : DamageSeverity → ℕ = λ x. 1001 * calculate_penalty_percentage x / 100 in
    (slash_penalty (pos 1001) minor ≡ pos (share minor))
    × (slash_refund (pos 1001) minor ≡ pos (1001 - share minor))
    × (share minor ≤ 1001)
    × (share minor ≤ share severe)
slash_penalty-slash_refund_example =
    slash_penalty-slash_refund 1001 minor severe (omega arith) (omega arith)

-- The lease without a fee, as it is created, and a termination 5000 seconds before its end.
abbrev plain_lease : LeaseInstance
plain_lease = record lease { early_termination_fee_bps = none }

abbrev plain : RentalStore Table
plain = record leased_out { leases = (5, plain_lease) ∷ [] }

simulate_termination-execute_early_termination_example :
    (simulate_termination 5 195000 plain ≡ (ok (result 1000 (pos 500)), plain))
    × AllReturned world plain_lease 1000 plain.tokens
        (execute_early_termination world 100 (at_time 195000) 5 2 plain).1.tokens
unfolding execute_early_termination load_lease guarded early_split early_penalty percentage_penalty
    pay_out transfer_tokens hand_over thaw_lease check_velocity_limits cleanup_old_terminations
    initialize_lessor record_termination update_portfolio_size resized get_velocity_stats if_some
    ◌>>=◌ ◌+ℤ◌ ◌-ℤ◌
simulate_termination-execute_early_termination_example =
    let both =
      simulate_termination-execute_early_termination world 100 (at_time 195000) plain 5 plain_lease
        2 1 1000 refl refl refl (λ e. omega arith) (λ e. omega arith) (λ e. omega arith) refl refl
        refl (omega arith) (omega arith) (omega arith) in
    (both.0, both.1.holds)

abbrev archive : RentalStore Table
archive = record blank {
  historical_leases =
      (5, ended (at_time 30) lease 1)
      ∷ (6, ended (at_time 20) lease 2)
      ∷ (7, ended (at_time 40) lease 2)
      ∷ [];
  historical_leases_index = 6 ∷ 5 ∷ 7 ∷ [];
}

read_all-records_example :
    read_all 4 none 2 archive
    ≡ some
        (ended (at_time 20) lease 2 ∷ ended (at_time 30) lease 1 ∷ ended (at_time 40) lease 2 ∷ [])
read_all-records_example =
    read_all-records archive 2 (omega arith) (refl, (refl, (refl, tt))) (omega arith)

-- A lease whose deposit was released can be disputed and then terminated early, and its deposit is
-- paid once more: the tenant of the lease 5 gets 700 and then 500.
abbrev released : RentalStore Table
released =
    (mutual_deposit_release world 100 (at_time 194000) 5 1 2 (pos 700) (pos 300) leased_out).1

paid_twice :
    let disputed : RentalStore Table = (dispute_deposit (at_time 194500) 5 1 released).1 in
    (execute_early_termination world 100 (at_time 195000) 5 1 disputed).1.tokens 8 1 ≡ 2100
unfolding execute_early_termination load_lease guarded early_split early_penalty percentage_penalty
    pay_out transfer_tokens hand_over thaw_lease check_velocity_limits cleanup_old_terminations
    initialize_lessor record_termination update_portfolio_size resized get_velocity_stats if_some
    mutual_deposit_release check_release return_nft dispute_deposit ◌>>=◌ ◌+ℤ◌ ◌-ℤ◌
paid_twice = refl
