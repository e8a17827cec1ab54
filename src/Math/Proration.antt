-- ===== src/Math/Proration.antt =====
-- crates/leaseflow_math/src/lib.rs: prorated rent, the refund of an early termination and the split
-- of a deposit. The outer `Option` is a trap of `get_seconds_in_month`, the inner one Rust's result.
pub mod Laws
use lease_flow_protocol_cont.Base.{
  ℕ, ◌+◌, ◌-◌, ◌*◌, Bool, ◌||◌, Option, some, none, leb, ◌==◌, if◌then◌else◌, min, ℤ, pos, ◌+ℤ◌,
  ◌-ℤ◌, ◌*ℤ◌, ◌/ℤ◌, leb_ℤ, ltb_ℤ, fits, half_64, half_128, u64_max, wrap_i64,
}
use lease_flow_protocol_cont.Math.MonthSeconds.{get_seconds_in_month, ◌>>=◌}

-- `checked_mul` on u64.
unfoldable pub calculate_total_cost : ℕ → ℕ → Option ℕ
calculate_total_cost duration_secs rate_per_sec =
    let product = duration_secs * rate_per_sec in if leb product u64_max then some product else none

-- A checked i128 result.
abbrev pub i128 : ℤ → Option ℤ
i128 z = if fits half_128 z then some z else none

abbrev pub i64_max : ℤ
i64_max = pos 0x7fffffffffffffff

-- monthly_rent * seconds / seconds_in_month in i128; `none` on overflow or a zero divisor.
abbrev pub share_of_month : ℤ → ℕ → ℕ → Option ℤ
share_of_month monthly_rent seconds seconds_in_month =
    i128 (monthly_rent *ℤ pos seconds) >>= λ product.
    if seconds_in_month == 0 then none else i128 (product /ℤ pos seconds_in_month)

-- The part of `calculate_prorated_rent` after the month is known.
unfoldable pub prorate : ℤ → ℕ → ℕ → Option (ℤ × ℕ)
prorate monthly_rent duration_seconds seconds_in_month =
    if seconds_in_month == 0
    then none
    else share_of_month monthly_rent duration_seconds seconds_in_month >>= λ prorated_rent.
        if ltb_ℤ i64_max prorated_rent
        then none
        else some (wrap_i64 prorated_rent, duration_seconds)

unfoldable pub calculate_prorated_rent : ℤ → ℕ → ℕ → Option (Option (ℤ × ℕ))
calculate_prorated_rent monthly_rent start_timestamp end_timestamp =
    if leb end_timestamp start_timestamp || leb_ℤ monthly_rent (pos 0)
    then some none
    else get_seconds_in_month start_timestamp >>= λ seconds_in_month.
        some (prorate monthly_rent (end_timestamp - start_timestamp) seconds_in_month)

-- The part of `calculate_termination_refund` after the month is known.
unfoldable pub refund_unused : ℤ → ℕ → ℕ → ℤ → Option ℤ
unfolding ◌-ℤ◌
refund_unused monthly_rent unused_duration seconds_in_month paid_amount =
    let deduct = λ (refund : ℤ). if ltb_ℤ (pos 0) refund then refund -ℤ pos 1 else pos 0 in
    if seconds_in_month == 0
    then none
    else share_of_month monthly_rent unused_duration seconds_in_month >>= λ refund.
        if ltb_ℤ paid_amount refund
        then some (deduct paid_amount)
        else if ltb_ℤ i64_max refund
        then none
        else some (deduct (wrap_i64 refund))

unfoldable pub calculate_termination_refund : ℤ → ℕ → ℕ → ℕ → ℤ → Option (Option ℤ)
calculate_termination_refund monthly_rent original_start original_end termination_timestamp
      paid_amount =
    if leb termination_timestamp original_start || leb original_end termination_timestamp
    then some none
    else get_seconds_in_month termination_timestamp >>= λ seconds_in_month. some (
        refund_unused monthly_rent (original_end - termination_timestamp) seconds_in_month
          paid_amount)

unfoldable pub calculate_deposit_split : ℤ → ℕ → Option (ℤ × ℤ)
unfolding ◌-ℤ◌
calculate_deposit_split total_deposit landlord_bps =
    let landlord_pct = pos (min landlord_bps 10000) in
    i128 (total_deposit *ℤ landlord_pct) >>= λ product.
    let landlord_share = product /ℤ pos 10000 in
    i128 (total_deposit -ℤ landlord_share) >>= λ tenant_share. some (landlord_share, tenant_share)
