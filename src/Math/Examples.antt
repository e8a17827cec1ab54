-- ===== src/Math/Examples.antt =====
-- The theorems on crates/leaseflow_math/src/lib.rs at concrete inputs.
use lease_flow_protocol_cont.Base.{
  negsuc, ◌-◌, ℕ, ◌*◌, ◌≤◌, ◌<◌, ◌≡◌, ◌⊎◌, refl, arith, some, pos, ◌+ℤ◌, ◌-ℤ◌, ◌≤ℤ◌, ◌<ℤ◌, min, ◌/◌,
  pos_part,
}
use lease_flow_protocol_cont.Math.Calendar.{
  timestamp_to_ymd, ymd_to_timestamp, next_billing_date, days_in_month,
}
use lease_flow_protocol_cont.Math.Calendar.RoundTrip.{ymd_to_timestamp-timestamp_to_ymd}
use lease_flow_protocol_cont.Math.Calendar.Inverse.{
  IsDate, timestamp_to_ymd-ymd_to_timestamp, timestamp_to_ymd-IsDate,
}
use lease_flow_protocol_cont.Math.Calendar.Billing.{
  next_billing_date_civil, next_billing_date_total,
}
use lease_flow_protocol_cont.Math.MonthSeconds.{get_seconds_in_month}
use lease_flow_protocol_cont.Math.MonthSeconds.Exact.{get_seconds_in_month_exact}
use lease_flow_protocol_cont.Math.Proration.{
  calculate_deposit_split, calculate_prorated_rent, calculate_termination_refund, prorate,
  refund_unused,
}
use lease_flow_protocol_cont.Math.FirstMonth.{
  calculate_first_month_rent, calculate_first_month_rent_lem,
}
use lease_flow_protocol_cont.Math.Proration.Laws.{
  calculate_deposit_split_conserves, calculate_prorated_rent_exact,
  calculate_termination_refund_bounds,
}

ymd_to_timestamp-timestamp_to_ymd_example : ymd_to_timestamp 2024 2 29 ≡ some 1709164800
unfolding timestamp_to_ymd
ymd_to_timestamp-timestamp_to_ymd_example =
    ymd_to_timestamp-timestamp_to_ymd 1709200000 (omega arith)

leap_day : IsDate 2024 2 29
unfolding days_in_month
leap_day = record {
  month_low = omega arith;
  month_high = omega arith;
  day_low = omega arith;
  day_high = omega arith;
}

timestamp_to_ymd-ymd_to_timestamp_example : timestamp_to_ymd 1709164800 ≡ (2024, 2, 29)
timestamp_to_ymd-ymd_to_timestamp_example =
    timestamp_to_ymd-ymd_to_timestamp 2024 2 29 (omega arith) leap_day
      ymd_to_timestamp-timestamp_to_ymd_example

timestamp_to_ymd-IsDate_example : IsDate 2024 2 29 × (1970 ≤ 2024)
unfolding timestamp_to_ymd
timestamp_to_ymd-IsDate_example = timestamp_to_ymd-IsDate 1709200000

-- From 31 January 2024, the first billing date is 29 February.
first_of_leap_year : next_billing_date 1706659200 1 ≡ some 1709164800
unfolding next_billing_date timestamp_to_ymd ymd_to_timestamp days_in_month
first_of_leap_year = refl

next_billing_date_civil_example : timestamp_to_ymd 1709164800 ≡ (2024, 2, 29)
unfolding timestamp_to_ymd days_in_month
next_billing_date_civil_example = next_billing_date_civil 1706659200 1 first_of_leap_year

next_billing_date_total_example : (b : ℕ) × (next_billing_date 1706659200 13 ≡ some b)
next_billing_date_total_example = next_billing_date_total 1706659200 13 (omega arith) (omega arith)

-- 1 February 2024: the month that the code measures is January.
get_seconds_in_month_exact_example : get_seconds_in_month 1706745600 ≡ some (31 * 86400)
unfolding timestamp_to_ymd days_in_month
get_seconds_in_month_exact_example = get_seconds_in_month_exact 1706745600 (omega arith)

split_run : calculate_deposit_split (pos 1001) 2500 ≡ some (pos 250, pos 751)
unfolding calculate_deposit_split ◌-ℤ◌
split_run = refl

calculate_deposit_split_conserves_example :
    (pos 250 +ℤ pos 751 ≡ pos 1001)
    × ((pos 1001 <ℤ pos 0)
        ⊎ ((pos 0 ≤ℤ pos 751) × (pos 250 ≡ pos (pos_part (pos 1001) * min 2500 10000 / 10000))))
calculate_deposit_split_conserves_example =
    calculate_deposit_split_conserves (pos 1001) 2500 split_run

-- Half of March 2023, 31 days long.
calculate_prorated_rent_exact_example :
    calculate_prorated_rent (pos 3100) 1677628800 1678924800 ≡ some (some (pos 1500, 1296000))
unfolding timestamp_to_ymd days_in_month
calculate_prorated_rent_exact_example =
    calculate_prorated_rent_exact 3100 1677628800 1678924800 (omega arith) (omega arith)
      (omega arith)

-- Thirty days from 15 February 2023 cost more than the rent of a month.
prorated_above_rent :
    calculate_prorated_rent (pos 2800) 1676419200 1679011200 ≡ some (some (pos 3000, 2592000))
unfolding calculate_prorated_rent get_seconds_in_month prorate
prorated_above_rent = refl

refund_run :
    calculate_termination_refund (pos 3100) 1677628800 1680307200 1678924800 (pos 3100)
    ≡ some (some (pos 1599))
unfolding calculate_termination_refund get_seconds_in_month refund_unused
refund_run = refl

-- Of a rent below 0 the cast wraps: nothing was paid, and the refund is 2^62 - 1.
refund_wraps :
    calculate_termination_refund
      (negsuc 0x3fffffffffffffff)
      1677628800
      1685750400
      1677715200
      (pos 0)
    ≡ some (some (pos 0x3fffffffffffffff))
unfolding calculate_termination_refund get_seconds_in_month refund_unused
refund_wraps = refl

calculate_termination_refund_bounds_example :
    (1677628800 < 1678924800)
    × (1678924800 < 1680307200)
    × (pos 0 ≤ℤ pos 1599)
    × ((pos 1599 ≡ pos 0) ⊎ (pos 1599 <ℤ pos 3100))
calculate_termination_refund_bounds_example =
    calculate_termination_refund_bounds 3100 1677628800 1680307200 1678924800 (pos 3100) refund_run

-- Moving in on 15 February 2023, half of the month is left.
calculate_first_month_rent_lem_example :
    (1675209600 ≤ 1676419200)
    × (1676419200 - 1675209600 < 2419200)
    × (calculate_first_month_rent 1676419200 (pos 3000) ≡ pos 1500)
unfolding timestamp_to_ymd days_in_month ymd_to_timestamp
calculate_first_month_rent_lem_example =
    calculate_first_month_rent_lem 1676419200 3000 1675209600 (omega arith) (omega arith) refl
