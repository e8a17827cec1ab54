-- ===== src/Math/FirstMonth.antt =====
-- contracts/leaseflow_contracts/src/proration.rs: the rent of the first month. Its calendar is that
-- of crates/leaseflow_math/src/lib.rs, function by function.
use lease_flow_protocol_cont.Base.{
  ℕ, ◌+◌, ◌-◌, ◌*◌, ◌/◌, ◌%◌, ◌≤◌, ◌<◌, ◌≡◌, refl, arith, some, ℤ, pos, negsuc, ◌*ℤ◌, ◌/ℤ◌, fits,
  half_128, ltb_ℤ, if◌then◌else◌, u64_max, mul_le,
}
use lease_flow_protocol_cont.Math.Calendar.{
  timestamp_to_ymd, days_in_month, ymd_to_timestamp, days_from_civil, shifted_year, shifted_month,
}
use lease_flow_protocol_cont.Math.Calendar.RoundTrip.{ymd_to_timestamp-timestamp_to_ymd}
use lease_flow_protocol_cont.Math.Calendar.Inverse.{IsDate, timestamp_to_ymd-IsDate}
use lease_flow_protocol_cont.Math.Calendar.Billing.{days_in_month_bounds}

-- i128 `saturating_mul`
abbrev pub saturating_mul_i128 : ℤ → ℤ → ℤ
saturating_mul_i128 a b =
    let p = a *ℤ b in
    if fits half_128 p
    then p
    else if ltb_ℤ p (pos 0)
    then negsuc (half_128 - 1)
    else pos (half_128 - 1)

unfoldable pub calculate_first_month_rent : ℕ → ℤ → ℤ
calculate_first_month_rent start_date rent_amount =
    let (year, month, day) = timestamp_to_ymd start_date in
    let total_month_secs = days_in_month year month * 86400 in
    let elapsed_secs = (day - 1) * 86400 + start_date % 86400 in
    let occupied_secs = total_month_secs - elapsed_secs in
    saturating_mul_i128 rent_amount (pos occupied_secs) /ℤ pos total_month_secs

first_day_low :
    (y m : ℕ) {d : ℕ}
    → 1970 ≤ y
    → IsDate y m d
    → 719468 ≤ days_from_civil (shifted_year y m) (shifted_month m) 1
first_day_low y m year date = ground (arith, date.month_low, date.month_high)

-- The first of the month, from the day of the month.
first_of_month :
    (y m d t first : ℕ)
    → 1970 ≤ y
    → IsDate y m d
    → ymd_to_timestamp y m d ≡ some t
    → ymd_to_timestamp y m 1 ≡ some first
    → first + (d - 1) * 86400 ≡ t
unfolding ymd_to_timestamp
first_of_month y m d t first year date e1 e2 =
    let low = first_day_low y m year date in let d_low = date.day_low in ground arith

first_rent :
    (start rent y m d first : ℕ)
    → timestamp_to_ymd start ≡ (y, m, d)
    → start ≤ u64_max
    → rent * 2678400 < half_128
    → IsDate y m d
    → first + (d - 1) * 86400 ≡ start / 86400 * 86400
    → let total = days_in_month y m * 86400 in
      (first ≤ start)
      × (start - first < total)
      × (calculate_first_month_rent start (pos rent)
          ≡ pos (rent * (total - (start - first)) / total))
unfolding calculate_first_month_rent
first_rent start rent y m d first e small fits date at =
    let total = days_in_month y m * 86400 in
    let elapsed : start - first ≡ (d - 1) * 86400 + start % 86400 = omega arith in
    let bounds = days_in_month_bounds y m in
    let product =
      mul_le rent (total - ((d - 1) * 86400 + start % 86400)) 2678400 (omega (arith, bounds.1)) in
    (omega arith, omega (arith, date.day_high, date.day_low), rw (e, elapsed) (ground arith))

-- For a u64 start and a rent from 0 up whose product with 31 days fits i128, the first rent is the
-- rent times what is left of the month, to the second, over the length of the month, rounded
-- down, where the month begins at its first day's timestamp, at or before the start and less than a month earlier.
pub calculate_first_month_rent_lem :
    (start rent first : ℕ)
    → start ≤ u64_max
    → rent * 2678400 < half_128
    → let (y, m, d) = timestamp_to_ymd start in
      ymd_to_timestamp y m 1 ≡ some first
      → let (y, m, d) = timestamp_to_ymd start in
        let total = days_in_month y m * 86400 in
        (first ≤ start)
        × (start - first < total)
        × (calculate_first_month_rent start (pos rent)
            ≡ pos (rent * (total - (start - first)) / total))
calculate_first_month_rent_lem start rent first small fits at =
    let (y, m, d) = timestamp_to_ymd start in
    let (date, year) = timestamp_to_ymd-IsDate start in
    first_rent start rent y m d first refl small fits date
      (first_of_month y m d _ first year date (ymd_to_timestamp-timestamp_to_ymd start small) at)
