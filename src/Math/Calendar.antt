-- ===== src/Math/Calendar.antt =====
-- crates/leaseflow_math/src/lib.rs: civil dates, by Howard Hinnant's algorithm.
-- Every subtraction of `timestamp_to_ymd` is one of natural numbers; Calendar/Bounds shows that none
-- goes below zero, so the truncated `-` is exact. Where a trap is possible the result is `none`.
pub mod Bounds
pub mod RoundTrip
pub mod Inverse
pub mod Billing
use lease_flow_protocol_cont.Base.{
  ℕ, ◌+◌, ◌-◌, ◌*◌, ◌/◌, ◌%◌, Bool, ◌&&◌, ◌||◌, not, Option, some, none, ltb, leb, ◌==◌,
  if◌then◌else◌, u32_max, u64_max, min,
}

-- Days since 0000-03-01 of the day that `timestamp` falls in.
abbrev pub civil_days : ℕ → ℕ
civil_days timestamp = timestamp / 86400 + 719468

-- Year of the 400-year era, from the day of the era.
abbrev pub year_of_era : ℕ → ℕ
year_of_era doe = (doe - doe / 1460 + doe / 36524 - doe / 146096) / 365

abbrev pub day_of_year : ℕ → ℕ → ℕ
day_of_year doe yoe = doe - (365 * yoe + yoe / 4 - yoe / 100)

-- From the shifted month (March is 0) and the year that starts in March.
abbrev pub month_of : ℕ → ℕ
month_of mp = if ltb mp 10 then mp + 3 else mp - 9

unfoldable pub timestamp_to_ymd : ℕ → ℕ × ℕ × ℕ
timestamp_to_ymd timestamp =
    let z = civil_days timestamp in
    let era = z / 146097 in
    let doe = z - era * 146097 in
    let yoe = year_of_era doe in
    let y = yoe + era * 400 in
    let doy = day_of_year doe yoe in
    let mp = (5 * doy + 2) / 153 in
    let d = doy - (153 * mp + 2) / 5 + 1 in
    let m = month_of mp in let year = if leb m 2 then y + 1 else y in (year, m % 256, d % 256)

unfoldable pub is_leap_year : ℕ → Bool
is_leap_year year = (year % 4 == 0 && not (year % 100 == 0)) || year % 400 == 0

unfoldable pub days_in_month : ℕ → ℕ → ℕ
unfolding is_leap_year
days_in_month year month =
    if month == 4 || (month == 6 || (month == 9 || month == 11))
    then 30
    else if month == 2
    then (if is_leap_year year then 29 else 28)
    else 31

-- The year that starts in March, and the months since then.
abbrev pub shifted_year : ℕ → ℕ → ℕ
shifted_year year month = if leb month 2 then year - 1 else year

abbrev pub shifted_month : ℕ → ℕ
shifted_month month = if leb month 2 then month + 9 else month - 3

abbrev pub days_from_civil : ℕ → ℕ → ℕ → ℕ
days_from_civil y m day =
    let era = y / 400 in
    let yoe = y - era * 400 in
    let doy = (153 * m + 2) / 5 + day - 1 in
    let doe = yoe * 365 + yoe / 4 - yoe / 100 + doy in era * 146097 + doe

-- `none`: `year - 1`, `day - 1` or the last product traps.
unfoldable pub ymd_to_timestamp : ℕ → ℕ → ℕ → Option ℕ
ymd_to_timestamp year month day =
    let m = shifted_month month in
    let seconds = (days_from_civil (shifted_year year month) m day - 719468) * 86400 in
    if leb month 2 && year == 0
    then none
    else if (153 * m + 2) / 5 + day == 0
    then none
    else if leb seconds u64_max
    then some seconds
    else none

-- The month and year `n` months after `month` of `year`, and the day kept within that month.
abbrev pub advanced : ℕ × ℕ × ℕ → ℕ → ℕ × ℕ × ℕ
advanced (year, month, day) n =
    let total_months = month - 1 + n in
    let new_month = (total_months % 12 + 1) % 256 in
    let new_year = year + total_months / 12 in
    let max_day = days_in_month new_year new_month % 256 in (new_year, new_month, min day max_day)

-- `none`: the count of months overflows u32, or the date's timestamp traps.
unfoldable pub next_billing_date : ℕ → ℕ → Option ℕ
next_billing_date inception_ts n =
    let (year, month, day) = timestamp_to_ymd inception_ts in
    let (new_year, new_month, clamped_day) = advanced (year, month, day) n in
    if leb (month - 1 + n) u32_max then ymd_to_timestamp new_year new_month clamped_day else none
