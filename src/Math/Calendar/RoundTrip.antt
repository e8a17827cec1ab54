-- ===== src/Math/Calendar/RoundTrip.antt =====
-- From a timestamp to a date and back.
use lease_flow_protocol_cont.Base.{
  ℕ, ◌+◌, ◌-◌, ◌*◌, ◌/◌, ◌%◌, ◌≤◌, ◌<◌, ◌≡◌, ◌∙◌, some, arith, leb, if◌then◌else◌, u64_max,
}
use lease_flow_protocol_cont.Math.Calendar.{
  civil_days, year_of_era, day_of_year, month_of, timestamp_to_ymd, shifted_year, shifted_month,
  days_from_civil, ymd_to_timestamp,
}
use lease_flow_protocol_cont.Math.Calendar.Bounds.{year_of_era_lt, year_days_le, day_of_year_le}

-- The month that `month_of` gives is a month, and shifting it back gives the shifted month.
pub shifted_month-month_of :
    (mp : ℕ)
    → mp < 12
    → (shifted_month (month_of mp % 256) ≡ mp) × (1 ≤ month_of mp) × (month_of mp ≤ 12)
shifted_month-month_of mp h = ground arith

pub month_lt : (doy : ℕ) → doy ≤ 365 → (5 * doy + 2) / 153 < 12
month_lt doy h = omega arith

pub month_start_le : (doy : ℕ) → (153 * ((5 * doy + 2) / 153) + 2) / 5 ≤ doy
month_start_le doy = omega arith

pub month_length_le : (doy : ℕ) → doy ≤ 365 → doy - (153 * ((5 * doy + 2) / 153) + 2) / 5 ≤ 30
month_length_le doy h = omega arith

-- Every date has a month from 1 to 12 and a day from 1 to 31.
pub timestamp_to_ymd_range :
    (t : ℕ) → let (y, m, d) = timestamp_to_ymd t in (1 ≤ m) × (m ≤ 12) × (1 ≤ d) × (d ≤ 31)
unfolding timestamp_to_ymd
timestamp_to_ymd_range t =
    let doe = civil_days t - civil_days t / 146097 * 146097 in
    let doy = day_of_year doe (year_of_era doe) in
    let bound = day_of_year_le doe (omega arith) in
    omega (
      arith,
      shifted_month-month_of ((5 * doy + 2) / 153) (month_lt doy bound),
      month_start_le doy,
      month_length_le doy bound,
    )

-- The days of a date of the era, from its parts.
pub days_of_parts :
    (era yoe doy : ℕ)
    → yoe < 400
    → doy ≤ 365
    → let mp = (5 * doy + 2) / 153 in
      days_from_civil (yoe + era * 400) mp (doy - (153 * mp + 2) / 5 + 1)
      ≡ era * 146097 + (yoe * 365 + yoe / 4 - yoe / 100 + doy)
days_of_parts era yoe doy h k = omega (arith, month_start_le doy)

shifted_year_lem : (y m : ℕ) → m ≤ 12 → shifted_year (if leb m 2 then y + 1 else y) (m % 256) ≡ y
shifted_year_lem y m h = ground arith

civil_year_pos : (y m : ℕ) → 1 ≤ y → 1 ≤ (if leb m 2 then y + 1 else y)
civil_year_pos y m h = ground arith

-- A date whose parts are those of the day `z` goes back to that day.
ymd_of_parts :
    (year month day z : ℕ)
    → 719468 ≤ z
    → 1 ≤ year
    → 1 ≤ day
    → (z - 719468) * 86400 ≤ u64_max
    → days_from_civil (shifted_year year month) (shifted_month month) day ≡ z
    → ymd_to_timestamp year month day ≡ some ((z - 719468) * 86400)
unfolding ymd_to_timestamp
ymd_of_parts year month day z h1 h2 h3 h4 e = rw e (ground arith)

-- Converting a u64 timestamp to a date and back gives midnight of its day.
pub ymd_to_timestamp-timestamp_to_ymd :
    (t : ℕ)
    → t ≤ u64_max
    → let (y, m, d) = timestamp_to_ymd t in ymd_to_timestamp y m d ≡ some (t / 86400 * 86400)
unfolding timestamp_to_ymd
ymd_to_timestamp-timestamp_to_ymd t h =
    let era = civil_days t / 146097 in
    let doe = civil_days t - era * 146097 in
    let yoe = year_of_era doe in
    let doy = day_of_year doe yoe in
    let mp = (5 * doy + 2) / 153 in
    let d = doy - (153 * mp + 2) / 5 + 1 in
    let m = month_of mp in
    let y = yoe + era * 400 in
    let bound = day_of_year_le doe (omega arith) in
    let (shifted, m_low, m_high) = shifted_month-month_of mp (month_lt doy bound) in
    let year = (if leb m 2 then y + 1 else y) in
    let day_small = month_length_le doy bound in
    let day_eq : d % 256 ≡ d = omega (arith, day_small) in
    let seconds_eq : (civil_days t - 719468) * 86400 ≡ t / 86400 * 86400 = omega arith in
    rw day_eq (
      rw (← seconds_eq) (
        ymd_of_parts year (m % 256) d (civil_days t) (omega arith)
          (civil_year_pos y m (omega arith)) (omega arith) (omega arith)
          (rw (shifted, shifted_year_lem y m m_high)
            (days_of_parts era yoe doy (year_of_era_lt doe (omega arith)) bound
              ∙ omega (arith, year_days_le doe (omega arith))))))
