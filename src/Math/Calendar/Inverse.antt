-- ===== src/Math/Calendar/Inverse.antt =====
-- From a date to its timestamp and back.
use lease_flow_protocol_cont.Base.{
  ℕ, ◌+◌, ◌-◌, ◌*◌, ◌/◌, ◌%◌, ◌≤◌, ◌<◌, ◌≡◌, ◌⊎◌, some, arith, leb, if◌then◌else◌,
}
use lease_flow_protocol_cont.Math.Calendar.{
  civil_days, year_of_era, day_of_year, month_of, timestamp_to_ymd, shifted_year, shifted_month,
  days_from_civil, ymd_to_timestamp, days_in_month,
}
use lease_flow_protocol_cont.Math.Calendar.Bounds.{year_of_era_lt, year_days_le, day_of_year_le}

-- A day of the calendar.
pub record IsDate (year month day : ℕ) : Type 0 where
  pub month_low : 1 ≤ month
  pub month_high : month ≤ 12
  pub day_low : 1 ≤ day
  pub day_high : day ≤ days_in_month year month

-- The day `doy` of the year `yoe` of the era, counted from March, exists: day 365 is 29 February.
abbrev IsDayOf : ℕ → ℕ → Type 0
IsDayOf yoe doy =
    (doy < 365) ⊎ ((doy ≡ 365) × ((yoe + 1) % 4 ≡ 0) × ((¬ ((yoe + 1) % 100 ≡ 0)) ⊎ (yoe ≡ 399)))

year_of_era-year_days :
    (yoe doy : ℕ)
    → yoe < 400
    → IsDayOf yoe doy
    → year_of_era (yoe * 365 + yoe / 4 - yoe / 100 + doy) ≡ yoe
year_of_era-year_days yoe doy h v = omega arith

abbrev doy_of : ℕ → ℕ → ℕ
doy_of month day = (153 * shifted_month month + 2) / 5 + day - 1

abbrev yoe_of : ℕ → ℕ → ℕ
yoe_of year month = shifted_year year month - shifted_year year month / 400 * 400

IsDate-IsDayOf :
    (year month day : ℕ)
    → 1 ≤ year
    → IsDate year month day
    → IsDayOf (yoe_of year month) (doy_of month day)
unfolding days_in_month
IsDate-IsDayOf year month day p h = ground arith

IsDate-month :
    (year month day : ℕ)
    → IsDate year month day
    → (5 * doy_of month day + 2) / 153 ≡ shifted_month month
unfolding days_in_month
IsDate-month year month day h = ground arith

-- The date of a day that is given by its era, year and day of the year.
civil_of_parts :
    (t era yoe doy : ℕ)
    → yoe < 400
    → IsDayOf yoe doy
    → civil_days t ≡ era * 146097 + (yoe * 365 + yoe / 4 - yoe / 100 + doy)
    → let mp = (5 * doy + 2) / 153 in
      let y = yoe + era * 400 in
      timestamp_to_ymd t ≡ (
        (if leb (month_of mp) 2 then y + 1 else y),
        month_of mp % 256,
        (doy - (153 * mp + 2) / 5 + 1) % 256,
      )
unfolding timestamp_to_ymd
civil_of_parts t era yoe doy h v e =
    let doe = yoe * 365 + yoe / 4 - yoe / 100 + doy in
    let era_eq : civil_days t / 146097 ≡ era = omega arith in
    let doe_eq : civil_days t - era * 146097 ≡ doe = omega arith in
    let doy_eq : day_of_year doe yoe ≡ doy = omega arith in
    rw (era_eq, doe_eq, year_of_era-year_days yoe doy h v, doy_eq)

-- The parts of a valid date come back.
parts_of_date :
    (year month day : ℕ)
    → 1 ≤ year
    → IsDate year month day
    → let y = shifted_year year month in
      let mp = shifted_month month in
      ◌≡◌ {A = ℕ × ℕ × ℕ}
        (
          (if leb (month_of mp) 2 then y + 1 else y),
          month_of mp % 256,
          (doy_of month day - (153 * mp + 2) / 5 + 1) % 256,
        )
        (year, month, day)
unfolding days_in_month
parts_of_date year month day p h = ground arith

-- A day is the date whose days it has.
pub timestamp_to_ymd_of_days :
    (t year month day : ℕ)
    → 1 ≤ year
    → IsDate year month day
    → civil_days t ≡ days_from_civil (shifted_year year month) (shifted_month month) day
    → timestamp_to_ymd t ≡ (year, month, day)
timestamp_to_ymd_of_days t year month day low h days =
    let y = shifted_year year month in
    let yoe = yoe_of year month in
    let doy = doy_of month day in
    let valid = IsDate-IsDayOf year month day low h in
    let year_eq : yoe + y / 400 * 400 ≡ y = omega arith in
    rw
      (
        civil_of_parts t (y / 400) yoe doy (omega arith) valid days,
        IsDate-month year month day h,
        year_eq,
      )
      (parts_of_date year month day low h)

-- The timestamp of a valid date from 1970 on, if there is one, converts back to that date.
pub timestamp_to_ymd-ymd_to_timestamp :
    (year month day : ℕ) {t : ℕ}
    → 1970 ≤ year
    → IsDate year month day
    → ymd_to_timestamp year month day ≡ some t
    → timestamp_to_ymd t ≡ (year, month, day)
unfolding ymd_to_timestamp
timestamp_to_ymd-ymd_to_timestamp year month day {t} low h e =
    timestamp_to_ymd_of_days t year month day (omega arith) h (ground arith)

pub IsDayOf-day_of_year :
    (doe : ℕ) → doe < 146097 → IsDayOf (year_of_era doe) (day_of_year doe (year_of_era doe))
IsDayOf-day_of_year doe h = omega arith

month_length :
    (yoe doy era : ℕ)
    → IsDayOf yoe doy
    → yoe < 400
    → let mp = (5 * doy + 2) / 153 in
      let m = month_of mp in
      let y = yoe + era * 400 in
      doy - (153 * mp + 2) / 5 + 1 ≤ days_in_month (if leb m 2 then y + 1 else y) m
unfolding days_in_month
month_length yoe doy era v h = ground arith

year_low :
    (era yoe doy : ℕ)
    → yoe < 400
    → 719468 ≤ era * 146097 + (yoe * 365 + yoe / 4 - yoe / 100 + doy)
    → doy ≤ 365
    → let y = yoe + era * 400 in
      1970 ≤ (if leb (month_of ((5 * doy + 2) / 153)) 2 then y + 1 else y)
year_low era yoe doy h low d = ground arith

-- The date of every timestamp is a day of the calendar, from 1970 on.
pub timestamp_to_ymd-IsDate :
    (t : ℕ) → let (y, m, d) = timestamp_to_ymd t in IsDate y m d × (1970 ≤ y)
unfolding timestamp_to_ymd
timestamp_to_ymd-IsDate t =
    let era = civil_days t / 146097 in
    let doe = civil_days t - era * 146097 in
    let yoe = year_of_era doe in
    let doy = day_of_year doe yoe in
    let v = IsDayOf-day_of_year doe (omega arith) in
    let small = year_of_era_lt doe (omega arith) in
    let m_eq : month_of ((5 * doy + 2) / 153) % 256 ≡ month_of ((5 * doy + 2) / 153) =
      ground arith in
    let d_eq : (doy - (153 * ((5 * doy + 2) / 153) + 2) / 5 + 1) % 256
        ≡ doy - (153 * ((5 * doy + 2) / 153) + 2) / 5 + 1 =
      omega arith in
    rw (m_eq, d_eq)
      (
        record {
          month_low = ground arith;
          month_high = ground arith;
          day_low = omega arith;
          day_high = month_length yoe doy era v small;
        },
        year_low era yoe doy small (omega (arith, year_days_le doe (omega arith)))
            (day_of_year_le doe (omega arith)),
      )

days_in_month_high : (y m : ℕ) → days_in_month y m ≤ 31
unfolding days_in_month
days_in_month_high y m = ground arith

pub timestamp_to_ymd-year_high :
    (t : ℕ) → let (y, m, d) = timestamp_to_ymd t in 365 * (y - 1) ≤ civil_days t
unfolding timestamp_to_ymd
timestamp_to_ymd-year_high t =
    let doe = civil_days t - civil_days t / 146097 * 146097 in
    ground (arith, year_days_le doe (omega arith))

-- A date before the year 2^38 has a timestamp.
pub ymd_to_timestamp_total :
    (y m d : ℕ)
    → 1970 ≤ y
    → y < 0x4000000000
    → IsDate y m d
    → (t : ℕ) × (ymd_to_timestamp y m d ≡ some t)
unfolding ymd_to_timestamp
ymd_to_timestamp_total y m d low high h =
    let day_small : d ≤ 31 = ground (arith, h, days_in_month_high y m) in
    let s = (days_from_civil (shifted_year y m) (shifted_month m) d - 719468) * 86400 in
    (s, ground (arith, h))
