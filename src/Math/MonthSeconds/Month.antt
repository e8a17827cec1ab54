-- ===== src/Math/MonthSeconds/Month.antt =====
-- What `get_seconds_in_month` computes, in terms of the calendar.
use lease_flow_protocol_cont.Base.{
  ℕ, suc, ◌+◌, ◌-◌, ◌*◌, ◌/◌, ◌≤◌, ◌<◌, ◌≡◌, ◌∙◌, refl, sym, ap, Bool, true, false, arith, ◌&&◌,
  ◌||◌, leb, ◌==◌, zero, List, [], ◌∷◌, ltb, if◌then◌else◌, pos, ◌-ℤ◌,
}
use lease_flow_protocol_cont.Math.Calendar.{
  civil_days, days_from_civil, shifted_year, shifted_month, is_leap_year, days_in_month,
  timestamp_to_ymd,
}
use lease_flow_protocol_cont.Math.Calendar.Inverse.{IsDate, timestamp_to_ymd_of_days}
use lease_flow_protocol_cont.Math.MonthSeconds.{
  is_leap_year_i32, year_length, month_days, month_length_at,
}
use lease_flow_protocol_cont.Math.MonthSeconds.Loops.{jan1}

-- The month and day of the month of a day of the year.
walk : ℕ → List ℕ → ℕ → ℕ × ℕ
walk m [] k = (m, k + 1)
walk m (days ∷ rest) k =
    let later = walk (m + 1) rest (k - days) in if ltb k days then (m, k + 1) else later

leap_eq : (y : ℕ) → is_leap_year_i32 (pos y) ≡ is_leap_year y
unfolding is_leap_year_i32 is_leap_year
leap_eq y = ground arith

abbrev length_of : Bool → ℕ → ℕ
length_of leap month =
    if month == 4 || (month == 6 || (month == 9 || month == 11))
    then 30
    else if month == 2
    then (if leap then 29 else 28)
    else 31

-- The days of the year before a month.
abbrev days_before : Bool → ℕ → ℕ
days_before leap month =
    if ltb month 3
    then 31 * (month - 1)
    else (153 * (month - 3) + 2) / 5 + (if leap then 60 else 59)

days_in_month_lem : (y m : ℕ) → days_in_month y m ≡ length_of (is_leap_year y) m
unfolding days_in_month
days_in_month_lem y m = ground arith

days_of_month :
    (y m d : ℕ)
    → 1 ≤ y
    → 1 ≤ m
    → m ≤ 12
    → 1 ≤ d
    → days_from_civil (shifted_year y m) (shifted_month m) d
      ≡ jan1 y + (days_before (is_leap_year y) m + d - 1)
unfolding is_leap_year
days_of_month y m d h1 h2 h3 h4 = ground arith

-- Over a year, the month that the code finds is that of the day.
check_day : Bool → ℕ → Bool
check_day leap k =
    let (m, d) = walk 1 (month_days leap) k in
    leb 1 m
    && leb m 12
    && leb 1 d
    && leb d (length_of leap m)
    && days_before leap m + d - 1 == k
    && month_length_at 31 (month_days leap) (pos k) == length_of leap m

passes : (ℕ → Bool) → ℕ → Bool
passes test zero = true
passes test (suc last) = let before = passes test last in test last && before

passes-lt : (test : ℕ → Bool) (count k : ℕ) → k < count → passes test count ≡ true → test k ≡ true
unfolding passes
passes-lt test zero k h e = absurd (omega arith)
passes-lt test (suc last) k h e = ground (arith, passes-lt test last k)

check_leap : passes (check_day true) 366 ≡ true
unfolding passes check_day walk month_length_at ◌-ℤ◌
check_leap = refl

check_plain : passes (check_day false) 365 ≡ true
unfolding passes check_day walk month_length_at ◌-ℤ◌
check_plain = refl

check_year : (leap : Bool) (k : ℕ) → k < (if leap then 366 else 365) → check_day leap k ≡ true
check_year true k h = passes-lt (check_day true) 366 k h check_leap
check_year false k h = passes-lt (check_day false) 365 k h check_plain

day_found :
    (leap : Bool) (k : ℕ)
    → check_day leap k ≡ true
    → let (m, d) = walk 1 (month_days leap) k in
      (1 ≤ m)
      × (m ≤ 12)
      × (1 ≤ d)
      × (d ≤ length_of leap m)
      × (days_before leap m + d - 1 ≡ k)
      × (month_length_at 31 (month_days leap) (pos k) ≡ length_of leap m)
unfolding check_day
day_found leap k h = ground arith

-- The `k`-th day of a year, as the code finds its month.
pub day_of_year_lem :
    (t y k : ℕ)
    → 1 ≤ y
    → k < year_length (pos y)
    → civil_days t ≡ jan1 y + k
    → let leap = is_leap_year_i32 (pos y) in
      let (y', m, d) = timestamp_to_ymd t in
      month_length_at 31 (month_days leap) (pos k) ≡ days_in_month y' m
day_of_year_lem t y k low small at =
    let leap = is_leap_year y in
    let (m, d) = walk 1 (month_days leap) k in
    let year_eq = leap_eq y in
    let (m1, m12, d1, d_high, before, len) =
      day_found leap k (check_year leap k (rw year_eq at small)) in
    let date : IsDate y m d = record {
      month_low = m1;
      month_high = m12;
      day_low = d1;
      day_high = rw (days_in_month_lem y m) d_high;
    } in
    let civil =
      timestamp_to_ymd_of_days t y m d low date
        (at ∙ sym (days_of_month y m d low m1 m12 d1 ∙ ap (λ (n : ℕ). jan1 y + n) before)) in
    rw (civil, year_eq) (len ∙ sym (days_in_month_lem y m))
