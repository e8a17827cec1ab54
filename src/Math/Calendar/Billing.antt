-- ===== src/Math/Calendar/Billing.antt =====
-- `next_billing_date`: the n-th billing date stands in the n-th month after the inception, on the
-- inception's day of the month or the last day of a shorter month.
use lease_flow_protocol_cont.Base.{
  ℕ, ◌+◌, ◌-◌, ◌/◌, ◌%◌, ◌≤◌, ◌<◌, ◌≡◌, ◌∙◌, ◌^◌, some, arith, u32_max, min,
}
use lease_flow_protocol_cont.Math.Calendar.{
  timestamp_to_ymd, ymd_to_timestamp, days_in_month, advanced, next_billing_date,
}
use lease_flow_protocol_cont.Math.Calendar.Inverse.{
  IsDate, timestamp_to_ymd-IsDate, timestamp_to_ymd-ymd_to_timestamp, timestamp_to_ymd-year_high,
  ymd_to_timestamp_total,
}

pub days_in_month_bounds : (y m : ℕ) → (28 ≤ days_in_month y m) × (days_in_month y m ≤ 31)
unfolding days_in_month
days_in_month_bounds y m = ground arith

advanced-IsDate :
    (y m d n : ℕ)
    → IsDate y m d
    → let (y', m', d') = advanced (y, m, d) n in IsDate y' m' d' × (y ≤ y')
advanced-IsDate y m d n h =
    let y' = y + (m - 1 + n) / 12 in
    let m' = ((m - 1 + n) % 12 + 1) % 256 in
    let b = days_in_month_bounds y' m' in
    (
      record {
        month_low = omega arith;
        month_high = omega arith;
        day_low = omega arith;
        day_high = omega arith;
      },
      omega arith,
    )

-- The casts to u8 change nothing.
advanced_lem :
    (y m d n : ℕ)
    → let y' = y + (m - 1 + n) / 12 in
      let m' = (m - 1 + n) % 12 + 1 in advanced (y, m, d) n ≡ (y', m', min d (days_in_month y' m'))
advanced_lem y m d n =
    let y' = y + (m - 1 + n) / 12 in
    let m' = (m - 1 + n) % 12 + 1 in
    let month_small : m' % 256 ≡ m' = omega arith in
    let length_small : days_in_month y' m' % 256 ≡ days_in_month y' m' =
      omega (arith, days_in_month_bounds y' m') in
    rw (month_small, length_small)

-- A billing date that exists is that of the advanced date.
next_billing_date-some :
    (t n : ℕ) {b : ℕ}
    → next_billing_date t n ≡ some b
    → let (y, m, d) = advanced (timestamp_to_ymd t) n in ymd_to_timestamp y m d ≡ some b
unfolding next_billing_date
next_billing_date-some t n e = ground arith

-- The n-th billing date, when there is one, falls (n + month - 1) / 12 years later, in the month n
-- months on, on the inception's day of the month or on the last day of the month if that is
-- sooner.
pub next_billing_date_civil :
    (t n : ℕ) {b : ℕ}
    → next_billing_date t n ≡ some b
    → let (y, m, d) = timestamp_to_ymd t in
      let y' = y + (m - 1 + n) / 12 in
      let m' = (m - 1 + n) % 12 + 1 in timestamp_to_ymd b ≡ (y', m', min d (days_in_month y' m'))
next_billing_date_civil t n e =
    let (y, m, d) = timestamp_to_ymd t in
    let (y', m', d') = advanced (y, m, d) n in
    let (date, low) = timestamp_to_ymd-IsDate t in
    let (next, later) = advanced-IsDate y m d n date in
    timestamp_to_ymd-ymd_to_timestamp y' m' d' (omega arith) next (next_billing_date-some t n e)
    ∙ advanced_lem y m d n

-- There is a billing date for every inception before 2^62 seconds and every count of months that
-- leaves room for eleven more in u32.
pub next_billing_date_total :
    (t n : ℕ) → t < 2 ^ 62 → n + 11 ≤ u32_max → (b : ℕ) × (next_billing_date t n ≡ some b)
unfolding next_billing_date
next_billing_date_total t n h k =
    let (y, m, d) = timestamp_to_ymd t in
    let (y', m', d') = advanced (y, m, d) n in
    let (date, low) = timestamp_to_ymd-IsDate t in
    let (next, later) = advanced-IsDate y m d n date in
    let (b, e) =
      ymd_to_timestamp_total y' m' d' (omega arith)
        (omega (arith, timestamp_to_ymd-year_high t, date.month_high)) next in
    (b, ground (arith, e, date.month_high))
