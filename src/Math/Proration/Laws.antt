-- ===== src/Math/Proration/Laws.antt =====
-- Prorated amounts against exact fractions, and who gets what of a deposit.
use lease_flow_protocol_cont.Base.{
  ℕ, ◌-◌, ◌*◌, ◌/◌, ◌≤◌, ◌<◌, ◌≡◌, ◌⊎◌, ◌^◌, ◌||◌, leb, ◌==◌, Option-cases, inl, inr, some, none,
  arith, ltb, if◌then◌else◌, suc, min, ℤ, pos, negsuc, ◌+ℤ◌, ◌≤ℤ◌, ◌<ℤ◌, half_64, half_128, u64_max,
  pos_part, mul_le,
}
use lease_flow_protocol_cont.Math.Calendar.{days_in_month, timestamp_to_ymd}
use lease_flow_protocol_cont.Math.Calendar.Billing.{days_in_month_bounds}
use lease_flow_protocol_cont.Math.MonthSeconds.{get_seconds_in_month}
use lease_flow_protocol_cont.Math.MonthSeconds.Exact.{measured, get_seconds_in_month_exact}
use lease_flow_protocol_cont.Math.Proration.{
  calculate_prorated_rent, prorate, refund_unused, calculate_termination_refund,
  calculate_deposit_split,
}

mul_min_le : (n bps : ℕ) → n * min bps 10000 ≤ n * 10000
mul_min_le n bps = mul_le n (min bps 10000) 10000 (omega arith)

-- A split that is computed conserves the deposit; and unless the deposit is negative, the tenant's
-- share is not negative and the landlord's is the part of the deposit, rounded down, that the
-- basis points (at most 10000) say.
pub calculate_deposit_split_conserves :
    (total : ℤ) (bps : ℕ) {landlord tenant : ℤ}
    → calculate_deposit_split total bps ≡ some (landlord, tenant)
    → (landlord +ℤ tenant ≡ total)
      × ((total <ℤ pos 0)
          ⊎ ((pos 0 ≤ℤ tenant) × (landlord ≡ pos (pos_part total * min bps 10000 / 10000))))
unfolding calculate_deposit_split ◌+ℤ◌
calculate_deposit_split_conserves (pos n) bps e =
    let le = mul_min_le n bps in (ground arith, inr (ground arith, ground arith))
calculate_deposit_split_conserves (negsuc n) bps e =
    (ground (arith, mul_min_le (suc n) bps), inl (omega arith))

product_fits :
    (rent duration : ℕ) → rent < half_64 → duration ≤ u64_max → rent * duration < half_128
product_fits rent duration h k = grind arith

-- For an i64 rent and a u64 duration the i128 product never overflows.
prorate_floor :
    (rent duration month : ℕ)
    → rent < half_64
    → duration ≤ u64_max
    → 0 < month
    → let floor = rent * duration / month in
      prorate (pos rent) duration month
      ≡ (if ltb floor half_64 then some (pos floor, duration) else none)
unfolding prorate
prorate_floor rent duration month h1 h2 h3 =
    let small = product_fits rent duration h1 h2 in
    let floor_small : rent * duration / month ≤ rent * duration = omega arith in ground arith

refund_unused_bounds :
    (rent unused month : ℕ) (paid : ℤ) {r : ℤ}
    → refund_unused (pos rent) unused month paid ≡ some r
    → (pos 0 ≤ℤ r) × ((r ≡ pos 0) ⊎ (r <ℤ paid))
unfolding refund_unused
refund_unused_bounds rent unused month paid e = ground arith

-- For every start below 2^50 seconds and rent from 0 up in i64, the prorated rent is the rent times
-- the duration
-- over the seconds of the month measured at the start, rounded down, with the duration; it is
-- refused exactly if the period is empty, the rent is zero or the result does not fit i64.
pub calculate_prorated_rent_exact :
    (rent start end : ℕ)
    → rent < half_64
    → end ≤ u64_max
    → start < 2 ^ 50
    → let (y, m, d) = timestamp_to_ymd (measured start) in
      let floor = rent * (end - start) / (days_in_month y m * 86400) in
      calculate_prorated_rent (pos rent) start end
      ≡ some (
          if leb end start || (rent == 0 || leb half_64 floor)
          then none
          else some (pos floor, end - start))
unfolding calculate_prorated_rent
calculate_prorated_rent_exact rent start end h1 h2 h3 =
    let (y, m, d) = timestamp_to_ymd (measured start) in
    let month = days_in_month y m * 86400 in
    let positive : 0 < month = omega (arith, days_in_month_bounds y m) in
    rw (get_seconds_in_month_exact start h3)
      (ground (arith, prorate_floor rent (end - start) month h1 (omega arith) positive))

-- For a rent from 0 up, a refund is computed only strictly inside the lease's term; it is never
-- negative, and it is zero or below what was paid.
pub calculate_termination_refund_bounds :
    (rent start end at : ℕ) (paid : ℤ) {r : ℤ}
    → calculate_termination_refund (pos rent) start end at paid ≡ some (some r)
    → (start < at) × (at < end) × (pos 0 ≤ℤ r) × ((r ≡ pos 0) ⊎ (r <ℤ paid))
unfolding calculate_termination_refund
calculate_termination_refund_bounds rent start end at paid {r} e =
    elim (Option-cases (get_seconds_in_month at)) [
      | inl trapped ↦ ground arith
      | inr (month, found) ↦
          let bounds = refund_unused_bounds rent (end - at) month paid {r = r} (ground arith) in
          (ground arith, ground arith, bounds.0, bounds.1)
    ]
