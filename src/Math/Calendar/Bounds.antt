-- ===== src/Math/Calendar/Bounds.antt =====
-- The ranges of the intermediate values of `timestamp_to_ymd`: no subtraction goes below zero.
use lease_flow_protocol_cont.Base.{ℕ, ◌+◌, ◌-◌, ◌*◌, ◌/◌, ◌≤◌, ◌<◌, arith}
use lease_flow_protocol_cont.Math.Calendar.{year_of_era, day_of_year}

pub year_of_era_lt : (doe : ℕ) → doe < 146097 → year_of_era doe < 400
year_of_era_lt doe h = omega arith

pub year_days_le :
    (doe : ℕ)
    → doe < 146097
    → 365 * year_of_era doe + year_of_era doe / 4 - year_of_era doe / 100 ≤ doe
year_days_le doe h = omega arith

pub day_of_year_le : (doe : ℕ) → doe < 146097 → day_of_year doe (year_of_era doe) ≤ 365
day_of_year_le doe h = omega arith
