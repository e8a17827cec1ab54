-- ===== src/Math/MonthSeconds.antt =====
-- crates/leaseflow_math/src/lib.rs: `get_seconds_in_month`, with the private `is_leap_year` on i32.
-- `none` is a trap of the checked i32 arithmetic. The two `while` loops recur on fuel; the bounds
-- that `get_seconds_in_month` passes suffice, by MonthSeconds/Loops.
pub mod Loops
pub mod Month
pub mod Exact
use lease_flow_protocol_cont.Base.{
  ℕ, zero, suc, ◌+◌, ◌-◌, ◌*◌, ◌%◌, Bool, true, false, ◌&&◌, ◌||◌, not, Option, some, none, List,
  [], ◌∷◌, ltb, leb, ◌==◌, if◌then◌else◌, ℤ, pos, negsuc, neg_ℕ, pos_part, neg_part, ◌+ℤ◌, ◌-ℤ◌,
  ◌/ℤ◌, ltb_ℤ, leb_ℤ, fits, length,
}

infixl 5 ◌>>=◌
abbrev pub ◌>>=◌ : {A B : Type 0} → Option A → (A → Option B) → Option B
none >>= f = none
some a >>= f = f a

abbrev pub half_32 : ℕ
half_32 = 0x80000000

-- A checked i32 result.
abbrev pub i32 : ℤ → Option ℤ
i32 z = if fits half_32 z then some z else none

-- The remainder has the sign of the dividend.
infixl 70 ◌%ℤ◌
abbrev pub ◌%ℤ◌ : ℤ → ℕ → ℤ
pos a %ℤ b = pos (a % b)
negsuc a %ℤ b = neg_ℕ (suc a % b)

-- `n as iN` of a natural number, for half = 2^(N-1).
abbrev pub wrap_ℕ : ℕ → ℕ → ℤ
wrap_ℕ half n = let r = n % (half * 2) in if ltb r half then pos r else negsuc (half * 2 - r - 1)

-- `z as i32` of an i64.
abbrev pub as_i32 : ℤ → ℤ
as_i32 (pos n) = wrap_ℕ half_32 n
as_i32 (negsuc n) =
    let r = n % (half_32 * 2) in if ltb r half_32 then negsuc r else pos (half_32 * 2 - r - 1)

abbrev pub abs : ℤ → ℕ
abs z = pos_part z + neg_part z

unfoldable pub is_leap_year_i32 : ℤ → Bool
is_leap_year_i32 year = (abs year % 4 == 0 && not (abs year % 100 == 0)) || abs year % 400 == 0

abbrev pub year_length : ℤ → ℕ
year_length year = if is_leap_year_i32 year then 366 else 365

-- The year and the days that remain, while the latter are negative.
pub step_back : ℕ → ℤ × ℤ → Option (ℤ × ℤ)
step_back zero s = some s
step_back (suc fuel) (year, remaining) = elim (ltb_ℤ remaining (pos 0)) [
  | false ↦ some (year, remaining)
  | true ↦ i32 (year -ℤ pos 1) >>= λ y. step_back fuel (y, remaining +ℤ pos (year_length y))
]

pub step_on : ℕ → ℤ × ℤ → Option (ℤ × ℤ)
step_on zero s = some s
step_on (suc fuel) (year, remaining) = elim (leb_ℤ (pos (year_length year)) remaining) [
  | false ↦ some (year, remaining)
  | true ↦ i32 (year +ℤ pos 1) >>= λ y. step_on fuel (y, remaining -ℤ pos (year_length year))
]

abbrev pub month_days : Bool → List ℕ
month_days leap =
    31 ∷ (if leap then 29 else 28) ∷ 31 ∷ 30 ∷ 31 ∷ 30 ∷ 31 ∷ 31 ∷ 30 ∷ 31 ∷ 30 ∷ 31 ∷ []

-- `month_days[month]` for the month that the `for` loop stops at; `month` stays 0 (the first
-- argument is its length) if no month is long enough.
unfoldable pub month_length_at : ℕ → List ℕ → ℤ → ℕ
month_length_at first [] remaining = first
month_length_at first (days ∷ rest) remaining =
    let later = month_length_at first rest (remaining -ℤ pos days) in
    if ltb_ℤ remaining (pos days) then days else later

abbrev pub leap_years_before : ℤ → Option ℤ
leap_years_before year = i32 (year -ℤ pos 1968) >>= λ a. i32 (year -ℤ pos 1900) >>= λ b.
    i32 (year -ℤ pos 1600) >>= λ c.
    i32 (a /ℤ pos 4 -ℤ b /ℤ pos 100) >>= λ d. i32 (d +ℤ c /ℤ pos 400)

unfoldable pub get_seconds_in_month : ℕ → Option ℕ
unfolding step_back step_on month_length_at is_leap_year_i32 ◌+ℤ◌ ◌-ℤ◌
get_seconds_in_month timestamp =
    let unix_time = wrap_ℕ 0x8000000000000000 timestamp in
    let days_since_epoch = unix_time /ℤ pos 86400 in
    i32 (pos 1970 +ℤ as_i32 (days_since_epoch /ℤ pos 365)) >>= λ year.
    leap_years_before year >>= λ leaps.
    let remaining = days_since_epoch %ℤ 365 -ℤ leaps in
    step_back (suc (neg_part remaining)) (year, remaining) >>= λ s.
    step_on (suc (pos_part s.1)) s >>= λ (year', remaining').
    some (month_length_at 31 (month_days (is_leap_year_i32 year')) remaining' * 86400)
