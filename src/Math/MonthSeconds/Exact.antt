-- ===== src/Math/MonthSeconds/Exact.antt =====
-- What `get_seconds_in_month` returns, for every timestamp of the next thirty million years.
use lease_flow_protocol_cont.Base.{
  ℕ, suc, ◌+◌, ◌-◌, ◌*◌, ◌/◌, ◌%◌, ◌≤◌, ◌<◌, ◌^◌, ◌≡◌, ◌∙◌, refl, sym, ap, true, Bool-cases, inl,
  inr, Option, some, arith, if◌then◌else◌, ℤ, pos, negsuc, pos_part, neg_part, ◌+ℤ◌, ◌-ℤ◌, int_laws,
  +ℤ_pos,
}
use lease_flow_protocol_cont.Math.Calendar.{
  civil_days, is_leap_year, days_in_month, timestamp_to_ymd,
}
use lease_flow_protocol_cont.Math.MonthSeconds.{
  is_leap_year_i32, step_back, step_on, half_32, i32, ◌>>=◌, month_days, month_length_at,
  get_seconds_in_month, leap_years_before, as_i32, wrap_ℕ,
}
use lease_flow_protocol_cont.Math.MonthSeconds.Loops.{jan1, At, step_back-At, step_on-At}
use lease_flow_protocol_cont.Math.MonthSeconds.Month.{day_of_year_lem}

-- The year that the code first guesses, and the leap years that it counts up to that year.
abbrev pub guess : ℕ → ℕ
guess t = 1970 + t / 86400 / 365

abbrev leaps_to : ℕ → ℕ
leaps_to y = (y - 1968) / 4 - (y - 1900) / 100 + (y - 1600) / 400

leap_years_before_lem :
    (y : ℕ) → 1970 ≤ y → y < half_32 → leap_years_before (pos y) ≡ some (pos (leaps_to y))
unfolding ◌-ℤ◌ ◌+ℤ◌
leap_years_before_lem y h k = ground arith

-- The loops, from a first guess of the year and the days that remain.
abbrev search_from : ℤ × ℤ → Option ℕ
search_from s = step_back (suc (neg_part s.1)) s >>= λ s.
    step_on (suc (pos_part s.1)) s >>= λ (year', remaining').
    some (month_length_at 31 (month_days (is_leap_year_i32 year')) remaining' * 86400)

first_guess :
    (t : ℕ)
    → t < 2 ^ 50
    → get_seconds_in_month t
      ≡ search_from (pos (guess t), pos (t / 86400 % 365) -ℤ pos (leaps_to (guess t)))
unfolding get_seconds_in_month
first_guess t h =
    let unix : wrap_ℕ 0x8000000000000000 t ≡ pos t = ground arith in
    let years : as_i32 (pos (t / 86400 / 365)) ≡ pos (t / 86400 / 365) = ground arith in
    let year : i32 (pos 1970 +ℤ pos (t / 86400 / 365)) ≡ some (pos (guess t)) =
      ground (arith, +ℤ_pos 1970 (t / 86400 / 365)) in
    rw (unix, years, year, leap_years_before_lem (guess t) (omega arith) (omega arith))

-- The instant whose month the code measures: a day early if the first guess is a leap year, since
-- the leap day of that year is then counted before it has passed.
abbrev pub measured : ℕ → ℕ
measured t = if is_leap_year (guess t) then t - 86400 else t

jan1-leaps_to :
    (y : ℕ)
    → 1970 ≤ y
    → jan1 y + (if is_leap_year y then 1 else 0) ≡ 719468 + 365 * (y - 1970) + leaps_to y
unfolding is_leap_year
jan1-leaps_to y h = ground arith

leap_guess : (y : ℕ) → 1970 ≤ y → is_leap_year y ≡ true → 1972 ≤ y
unfolding is_leap_year
leap_guess y h e = ground arith

guess_day :
    (t : ℕ)
    → (jan1 (guess t) + t / 86400 % 365 ≡ civil_days (measured t) + leaps_to (guess t))
      × (719468 ≤ civil_days (measured t))
guess_day t =
    let y = guess t in
    let start = jan1-leaps_to y (omega arith) in
    elim (Bool-cases (is_leap_year y)) [
      | inl leap ↦
          let late = leap_guess y (omega arith) leap in
          let e : jan1 y + 1 ≡ 719468 + 365 * (y - 1970) + leaps_to y = rw leap at start in
          rw leap (omega arith, omega arith)
      | inr plain ↦
          let e : jan1 y + 0 ≡ 719468 + 365 * (y - 1970) + leaps_to y = rw plain at start in
          rw plain (omega arith, omega arith)
    ]

-- From where the first loop ends.
finish :
    (t : ℕ) (s : ℤ × ℤ)
    → civil_days (measured t) < 0x4000000000
    → At (civil_days (measured t)) s
    → neg_part s.1 ≡ 0
    → let (y, m, d) = timestamp_to_ymd (measured t) in
      (step_on (suc (pos_part s.1)) s >>= λ (year', remaining').
      some (month_length_at 31 (month_days (is_leap_year_i32 year')) remaining' * 86400))
      ≡ some (days_in_month y m * 86400)
finish t (year, negsuc n) high end done = absurd (omega arith)
finish t (year, pos n) high (y, e, from, _, at) done =
    let (y', n', ran, from', at', short) =
      step_on-At (suc n) (civil_days (measured t)) y n high from (omega arith) (omega arith) in
    rw (e, ran)
      (ap (λ (n : ℕ). some (n * 86400))
        (day_of_year_lem (measured t) y' n' (omega arith) short (sym at')))

-- Below 2^50 seconds the function returns the length, in seconds, of the month of an instant: the
-- given one, or the one a day earlier if the year 1970 + days / 365 is a leap year.
pub get_seconds_in_month_exact :
    (t : ℕ)
    → t < 2 ^ 50
    → let (y, m, d) = timestamp_to_ymd (measured t) in
      get_seconds_in_month t ≡ some (days_in_month y m * 86400)
get_seconds_in_month_exact t h =
    let g = guess t in
    let a = t / 86400 % 365 in
    let r = pos a -ℤ pos (leaps_to g) in
    let z = civil_days (measured t) in
    let (day, low) = guess_day t in
    let start : At z (pos g, r) = (g, refl, omega arith, omega arith, omega (int_laws, day)) in
    let (s, ran, end, done) =
      step_back-At (suc (neg_part r)) z (pos g, r) low start (omega arith) in
    first_guess t h ∙ rw ran (finish t s (omega arith) end done)
