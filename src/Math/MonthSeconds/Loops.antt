-- ===== src/Math/MonthSeconds/Loops.antt =====
-- The loops of `get_seconds_in_month` end by their tests, at the year and the day of the year of
-- the day number that they start from.
use lease_flow_protocol_cont.Base.{
  ℕ, zero, suc, ◌+◌, ◌-◌, ◌*◌, ◌≤◌, ◌<◌, ◌≡◌, ◌∙◌, refl, some, arith, ℤ, pos, negsuc, pos_part,
  neg_part, ◌+ℤ◌, ◌-ℤ◌, int_laws, -ℤ_pos, +ℤ_pos,
}
use native.Mathlib.Decide.{dec_lt}
use lease_flow_protocol_cont.Math.Calendar.{days_from_civil}
use lease_flow_protocol_cont.Math.MonthSeconds.{
  is_leap_year_i32, year_length, step_back, step_on, half_32,
}

-- The days before 1 January of a year, from 0000-03-01.
abbrev pub jan1 : ℕ → ℕ
jan1 y = days_from_civil (y - 1) 10 1

pub jan1-suc : (y : ℕ) → 1 ≤ y → jan1 (y + 1) ≡ jan1 y + year_length (pos y)
unfolding is_leap_year_i32
jan1-suc y h = ground arith

jan1-gt : (y : ℕ) → 719468 < jan1 y → 1970 < y
jan1-gt y h = omega arith

year_length_bounds : (y : ℤ) → (365 ≤ year_length y) × (year_length y ≤ 366)
year_length_bounds y = ground arith

prev_year : (y : ℕ) → 1 ≤ y → pos y -ℤ pos 1 ≡ pos (y - 1)
prev_year y h = -ℤ_pos y 1 h

jan1-pred : (y : ℕ) → 2 ≤ y → jan1 y ≡ jan1 (y - 1) + year_length (pos (y - 1))
unfolding is_leap_year_i32
jan1-pred y h = ground arith

jan1-high : (y : ℕ) → 1 ≤ y → 365 * (y - 1) ≤ jan1 y
jan1-high y h = omega arith

-- The loops' state stands for the day `z`.
abbrev pub At : ℕ → ℤ × ℤ → Type 0
At z (year, remaining) =
    (y : ℕ) × (year ≡ pos y)
    × (1970 ≤ y)
    × (y < half_32 - 1)
    × (jan1 y + pos_part remaining ≡ z + neg_part remaining)

neg_part-add : (n k : ℕ) → neg_part (negsuc n +ℤ pos k) ≡ suc n - k
unfolding ◌+ℤ◌
neg_part-add n k = ground arith

step_back_once :
    (fuel y n : ℕ)
    → 1 ≤ y
    → y < half_32
    → step_back (suc fuel) (pos y, negsuc n)
      ≡ step_back fuel (pos (y - 1), negsuc n +ℤ pos (year_length (pos (y - 1))))
unfolding step_back
step_back_once fuel y n h k = ground (arith, prev_year y h)

pub step_back-At :
    (fuel z : ℕ) (s : ℤ × ℤ)
    → 719468 ≤ z
    → At z s
    → neg_part s.1 < fuel
    → (r : ℤ × ℤ) × (step_back fuel s ≡ some r) × At z r × (neg_part r.1 ≡ 0)
unfolding step_back
step_back-At zero z s low h f = elim f [ ]
step_back-At (suc fuel) z (year, pos n) low h f = ((year, pos n), ground arith, h, refl)
step_back-At (suc fuel) z (year, negsuc n) low (y, e, from, high, at) f =
    let fewer = year_length (pos (y - 1)) in
    let bounds = year_length_bounds (pos (y - 1)) in
    let later : 1970 < y = jan1-gt y (omega arith) in
    let start = jan1-pred y (omega arith) in
    let next : At z (pos (y - 1), negsuc n +ℤ pos fewer) =
      (y - 1, refl, omega arith, omega arith, omega (int_laws, start, bounds)) in
    let (r, ran, end, done) =
      step_back-At fuel z (pos (y - 1), negsuc n +ℤ pos fewer) low next
        (omega (arith, neg_part-add n fewer, bounds)) in
    (r, rw e (step_back_once fuel y n (omega arith) (omega arith) ∙ ran), end, done)

next_year : (y : ℕ) → pos y +ℤ pos 1 ≡ pos (y + 1)
next_year y = +ℤ_pos y 1

step_on_once :
    (fuel y n : ℕ)
    → y + 1 < half_32
    → year_length (pos y) ≤ n
    → step_on (suc fuel) (pos y, pos n) ≡ step_on fuel (pos (y + 1), pos (n - year_length (pos y)))
unfolding step_on
step_on_once fuel y n h k = ground (arith, next_year y, -ℤ_pos n (year_length (pos y)) k)

pub step_on-At :
    (fuel z y n : ℕ)
    → z < 0x4000000000
    → 1970 ≤ y
    → jan1 y + n ≡ z
    → n < fuel
    → (y' : ℕ) × (n' : ℕ) × (step_on fuel (pos y, pos n) ≡ some (pos y', pos n'))
      × (1970 ≤ y')
      × (jan1 y' + n' ≡ z)
      × (n' < year_length (pos y'))
unfolding step_on
step_on-At zero z y n high h at f = elim f [ ]
step_on-At (suc fuel) z y n high h at f = elim (dec_lt n (year_length (pos y))) [
  | yes short ↦ (y, n, ground arith, h, at, short)
  | no long ↦
      let len = year_length (pos y) in
      let bounds = year_length_bounds (pos y) in
      let start = jan1-suc y (omega arith) in
      let (y', n', ran, from, there, short) =
        step_on-At fuel z (y + 1) (n - len) high (omega arith) (omega (arith, start))
          (omega (arith, bounds)) in
      let fits_year : y + 1 < half_32 = omega (arith, jan1-high y) in
      (y', n', step_on_once fuel y n fits_year (omega arith) ∙ ran, from, there, short)
]
