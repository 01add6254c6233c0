-- ===== src/Alerts/Calendar.antt =====
-- The parts of `Date` in UTC that alert windows use, on milliseconds since the epoch.
use Prim.Native.Nat.{ℕ, zero, suc, ◌+◌, ◌-◌, ◌/◌, ◌%◌, ◌<◌, ◌≤◌}
use complif_techinical_chall.Base.{
  Bool, not, ◌&&◌, ◌||◌, List, [], ◌∷◌, ltb, nat_eq, arith, if◌then◌else◌, Bool-cases, inl, inr,
  ltb→lt, not-ltb→le,
}

abbrev pub hour_ms : ℕ
hour_ms = 3600000

abbrev pub day_ms : ℕ
day_ms = 86400000

unfoldable pub is_leap : ℕ → Bool
is_leap y = nat_eq (y % 4) 0 && (not (nat_eq (y % 100) 0) || nat_eq (y % 400) 0)

pub days_in_year : ℕ → ℕ
unfolding is_leap
days_in_year y = if is_leap y then 366 else 365

days_in_year-pos : (y : ℕ) → 0 < days_in_year y
unfolding days_in_year
days_in_year-pos y = ground arith

-- Years are counted from 1970: `year_from fuel y d` is the year, and the day in it, of the day `d`
-- days after the first of January of `y`.
pub year_from : ℕ → ℕ → ℕ → ℕ × ℕ
year_from zero y d = (y, d)
year_from (suc fuel) y d =
    let rest = year_from fuel (y + 1) (d - days_in_year y) in
    if ltb d (days_in_year y) then (y, d) else rest

-- the number of whole days since the epoch, and the time of day
abbrev pub day_number : ℕ → ℕ
day_number t = t / day_ms

-- A year has a day at least, so the days are fuel enough.
unfoldable pub year_and_day : ℕ → ℕ × ℕ
unfolding year_from days_in_year is_leap
year_and_day d = year_from d 1970 d

-- the days of the months of a year
abbrev pub months : Bool → List ℕ
months leap = 31 ∷ (if leap then 29 else 28) ∷ 31 ∷ 30 ∷ 31 ∷ 30 ∷ 31 ∷ 31 ∷ 30 ∷ 31 ∷ 30 ∷ 31 ∷ []

-- the month, from 0, and the day of the month, from 1, of a day of the year
unfoldable pub month_from : List ℕ → ℕ → ℕ → ℕ × ℕ
month_from [] m d = (m, d + 1)
month_from (n ∷ ns) m d =
    let rest = month_from ns (m + 1) (d - n) in if ltb d n then (m, d + 1) else rest

pub record UtcDate : Type 0 where
  pub year : ℕ
  pub month : ℕ
  pub day : ℕ
  pub day_of_year : ℕ
  pub hours : ℕ

-- getUTCFullYear, getUTCMonth, getUTCDate and getUTCHours
unfoldable pub utc : ℕ → UtcDate
unfolding year_and_day month_from is_leap
utc t =
    let (y, d) = year_and_day (day_number t) in
    let (m, n) = month_from (months (is_leap y)) 0 d in
    record { year = y; month = m; day = n; day_of_year = d; hours = t % day_ms / hour_ms }

-- With as much fuel as days, the day that is left is a day of the year that is found.
pub year_from-bound :
    (fuel y d : ℕ) → d ≤ fuel → (year_from fuel y d).1 < days_in_year (year_from fuel y d).0
unfolding year_from
year_from-bound zero y d h = ground (arith, days_in_year-pos y)
year_from-bound (suc fuel) y d h = elim (Bool-cases (ltb d (days_in_year y))) [
  | inl here ↦ rw here (ltb→lt d (days_in_year y) here)
  | inr later ↦ rw later (
      year_from-bound fuel (y + 1) (d - days_in_year y)
        (omega (arith, days_in_year-pos y, not-ltb→le d (days_in_year y) later)))
]

-- The day of the year that `utc` finds is a day of that year.
pub utc-day_of_year : (t : ℕ) → (utc t).day_of_year < days_in_year (utc t).year
unfolding utc
utc-day_of_year t = year_from-bound (day_number t) 1970 (day_number t) (omega arith)

pub utc-hours : (t : ℕ) → (utc t).hours < 24
unfolding utc
utc-hours t = omega arith

pub days_in_year-le : (y : ℕ) → days_in_year y ≤ 366
unfolding days_in_year
days_in_year-le y = ground arith
