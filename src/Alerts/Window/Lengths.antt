-- ===== src/Alerts/Window/Lengths.antt =====
-- How long the window keys are.
use complif_techinical_chall.Base.{
  ℕ, zero, suc, ◌+◌, ◌-◌, ◌*◌, ◌/◌, ◌%◌, ◌≤◌, ◌<◌, Option, none, some, List, [], ◌∷◌, ◌++◌, arith,
  Bool-cases, inl, inr, length, length-append, ltb, ltb→lt, not-ltb→le, codes,
}
use complif_techinical_chall.Common.Exec.{Result, ok, err}
use complif_techinical_chall.Common.Value.{Fields}
use complif_techinical_chall.Alerts.Calendar.{
  UtcDate, utc, month_from, months, is_leap, days_in_year-le, utc-day_of_year, utc-hours,
  year_and_day, day_number,
}
use complif_techinical_chall.Alerts.Number.{
  Number, finite, infinite, nan, times, Vanishes, bucket_of-Vanishes,
}
use complif_techinical_chall.Alerts.Window.{
  unit_key, hour_text, day_text, week_text, month_text, invalid_day, invalid_week, padded,
  number_text, WindowUnit, hour, day, week, month, decimal_from, decimal, pad2, dash, format_day,
  format_week, format_hour, month_key, week_number, bucket_key, key_of, floor_to, parse_window,
  then_key, time_window, config_window, calculate_window_key,
}
use complif_techinical_chall.Alerts.Window.Buckets.{unit_key-finite, floor_to_bounds}

abbrev pow10 : ℕ → ℕ
pow10 zero = 1
pow10 (suc k) = 10 * pow10 k

-- a number below a power of ten has at most so many digits
length-decimal_from :
    (fuel n k : ℕ) (acc : List ℕ)
    → n < pow10 (suc k)
    → length (decimal_from fuel n acc) ≤ suc k + length acc
unfolding decimal_from
length-decimal_from zero n k acc h = omega arith
length-decimal_from (suc fuel) n zero acc h = elim (Bool-cases (ltb n 10)) [
  | inl last ↦ rw last (omega arith)
  | inr more ↦ absurd (omega (arith, not-ltb→le n 10 more))
]
length-decimal_from (suc fuel) n (suc k) acc h = elim (Bool-cases (ltb n 10)) [
  | inl last ↦ rw last (omega arith)
  | inr more ↦
      rw more
        (omega (arith, length-decimal_from fuel (n / 10) k ((48 + n % 10) ∷ acc) (omega arith)))
]

length-decimal : (n k : ℕ) → n < pow10 (suc k) → length (decimal n) ≤ suc k
unfolding decimal
length-decimal n k h = omega (arith, length-decimal_from (n + 1) n k [] h)

length-pad2 : (n : ℕ) → n < 1000 → length (pad2 n) ≤ 3
unfolding pad2
length-pad2 n h = elim (Bool-cases (ltb n 10)) [
  | inl short ↦ rw short (omega (arith, length-decimal n 0 (ltb→lt n 10 short)))
  | inr long ↦ rw long (length-decimal n 2 h)
]

month_from-bounds :
    (ns : List ℕ) (m d : ℕ)
    → ((month_from ns m d).0 ≤ m + length ns) × ((month_from ns m d).1 ≤ d + 1)
unfolding month_from
month_from-bounds [] m d = (omega arith, omega arith)
month_from-bounds (n ∷ ns) m d = ground (arith, month_from-bounds ns (m + 1) (d - n))

length-dated :
    (year m n : ℕ)
    → year < 10000
    → m < 1000
    → n < 1000
    → length (decimal year ++ (45 ∷ (pad2 m ++ (45 ∷ pad2 n)))) ≤ 12
length-dated year m n h k l = omega (
  arith,
  length-append (decimal year) (45 ∷ (pad2 m ++ (45 ∷ pad2 n))),
  length-append (pad2 m) (45 ∷ pad2 n),
  length-decimal year 3 h,
  length-pad2 m k,
  length-pad2 n l,
)

length-format_day : (year n : ℕ) → year < 10000 → n < 400 → length (format_day year n) ≤ 12
unfolding format_day dash
length-format_day year n h k =
    let (m, d) = month_from (months (is_leap year)) 0 n in
    let bounds = month_from-bounds (months (is_leap year)) 0 n in
    length-dated year ((month_from (months (is_leap year)) 0 n).0 + 1)
      (month_from (months (is_leap year)) 0 n).1 h (omega (arith, bounds)) (omega (arith, bounds))

length-format_hour :
    (year n hours : ℕ)
    → year < 10000
    → n < 400
    → hours < 1000
    → length (format_hour year n hours) ≤ 27
unfolding format_hour
length-format_hour year n hours h k l = omega (
  arith,
  length-append (format_day year n) (84 ∷ (pad2 hours ++ codes ":00:00.000Z")),
  length-append (pad2 hours) (codes ":00:00.000Z"),
  length-format_day year n h k,
  length-pad2 hours l,
)

length-format_week : (year n : ℕ) → year < 10000 → n < 400 → length (format_week year n) ≤ 27
unfolding format_week dash week_number
length-format_week year n h k = omega (
  arith,
  length-append (decimal year) (45 ∷ (87 ∷ pad2 ((n + 1 + 6) / 7))),
  length-decimal year 3 h,
  length-pad2 ((n + 1 + 6) / 7) (omega arith),
)

length-month_key : (year m : ℕ) → year < 10000 → m < 400 → length (month_key year m) ≤ 27
unfolding month_key dash
length-month_key year m h k = omega (
  arith,
  length-append (decimal year) (45 ∷ pad2 (m + 1)),
  length-decimal year 3 h,
  length-pad2 (m + 1) (omega arith),
)

-- a date as `utc` finds it
abbrev IsDate : UtcDate → Type 0
IsDate d = (d.year < 10000) × (d.month < 400) × (d.day_of_year < 400) × (d.hours < 1000)

length-bucket_key :
    (unit : WindowUnit) (n : ℕ) (d : UtcDate) → IsDate d → length (bucket_key unit (suc n) d) ≤ 27
unfolding bucket_key
length-bucket_key hour n d (y, m, k, h) =
    length-format_hour d.year d.day_of_year (floor_to (suc n) d.hours) y k
      (omega (arith, floor_to_bounds (suc n) d.hours (omega arith)))
length-bucket_key day n d (y, m, k, h) = omega (
  arith,
  length-format_day d.year (floor_to (suc n) d.day_of_year) y
      (omega (arith, floor_to_bounds (suc n) d.day_of_year (omega arith))),
)
length-bucket_key week n d (y, m, k, h) =
    length-format_week d.year (floor_to (suc n) (d.day_of_year / 7) * 7) y
      (omega (arith, floor_to_bounds (suc n) (d.day_of_year / 7) (omega arith)))
length-bucket_key month n d (y, m, k, h) =
    length-month_key d.year (floor_to (suc n) d.month) y
      (omega (arith, floor_to_bounds (suc n) d.month (omega arith)))

-- A key, where there is one, has at most so many characters.
abbrev pub AtMost : ℕ → Result (List ℕ) → Type 0
AtMost n (ok key) = length key ≤ n
AtMost n (err e) = Unit

vanishing-AtMost :
    (unit : WindowUnit) (value : Number) (d : UtcDate)
    → Vanishes value
    → IsDate d
    → AtMost 27 (unit_key unit value d)
unfolding unit_key hour_text day_text week_text month_text invalid_day invalid_week padded
    number_text dash times
vanishing-AtMost hour value d v dated = rw (bucket_of-Vanishes value d.hours v) tt
vanishing-AtMost day value d v dated = rw (bucket_of-Vanishes value d.day_of_year v) (omega arith)
vanishing-AtMost week value d v dated =
    rw (bucket_of-Vanishes value (d.day_of_year / 7) v) (omega arith)
vanishing-AtMost month value d v (y, m, k, h) =
    rw (bucket_of-Vanishes value d.month v)
      (omega (arith, length-append (decimal d.year) (codes "-NaN"), length-decimal d.year 3 y))

unit_key-AtMost :
    (unit : WindowUnit) (value : Number) (d : UtcDate)
    → IsDate d
    → AtMost 27 (unit_key unit value d)
unit_key-AtMost unit (finite (suc n)) d dated =
    rw (unit_key-finite unit n d) (length-bucket_key unit n d dated)
unit_key-AtMost unit (finite zero) d dated = vanishing-AtMost unit (finite 0) d tt dated
unit_key-AtMost unit infinite d dated = vanishing-AtMost unit infinite d tt dated
unit_key-AtMost unit nan d dated = vanishing-AtMost unit nan d tt dated

key_of-AtMost :
    (window : Option (Number × WindowUnit)) (d : UtcDate) → IsDate d → AtMost 27 (key_of window d)
unfolding key_of
key_of-AtMost none d (y, m, k, h) = omega (arith, length-format_day d.year d.day_of_year y k)
key_of-AtMost (some (value, unit)) d dated = unit_key-AtMost unit value d dated

then_key-AtMost :
    (window : Result (List ℕ)) (d : UtcDate) → IsDate d → AtMost 27 (then_key window d)
then_key-AtMost (ok text) d dated = key_of-AtMost (parse_window text) d dated
then_key-AtMost (err e) d dated = tt

utc-month : (t : ℕ) → (utc t).month ≤ 12
unfolding utc
utc-month t = omega (
  arith,
  month_from-bounds (months (is_leap (year_and_day (day_number t)).0)) 0
      (year_and_day (day_number t)).1,
)

-- The window key of a time before the year 10000, of any configuration, has at most 27 characters.
pub calculate_window_key-AtMost :
    (rule_config : Option Fields) (t : ℕ)
    → (utc t).year < 10000
    → AtMost 27 (calculate_window_key rule_config t)
unfolding calculate_window_key
calculate_window_key-AtMost rule_config t y =
    then_key-AtMost (time_window (config_window rule_config)) (utc t) (
      y,
      omega (arith, utc-month t),
      omega (arith, utc-day_of_year t, days_in_year-le (utc t).year),
      omega (arith, utc-hours t),
    )
