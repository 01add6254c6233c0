-- ===== src/Alerts/Window/Buckets.antt =====
-- Which times share a window, and what the window keys look like.
use complif_techinical_chall.Base.{
  ℕ, suc, ◌+◌, ◌*◌, ◌/◌, ◌≤◌, ◌<◌, ◌≡◌, refl, sym, ◌∙◌, ap, Option, some, List, arith,
}
use complif_techinical_chall.Common.Value.{Fields}
use complif_techinical_chall.Common.Exec.{ok}
use complif_techinical_chall.Alerts.Calendar.{UtcDate, utc}
use complif_techinical_chall.Alerts.Number.{finite, bucket_of, times, floor_quotient}
use complif_techinical_chall.Alerts.Window.{
  unit_key, hour_text, day_text, week_text, month_text, padded, WindowUnit, hour, day, week, month,
  calculate_window_key, floor_to, bucket_key, format_hour, format_day, format_week, month_key,
  time_window, config_window, parse_window, key_of,
}

-- Two dates fall into one bucket of so many units.
abbrev pub SameBucket : WindowUnit → ℕ → UtcDate → UtcDate → Type 0
SameBucket hour value d e =
    (d.year ≡ e.year) × (d.day_of_year ≡ e.day_of_year) × (d.hours / value ≡ e.hours / value)
SameBucket day value d e = (d.year ≡ e.year) × (d.day_of_year / value ≡ e.day_of_year / value)
SameBucket week value d e =
    (d.year ≡ e.year) × (d.day_of_year / 7 / value ≡ e.day_of_year / 7 / value)
SameBucket month value d e = (d.year ≡ e.year) × (d.month / value ≡ e.month / value)

pub bucket_key-eq :
    (unit : WindowUnit) (value : ℕ) (d e : UtcDate)
    → SameBucket unit value d e
    → bucket_key unit value d ≡ bucket_key unit value e
unfolding bucket_key
bucket_key-eq hour value d e (y, n, b) = λ i. format_hour (y i) (n i) (b i * value)
bucket_key-eq day value d e (y, b) = λ i. format_day (y i) (b i * value)
bucket_key-eq week value d e (y, b) = λ i. format_week (y i) (b i * value * 7)
bucket_key-eq month value d e (y, b) = λ i. month_key (y i) (b i * value)

-- A window of at least one unit has the key of its bucket.
pub unit_key-finite :
    (unit : WindowUnit) (n : ℕ) (d : UtcDate)
    → unit_key unit (finite (suc n)) d ≡ ok (bucket_key unit (suc n) d)
unfolding unit_key bucket_key bucket_of times hour_text day_text week_text month_text month_key
    padded floor_to floor_quotient
unit_key-finite hour n d = refl
unit_key-finite day n d = refl
unit_key-finite week n d = refl
unit_key-finite month n d = refl

-- Two times in one bucket of a rule's window, a window of at least one unit, have one window key.
pub calculate_window_key-eq :
    (rule_config : Option Fields) (text : List ℕ) (n : ℕ) (unit : WindowUnit) (t u : ℕ)
    → time_window (config_window rule_config) ≡ ok text
    → parse_window text ≡ some (finite (suc n), unit)
    → SameBucket unit (suc n) (utc t) (utc u)
    → calculate_window_key rule_config t ≡ calculate_window_key rule_config u
unfolding calculate_window_key key_of
calculate_window_key-eq rule_config text n unit t u h p b =
    rw (h, p)
      (unit_key-finite unit n (utc t)
        ∙ ap ok (bucket_key-eq unit (suc n) (utc t) (utc u) b)
        ∙ sym (unit_key-finite unit n (utc u)))

-- A window is rounded down to the nearest whole number of units at or before it, less than one
-- window away.
pub floor_to_bounds :
    (value n : ℕ) → 0 < value → (floor_to value n ≤ n) × (n < floor_to value n + value)
unfolding floor_to
floor_to_bounds value n h = (grind arith, grind arith)
