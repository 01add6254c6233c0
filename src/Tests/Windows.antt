-- ===== src/Tests/Windows.antt =====
-- Windows of concrete times, and the theorems on windows, dates and pages at concrete inputs.
use complif_techinical_chall.Base.{◌≡◌, refl, arith, none, some, codes, [], ◌∷◌, ◌++◌}
use complif_techinical_chall.Common.Value.{get_value}
use complif_techinical_chall.Common.Exec.{ok}
use complif_techinical_chall.Alerts.Calendar.{utc}
use complif_techinical_chall.Alerts.Window.{
  hour, calculate_window_key, time_window, parse_window, key_of, unit_of, decimal,
}
use complif_techinical_chall.Alerts.Number.{finite, infinite, to_double}
use Prim.Native.Nat.{◌^◌}
use complif_techinical_chall.Alerts.Window.Parse.{parse_window-decimal}
use complif_techinical_chall.Tests.Fixtures.{with_window, sample}

hourly : calculate_window_key (with_window "6h") sample ≡ ok (codes "2024-03-05T12:00:00.000Z")
unfolding calculate_window_key get_value time_window parse_window key_of utc
hourly = refl

daily : calculate_window_key none sample ≡ ok (codes "2024-03-05T00:00:00.000Z")
unfolding calculate_window_key get_value time_window parse_window key_of utc
daily = refl

weekly : calculate_window_key (with_window "1W") sample ≡ ok (codes "2024-W10")
unfolding calculate_window_key get_value time_window parse_window key_of utc
weekly = refl

ten_days : calculate_window_key (with_window "10d") sample ≡ ok (codes "2024-03-01")
unfolding calculate_window_key get_value time_window parse_window key_of utc
ten_days = refl

quarterly : calculate_window_key (with_window "3m") sample ≡ ok (codes "2024-01")
unfolding calculate_window_key get_value time_window parse_window key_of utc
quarterly = refl

invalid : calculate_window_key (with_window "soon") sample ≡ ok (codes "2024-03-05")
unfolding calculate_window_key get_value time_window parse_window key_of utc
invalid = refl

is_hour : unit_of 72 ≡ some hour
unfolding unit_of
is_hour = refl

parse_window-decimal_example : parse_window (decimal 24 ++ (72 ∷ [])) ≡ some (finite 24, hour)
parse_window-decimal_example = parse_window-decimal 24 72 hour (omega arith) is_hour

-- numbers that are not exact, and one that is too large
rounds : to_double 9007199254740993 ≡ finite 9007199254740992
unfolding to_double
rounds = refl

rounds_up : to_double 9007199254740995 ≡ finite 9007199254740996
unfolding to_double
rounds_up = refl

too_large : to_double (10 ^ 309) ≡ infinite
unfolding to_double
too_large = refl

no_months : calculate_window_key (with_window "0M") sample ≡ ok (codes "2024-NaN")
unfolding calculate_window_key get_value time_window parse_window key_of utc
no_months = refl

no_days : calculate_window_key (with_window "0d") sample ≡ ok (codes "NaN-NaN-NaN")
unfolding calculate_window_key get_value time_window parse_window key_of utc
no_days = refl

no_weeks : calculate_window_key (with_window "0w") sample ≡ ok (codes "NaN-WNaN")
unfolding calculate_window_key get_value time_window parse_window key_of utc
no_weeks = refl
