-- ===== src/Alerts/Window.antt =====
-- The time window of an alert's deduplication key: `calculateWindowKey`, `formatDateKey` and
-- `getWeekNumber` of src/alerts/alerts.service.ts. Keys are sequences of code points.
pub mod Buckets
pub mod Digits
pub mod Keys
pub mod Parse
pub mod Lengths
pub mod Throws
use complif_techinical_chall.Base.{
  ℕ, zero, suc, ◌+◌, ◌-◌, ◌*◌, ◌/◌, ◌%◌, String, ◌==◌, Bool, true, false, ◌&&◌, ◌||◌, Option, none,
  some, List, [], ◌∷◌, ◌++◌, ltb, leb, nat_eq, codes, length, if◌then◌else◌,
}
use complif_techinical_chall.Common.Value.{
  Value, undefined, null, bool, num, str, arr, obj, Fields, get_value, truthy,
}
use complif_techinical_chall.Common.Exec.{Error, thrown, Result, ok, err}
use complif_techinical_chall.Alerts.Number.{
  Number, finite, infinite, nan, to_double, bucket_of, times, plus,
}
use complif_techinical_chall.Alerts.Calendar.{UtcDate, utc, months, is_leap, month_from}

-- String(n): the decimal digits; a number has fewer digits than its value and one
decimal_from : ℕ → ℕ → List ℕ → List ℕ
decimal_from zero n acc = acc
decimal_from (suc fuel) n acc =
    let more = decimal_from fuel (n / 10) ((48 + n % 10) ∷ acc) in
    if ltb n 10 then (48 + n) ∷ acc else more

unfoldable pub decimal : ℕ → List ℕ
unfolding decimal_from
decimal n = decimal_from (n + 1) n []

-- String(n).padStart(2, '0')
pub pad2 : ℕ → List ℕ
unfolding decimal
pad2 n = if ltb n 10 then 48 ∷ decimal n else decimal n

pub dash : List ℕ
dash = 45 ∷ []

-- formatDateKey(date, 'day') of a day of a year
pub format_day : ℕ → ℕ → List ℕ
unfolding pad2 dash month_from
format_day year day_of_year =
    let (m, n) = month_from (months (is_leap year)) 0 day_of_year in
    decimal year ++ (dash ++ (pad2 (m + 1) ++ (dash ++ pad2 n)))

-- getWeekNumber: Math.ceil((days since the first of January + 1) / 7)
pub week_number : ℕ → ℕ
week_number day_of_year = (day_of_year + 1 + 6) / 7

-- formatDateKey(date, 'week')
pub format_week : ℕ → ℕ → List ℕ
unfolding pad2 dash week_number
format_week year day_of_year = decimal year ++ (dash ++ (b'W' ∷ pad2 (week_number day_of_year)))

-- toISOString of a full hour
pub format_hour : ℕ → ℕ → ℕ → List ℕ
unfolding format_day
format_hour year day_of_year hour =
    format_day year day_of_year ++ (b'T' ∷ (pad2 hour ++ codes ":00:00.000Z"))

-- String(n), and with padStart(2, '0'): a number that is not finite has more than two letters
number_text : Number → List ℕ
unfolding decimal
number_text (finite n) = decimal n
number_text infinite = codes "Infinity"
number_text nan = codes "NaN"

padded : Number → List ℕ
unfolding pad2 number_text
padded (finite n) = pad2 n
padded n = number_text n

-- the texts of a date that is invalid, whose year, month and day are NaN
invalid_day : List ℕ
unfolding padded dash number_text
invalid_day = number_text nan ++ (dash ++ (padded (plus nan 1) ++ (dash ++ padded nan)))

invalid_week : List ℕ
unfolding padded dash number_text
invalid_week = number_text nan ++ (dash ++ (b'W' ∷ padded nan))

-- `${year}-${String(month + 1).padStart(2, '0')}`
month_text : ℕ → Number → List ℕ
unfolding decimal padded dash
month_text year bucket_month = decimal year ++ (dash ++ padded (plus bucket_month 1))

-- setUTCHours and toISOString, which throws where the hour has made the date invalid
hour_text : UtcDate → Number → Result (List ℕ)
unfolding format_hour
hour_text d (finite hours) = ok (format_hour d.year d.day_of_year hours)
hour_text d n = err (thrown "Invalid time value")

-- setUTCDate from the first of January, and formatDateKey
day_text : ℕ → Number → List ℕ
unfolding format_day invalid_day
day_text year (finite day_of_year) = format_day year day_of_year
day_text year n = invalid_day

week_text : ℕ → Number → List ℕ
unfolding format_week invalid_week
week_text year (finite day_of_year) = format_week year day_of_year
week_text year n = invalid_week

-- the key of a month
pub month_key : ℕ → ℕ → List ℕ
unfolding decimal pad2 dash
month_key year bucket_month = decimal year ++ (dash ++ pad2 (bucket_month + 1))

pub data WindowUnit : Type 0 where
  hour day week month : WindowUnit

is_digit : ℕ → Bool
is_digit c = leb 48 c && leb c 57

-- match[2].toLowerCase()
unfoldable pub unit_of : ℕ → Option WindowUnit
unit_of c =
    if nat_eq c b'h' || nat_eq c b'H'
    then some hour
    else if nat_eq c b'd' || nat_eq c b'D'
    then some day
    else if nat_eq c b'w' || nat_eq c b'W'
    then some week
    else if nat_eq c b'm' || nat_eq c b'M'
    then some month
    else none

-- `parseInt` of the digits, and the unit
with_value : ℕ → Option WindowUnit → Option (Number × WindowUnit)
unfolding to_double
with_value n none = none
with_value n (some u) = some (to_double n, u)

-- /^(\d+)([hdwm])$/i behind its first digit, with the value of the digits so far
parse_from : ℕ → List ℕ → Option (Number × WindowUnit)
unfolding is_digit unit_of with_value
parse_from n [] = none
parse_from n (c ∷ []) = with_value n (unit_of c)
parse_from n (c ∷ d ∷ cs) =
    let rest = parse_from (n * 10 + (c - 48)) (d ∷ cs) in if is_digit c then rest else none

unfoldable pub parse_window : List ℕ → Option (Number × WindowUnit)
unfolding parse_from
parse_window [] = none
parse_window (c ∷ cs) = if is_digit c then parse_from (c - 48) cs else none

-- `(event.ruleConfig?.timeWindow as string) || '24h'`, and `.match` of it
unfoldable pub time_window : Value → Result (List ℕ)
unfolding truthy
time_window (str s) = ok (codes (if s == "" then "24h" else s))
time_window v =
    if truthy v then err (thrown "timeWindow.match is not a function") else ok (codes "24h")

abbrev pub config_window : Option Fields → Value
config_window none = undefined
config_window (some o) = get_value "timeWindow" o

-- n rounded down to a multiple of a positive value
unfoldable pub floor_to : ℕ → ℕ → ℕ
floor_to value n = n / value * value

-- The key of a window of a positive number of units, by rounding down.
pub bucket_key : WindowUnit → ℕ → UtcDate → List ℕ
unfolding format_hour format_week month_key floor_to
bucket_key hour value d = format_hour d.year d.day_of_year (floor_to value d.hours)
bucket_key day value d = format_day d.year (floor_to value d.day_of_year)
bucket_key week value d = format_week d.year (floor_to value (d.day_of_year / 7) * 7)
bucket_key month value d = month_key d.year (floor_to value d.month)

-- The `switch` on the unit.
pub unit_key : WindowUnit → Number → UtcDate → Result (List ℕ)
unfolding hour_text day_text week_text month_text bucket_of times
unit_key hour value d = hour_text d (bucket_of value d.hours)
unit_key day value d = ok (day_text d.year (bucket_of value d.day_of_year))
unit_key week value d =
    ok (week_text d.year (times (bucket_of value (d.day_of_year / 7)) (finite 7)))
unit_key month value d = ok (month_text d.year (bucket_of value d.month))

unfoldable pub key_of : Option (Number × WindowUnit) → UtcDate → Result (List ℕ)
unfolding unit_key
key_of none d = ok (format_day d.year d.day_of_year)
key_of (some (value, unit)) d = unit_key unit value d

abbrev then_key : Result (List ℕ) → UtcDate → Result (List ℕ)
then_key (err e) d = err e
then_key (ok window) d = key_of (parse_window window) d

-- calculateWindowKey, of the rule's configuration and the transaction's time
unfoldable pub calculate_window_key : Option Fields → ℕ → Result (List ℕ)
calculate_window_key rule_config t = then_key (time_window (config_window rule_config)) (utc t)
