-- ===== src/Alerts/Window/Keys.antt =====
-- Which times have one window key.
use complif_techinical_chall.Base.{
  ℕ, suc, ◌+◌, ◌-◌, ◌*◌, ◌/◌, ◌<◌, ◌≡◌, ◌↔◌, ◌⊎◌, sym, ap, ◌∙◌, inl, inr, Option, some, List, [],
  ◌∷◌, ◌++◌, arith,
}
use complif_techinical_chall.Common.Value.{Fields}
use complif_techinical_chall.Common.Exec.{Result, ok}
use complif_techinical_chall.Alerts.Calendar.{UtcDate, utc, months, is_leap, month_from}
use complif_techinical_chall.Alerts.Number.{finite}
use complif_techinical_chall.Alerts.Window.{
  WindowUnit, hour, day, week, month, calculate_window_key, floor_to, bucket_key, format_hour,
  format_day, format_week, month_key, week_number, decimal, pad2, dash, time_window, config_window,
  parse_window, key_of,
}
use complif_techinical_chall.Alerts.Window.Buckets.{unit_key-finite, SameBucket, bucket_key-eq}
use complif_techinical_chall.Alerts.Window.Digits.{
  Lacks, Lacks-append, decimal-inj, decimal-Lacks, pad2-inj, pad2-Lacks, split_at,
}

-- Multiples of a positive number are one number only if they are the same multiple.
floor_to-inj : (v m n : ℕ) → floor_to (suc v) m ≡ floor_to (suc v) n → m / suc v ≡ n / suc v
unfolding floor_to
floor_to-inj v m n h = grind arith

-- the month that is found is not before the first that is searched
month_from-le : (ns : List ℕ) (m d : ℕ) → m < (month_from ns m d).0 + 1
unfolding month_from
month_from-le [] m d = omega arith
month_from-le (n ∷ ns) m d = ground (arith, month_from-le ns (m + 1) (d - n))

-- A month and a day of it are one day of the year.
month_from-inj : (ns : List ℕ) (m d e : ℕ) → month_from ns m d ≡ month_from ns m e → d ≡ e
unfolding month_from
month_from-inj [] m d e h = ground arith
month_from-inj (n ∷ ns) m d e h = ground (
  arith,
  month_from-inj ns (m + 1) (d - n) (e - n),
  month_from-le ns (m + 1) (d - n),
  month_from-le ns (m + 1) (e - n),
)

-- What a date in a key is read back as.
abbrev date_of : ℕ → ℕ → ℕ × ℕ
date_of year day_of_year = month_from (months (is_leap year)) 0 day_of_year

date_of-inj : (y z d e : ℕ) → y ≡ z → date_of y d ≡ date_of z e → d ≡ e
date_of-inj y z d e same h =
    month_from-inj (months (is_leap y)) 0 d e
      (h ∙ ap (λ k. month_from (months (is_leap k)) 0 e) (sym same))

-- Two texts `number-rest` agree in both parts.
dashed :
    (y z : ℕ) (rs ss : List ℕ)
    → decimal y ++ (45 ∷ rs) ≡ decimal z ++ (45 ∷ ss)
    → (y ≡ z) × (rs ≡ ss)
dashed y z rs ss h =
    let (number, rest) =
      split_at 45 (decimal y) (decimal z) rs ss (decimal-Lacks 45 y (inr (omega arith)))
        (decimal-Lacks 45 z (inr (omega arith))) h in
    (decimal-inj y z number, rest)

dashed_pad :
    (c m n : ℕ) (rs ss : List ℕ)
    → c < 48 ⊎ 57 < c
    → pad2 m ++ (c ∷ rs) ≡ pad2 n ++ (c ∷ ss)
    → (m ≡ n) × (rs ≡ ss)
dashed_pad c m n rs ss out h =
    let (number, rest) =
      split_at c (pad2 m) (pad2 n) rs ss (pad2-Lacks c m (ground arith))
        (pad2-Lacks c n (ground arith)) h in
    (pad2-inj m n number, rest)

format_day-inj : (y z d e : ℕ) → format_day y d ≡ format_day z e → (y ≡ z) × (d ≡ e)
unfolding format_day dash
format_day-inj y z d e h =
    let (year, rest) = dashed y z _ _ h in
    let (months_eq, last) =
      dashed_pad 45 ((date_of y d).0 + 1) ((date_of z e).0 + 1) _ _ (inl (omega arith)) rest in
    (
      year,
      date_of-inj y z d e year
          (λ i. ((suc-inj months_eq) i, (pad2-inj (date_of y d).1 (date_of z e).1 last) i)),
    )
  where
    suc-inj : {m n : ℕ} → m + 1 ≡ n + 1 → m ≡ n
    suc-inj h = omega arith

format_day-Lacks : (c y d : ℕ) → 57 < c → Lacks c (format_day y d)
unfolding format_day dash
format_day-Lacks c y d out = Lacks-append c (decimal y) _ (decimal-Lacks c y (inl out)) (
  (λ e. omega arith),
  Lacks-append c (pad2 ((date_of y d).0 + 1)) _ (pad2-Lacks c ((date_of y d).0 + 1) (inl out))
      ((λ e. omega arith), pad2-Lacks c (date_of y d).1 (inl out)),
)

format_hour-inj :
    (y z d e m n : ℕ) → format_hour y d m ≡ format_hour z e n → (y ≡ z) × (d ≡ e) × (m ≡ n)
unfolding format_hour
format_hour-inj y z d e m n h =
    let (days, rest) =
      split_at 84 (format_day y d) (format_day z e) _ _ (format_day-Lacks 84 y d (omega arith))
        (format_day-Lacks 84 z e (omega arith)) h in
    let (year, same) = format_day-inj y z d e days in
    (year, same, (dashed_pad 58 m n _ _ (inr (omega arith)) rest).0)

format_week-inj :
    (y z d e : ℕ) → format_week y d ≡ format_week z e → (y ≡ z) × (week_number d ≡ week_number e)
unfolding format_week dash
format_week-inj y z d e h =
    let (year, rest) = dashed y z _ _ h in (year, pad2-inj (week_number d) (week_number e) (cc))

month_key-inj : (y z m n : ℕ) → month_key y m ≡ month_key z n → (y ≡ z) × (m ≡ n)
unfolding month_key dash
month_key-inj y z m n h =
    let (year, rest) = dashed y z _ _ h in (year, omega (arith, pad2-inj (m + 1) (n + 1) rest))

week_number-inj : (a b : ℕ) → week_number (a * 7) ≡ week_number (b * 7) → a ≡ b
unfolding week_number
week_number-inj a b h = omega arith

pub bucket_key-inj :
    (unit : WindowUnit) (v : ℕ) (d e : UtcDate)
    → bucket_key unit (suc v) d ≡ bucket_key unit (suc v) e
    → SameBucket unit (suc v) d e
unfolding bucket_key
bucket_key-inj hour v d e h =
    let (year, days, hours) = format_hour-inj d.year e.year d.day_of_year e.day_of_year _ _ h in
    (year, days, floor_to-inj v d.hours e.hours hours)
bucket_key-inj day v d e h =
    let (year, days) = format_day-inj d.year e.year _ _ h in
    (year, floor_to-inj v d.day_of_year e.day_of_year days)
bucket_key-inj week v d e h =
    let (year, weeks) = format_week-inj d.year e.year _ _ h in
    (year, floor_to-inj v (d.day_of_year / 7) (e.day_of_year / 7) (week_number-inj _ _ weeks))
bucket_key-inj month v d e h =
    let (year, months) = month_key-inj d.year e.year _ _ h in
    (year, floor_to-inj v d.month e.month months)

pub ok-inj : {a b : List ℕ} → Path (Result (List ℕ)) (ok a) (ok b) → a ≡ b
ok-inj h = cc

-- the key of a window of at least one unit
pub window_key :
    (rule_config : Option Fields) (text : List ℕ) (n : ℕ) (unit : WindowUnit) (t : ℕ)
    → time_window (config_window rule_config) ≡ ok text
    → parse_window text ≡ some (finite (suc n), unit)
    → calculate_window_key rule_config t ≡ ok (bucket_key unit (suc n) (utc t))
unfolding calculate_window_key key_of
window_key rule_config text n unit t h p = rw (h, p) (unit_key-finite unit n (utc t))

-- Of a rule whose window is at least one unit, two times have one window key exactly if they fall
-- into one bucket of the window.
pub calculate_window_key_iff :
    (rule_config : Option Fields) (text : List ℕ) (n : ℕ) (unit : WindowUnit) (t u : ℕ)
    → time_window (config_window rule_config) ≡ ok text
    → parse_window text ≡ some (finite (suc n), unit)
    → (calculate_window_key rule_config t ≡ calculate_window_key rule_config u)
      ↔ SameBucket unit (suc n) (utc t) (utc u)
calculate_window_key_iff rule_config text n unit t u h p = (
  λ same. bucket_key-inj unit n (utc t) (utc u) (
      ok-inj (
        sym (window_key rule_config text n unit t h p)
        ∙ same
        ∙ window_key rule_config text n unit u h p)),
  λ bucket.
      window_key rule_config text n unit t h p
      ∙ ap ok (bucket_key-eq unit (suc n) (utc t) (utc u) bucket)
      ∙ sym (window_key rule_config text n unit u h p),
)
