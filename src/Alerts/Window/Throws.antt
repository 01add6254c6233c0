-- ===== src/Alerts/Window/Throws.antt =====
-- Which windows have no key, whatever the time (`calculateWindowKey` of
-- src/alerts/alerts.service.ts).
use complif_techinical_chall.Base.{ℕ, zero, suc, ◌≡◌, ◌↔◌, refl, sym, ◌∙◌, Option, none, some, List}
use complif_techinical_chall.Common.Exec.{Error, thrown, Result, ok, err}
use complif_techinical_chall.Alerts.Calendar.{UtcDate}
use complif_techinical_chall.Alerts.Number.{
  Number, finite, infinite, nan, Vanishes, bucket_of-Vanishes,
}
use complif_techinical_chall.Alerts.Window.{
  WindowUnit, hour, day, week, month, key_of, unit_key, hour_text, bucket_key,
}
use complif_techinical_chall.Alerts.Window.Buckets.{unit_key-finite}

-- a window of no hours, or of infinitely many
abbrev pub NamesNoHours : Option (Number × WindowUnit) → Type 0
NamesNoHours (some (value, hour)) = Vanishes value
NamesNoHours _ = ⊥

-- what `toISOString` throws
abbrev pub invalid_time : Error
invalid_time = thrown "Invalid time value"

pub returned : (key : List ℕ) (x : Error) → Path (Result (List ℕ)) (ok key) (err x) → ⊥
returned key x h = cc

throws-Vanishes :
    (value : Number) (d : UtcDate) → unit_key hour value d ≡ err invalid_time → Vanishes value
throws-Vanishes (finite zero) d h = tt
throws-Vanishes (finite (suc n)) d h =
    absurd (returned (bucket_key hour (suc n) d) invalid_time (sym (unit_key-finite hour n d) ∙ h))
throws-Vanishes infinite d h = tt
throws-Vanishes nan d h = tt

Vanishes-throws :
    (value : Number) (d : UtcDate) → Vanishes value → unit_key hour value d ≡ err invalid_time
unfolding unit_key hour_text
Vanishes-throws value d v = rw (bucket_of-Vanishes value d.hours v) refl

pub key_of-throws_iff :
    (window : Option (Number × WindowUnit)) (d : UtcDate)
    → (key_of window d ≡ err invalid_time) ↔ NamesNoHours window
unfolding key_of unit_key
key_of-throws_iff none d = (λ h. returned _ invalid_time h, λ v. absurd v)
key_of-throws_iff (some (value, hour)) d = (throws-Vanishes value d, Vanishes-throws value d)
key_of-throws_iff (some (value, day)) d = (λ h. returned _ invalid_time h, λ v. absurd v)
key_of-throws_iff (some (value, week)) d = (λ h. returned _ invalid_time h, λ v. absurd v)
key_of-throws_iff (some (value, month)) d = (λ h. returned _ invalid_time h, λ v. absurd v)
