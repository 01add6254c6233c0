-- ===== src/Alerts/Service/Lost.antt =====
-- Which alert events are lost, because no deduplication key can be formed for them
-- (`calculateWindowKey` and `processAlertEvent` of src/alerts/alerts.service.ts).
use complif_techinical_chall.Base.{ℕ, ◌≡◌, ◌↔◌, refl, sym, ◌∙◌, List}
use complif_techinical_chall.Common.Exec.{Error, Result, ok, err, result_of, state_of}
use complif_techinical_chall.Entities.{AlertEventMessage}
use complif_techinical_chall.World.{World, Repositories}
use complif_techinical_chall.Alerts.Calendar.{utc}
use complif_techinical_chall.Alerts.Window.{
  calculate_window_key, time_window, config_window, parse_window, key_of,
}
use complif_techinical_chall.Alerts.Window.Throws.{
  NamesNoHours, invalid_time, returned, key_of-throws_iff,
}
use complif_techinical_chall.Alerts.Service.{with_window, calculate_dedup_key, process_alert_event}

with_window-throws_iff :
    (event : AlertEventMessage) (window : Result (List ℕ)) (x : Error)
    → (with_window event window ≡ err x) ↔ (window ≡ err x)
with_window-throws_iff event (ok key) x =
    (λ h. absurd (returned _ x h), λ h. absurd (returned key x h))
with_window-throws_iff event (err y) x = (λ h. cc, λ h. cc)

module _ (event : AlertEventMessage) (text : List ℕ)
    (named : time_window (config_window event.rule_config) ≡ ok text) where
  window_key-text :
      calculate_window_key event.rule_config event.transaction_datetime
      ≡ key_of (parse_window text) (utc event.transaction_datetime)
  unfolding calculate_window_key
  window_key-text = rw named refl

  -- Of an event whose window is a text, forming the deduplication key throws a range error exactly
  -- if the text names a window of hours, and zero of them or so many that they are Infinity.
  pub calculate_dedup_key-throws_iff :
      (calculate_dedup_key event ≡ err invalid_time) ↔ NamesNoHours (parse_window text)
  unfolding calculate_dedup_key
  calculate_dedup_key-throws_iff =
      let key = key_of-throws_iff (parse_window text) (utc event.transaction_datetime) in
      let joined =
        with_window-throws_iff event
          (calculate_window_key event.rule_config event.transaction_datetime) invalid_time in
      (λ h. key.0 (sym window_key-text ∙ joined.0 h), λ v. joined.1 (window_key-text ∙ key.1 v))

  -- Such an event is lost: processing it throws the range error, and leaves the state as it was.
  pub process_alert_event-lost :
      {Db Redis : Type 0} (repositories : Repositories Db) (now : ℕ) (w : World Db Redis)
      → NamesNoHours (parse_window text)
      → (result_of (process_alert_event repositories now event) w ≡ err invalid_time)
        × (state_of (process_alert_event repositories now event) w ≡ w)
  unfolding process_alert_event
  process_alert_event-lost repositories now w v =
      (rw (calculate_dedup_key-throws_iff.1 v), rw (calculate_dedup_key-throws_iff.1 v))
