-- ===== src/Tests/AlertTable.antt =====
-- A table that holds the alert of the events' window.
use complif_techinical_chall.Base.{ℕ, ◌≡◌, refl, String, Option, some, List, codes, codes_eq, ◌-◌}
use complif_techinical_chall.Common.Value.{get_value}
use complif_techinical_chall.Common.Exec.{ok}
use complif_techinical_chall.Common.Repository.{IsRepository}
use complif_techinical_chall.Entities.{Alert, AlertEventMessage}
use complif_techinical_chall.World.{World, Repositories}
use complif_techinical_chall.Alerts.Calendar.{utc}
use complif_techinical_chall.Alerts.Window.{calculate_window_key, time_window, parse_window, key_of}
use complif_techinical_chall.Alerts.Service.{matches, new_alert, calculate_dedup_key}
use complif_techinical_chall.Alerts.Service.Dedup.{content}
use complif_techinical_chall.Tests.Fixtures.{
  sample, table, rows_of, table-IsRepository, stored, world, event, Server, empty_server,
}

abbrev pub with_id : String → Alert → Alert
with_id i a = record a { id = i }

abbrev pub repositories : Repositories (Option Alert)
repositories = record stored { alerts = table (λ a. a.id) with_id }

pub laws : IsRepository repositories.alerts (rows_of (λ a. a.id) with_id) (λ a. a.id) content
laws = table-IsRepository (λ a. a.id) with_id content (λ s a. refl)

abbrev pub key : List ℕ
key = codes "r1:a1:2024-03-05T12:00:00.000Z"

-- the alert that is open
abbrev pub active : Alert
active = with_id "7" (new_alert 5 event key)

abbrev pub before : World (Option Alert) Server
before = world (some active) empty_server

pub event_key : calculate_dedup_key event ≡ ok key
unfolding calculate_dedup_key calculate_window_key get_value time_window parse_window key_of utc
event_key = refl

pub is_found : repositories.alerts.find_one (matches key) before.db ≡ ok (some active)
unfolding table matches new_alert codes_eq
is_found = refl

-- an event of the same bucket, two hours before
abbrev pub earlier : AlertEventMessage
earlier = record event { transaction_id = "x2"; transaction_datetime = sample - 7200000 }
