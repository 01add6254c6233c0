-- ===== src/Tests/Alerts.antt =====
-- Alert events against a table that holds the alert of the same window, and against an empty one.
use complif_techinical_chall.Base.{
  ◌≤◌, ◌<◌, length, ◌≡◌, refl, Option, some, codes, codes_eq, arith, ◌+◌, ◌↔◌,
}
use complif_techinical_chall.Common.Value.{get_value}
use complif_techinical_chall.Common.Exec.{thrown, ok, err, result_of, state_of}
use complif_techinical_chall.Common.Repository.{count_rows, total}
use complif_techinical_chall.Entities.{Alert, open_status, resolved}
use complif_techinical_chall.World.{World}
use complif_techinical_chall.Alerts.Calendar.{utc}
use complif_techinical_chall.Alerts.Window.{
  hour, calculate_window_key, time_window, config_window, parse_window, key_of,
}
use complif_techinical_chall.Alerts.Service.{
  matches, new_alert, hit, calculate_dedup_key, record_alert, process_alert_event, update_status,
  execute_action_handlers, perform,
}
use complif_techinical_chall.Alerts.Service.Dedup.{
  content, IsDeduplicated, process_alert_event-IsDeduplicated,
}
use complif_techinical_chall.Alerts.Service.Closing.{own, update_status-IsDeduplicated}
use complif_techinical_chall.Alerts.Service.Reopening.{update_status-reopens}
use complif_techinical_chall.Alerts.Service.Outcome.{expected, process_alert_event-content}
use complif_techinical_chall.Alerts.Number.{finite}
use complif_techinical_chall.Alerts.Window.Throws.{NamesNoHours}
use complif_techinical_chall.Alerts.Service.Lost.{calculate_dedup_key-throws_iff}
use complif_techinical_chall.Alerts.Service.Keys.{
  HasNoColon, SameSubject, calculate_dedup_key_iff, length-calculate_dedup_key,
}
use complif_techinical_chall.Tests.Fixtures.{
  table, rows_of, world, event, event_in, Server, empty_server,
}
use complif_techinical_chall.Tests.AlertTable.{
  with_id, repositories, laws, key, active, before, event_key, is_found, earlier,
}

before-IsDeduplicated : IsDeduplicated repositories (rows_of (λ a. a.id) with_id) laws before
before-IsDeduplicated k = ground arith

process_alert_event-IsDeduplicated_example :
    IsDeduplicated repositories
      (rows_of (λ a. a.id) with_id)
      laws
      (state_of (process_alert_event repositories 9 event) before)
process_alert_event-IsDeduplicated_example =
    process_alert_event-IsDeduplicated repositories (rows_of (λ a. a.id) with_id) laws 9 event
      before before-IsDeduplicated

processed : result_of (process_alert_event repositories 9 event) before ≡ ok (hit 9 active)
unfolding process_alert_event calculate_dedup_key calculate_window_key get_value time_window
    parse_window key_of utc table matches new_alert record_alert codes_eq execute_action_handlers
    perform
processed = refl

process_alert_event-content_example :
    (content (hit 9 active) ≡ content (expected 9 event key (some active)))
    × (total
            (λ a. a.hit_count)
            (rows_of
              (λ a. a.id)
              with_id
              (state_of (process_alert_event repositories 9 event) before).db)
          + 1
        ≡ total (λ a. a.hit_count) (rows_of (λ a. a.id) with_id before.db) + 2)
unfolding new_alert hit
process_alert_event-content_example =
    process_alert_event-content repositories (rows_of (λ a. a.id) with_id) laws 9 event key
      (some active) (hit 9 active) before (λ a. a.hit_count) event_key is_found processed

no_hours : time_window (config_window (event_in "0h").rule_config) ≡ ok (codes "0h")
unfolding time_window get_value
no_hours = refl

parsed_no_hours : parse_window (codes "0h") ≡ some (finite 0, hour)
unfolding parse_window
parsed_no_hours = refl

calculate_dedup_key-throws_iff_example :
    (calculate_dedup_key (event_in "0h") ≡ err (thrown "Invalid time value"))
    ↔ NamesNoHours (parse_window (codes "0h"))
calculate_dedup_key-throws_iff_example =
    calculate_dedup_key-throws_iff (event_in "0h") (codes "0h") no_hours

update_status-IsDeduplicated_example :
    IsDeduplicated repositories
      (rows_of (λ a. a.id) with_id)
      laws
      (state_of (update_status repositories "o1" "7" resolved) before)
update_status-IsDeduplicated_example =
    update_status-IsDeduplicated repositories (rows_of (λ a. a.id) with_id) laws "o1" "7" resolved
      before refl before-IsDeduplicated

six_hours : time_window (config_window event.rule_config) ≡ ok (codes "6h")
unfolding time_window get_value
six_hours = refl

parsed_six_hours : parse_window (codes "6h") ≡ some (finite 6, hour)
unfolding parse_window
parsed_six_hours = refl

event-HasNoColon : HasNoColon event
event-HasNoColon = ((omega arith, (omega arith, tt)), (omega arith, (omega arith, tt)))

calculate_dedup_key_iff_example :
    (calculate_dedup_key earlier ≡ calculate_dedup_key event) ↔ SameSubject hour 6 earlier event
calculate_dedup_key_iff_example =
    calculate_dedup_key_iff earlier event (codes "6h") 5 hour six_hours six_hours parsed_six_hours
      event-HasNoColon event-HasNoColon

in_range : (utc event.transaction_datetime).year < 10000
unfolding utc
in_range = omega arith

length-calculate_dedup_key_example : length key ≤ 512
length-calculate_dedup_key_example =
    length-calculate_dedup_key event key in_range (omega arith) (omega arith) event_key

abbrev closed : Alert
closed = record active { status = resolved }

abbrev after_closing : World (Option Alert) Server
after_closing = world (some closed) empty_server

closed_found : repositories.alerts.find_one (own "o1" "7") after_closing.db ≡ ok (some closed)
unfolding table new_alert
closed_found = refl

reopened :
    result_of (update_status repositories "o1" "7" open_status) after_closing
    ≡ ok (record active { status = open_status })
unfolding update_status table new_alert
reopened = refl

update_status-reopens_example :
    count_rows (matches closed.dedup_key) (
      rows_of
        (λ a. a.id)
        with_id
        (state_of (update_status repositories "o1" "7" open_status) after_closing).db)
    ≡ count_rows (matches closed.dedup_key) (rows_of (λ a. a.id) with_id after_closing.db) + 1
update_status-reopens_example =
    update_status-reopens repositories (rows_of (λ a. a.id) with_id) laws "o1" "7" open_status
      after_closing closed (record active { status = open_status }) closed_found refl refl reopened
