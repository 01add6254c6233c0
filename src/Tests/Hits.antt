-- ===== src/Tests/Hits.antt =====
-- Deliveries of two events, in turn and at the same time, against a table that holds their alert.
use complif_techinical_chall.Base.{◌≡◌, refl, Option, some, List, codes_eq, ◌+◌, [], ◌∷◌}
use complif_techinical_chall.Common.Value.{get_value}
use complif_techinical_chall.Common.Exec.{ok}
use complif_techinical_chall.Entities.{Alert}
use complif_techinical_chall.World.{World}
use complif_techinical_chall.Alerts.Calendar.{utc}
use complif_techinical_chall.Alerts.Window.{calculate_window_key, time_window, parse_window, key_of}
use complif_techinical_chall.Alerts.Service.{
  matches, new_alert, hit, calculate_dedup_key, record_alert, process_alert_event,
  execute_action_handlers, perform,
}
use complif_techinical_chall.Alerts.Service.Hits.{hits}
use complif_techinical_chall.Alerts.Service.Race.{
  Call, arrived, Steps, hit_once, hit_twice, Steps-lost_hit,
}
use complif_techinical_chall.Consumers.{handle_alert_event}
use complif_techinical_chall.Consumers.Deliveries.{Delivery, deliver, AreProcessed}
use complif_techinical_chall.Consumers.Once.{deliver-acks}
use complif_techinical_chall.World.Acks.{acks}
use complif_techinical_chall.Tests.Fixtures.{table, rows_of, event, event_in, Server}
use complif_techinical_chall.Tests.AlertTable.{
  with_id, repositories, laws, key, active, before, event_key, is_found, earlier,
}

-- two deliveries of one event
abbrev pub messages : List Delivery
messages = (9, event) ∷ (10, event) ∷ []

pub messages-AreProcessed : AreProcessed repositories messages before
unfolding handle_alert_event process_alert_event calculate_dedup_key calculate_window_key get_value
    time_window parse_window key_of utc table matches new_alert record_alert codes_eq
    execute_action_handlers perform
messages-AreProcessed = ((hit 9 active, refl), ((hit 10 (hit 9 active), refl), tt))

abbrev one_hit : World (Option Alert) Server
one_hit = hit_once repositories 9 (rows_of (λ a. a.id) with_id) laws event earlier key active before

stored_once : (repositories.alerts.save (hit 9 active) before.db).0 ≡ ok (hit 9 active)
unfolding table hit new_alert
stored_once = refl

found_again : repositories.alerts.find_one (matches key) one_hit.db ≡ ok (some (hit 9 active))
unfolding table matches hit new_alert codes_eq record_alert
found_again = refl

same_row : (hit 9 active).id ≡ active.id
unfolding hit
same_row = refl

stored_twice : (repositories.alerts.save (hit 9 active) one_hit.db).0 ≡ ok (hit 9 active)
unfolding table hit new_alert record_alert
stored_twice = refl

same_key : calculate_dedup_key earlier ≡ ok key
unfolding calculate_dedup_key calculate_window_key get_value time_window parse_window key_of utc
same_key = refl

Steps-lost_hit_example :
    Steps repositories 9
      (arrived event)
      (arrived earlier)
      before
      Call.recorded
      Call.recorded
      (hit_twice repositories 9 (rows_of (λ a. a.id) with_id) laws event earlier key active before)
    × (hits repositories (rows_of (λ a. a.id) with_id) laws key (
          hit_twice repositories 9
            (rows_of (λ a. a.id) with_id)
            laws
            event
            earlier
            key
            active
            before)
        ≡ hits repositories (rows_of (λ a. a.id) with_id) laws key before + 1)
Steps-lost_hit_example =
    Steps-lost_hit repositories 9 (rows_of (λ a. a.id) with_id) laws event earlier key active before
      (hit 9 active) (hit 9 active) event_key same_key is_found stored_once found_again same_row
      stored_twice

-- an event that counts, and one whose processing throws
abbrev one_fails : List Delivery
one_fails = (9, event) ∷ (10, event_in "0h") ∷ []

deliver-acks_example : acks (deliver repositories one_fails before) ≡ 0 + 2
deliver-acks_example = deliver-acks repositories one_fails before
