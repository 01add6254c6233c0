-- ===== src/Consumers/Once.antt =====
-- How often the messages of the alerts queue are acknowledged (src/alerts/alerts.consumer.ts).
use complif_techinical_chall.Base.{
  ℕ, ◌+◌, ◌≡◌, refl, ◌∙◌, ap, Bool, true, false, Option, none, some, List, [], ◌∷◌, length, arith,
}
use complif_techinical_chall.Common.Exec.{ok, pure, state_of, result_of}
use complif_techinical_chall.Entities.{Alert, AlertEventMessage}
use complif_techinical_chall.World.{
  World, Repositories, acknowledged, alert_created, alert_deduplicated, action_duration, query,
  write, emit,
}
use complif_techinical_chall.World.Acks.{
  is_acknowledgement, acks, acknowledgements_behind, KeepsAcks, emit-KeepsAcks, >>=-KeepsAcks,
}
use complif_techinical_chall.Alerts.Actions.{ActionHandler}
use complif_techinical_chall.Alerts.Service.{
  hit, new_alert, matches, parse_severity, parse_category, status_of, is_none, action_handlers,
  calculate_dedup_key, perform, record_alert, execute_action_handlers, process_alert_event,
}
use complif_techinical_chall.Consumers.{handle_alert_event}
use complif_techinical_chall.Common.Repository.{total}
use complif_techinical_chall.Consumers.Ack.{handle_alert_event-Acknowledges}
use complif_techinical_chall.Consumers.Deliveries.{Delivery, deliver}

module _ {Db Redis : Type 0} (repositories : Repositories Db) (event : AlertEventMessage) where
  record_alert-KeepsAcks :
      (now : ℕ) (key : List ℕ) (existing : Option Alert)
      → KeepsAcks {Redis = Redis} (record_alert repositories now event key existing)
  unfolding record_alert
  record_alert-KeepsAcks now key none =
      >>=-KeepsAcks (write (repositories.alerts.save (new_alert now event key))) _ (λ w. refl)
        (λ a.
          >>=-KeepsAcks
            (emit (
              alert_created event.organization_id (parse_severity event.severity)
                (parse_category event.category)))
            (λ _. pure a) (emit-KeepsAcks _ refl) (λ _ w. refl))
  record_alert-KeepsAcks now key (some existing) =
      >>=-KeepsAcks (write (repositories.alerts.save (hit now existing))) _ (λ w. refl)
        (λ a.
          >>=-KeepsAcks (emit (alert_deduplicated event.organization_id)) (λ _. pure a)
            (emit-KeepsAcks _ refl) (λ _ w. refl))

  perform-KeepsAcks :
      (handler : ActionHandler) (alert : Alert) (is_new runs : Bool)
      → KeepsAcks {Redis = Redis} (perform repositories handler alert event is_new runs)
  unfolding perform
  perform-KeepsAcks handler alert is_new false w = refl
  perform-KeepsAcks handler alert is_new true w =
      emit-KeepsAcks
        (action_duration handler.action_type (status_of (handler.execute alert event is_new))) refl
        w

  actions-KeepsAcks :
      (handlers : List ActionHandler) (alert : Alert) (is_new : Bool)
      → KeepsAcks {Redis = Redis} (execute_action_handlers repositories handlers alert event is_new)
  unfolding execute_action_handlers
  actions-KeepsAcks [] alert is_new w = refl
  actions-KeepsAcks (handler ∷ handlers) alert is_new w =
      >>=-KeepsAcks (λ s. (handler.should_execute event, s)) _ (λ w. refl)
        (λ runs.
          >>=-KeepsAcks (perform repositories handler alert event is_new runs) _
            (perform-KeepsAcks handler alert is_new runs)
            (λ _. actions-KeepsAcks handlers alert is_new))
        w

  process_alert_event-KeepsAcks :
      (now : ℕ) → KeepsAcks {Redis = Redis} (process_alert_event repositories now event)
  unfolding process_alert_event
  process_alert_event-KeepsAcks now =
      >>=-KeepsAcks (λ s. (calculate_dedup_key event, s)) _ (λ w. refl)
        (λ key.
          >>=-KeepsAcks (query (repositories.alerts.find_one (matches key))) _ (λ w. refl)
            (λ existing.
              >>=-KeepsAcks (record_alert repositories now event key existing) _
                (record_alert-KeepsAcks now key existing)
                (λ alert.
                  >>=-KeepsAcks
                    (execute_action_handlers repositories action_handlers alert event
                      (is_none existing))
                    _ (actions-KeepsAcks action_handlers alert (is_none existing)) (λ _ w. refl))))

  handle_alert_event-acks :
      (now : ℕ) (w : World Db Redis)
      → (result_of (handle_alert_event repositories now event) w ≡ ok tt)
        × (acks (state_of (handle_alert_event repositories now event) w) ≡ acks w + 1)
  handle_alert_event-acks now w =
      let (returned, _, trace) = handle_alert_event-Acknowledges repositories now event w in
      (
        returned,
        ap (total is_acknowledgement) trace
            ∙ acknowledgements_behind
                (state_of (process_alert_event repositories now event) w).trace acknowledged
            ∙ ap (λ n. n + 1) (process_alert_event-KeepsAcks now w),
      )

module _ {Db Redis : Type 0} (repositories : Repositories Db) where
  -- Each message of the alerts queue is acknowledged exactly once, whatever its processing does and
  -- also where that throws: a run of the queue has as many acknowledgements more as messages.
  pub deliver-acks :
      (messages : List Delivery) (w : World Db Redis)
      → acks (deliver repositories messages w) ≡ acks w + length messages
  deliver-acks [] w = omega arith
  deliver-acks ((now, message) ∷ ms) w = omega (
    arith,
    handle_alert_event-acks repositories message now w,
    deliver-acks ms (state_of (handle_alert_event repositories now message) w),
  )
