-- ===== src/Consumers/Deliveries.antt =====
-- A run of the alerts queue: its messages, delivered one after the other to the consumer
-- (src/alerts/alerts.consumer.ts), against the count that a reader of the alerts expects.
use complif_techinical_chall.Base.{ℕ, ◌+◌, ◌≡◌, ap, ◌∙◌, List, [], ◌∷◌, arith}
use complif_techinical_chall.Common.Exec.{ok, state_of, result_of}
use complif_techinical_chall.Common.Repository.{IsRepository, total}
use complif_techinical_chall.Entities.{Alert, AlertEventMessage}
use complif_techinical_chall.World.{World, Repositories}
use complif_techinical_chall.Alerts.Service.{process_alert_event}
use complif_techinical_chall.Alerts.Service.Dedup.{content}
use complif_techinical_chall.Alerts.Service.Hits.{
  hits, hits_of, counted_for, process_alert_event-hits,
}
use complif_techinical_chall.Consumers.{handle_alert_event}
use complif_techinical_chall.Consumers.Ack.{handle_alert_event-Acknowledges}

-- a message, and the time of its delivery
abbrev pub Delivery : Type 0
Delivery = ℕ × AlertEventMessage

-- the specification: how many of the messages have the key
abbrev pub deliveries_for : List ℕ → List Delivery → ℕ
deliveries_for k = total (λ m. counted_for k m.1)

module _ {Db Redis : Type 0} (repositories : Repositories Db) where
  -- the state once the messages are delivered, in their order
  abbrev pub deliver : List Delivery → World Db Redis → World Db Redis
  deliver [] w = w
  deliver ((now, message) ∷ ms) w =
      deliver ms (state_of (handle_alert_event repositories now message) w)

  -- Each of the messages is processed without an error.
  abbrev pub AreProcessed : List Delivery → World Db Redis → Type 0
  AreProcessed [] w = Unit
  AreProcessed ((now, message) ∷ ms) w =
      ((a : Alert) × (result_of (process_alert_event repositories now message) w ≡ ok a))
      × AreProcessed ms (state_of (handle_alert_event repositories now message) w)

  module _ (rows : Db → List Alert)
      (laws : IsRepository repositories.alerts rows (λ a. a.id) content) where
    handle_alert_event-hits :
        (now : ℕ) (message : AlertEventMessage) (k : List ℕ) (w : World Db Redis) (a : Alert)
        → result_of (process_alert_event repositories now message) w ≡ ok a
        → hits repositories rows laws k (state_of (handle_alert_event repositories now message) w)
          ≡ hits repositories rows laws k w + counted_for k message
    handle_alert_event-hits now message k w a h =
        ap (λ d. total (hits_of k) (rows d))
          (handle_alert_event-Acknowledges repositories now message w).1
        ∙ process_alert_event-hits repositories rows laws now message w a k h

    -- By the laws of the repository, where the consumer processes every message of a queue without
    -- an error, the hits stored under a key have grown by the number of messages with that key:
    -- whatever the order, none is lost and none counts twice.
    pub deliver-hits :
        (messages : List Delivery) (k : List ℕ) (w : World Db Redis)
        → AreProcessed messages w
        → hits repositories rows laws k (deliver messages w)
          ≡ hits repositories rows laws k w + deliveries_for k messages
    deliver-hits [] k w h = omega arith
    deliver-hits ((now, message) ∷ ms) k w ((a, h), hs) = omega (
      arith,
      handle_alert_event-hits now message k w a h,
      deliver-hits ms k (state_of (handle_alert_event repositories now message) w) hs,
    )
