-- ===== src/Consumers/Ack.antt =====
-- Acknowledgement of queue messages.
use complif_techinical_chall.Base.{ℕ, String, ◌≡◌, [], ◌∷◌, ◌++◌, arith}
use complif_techinical_chall.Common.Exec.{Exec, ok, state_of, result_of}
use complif_techinical_chall.Entities.{AlertEventMessage}
use complif_techinical_chall.World.{World, Repositories, acknowledged, queue}
use complif_techinical_chall.Alerts.Service
use complif_techinical_chall.Transactions
use complif_techinical_chall.Engine.Context.{EvaluationContext, EvaluationResult}
use complif_techinical_chall.Consumers.{TransactionMessage, handle_alert_event, handle_transaction}

module _ {Db Redis : Type 0} where
  -- An alert message is acknowledged once, behind all that its processing did, and the consumer
  -- never throws, also where the processing does.
  pub handle_alert_event-Acknowledges :
      (repositories : Repositories Db) (now : ℕ) (message : AlertEventMessage) (w : World Db Redis)
      → (result_of (handle_alert_event repositories now message) w ≡ ok tt)
        × ((state_of (handle_alert_event repositories now message) w).db
            ≡ (state_of (Service.process_alert_event repositories now message) w).db)
        × ((state_of (handle_alert_event repositories now message) w).trace
            ≡ (state_of (Service.process_alert_event repositories now message) w).trace
              ++ acknowledged ∷ [])
  unfolding handle_alert_event
  handle_alert_event-Acknowledges repositories now message w = ground arith

  -- A queued transaction is acknowledged once, behind all that storing and evaluating it did, and
  -- the consumer never throws, also where the storage fails.
  pub handle_transaction-Acknowledges :
      (repositories : Repositories Db)
      (evaluate : String → EvaluationContext → Exec (World Db Redis) EvaluationResult)
      (message : TransactionMessage) (w : World Db Redis)
      → (result_of (handle_transaction repositories evaluate message) w ≡ ok tt)
        × ((state_of (handle_transaction repositories evaluate message) w).db
            ≡ (state_of
                (Transactions.create_and_evaluate repositories evaluate message.organization_id
                  message.transaction queue)
                w).db)
        × ((state_of (handle_transaction repositories evaluate message) w).trace
            ≡ (state_of
                (Transactions.create_and_evaluate repositories evaluate message.organization_id
                  message.transaction queue)
                w).trace
              ++ acknowledged ∷ [])
  unfolding handle_transaction
  handle_transaction-Acknowledges repositories evaluate message w = ground arith
