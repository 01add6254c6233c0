-- ===== src/Consumers.antt =====
-- The RabbitMQ consumers: src/transactions/transactions.consumer.ts and
-- src/alerts/alerts.consumer.ts. Log lines are left out.
pub mod Ack
pub mod Deliveries
pub mod Once
use complif_techinical_chall.Base.{ℕ, String}
use complif_techinical_chall.Common.Exec.{Exec, pure, catch, ◌>>=◌, ◌>>◌}
use complif_techinical_chall.Entities.{AlertEventMessage}
use complif_techinical_chall.World.{World, Repositories, queue, acknowledged, emit}
use complif_techinical_chall.Alerts.Service
use complif_techinical_chall.Transactions
use complif_techinical_chall.Transactions.{CreateTransactionDto}
use complif_techinical_chall.Engine.Context.{EvaluationContext, EvaluationResult}

pub record TransactionMessage : Type 0 where
  pub organization_id : String
  pub transaction : CreateTransactionDto

module _ {Db Redis : Type 0} (repositories : Repositories Db) where
  -- `try { m } catch { } finally { channel.ack(originalMsg) }`
  abbrev acknowledging : Exec (World Db Redis) (Unit {0}) → Exec (World Db Redis) (Unit {0})
  acknowledging m = do catch m (λ e. pure tt); emit acknowledged

  unfoldable pub handle_alert_event : ℕ → AlertEventMessage → Exec (World Db Redis) (Unit {0})
  handle_alert_event now message =
      acknowledging (do _ ← Service.process_alert_event repositories now message; pure tt)

  unfoldable pub handle_transaction :
      (String → EvaluationContext → Exec (World Db Redis) EvaluationResult)
      → TransactionMessage
      → Exec (World Db Redis) (Unit {0})
  handle_transaction evaluate message = acknowledging (do
    _ ←
        Transactions.create_and_evaluate repositories evaluate message.organization_id
          message.transaction queue
    pure tt)
