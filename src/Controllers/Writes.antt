-- ===== src/Controllers/Writes.antt =====
-- What a posted transaction writes, from the request to the database.
use complif_techinical_chall.Base.{ℕ, ◌≡◌, refl, String, List, [], ◌∷◌}
use complif_techinical_chall.Common.Value.{Fields}
use complif_techinical_chall.Common.Exec.{Result, Exec, state_of, pure, catch, ◌>>◌}
use complif_techinical_chall.Entities.{Transaction}
use complif_techinical_chall.World.{
  World, Repositories, Source, api, alert_emitted, transactions_processed, evaluation_error, emit,
  write, db-bind,
}
use complif_techinical_chall.World.Keeps.{KeepsDb, >>=-KeepsDb, catch-KeepsDb}
use complif_techinical_chall.Http.{Request, organization_of}
use complif_techinical_chall.Transactions.{
  CreateTransactionDto, TransactionResponseDto, new_transaction, context_of, alert_message,
  no_evaluation, publish_alert_events, evaluate_transaction, create_and_evaluate,
}
use complif_techinical_chall.Transactions
use complif_techinical_chall.Engine.RuleCache.{RedisClient}
use complif_techinical_chall.Engine.Service
use complif_techinical_chall.Engine.Service.Writes.{evaluate-KeepsDb}
use complif_techinical_chall.Engine.Context.{
  EngineEvent, RuleEvent, EvaluationContext, EvaluationResult, RuleProperties, Providers, Engine,
}
use complif_techinical_chall.Controllers.TransactionsController

module _ {Db Redis : Type 0} (repositories : Repositories Db) where
  publish-KeepsDb :
      (organization_id : String) (t : Transaction) (events : List RuleEvent)
      → KeepsDb {Redis = Redis} (publish_alert_events repositories organization_id t events)
  unfolding publish_alert_events
  publish-KeepsDb organization_id t [] w = refl
  publish-KeepsDb organization_id t (event ∷ events) w =
      publish-KeepsDb organization_id t events
        (state_of (emit (alert_emitted (alert_message organization_id t event))) w)

  module _ (evaluate : String → EvaluationContext → Exec (World Db Redis) EvaluationResult)
      (keeps : (organization_id : String) (context : EvaluationContext)
        → KeepsDb (evaluate organization_id context)) where
    transaction-KeepsDb :
        (organization_id : String) (source : Source) (t : Transaction)
        → KeepsDb (evaluate_transaction repositories evaluate organization_id source t)
    unfolding evaluate_transaction
    transaction-KeepsDb organization_id source t =
        >>=-KeepsDb (evaluate organization_id (context_of t)) _
          (keeps organization_id (context_of t))
          (λ result.
            >>=-KeepsDb (publish_alert_events repositories organization_id t result.events) _
              (publish-KeepsDb organization_id t result.events) (λ _ w. refl))

    create_and_evaluate-db :
        (organization_id : String) (dto : CreateTransactionDto) (source : Source)
        (w : World Db Redis)
        → (state_of (create_and_evaluate repositories evaluate organization_id dto source) w).db
          ≡ (repositories.transactions.save (new_transaction organization_id dto) w.db).1
    unfolding create_and_evaluate Transactions.create
    create_and_evaluate-db organization_id dto source w =
        db-bind (write (repositories.transactions.save (new_transaction organization_id dto))) _
          (λ t.
            >>=-KeepsDb
              (catch (evaluate_transaction repositories evaluate organization_id source t) (λ e.
                emit (transactions_processed organization_id source evaluation_error)
                >> pure no_evaluation))
              (λ evaluation. pure (record { transaction = t; evaluation = evaluation }))
              (catch-KeepsDb (evaluate_transaction repositories evaluate organization_id source t) _
                (transaction-KeepsDb organization_id source t) (λ e w'. refl))
              (λ evaluation w'. refl))
          w

module _ {Db Redis : Type 0} (repositories : Repositories Db) (client : RedisClient Redis)
    (providers : Providers (World Db Redis))
    (run : Engine (World Db Redis)
      → RuleProperties
      → Fields
      → World Db Redis
      → Result (List EngineEvent))
    (parse_uuid_pipe : String → Result String) where
  -- POST /transactions with the engine behind it writes to the database what saving the one
  -- transaction writes, for the organization of the request, and nothing more: also where the rules
  -- cannot be loaded, one of them throws or Redis is away. A run of the rules
  -- engine reads only.
  pub create-Writes :
      (now ttl_seconds : ℕ) (request : Request) (dto : CreateTransactionDto) (w : World Db Redis)
      → (state_of
          (TransactionsController.create repositories parse_uuid_pipe
            (Service.evaluate repositories client providers run now ttl_seconds)
            request
            dto)
          w).db
        ≡ (repositories.transactions.save (new_transaction (organization_of request) dto) w.db).1
  unfolding TransactionsController.create
  create-Writes now ttl_seconds request dto w =
      create_and_evaluate-db repositories
        (Service.evaluate repositories client providers run now ttl_seconds)
        (evaluate-KeepsDb repositories client providers run now ttl_seconds)
        (organization_of request) dto api w
