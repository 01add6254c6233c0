-- ===== src/Controllers/TransactionsController.antt =====
-- TransactionsController (src/transactions/transactions.controller.ts).
use complif_techinical_chall.Base.{String}
use complif_techinical_chall.Common.Exec.{Result, Exec, ◌>>=◌}
use complif_techinical_chall.World.{World, Repositories, api}
use complif_techinical_chall.Common.Pagination.{PaginationQuery, PaginatedResult}
use complif_techinical_chall.Entities.{Transaction}
use complif_techinical_chall.Engine.Context.{EvaluationContext, EvaluationResult}
use complif_techinical_chall.Transactions
use complif_techinical_chall.Transactions.{
  CreateTransactionDto, UpdateTransactionDto, TransactionResponseDto,
}
use complif_techinical_chall.Http.{Request, organization_of}
use complif_techinical_chall.Controllers.{piped}

module _ {Db Redis : Type 0} (repositories : Repositories Db)
    (parse_uuid_pipe : String → Result String) where
  -- `evaluate` is the method of EngineService
  unfoldable pub create :
      (String → EvaluationContext → Exec (World Db Redis) EvaluationResult)
      → Request
      → CreateTransactionDto
      → Exec (World Db Redis) TransactionResponseDto
  create evaluate request dto =
      Transactions.create_and_evaluate repositories evaluate (organization_of request) dto api

  unfoldable pub find_all :
      Request → PaginationQuery → Exec (World Db Redis) (PaginatedResult Transaction)
  find_all request q = Transactions.find_by_organization repositories (organization_of request) q

  unfoldable pub find_one : Request → String → Exec (World Db Redis) Transaction
  find_one request id = do
    valid_id ← piped (parse_uuid_pipe id)
    Transactions.find_one repositories (organization_of request) valid_id

  unfoldable pub patch : Request → String → UpdateTransactionDto → Exec (World Db Redis) Transaction
  patch request id dto = do
    valid_id ← piped (parse_uuid_pipe id)
    Transactions.update repositories (organization_of request) valid_id dto

  unfoldable pub update :
      Request → String → UpdateTransactionDto → Exec (World Db Redis) Transaction
  update request id dto = do
    valid_id ← piped (parse_uuid_pipe id)
    Transactions.update repositories (organization_of request) valid_id dto
