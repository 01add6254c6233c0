-- ===== src/Tests/Posted.antt =====
-- A payment that is posted, and whose evaluation fires a rule, against a table that is empty.
use complif_techinical_chall.Base.{◌≡◌, String, Option, none, some, List, [], ◌∷◌}
use complif_techinical_chall.Base.Int.{pos}
use complif_techinical_chall.Common.Value.{Fields, num}
use complif_techinical_chall.Common.Exec.{Result, ok, state_of}
use complif_techinical_chall.Entities.{Transaction}
use complif_techinical_chall.World.{World}
use complif_techinical_chall.Http.{Request, organization_of}
use complif_techinical_chall.Transactions.{new_transaction}
use complif_techinical_chall.Engine.Service
use complif_techinical_chall.Engine.Context.{EngineEvent, RuleProperties, Providers, Engine}
use complif_techinical_chall.Controllers.TransactionsController
use complif_techinical_chall.Controllers.Writes.{create-Writes}
use complif_techinical_chall.Tests.Fixtures.{table, payment, Server, server_client}
use complif_techinical_chall.Tests.History.{with_id, repositories, empty_table}

abbrev request : Request
request = record {
  header = some "o1";
  organization_id = some "o1";
  url = "/transactions";
  method = "POST";
}

abbrev pipe : String → Result String
pipe id = ok id

abbrev providers : Providers (World (Option Transaction) Server)
providers = record {
  transaction_history = λ params almanac organization_id w. ok (num (pos 3));
  account = λ params almanac. ok (num (pos 0));
  list_lookup = λ params almanac organization_id w. ok (num (pos 0));
}

fires :
    Engine (World (Option Transaction) Server)
    → RuleProperties
    → Fields
    → World (Option Transaction) Server
    → Result (List EngineEvent)
fires engine properties facts w = ok (record { type = "large-amount"; params = none } ∷ [])

create-Writes_example :
    (state_of
      (TransactionsController.create repositories pipe
        (Service.evaluate repositories server_client providers fires 9 300)
        request
        payment)
      empty_table).db
    ≡ some (with_id "1" (new_transaction "o1" payment))
unfolding table new_transaction organization_of
create-Writes_example =
    create-Writes repositories server_client providers fires pipe 9 300 request payment empty_table
