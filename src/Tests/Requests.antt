-- ===== src/Tests/Requests.antt =====
-- A transaction through the service, with an evaluation that fires a rule.
use complif_techinical_chall.Base.{◌≡◌, refl, String, true, [], ◌∷◌}
use complif_techinical_chall.Common.Value.{end}
use complif_techinical_chall.Common.Exec.{Exec, ok, pure, result_of, state_of}
use complif_techinical_chall.Entities.{Transaction}
use complif_techinical_chall.World.{World, Repositories, api}
use complif_techinical_chall.Engine.Context.{EvaluationContext, EvaluationResult}
use complif_techinical_chall.Transactions.{context_of, create, create_and_evaluate, new_transaction}
use complif_techinical_chall.Transactions.Publish.{
  after_evaluation, outcome, create_and_evaluate-eq,
}
use complif_techinical_chall.Tests.Fixtures.{constant, stored, world, payment, Server, empty_server}

abbrev repositories : Repositories Unit
repositories = stored

abbrev before : World Unit Server
before = world tt empty_server

abbrev evaluation : EvaluationResult
evaluation = record {
  success = true;
  events = record { type = "large-amount"; params = end } ∷ [];
  failed_rules = [];
  evaluated_rules_count = 1;
}

abbrev evaluate : String → EvaluationContext → Exec (World Unit Server) EvaluationResult
evaluate organization_id context = pure evaluation

abbrev transaction : Transaction
transaction = new_transaction "o1" payment

created : result_of (create repositories "o1" payment) before ≡ ok transaction
unfolding create constant
created = refl

create_and_evaluate-eq_example :
    create_and_evaluate repositories evaluate "o1" payment api before ≡ (
      ok (record {
        transaction = transaction;
        evaluation = outcome (
            result_of
              (evaluate "o1" (context_of transaction))
              (state_of (create repositories "o1" payment) before));
      }),
      after_evaluation "o1" api transaction (
          evaluate "o1"
            (context_of transaction)
            (state_of (create repositories "o1" payment) before)),
    )
create_and_evaluate-eq_example =
    create_and_evaluate-eq repositories evaluate "o1" payment api before transaction created
