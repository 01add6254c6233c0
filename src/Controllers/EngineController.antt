-- ===== src/Controllers/EngineController.antt =====
-- EngineController (src/engine/engine.controller.ts) and the bodies of its requests
-- (src/engine/dto/evaluate-transaction.dto.ts). A body is an instance of its class, which has the
-- properties in the order of the class, `undefined` where the request lacks them; `data` is named
-- `data_object`. `date_of` is the time of `new Date(text)` as a value.
use complif_techinical_chall.Base.{ℕ, String, Option, none, some, List}
use complif_techinical_chall.Base.Int.{ℤ}
use complif_techinical_chall.Common.Value.{Value, undefined, str, num, obj, Fields, end, field, put}
use complif_techinical_chall.Common.Exec.{Result, Exec}
use complif_techinical_chall.World.{World, Repositories}
use complif_techinical_chall.Http.{Request, organization_of}
use complif_techinical_chall.Engine.RuleCache.{RedisClient}
use complif_techinical_chall.Engine.Service
use complif_techinical_chall.Engine.Context.{
  EvaluationContext, EvaluationResult, EngineEvent, RuleProperties, Providers, Engine,
}

pub record TransactionDataDto : Type 0 where
  pub id : String
  pub id_account : String
  pub amount : ℤ
  pub amount_normalized : ℤ
  pub currency : String
  pub type : String
  pub datetime : String
  pub date : String
  pub country : Option String
  pub counterparty_id : Option String
  pub counterparty_country : Option String
  pub data_object : Option Fields

pub record AccountDataDto : Type 0 where
  pub id : String
  pub type : Option String
  pub status : Option String
  pub country : Option String
  pub risk_score : Option ℤ
  pub data_object : Option Fields

pub record EvaluateTransactionDto : Type 0 where
  pub transaction : TransactionDataDto
  pub account : Option AccountDataDto
  pub metadata : Option Fields

abbrev optional {ℓ} : {A : Type ℓ} → (A → Value) → Option A → Value
optional f none = undefined
optional f (some a) = f a

-- the bodies as the objects that the code spreads and passes on
abbrev transaction_object : TransactionDataDto → Fields
transaction_object t = field "id" (str t.id) (
    field "idAccount" (str t.id_account) (
      field "amount" (num t.amount) (
        field "amountNormalized" (num t.amount_normalized) (
          field "currency" (str t.currency) (
            field "type" (str t.type) (
              field "datetime" (str t.datetime) (
                field "date" (str t.date) (
                  field "country" (optional str t.country) (
                    field "counterpartyId" (optional str t.counterparty_id) (
                      field "counterpartyCountry" (optional str t.counterparty_country)
                        (field "data" (optional obj t.data_object) end)))))))))))

abbrev account_object : AccountDataDto → Fields
account_object a = field "id" (str a.id) (
    field "type" (optional str a.type) (
      field "status" (optional str a.status) (
        field "country" (optional str a.country) (
          field "riskScore" (optional num a.risk_score)
            (field "data" (optional obj a.data_object) end)))))

abbrev account_of : Option AccountDataDto → Option Fields
account_of none = none
account_of (some a) = some (account_object a)

-- the context that both handlers build: { ...dto.transaction, datetime: new Date(...) }
unfoldable pub context_of : (String → Value) → EvaluateTransactionDto → EvaluationContext
unfolding put
context_of date_of dto = record {
  transaction =
      put "datetime" (date_of dto.transaction.datetime) (transaction_object dto.transaction);
  account = account_of dto.account;
  metadata = dto.metadata;
}

module _ {Db Redis : Type 0} (repositories : Repositories Db) (client : RedisClient Redis)
    (providers : Providers (World Db Redis))
    (run : Engine (World Db Redis)
      → RuleProperties
      → Fields
      → World Db Redis
      → Result (List EngineEvent))
    (date_of : String → Value) where
  unfoldable pub evaluate :
      ℕ → ℕ → Request → EvaluateTransactionDto → Exec (World Db Redis) EvaluationResult
  unfolding context_of
  evaluate now ttl_seconds request dto =
      Service.evaluate repositories client providers run now ttl_seconds (organization_of request)
        (context_of date_of dto)

  unfoldable pub evaluate_rule :
      Request → String → EvaluateTransactionDto → Exec (World Db Redis) EvaluationResult
  unfolding context_of
  evaluate_rule request rule_id dto =
      Service.evaluate_rule repositories client providers run (organization_of request) rule_id
        (context_of date_of dto)
