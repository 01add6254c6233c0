-- ===== src/Transactions.antt =====
-- TransactionsService (src/transactions/transactions.service.ts). The times and amounts of the
-- request are those that its texts and numbers denote.
pub mod Publish
pub mod Provenance
use complif_techinical_chall.Base.{
  ℕ, ◌*◌, String, ◌==◌, ◌&&◌, Bool, true, false, Option, none, some, List, [], ◌∷◌, get_or,
  if◌then◌else◌,
}
use complif_techinical_chall.Base.Int.{ℤ, pos}
use complif_techinical_chall.Common.Value.{
  Value, null, num, str, obj, Fields, end, field, get_value, truthy,
}
use complif_techinical_chall.Common.Exec.{Exec, Result, not_found, pure, throw, catch, ◌>>=◌, ◌>>◌}
use complif_techinical_chall.Common.Repository.{desc}
use complif_techinical_chall.Common.Pagination.{
  PaginationQuery, PaginatedResult, skip_of, limit_of, paginated,
}
use complif_techinical_chall.Entities.{Transaction, AlertEventMessage}
use complif_techinical_chall.World.{
  World, Repositories, Source, success, evaluation_error, transactions_processed, alert_emitted,
  query, write, emit,
}
use complif_techinical_chall.Engine.Facts.{as_text}
use complif_techinical_chall.Engine.Context.{EvaluationContext, EvaluationResult, RuleEvent}

pub record CreateTransactionDto : Type 0 where
  pub id_account : String
  pub amount : ℤ
  pub amount_normalized : ℤ
  pub currency : String
  pub type : String
  pub sub_type : Option String
  pub datetime : ℕ
  pub date : String
  pub is_voided : Option Bool
  pub is_blocked : Option Bool
  pub is_deleted : Option Bool
  pub origin : Option String
  pub device_info : Option Fields
  pub payload : Option Fields
  pub external_code : Option String
  pub country : Option String
  pub counterparty_id : Option String
  pub counterparty_country : Option String

pub record UpdateTransactionDto : Type 0 where
  pub is_blocked : Option Bool
  pub is_voided : Option Bool

pub record TransactionResponseDto : Type 0 where
  pub transaction : Transaction
  pub evaluation : EvaluationResult

unfoldable pub new_transaction : String → CreateTransactionDto → Transaction
new_transaction organization_id dto = record {
  id = "";
  created_at = 0;
  updated_at = 0;
  id_organization = organization_id;
  id_account = dto.id_account;
  amount = dto.amount;
  amount_normalized = dto.amount_normalized;
  currency = dto.currency;
  type = dto.type;
  sub_type = dto.sub_type;
  datetime = dto.datetime;
  date = dto.date;
  is_voided = get_or dto.is_voided false;
  is_blocked = get_or dto.is_blocked false;
  is_deleted = get_or dto.is_deleted false;
  origin = dto.origin;
  device_info = dto.device_info;
  payload = get_or dto.payload end;
  external_code = dto.external_code;
  country = dto.country;
  counterparty_id = dto.counterparty_id;
  counterparty_country = dto.counterparty_country;
}

-- a column that was not set is null in the entity that `save` returns
abbrev text_or_null : Option String → Value
text_or_null none = null
text_or_null (some s) = str s

-- the `context` of `createAndEvaluate`
unfoldable pub context_of : Transaction → EvaluationContext
context_of t = record {
  transaction = field "id" (str t.id) (
      field "idAccount" (str t.id_account) (
        field "amount" (num t.amount) (
          field "amountNormalized" (num t.amount_normalized) (
            field "currency" (str t.currency) (
              field "type" (str t.type) (
                field "datetime" (num (pos (t.datetime * 10000))) (
                  field "date" (str t.date) (
                    field "country" (text_or_null t.country) (
                      field "counterpartyId" (text_or_null t.counterparty_id) (
                        field "counterpartyCountry" (text_or_null t.counterparty_country)
                          (field "data" (obj t.payload) end)))))))))));
  account = none;
  metadata = none;
}

-- `(value as string) || text`
abbrev text_or : Value → String → String
text_or v default = if truthy v then as_text v else default

-- the cast of a parameter to an object
abbrev as_object : Value → Option Fields
as_object (obj o) = some o
as_object _ = none

-- the message that `publishAlertEvents` builds for one event
unfoldable pub alert_message : String → Transaction → RuleEvent → AlertEventMessage
unfolding truthy get_value
alert_message organization_id t event = record {
  organization_id = organization_id;
  transaction_id = t.id;
  account_id = some t.id_account;
  rule_id = as_text (get_value "ruleId" event.params);
  rule_name = as_text (get_value "ruleName" event.params);
  severity = text_or (get_value "severity" event.params) "MEDIUM";
  category = text_or (get_value "category" event.params) "UNKNOWN";
  event_type = event.type;
  event_params = event.params;
  transaction_datetime = t.datetime;
  rule_config = as_object (get_value "ruleConfig" event.params);
}

-- the result in the place of one that was not obtained
abbrev pub no_evaluation : EvaluationResult
no_evaluation = record {
  success = false;
  events = [];
  failed_rules = [];
  evaluated_rules_count = 0;
}

-- `if (dto.flag !== undefined) transaction.flag = dto.flag`, for both flags
unfoldable pub assign : Transaction → UpdateTransactionDto → Transaction
assign t dto = record t {
  is_voided = get_or dto.is_voided t.is_voided;
  is_blocked = get_or dto.is_blocked t.is_blocked;
}

module _ {Db Redis : Type 0} (repositories : Repositories Db) where
  unfoldable pub create : String → CreateTransactionDto → Exec (World Db Redis) Transaction
  create organization_id dto =
      write (repositories.transactions.save (new_transaction organization_id dto))

  unfoldable pub publish_alert_events :
      String → Transaction → List RuleEvent → Exec (World Db Redis) (Unit {0})
  unfolding alert_message
  publish_alert_events organization_id t [] = pure tt
  publish_alert_events organization_id t (event ∷ events) = do
    emit (alert_emitted (alert_message organization_id t event))
    publish_alert_events organization_id t events

  or_missing : String → Option Transaction → Exec (World Db Redis) Transaction
  or_missing id none = throw (not_found "Transaction" id)
  or_missing id (some t) = pure t

  unfoldable pub find_one : String → String → Exec (World Db Redis) Transaction
  unfolding or_missing
  find_one organization_id id = do
    found ← query (
        repositories.transactions.find_one
          (λ t. t.id == id && t.id_organization == organization_id))
    or_missing id found

  unfoldable pub update : String → String → UpdateTransactionDto → Exec (World Db Redis) Transaction
  unfolding find_one assign
  update organization_id id dto = do
    found ← find_one organization_id id
    write (repositories.transactions.save (assign found dto))

  unfoldable pub find_by_organization :
      String → PaginationQuery → Exec (World Db Redis) (PaginatedResult Transaction)
  find_by_organization organization_id q = do
    page ← query (
        repositories.transactions.find_and_count (λ t. t.id_organization == organization_id)
          (desc "datetime" ∷ []) (skip_of q) (limit_of q))
    pure (paginated q page)

  -- `evaluate` is `this.engineService.evaluate`
  module _ (evaluate : String → EvaluationContext → Exec (World Db Redis) EvaluationResult) where
    -- the body of the `try`
    unfoldable pub evaluate_transaction :
        String → Source → Transaction → Exec (World Db Redis) EvaluationResult
    unfolding context_of publish_alert_events
    evaluate_transaction organization_id source t = do
      result ← evaluate organization_id (context_of t)
      publish_alert_events organization_id t result.events
      emit (transactions_processed organization_id source success)
      pure result

    unfoldable pub create_and_evaluate :
        String → CreateTransactionDto → Source → Exec (World Db Redis) TransactionResponseDto
    unfolding create evaluate_transaction
    create_and_evaluate organization_id dto source = do
      t ← create organization_id dto
      evaluation ← catch (evaluate_transaction organization_id source t) (λ e. do
        emit (transactions_processed organization_id source evaluation_error)
        pure no_evaluation)
      pure (record { transaction = t; evaluation = evaluation })
