-- ===== src/Engine/Context.antt =====
-- The contexts and results of the engine (src/engine/interfaces), the engine that is configured for
-- a rule and the facts that it is given, and how outcomes become results
-- (src/engine/engine.service.ts). A time among the facts stands as the number of its milliseconds.
use complif_techinical_chall.Base.{
  ℕ, String, Bool, true, false, Option, none, some, List, [], ◌∷◌, ◌++◌, map,
}
use complif_techinical_chall.Common.Value.{
  Value, undefined, str, obj, Fields, end, field, get_value, put, spread,
}
use complif_techinical_chall.Common.Exec.{Error, Result, ok, err, error_message}
use complif_techinical_chall.Engine.Operators.{Operator, register_all_operators}
use complif_techinical_chall.Engine.RuleCache.{CachedRule}
use complif_techinical_chall.Engine.Facts.{
  Almanac, as_text, bind, TransactionHistoryParams, AccountParams, ListLookupParams,
}

pub record EvaluationContext : Type 0 where
  pub transaction : Fields
  pub account : Option Fields
  pub metadata : Option Fields

pub record RuleEvent : Type 0 where
  pub type : String
  pub params : Fields

pub record FailedRule : Type 0 where
  pub rule_id : String
  pub rule_name : String
  pub error : String

pub record EvaluationResult : Type 0 where
  pub success : Bool
  pub events : List RuleEvent
  pub failed_rules : List FailedRule
  pub evaluated_rules_count : ℕ

pub record RuleProperties : Type 0 where
  pub name : String
  pub conditions : Value
  pub event : Value
  pub priority : ℕ

-- an event of `EngineResult.events`; its `params` may be missing
pub record EngineEvent : Type 0 where
  pub type : String
  pub params : Option Fields

-- The providers that `createConfiguredEngine` registers, on the state in which they are called.
pub record Providers (S : Type 0) : Type 0 where
  pub transaction_history : TransactionHistoryParams → Almanac → String → S → Result Value
  pub account : AccountParams → Almanac → Result Value
  pub list_lookup : ListLookupParams → Almanac → String → S → Result Value

-- the facts of an engine, once registered
pub record EngineFacts (S : Type 0) : Type 0 where
  pub transaction_history : TransactionHistoryParams → Almanac → S → Result Value
  pub account : AccountParams → Almanac → S → Result Value
  pub list_lookup : ListLookupParams → Almanac → S → Result Value

pub record Engine (S : Type 0) : Type 0 where
  pub operators : List Operator
  pub facts : EngineFacts S

-- createConfiguredEngine: each fact reads the organization from the almanac at run time
unfoldable pub create_configured_engine : {S : Type 0} → Providers S → Engine S
create_configured_engine providers = record {
  operators = register_all_operators [];
  facts = record {
    transaction_history = λ params almanac s.
        bind (almanac "organizationId")
          λ organization. providers.transaction_history params almanac (as_text organization) s;
    account = λ params almanac s.
        bind (almanac "organizationId") λ organization. providers.account params almanac;
    list_lookup = λ params almanac s.
        bind (almanac "organizationId")
          λ organization. providers.list_lookup params almanac (as_text organization) s;
  };
}

abbrev pub some_or_undefined : Option Fields → Value
some_or_undefined none = undefined
some_or_undefined (some o) = obj o

-- the object `context` itself, as a fact
abbrev pub context_value : EvaluationContext → Value
context_value c = obj (
    field "transaction" (obj c.transaction) (
      field "account" (some_or_undefined c.account)
        (field "metadata" (some_or_undefined c.metadata) end)))

unfoldable pub transaction_facts : Fields → Fields → Fields
unfolding get_value
transaction_facts t rest = field "transaction.id" (get_value "id" t) (
    field "transaction.idAccount" (get_value "idAccount" t) (
      field "transaction.amount" (get_value "amount" t) (
        field "transaction.amountNormalized" (get_value "amountNormalized" t) (
          field "transaction.currency" (get_value "currency" t) (
            field "transaction.type" (get_value "type" t) (
              field "transaction.datetime" (get_value "datetime" t) (
                field "transaction.date" (get_value "date" t) (
                  field "transaction.country" (get_value "country" t) (
                    field "transaction.counterpartyId" (get_value "counterpartyId" t) (
                      field "transaction.counterpartyCountry" (get_value "counterpartyCountry" t)
                        (field "transaction.data" (get_value "data" t) rest)))))))))))

unfoldable pub metadata_facts : Option Fields → Fields
metadata_facts none = end
metadata_facts (some m) = field "metadata" (obj m) end

unfoldable pub account_facts : Option Fields → Fields → Fields
unfolding get_value
account_facts none rest = rest
account_facts (some a) rest = field "account" (obj a) (
    field "account.id" (get_value "id" a) (
      field "account.type" (get_value "type" a) (
        field "account.status" (get_value "status" a) (
          field "account.country" (get_value "country" a)
            (field "account.riskScore" (get_value "riskScore" a) rest)))))

unfoldable pub build_facts_from_context : EvaluationContext → String → Fields
unfolding transaction_facts account_facts metadata_facts
build_facts_from_context c organization_id = field "organizationId" (str organization_id) (
    field "context" (context_value c) (
      field "transaction" (obj c.transaction)
        (transaction_facts c.transaction (account_facts c.account (metadata_facts c.metadata)))))

abbrev pub params_of : Option Fields → Fields
params_of none = end
params_of (some o) = o

-- { ruleId, ruleName, ...event.params, ruleConfig }
unfoldable pub rule_event : CachedRule → EngineEvent → RuleEvent
unfolding spread put
rule_event rule event = record {
  type = event.type;
  params = put "ruleConfig" (obj rule.config) (
      spread (field "ruleId" (str rule.id) (field "ruleName" (str rule.name) end))
        (params_of event.params));
}

unfoldable pub failed_rule : CachedRule → Error → FailedRule
unfolding error_message
failed_rule rule e = record { rule_id = rule.id; rule_name = rule.name; error = error_message e }

abbrev pub no_failures : List FailedRule → Bool
no_failures [] = true
no_failures (f ∷ fs) = false

-- buildResult
unfoldable pub build_result : List RuleEvent → List FailedRule → ℕ → EvaluationResult
build_result events failed_rules count = record {
  success = no_failures failed_rules;
  events = events;
  failed_rules = failed_rules;
  evaluated_rules_count = count;
}

-- One round of the loop over the settled results: `events` and `failedRules` as they grow.
unfoldable pub collect :
    List RuleEvent
    → List FailedRule
    → List (CachedRule × Result (List EngineEvent))
    → List RuleEvent × List FailedRule
unfolding rule_event failed_rule
collect events failed [] = (events, failed)
collect events failed ((rule, ok fired) ∷ settled) =
    collect (events ++ map (rule_event rule) fired) failed settled
collect events failed ((rule, err e) ∷ settled) =
    collect events (failed ++ failed_rule rule e ∷ []) settled
