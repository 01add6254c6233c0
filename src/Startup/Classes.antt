-- ===== src/Startup/Classes.antt =====
-- The classes that Nest constructs: what their constructors ask for, and the queue pattern that a
-- method of theirs is decorated with. A token stands for what a constructor's parameter names: a
-- class, the repository of an entity, the logger of a class, a metric or a client of a queue.
use complif_techinical_chall.Base.{String, ◌==◌, Bool, false, Option, none, some, List, [], ◌∷◌}

pub data Token : Type 0 where
  class repository logger metric client : String → Token

-- @MessagePattern('transactions') and @EventPattern('alerts')
pub data Listener : Type 0 where
  handle_transaction handle_alert_event : Listener

pub record Class : Type 0 where
  pub name : String
  pub injects : List Token
  pub listens : Option Listener

unfoldable pub same_token : Token → Token → Bool
same_token (class a) (class b) = a == b
same_token (repository a) (repository b) = a == b
same_token (logger a) (logger b) = a == b
same_token (metric a) (metric b) = a == b
same_token (client a) (client b) = a == b
same_token _ _ = false

abbrev plain : String → List Token → Class
plain name injects = record { name = name; injects = injects; listens = none }

abbrev pub alerts_controller : Class
alerts_controller = plain "AlertsController" (class "AlertsService" ∷ [])

abbrev pub alerts_consumer : Class
alerts_consumer = record {
  name = "AlertsConsumer";
  injects = class "AlertsService" ∷ logger "AlertsConsumer" ∷ [];
  listens = some handle_alert_event;
}

abbrev pub alerts_service : Class
alerts_service = plain "AlertsService" (
    repository "Alert"
    ∷ logger "AlertsService"
    ∷ metric "alerts_created_total"
    ∷ metric "alerts_deduplicated_total"
    ∷ metric "alert_action_duration_seconds"
    ∷ class "DbActionHandler"
    ∷ class "WebhookActionHandler"
    ∷ class "QueueActionHandler"
    ∷ class "BlockActionHandler"
    ∷ [])

abbrev pub db_action_handler : Class
db_action_handler = plain "DbActionHandler" (logger "DbActionHandler" ∷ [])

abbrev pub webhook_action_handler : Class
webhook_action_handler = plain "WebhookActionHandler" (logger "WebhookActionHandler" ∷ [])

abbrev pub queue_action_handler : Class
queue_action_handler = plain "QueueActionHandler" (logger "QueueActionHandler" ∷ [])

abbrev pub block_action_handler : Class
block_action_handler = plain "BlockActionHandler" (logger "BlockActionHandler" ∷ [])

abbrev pub engine_controller : Class
engine_controller = plain "EngineController" (class "EngineService" ∷ [])

abbrev pub engine_service : Class
engine_service = plain "EngineService" (
    class "RulesService"
    ∷ class "RuleCacheService"
    ∷ class "TransactionHistoryFact"
    ∷ class "AccountFact"
    ∷ class "ListLookupFact"
    ∷ logger "EngineService"
    ∷ metric "rule_evaluation_duration_seconds"
    ∷ metric "rule_evaluation_total"
    ∷ metric "rules_evaluated_total"
    ∷ [])

abbrev pub rule_cache_service : Class
rule_cache_service =
    plain "RuleCacheService"
      (class "ConfigService" ∷ logger "RuleCacheService" ∷ metric "rule_cache_total" ∷ [])

abbrev pub transaction_history_fact : Class
transaction_history_fact =
    plain "TransactionHistoryFact" (repository "Transaction" ∷ class "ConfigService" ∷ [])

abbrev pub account_fact : Class
account_fact = plain "AccountFact" []

abbrev pub list_lookup_fact : Class
list_lookup_fact = plain "ListLookupFact" (class "ListsService" ∷ [])

abbrev pub health_controller : Class
health_controller =
    plain "HealthController" (class "HealthCheckService" ∷ class "TypeOrmHealthIndicator" ∷ [])

abbrev pub lists_controller : Class
lists_controller = plain "ListsController" (class "ListsService" ∷ [])

abbrev pub lists_service : Class
lists_service = plain "ListsService" (repository "ListEntry" ∷ logger "ListsService" ∷ [])

abbrev pub organizations_controller : Class
organizations_controller = plain "OrganizationsController" (class "OrganizationsService" ∷ [])

abbrev pub organizations_service : Class
organizations_service = plain "OrganizationsService" (repository "Organization" ∷ [])

abbrev pub rule_templates_controller : Class
rule_templates_controller = plain "RuleTemplatesController" (class "RuleTemplatesService" ∷ [])

abbrev pub rule_templates_service : Class
rule_templates_service = plain "RuleTemplatesService" (repository "RuleTemplate" ∷ [])

abbrev pub template_overrides_controller : Class
template_overrides_controller =
    plain "TemplateOverridesController" (class "TemplateOverridesService" ∷ [])

abbrev pub template_overrides_service : Class
template_overrides_service =
    plain "TemplateOverridesService"
      (repository "TemplateOverride" ∷ class "RuleTemplatesService" ∷ class "EventEmitter2" ∷ [])

abbrev pub rules_controller : Class
rules_controller = plain "RulesController" (class "RulesService" ∷ [])

abbrev pub rules_service : Class
rules_service =
    plain "RulesService"
      (repository "Rule" ∷ class "TemplateOverridesService" ∷ class "EventEmitter2" ∷ [])

abbrev pub transactions_controller : Class
transactions_controller = plain "TransactionsController" (class "TransactionsService" ∷ [])

abbrev pub transactions_consumer : Class
transactions_consumer = record {
  name = "TransactionsConsumer";
  injects = class "TransactionsService" ∷ logger "TransactionsConsumer" ∷ [];
  listens = some handle_transaction;
}

abbrev pub transactions_service : Class
transactions_service = plain "TransactionsService" (
    repository "Transaction"
    ∷ class "EngineService"
    ∷ logger "TransactionsService"
    ∷ metric "transactions_processed_total"
    ∷ client "ALERTS_SERVICE"
    ∷ [])
