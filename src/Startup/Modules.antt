-- ===== src/Startup/Modules.antt =====
-- The modules of the application: `@Module` of src/app.module.ts, src/*/*.module.ts. What DatabaseModule
-- sets is modelled in Config.
use complif_techinical_chall.Base.{
  String, ◌==◌, ◌||◌, Bool, true, false, List, [], ◌∷◌, Option, some, none, not, or_text,
}
use complif_techinical_chall.Config.{Env}
use complif_techinical_chall.Startup.Metrics.{
  Metric, evaluation_duration_provider, evaluation_total_provider, rules_evaluated_provider,
  rule_cache_hit_provider, transactions_processed_provider, alerts_created_provider,
  alerts_deduplicated_provider, alert_action_duration_provider,
}
use complif_techinical_chall.Startup.Classes.{
  Token, class, Class, alerts_controller, alerts_consumer, alerts_service, db_action_handler,
  webhook_action_handler, queue_action_handler, block_action_handler, engine_controller,
  engine_service, rule_cache_service, transaction_history_fact, account_fact, list_lookup_fact,
  health_controller, lists_controller, lists_service, organizations_controller,
  organizations_service, rule_templates_controller, rule_templates_service,
  template_overrides_controller, template_overrides_service, rules_controller, rules_service,
  transactions_controller, transactions_consumer, transactions_service,
}

pub data Module : Type 0 where
  app config database health organizations rule_templates template_overrides rules engine : Module
  transactions alerts lists : Module

-- where a message is sent or listened for
pub record Endpoint : Type 0 where
  pub urls : List String
  pub queue : String
  pub durable : Bool

-- ClientsModule.registerAsync: the name of the client, and what its factory returns
pub record ClientOptions : Type 0 where
  pub name : String
  pub use_factory : (String → Option String) → Endpoint

pub data Import : Type 0 where
  own : Module → Import
  -- TypeOrmModule.forFeature of entities
  for_feature : List String → Import
  register_clients : List ClientOptions → Import
  -- NestConfigModule.forRoot, by `isGlobal`
  nest_config : Bool → Import
  -- PrometheusModule.register, by `path` and whether its default metrics are enabled
  prometheus : String → Bool → Import
  event_emitter logger_module type_orm terminus : Import

pub data Provider : Type 0 where
  injectable : Class → Provider
  -- makeCounterProvider and makeHistogramProvider
  metric_provider : Metric → Provider

pub record Metadata : Type 0 where
  pub imports : List Import
  pub controllers : List Class
  pub providers : List Provider
  pub exports : List Token

-- `configService.get<string>('rabbitmq.url') ?? 'amqp://localhost:5672'`
unfoldable pub rabbitmq_url : (String → Option String) → String
rabbitmq_url get = elim (get "rabbitmq.url") [ none ↦ "amqp://localhost:5672" | some url ↦ url ]

abbrev imports_only : List Import → Metadata
imports_only imports = record { imports = imports; controllers = []; providers = []; exports = [] }

app_module : Metadata
app_module = imports_only (
    own config
    ∷ event_emitter
    ∷ logger_module
    ∷ prometheus "/metrics" true
    ∷ own database
    ∷ own health
    ∷ own organizations
    ∷ own rule_templates
    ∷ own template_overrides
    ∷ own rules
    ∷ own engine
    ∷ own transactions
    ∷ own alerts
    ∷ own lists
    ∷ [])

config_module : Metadata
config_module = imports_only (nest_config true ∷ [])

database_module : Metadata
database_module = imports_only (type_orm ∷ [])

health_module : Metadata
health_module = record {
  imports = terminus ∷ [];
  controllers = health_controller ∷ [];
  providers = [];
  exports = [];
}

organizations_module : Metadata
organizations_module = record {
  imports = for_feature ("Organization" ∷ []) ∷ [];
  controllers = organizations_controller ∷ [];
  providers = injectable organizations_service ∷ [];
  exports = class "OrganizationsService" ∷ [];
}

rule_templates_module : Metadata
rule_templates_module = record {
  imports = for_feature ("RuleTemplate" ∷ []) ∷ [];
  controllers = rule_templates_controller ∷ [];
  providers = injectable rule_templates_service ∷ [];
  exports = class "RuleTemplatesService" ∷ [];
}

template_overrides_module : Metadata
template_overrides_module = record {
  imports = for_feature ("TemplateOverride" ∷ []) ∷ own rule_templates ∷ [];
  controllers = template_overrides_controller ∷ [];
  providers = injectable template_overrides_service ∷ [];
  exports = class "TemplateOverridesService" ∷ [];
}

rules_module : Metadata
rules_module = record {
  imports = for_feature ("Rule" ∷ []) ∷ own template_overrides ∷ [];
  controllers = rules_controller ∷ [];
  providers = injectable rules_service ∷ [];
  exports = class "RulesService" ∷ [];
}

engine_module : Metadata
engine_module = record {
  imports = own rules ∷ own lists ∷ for_feature ("Transaction" ∷ []) ∷ [];
  controllers = engine_controller ∷ [];
  providers =
      injectable engine_service
      ∷ injectable rule_cache_service
      ∷ injectable transaction_history_fact
      ∷ injectable account_fact
      ∷ injectable list_lookup_fact
      ∷ metric_provider rule_cache_hit_provider
      ∷ metric_provider evaluation_duration_provider
      ∷ metric_provider evaluation_total_provider
      ∷ metric_provider rules_evaluated_provider
      ∷ [];
  exports = class "EngineService" ∷ class "RuleCacheService" ∷ [];
}

-- the client that TransactionsService sends alerts through
unfoldable pub alerts_client : ClientOptions
alerts_client = record {
  name = "ALERTS_SERVICE";
  use_factory = λ get. record { urls = rabbitmq_url get ∷ []; queue = "alerts"; durable = true };
}

unfoldable pub transactions_module : Metadata
transactions_module = record {
  imports =
      for_feature ("Transaction" ∷ []) ∷ own engine ∷ register_clients (alerts_client ∷ []) ∷ [];
  controllers = transactions_controller ∷ [];
  providers =
      injectable transactions_service
      ∷ injectable transactions_consumer
      ∷ metric_provider transactions_processed_provider
      ∷ [];
  exports = class "TransactionsService" ∷ [];
}

unfoldable pub alerts_module : Metadata
alerts_module = record {
  imports = for_feature ("Alert" ∷ []) ∷ [];
  controllers = alerts_controller ∷ alerts_consumer ∷ [];
  providers =
      injectable alerts_service
      ∷ injectable db_action_handler
      ∷ injectable webhook_action_handler
      ∷ injectable queue_action_handler
      ∷ injectable block_action_handler
      ∷ metric_provider alerts_created_provider
      ∷ metric_provider alerts_deduplicated_provider
      ∷ metric_provider alert_action_duration_provider
      ∷ [];
  exports = class "AlertsService" ∷ [];
}

lists_module : Metadata
lists_module = record {
  imports = for_feature ("ListEntry" ∷ []) ∷ [];
  controllers = lists_controller ∷ [];
  providers = injectable lists_service ∷ [];
  exports = class "ListsService" ∷ [];
}

unfoldable pub metadata : Module → Metadata
unfolding app_module config_module database_module health_module organizations_module
    rule_templates_module template_overrides_module rules_module engine_module transactions_module
    alerts_module lists_module alerts_client rabbitmq_url
metadata app = app_module
metadata config = config_module
metadata database = database_module
metadata health = health_module
metadata organizations = organizations_module
metadata rule_templates = rule_templates_module
metadata template_overrides = template_overrides_module
metadata rules = rules_module
metadata engine = engine_module
metadata transactions = transactions_module
metadata alerts = alerts_module
metadata lists = lists_module

-- what LoggerModule is set to
pub record Logging : Type 0 where
  pub pretty : Bool
  pub level : String
  pub ignore : String → Bool

is_production : Option String → Bool
is_production none = false
is_production (some e) = e == "production"

unfoldable pub logging : Env → Logging
unfolding is_production
logging env = record {
  pretty = not (is_production (env "NODE_ENV"));
  level = or_text (env "LOG_LEVEL") "info";
  ignore = λ url. url == "/health" || url == "/metrics";
}
