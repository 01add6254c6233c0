-- ===== src/Startup.antt =====
-- Startup: `bootstrap` of src/main.ts as the calls that it makes on the application, in their order.
pub mod Classes
pub mod Metrics
pub mod Modules
pub mod Injection
pub mod Messages
use complif_techinical_chall.Base.{String, Bool, true, false, Option, List, [], ◌∷◌, or_text}
use complif_techinical_chall.Startup.Modules.{Module, app, Endpoint, rabbitmq_url}

pub record ValidationOptions : Type 0 where
  pub whitelist : Bool
  pub forbid_non_whitelisted : Bool
  pub transform : Bool
  pub enable_implicit_conversion : Bool

pub record DocumentConfig : Type 0 where
  pub title : String
  pub description : String
  pub version : String
  pub server : String
  pub tags : List String
  pub api_key_header : String
  pub path : String

pub data Call : Type 0 where
  create : Module → Call
  -- by what it listens on, and `noAck`
  connect_microservice : Endpoint → Bool → Call
  use_pino_logger : Call
  use_validation_pipe : ValidationOptions → Call
  use_all_exceptions_filter : Call
  setup_swagger : DocumentConfig → Call
  enable_cors : Call
  -- by what it excludes
  set_global_prefix : String → List String → Call
  start_all_microservices : Call
  listen : String → Call

abbrev listening : String → (String → Option String) → Endpoint
listening queue get = record { urls = rabbitmq_url get ∷ []; queue = queue; durable = true }

unfoldable pub document_config : DocumentConfig
document_config = record {
  title = "Rules Engine API";
  description = "Real-time rules engine for detecting suspicious transactions";
  version = "1.0";
  server = "/api";
  tags =
      "rules" ∷ "templates" ∷ "transactions" ∷ "alerts" ∷ "lists" ∷ "organizations" ∷ "health" ∷ [];
  api_key_header = "x-organization-id";
  path = "api/docs";
}

-- by `configService.get` and `process.env`
unfoldable pub bootstrap : (String → Option String) → (String → Option String) → List Call
unfolding document_config rabbitmq_url
bootstrap get env =
    create app
    ∷ connect_microservice (listening "transactions" get) false
    ∷ connect_microservice (listening "alerts" get) false
    ∷ use_pino_logger
    ∷ use_validation_pipe (record {
      whitelist = true;
      forbid_non_whitelisted = true;
      transform = true;
      enable_implicit_conversion = true;
    })
    ∷ use_all_exceptions_filter
    ∷ setup_swagger document_config
    ∷ enable_cors
    ∷ set_global_prefix "api" ("health" ∷ "metrics" ∷ [])
    ∷ start_all_microservices
    ∷ listen (or_text (env "PORT") "3000")
    ∷ []
