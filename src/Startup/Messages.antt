-- ===== src/Startup/Messages.antt =====
-- Which messages of the queues reach a consumer. The message server of Nest is a parameter: what
-- happens in the program when a message that was sent to an endpoint arrives. By its documentation
-- it calls the decorated methods of the controllers of the loaded modules, and the decorators have no
-- effect inside providers; a message for which there is no such method changes nothing.
use complif_techinical_chall.Base.{
  ℕ, ◌+◌, ◌≡◌, ◌≢◌, refl, ap, ◌∙◌, sym, String, false, Option, some, List, [], ◌∷◌, arith, eq_iff,
  all, all-Memᴰ, Bool, true, none,
}
use mathlib.Core.List.{Memᴰ}
use complif_techinical_chall.Common.Exec.{Exec, ok, state_of}
use complif_techinical_chall.Entities.{Alert, AlertEventMessage}
use complif_techinical_chall.Common.Repository.{IsRepository}
use complif_techinical_chall.Alerts.Service.Dedup.{content}
use complif_techinical_chall.Alerts.Service.Hits.{hits}
use complif_techinical_chall.Consumers.Deliveries.{
  Delivery, deliver, deliveries_for, AreProcessed, deliver-hits,
}
use complif_techinical_chall.World.{World, Repositories}
use complif_techinical_chall.Consumers
use complif_techinical_chall.Consumers.{TransactionMessage}
use complif_techinical_chall.Engine.Context.{EvaluationContext, EvaluationResult}
use complif_techinical_chall.Startup.{
  Call, connect_microservice, start_all_microservices, bootstrap,
}
use complif_techinical_chall.Startup.Classes.{
  Class, Listener, handle_transaction, handle_alert_event, alerts_consumer,
}
use complif_techinical_chall.Startup.Modules.{
  Module, app, config, database, health, organizations, rule_templates, template_overrides, rules,
  engine, transactions, alerts, lists, Endpoint, metadata, alerts_client,
}
use complif_techinical_chall.Startup.Injection.{Loaded, root, imported}

-- the pattern in the decorator of a listening method
unfoldable pub pattern_of : Listener → String
pattern_of handle_transaction = "transactions"
pattern_of handle_alert_event = "alerts"

-- a class whose listening method Nest binds
pub record Bound (c : Class) (l : Listener) : Type 0 where
  pub module_of : Module
  pub loaded : Loaded module_of
  pub declared : Memᴰ c (metadata module_of).controllers
  pub decorated : c.listens ≡ some l

abbrev hears_alerts : Option Listener → Bool
hears_alerts none = true
hears_alerts (some handle_alert_event) = true
hears_alerts (some handle_transaction) = false

controllers_hear : (m : Module) → all (λ c. hears_alerts c.listens) (metadata m).controllers ≡ true
unfolding metadata
controllers_hear app = refl
controllers_hear config = refl
controllers_hear database = refl
controllers_hear health = refl
controllers_hear organizations = refl
controllers_hear rule_templates = refl
controllers_hear template_overrides = refl
controllers_hear rules = refl
controllers_hear engine = refl
controllers_hear transactions = refl
controllers_hear alerts = refl
controllers_hear lists = refl

hears_alerts-eq : (l : Listener) → hears_alerts (some l) ≡ true → l ≡ handle_alert_event
hears_alerts-eq handle_alert_event h = refl
hears_alerts-eq handle_transaction h = absurd (cc)

-- only the consumer of the alerts is among the controllers of a module
pub Bound-eq : (c : Class) (l : Listener) → Bound c l → l ≡ handle_alert_event
Bound-eq c l b = hears_alerts-eq l (
    ap hears_alerts (sym b.decorated)
    ∙ all-Memᴰ (λ d. hears_alerts d.listens) (metadata b.module_of).controllers c
        (controllers_hear b.module_of) b.declared)

pub alerts_consumer-Bound : Bound alerts_consumer handle_alert_event
unfolding metadata
alerts_consumer-Bound = record {
  module_of = alerts;
  loaded = imported root (search (Memᴰ.head, Memᴰ.tail) depth 20);
  declared = Memᴰ.tail (Memᴰ.head refl);
  decorated = refl;
}

module _ {Db Redis Payload : Type 0} (repositories : Repositories Db)
    (evaluate : String → EvaluationContext → Exec (World Db Redis) EvaluationResult)
    (read_transaction : Payload → TransactionMessage)
    (read_alert : Payload → AlertEventMessage) where
  -- the method that listens, on what its decorated parameters take from the message
  unfoldable pub listen_to : ℕ → Listener → Payload → Exec (World Db Redis) (Unit {0})
  listen_to now handle_transaction payload =
      Consumers.handle_transaction repositories evaluate (read_transaction payload)
  listen_to now handle_alert_event payload =
      Consumers.handle_alert_event repositories now (read_alert payload)

  -- `arrive now endpoint pattern payload`: a message of that pattern, sent to an endpoint, arrives.
  pub record IsServer (calls : List Call)
      (arrive : ℕ → Endpoint → String → Payload → Exec (World Db Redis) (Unit {0})) : Type 0 where
    pub handles :
        (now : ℕ) (endpoint : Endpoint) (no_ack : Bool) (c : Class) (l : Listener)
        (payload : Payload) (w : World Db Redis)
        → Memᴰ (connect_microservice endpoint no_ack) calls
        → Memᴰ start_all_microservices calls
        → Bound c l
        → arrive now endpoint (pattern_of l) payload w ≡ listen_to now l payload w
    pub ignores :
        (now : ℕ) (endpoint : Endpoint) (pattern : String) (payload : Payload) (w : World Db Redis)
        → ((c : Class) (l : Listener) → Bound c l → pattern_of l ≢ pattern)
        → arrive now endpoint pattern payload w ≡ (ok tt, w)

  module _ (get env : String → Option String)
      (arrive : ℕ → Endpoint → String → Payload → Exec (World Db Redis) (Unit {0}))
      (server : IsServer (bootstrap get env) arrive) where
    not_heard : (c : Class) (l : Listener) → Bound c l → pattern_of l ≢ "transactions"
    unfolding pattern_of
    not_heard c l b h = ground (arith, Bound-eq c l b, eq_iff "alerts" "transactions")

    -- By the documented behaviour of Nest, a message with the pattern of the transactions consumer
    -- is handled by no method of the program, whatever the configuration and the queue it is sent
    -- to: no transaction is stored or evaluated, and the program does not acknowledge it.
    pub arrive-transactions :
        (now : ℕ) (endpoint : Endpoint) (payload : Payload) (w : World Db Redis)
        → arrive now endpoint (pattern_of handle_transaction) payload w ≡ (ok tt, w)
    unfolding pattern_of
    arrive-transactions now endpoint payload w =
        server.ignores now endpoint "transactions" payload w not_heard

    -- `alertClient.emit('alerts', message)`, once it arrives
    arrive-alerts :
        (now : ℕ) (payload : Payload) (w : World Db Redis)
        → arrive now (alerts_client.use_factory get) "alerts" payload w
          ≡ Consumers.handle_alert_event repositories now (read_alert payload) w
    unfolding pattern_of bootstrap alerts_client listen_to
    arrive-alerts now payload w =
        server.handles now (alerts_client.use_factory get) false alerts_consumer handle_alert_event
          payload w (Memᴰ.tail (Memᴰ.tail (Memᴰ.head refl)))
          (search (Memᴰ.head, Memᴰ.tail) depth 20) alerts_consumer-Bound

    module _ (write_alert : AlertEventMessage → Payload)
        (round_trip : (m : AlertEventMessage) → read_alert (write_alert m) ≡ m) where
      -- the state once the messages that were sent through the client have arrived, in their order
      abbrev pub arrive_all : List Delivery → World Db Redis → World Db Redis
      arrive_all [] w = w
      arrive_all ((now, message) ∷ ms) w =
          arrive_all ms
            (state_of (arrive now (alerts_client.use_factory get) "alerts" (write_alert message)) w)

      arrive_all-deliver :
          (messages : List Delivery) (w : World Db Redis)
          → arrive_all messages w ≡ deliver repositories messages w
      arrive_all-deliver [] w = refl
      arrive_all-deliver ((now, message) ∷ ms) w =
          arrive_all-deliver ms
            (state_of (arrive now (alerts_client.use_factory get) "alerts" (write_alert message)) w)
          ∙ ap (λ r. deliver repositories ms r.1) (arrive-alerts now (write_alert message) w)
          ∙ ap
              (λ m.
                deliver repositories ms
                  (state_of (Consumers.handle_alert_event repositories now m) w))
              (round_trip message)

      -- By the documented behaviour of Nest, the alert messages that the transactions service sends
      -- through its client arrive at the consumer of the alerts, whatever the address of RabbitMQ is
      -- set to: where it processes each of them without an error, the hits stored under a key have
      -- grown by the number of messages with that key, by the laws of the repository. A message
      -- is read as it was written.
      pub arrive_all-hits :
          (rows : Db → List Alert)
          (laws : IsRepository repositories.alerts rows (λ a. a.id) content)
          (messages : List Delivery) (k : List ℕ) (w : World Db Redis)
          → AreProcessed repositories messages w
          → hits repositories rows laws k (arrive_all messages w)
            ≡ hits repositories rows laws k w + deliveries_for k messages
      arrive_all-hits rows laws messages k w processed =
          ap (hits repositories rows laws k) (arrive_all-deliver messages w)
          ∙ deliver-hits repositories rows laws messages k w processed
