-- ===== src/Tests/Startup.antt =====
-- The wiring of the application under the least container, and a server of messages that answers the
-- pattern of the alerts.
use complif_techinical_chall.Base.{
  ℕ, ◌+◌, ◌≡◌, ◌≢◌, refl, sym, String, ◌==◌, eq_iff, true, Bool-cases, Option, none, inl, inr, [],
  ◌∷◌, if◌then◌else◌,
}
use mathlib.Core.List.{Memᴰ}
use complif_techinical_chall.Common.Exec.{Exec, ok, pure}
use complif_techinical_chall.Entities.{Alert, AlertEventMessage}
use complif_techinical_chall.World.{World}
use complif_techinical_chall.Consumers
use complif_techinical_chall.Consumers.{TransactionMessage}
use complif_techinical_chall.Consumers.Deliveries.{deliveries_for}
use complif_techinical_chall.Engine.Context.{EvaluationContext, EvaluationResult}
use complif_techinical_chall.Alerts.Service.Hits.{hits}
use complif_techinical_chall.Startup.{bootstrap}
use complif_techinical_chall.Startup.Classes.{
  Token, client, transactions_service, Listener, handle_transaction, handle_alert_event,
}
use complif_techinical_chall.Startup.Modules.{
  Module, transactions, Import, Provider, Endpoint, metadata,
}
use complif_techinical_chall.Startup.Injection.{
  Loaded, token_of, offered, is_global, IsContainer, injects-resolves,
}
use complif_techinical_chall.Startup.Messages.{
  pattern_of, Bound-eq, alerts_consumer-Bound, listen_to, IsServer, arrive-transactions, arrive_all,
  arrive_all-hits,
}
use complif_techinical_chall.Tests.Fixtures.{rows_of, event, payment, Server}
use complif_techinical_chall.Tests.AlertTable.{with_id, repositories, laws, key, before}
use complif_techinical_chall.Tests.Hits.{messages, messages-AreProcessed}

-- the container that finds what the laws ask for, and no more
data Resolves : Module → Token → Type 0 where
  provided : {m : Module} {p : Provider} → Memᴰ p (metadata m).providers → Resolves m (token_of p)
  of_import :
      {m : Module} {i : Import} {t : Token}
      → Memᴰ i (metadata m).imports
      → Memᴰ t (offered i)
      → Resolves m t
  everywhere :
      {m n : Module} {i : Import} {t : Token}
      → Loaded n
      → Memᴰ i (metadata n).imports
      → is_global i t ≡ true
      → Resolves m t

Resolves-IsContainer : IsContainer Resolves
Resolves-IsContainer = record {
  provides = λ m p inside. provided inside;
  imports = λ m i t inside by. of_import inside by;
  spreads = λ m n i t loaded inside g. everywhere loaded inside g;
}

is_declared :
    Memᴰ transactions_service (complif_techinical_chall.Startup.Injection.classes transactions)
unfolding metadata
is_declared = Memᴰ.tail (Memᴰ.head refl)

injects-resolves_example : Resolves transactions (client "ALERTS_SERVICE")
injects-resolves_example =
    injects-resolves Resolves Resolves-IsContainer transactions transactions_service
      (client "ALERTS_SERVICE") is_declared (search (Memᴰ.head, Memᴰ.tail) depth 6)

abbrev read_transaction : AlertEventMessage → TransactionMessage
read_transaction m = record { organization_id = "o1"; transaction = payment }

abbrev same : AlertEventMessage → AlertEventMessage
same m = m

abbrev evaluate :
    {Db : Type 0} → String → EvaluationContext → Exec (World Db Server) EvaluationResult
evaluate organization_id context =
    pure (record { success = true; events = []; failed_rules = []; evaluated_rules_count = 0 })

abbrev nothing_set : String → Option String
nothing_set name = none

arrive : ℕ → Endpoint → String → AlertEventMessage → Exec (World (Option Alert) Server) (Unit {0})
arrive now endpoint pattern message w =
    if pattern == "alerts"
    then Consumers.handle_alert_event repositories now message w
    else (ok tt, w)

arrive-handles :
    (now : ℕ) (endpoint : Endpoint) (l : Listener) (message : AlertEventMessage)
    (w : World (Option Alert) Server)
    → l ≡ handle_alert_event
    → arrive now endpoint (pattern_of l) message w
      ≡ listen_to repositories evaluate read_transaction same now l message w
unfolding arrive pattern_of listen_to
arrive-handles now endpoint handle_alert_event message w e = refl
arrive-handles now endpoint handle_transaction message w e = absurd (cc)

arrive-ignores :
    (now : ℕ) (endpoint : Endpoint) (pattern : String) (message : AlertEventMessage)
    (w : World (Option Alert) Server)
    → pattern_of handle_alert_event ≢ pattern
    → arrive now endpoint pattern message w ≡ (ok tt, w)
unfolding arrive pattern_of
arrive-ignores now endpoint pattern message w other = elim (Bool-cases (pattern == "alerts")) [
  | inl e ↦ absurd (other (sym ((eq_iff pattern "alerts").0 e)))
  | inr e ↦ rw e refl
]

arrive-IsServer :
    IsServer repositories evaluate read_transaction same (bootstrap nothing_set nothing_set) arrive
arrive-IsServer = record {
  handles = λ now endpoint no_ack c l message w connected started bound.
      arrive-handles now endpoint l message w (Bound-eq c l bound);
  ignores = λ now endpoint pattern message w other.
      arrive-ignores now endpoint pattern message w
        (other _ handle_alert_event alerts_consumer-Bound);
}

abbrev transactions_queue : Endpoint
transactions_queue = record {
  urls = "amqp://localhost" ∷ [];
  queue = "transactions";
  durable = true;
}

arrive-transactions_example :
    arrive 9 transactions_queue (pattern_of handle_transaction) event before ≡ (ok tt, before)
arrive-transactions_example =
    arrive-transactions repositories evaluate read_transaction same nothing_set nothing_set arrive
      arrive-IsServer 9 transactions_queue event before

arrive_all-hits_example :
    hits repositories (rows_of (λ a. a.id) with_id) laws key (
      arrive_all repositories evaluate read_transaction same nothing_set nothing_set arrive
        arrive-IsServer same
        (λ m. refl)
        messages
        before)
    ≡ hits repositories (rows_of (λ a. a.id) with_id) laws key before + deliveries_for key messages
arrive_all-hits_example =
    arrive_all-hits repositories evaluate read_transaction same nothing_set nothing_set arrive
      arrive-IsServer same (λ m. refl) (rows_of (λ a. a.id) with_id) laws messages key before
      messages-AreProcessed
