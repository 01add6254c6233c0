-- ===== src/Tests/Engine.antt =====
-- Evaluations with a fixed engine, the cache over a concrete server, and operators.
use complif_techinical_chall.Base.{
  ℕ, ◌≡◌, refl, ◌==◌, Bool, true, Option, none, some, List, [], ◌∷◌, ◌++◌, if◌then◌else◌,
}
use complif_techinical_chall.Base.Int.{pos}
use complif_techinical_chall.Common.Value.{
  Fields, Items, nil, cons, end, field, str, num, obj, get, IsObject, or_else,
}
use complif_techinical_chall.Common.Exec.{Result, ok, err, thrown, result_of, state_of}
use complif_techinical_chall.World.{World, Repositories, Effect, evaluation_duration}
use complif_techinical_chall.Engine.RuleCache as Cache
use complif_techinical_chall.Engine.RuleCache.{CachedRule, CachedRules, get_cache_key}
use complif_techinical_chall.Engine.Facts
use complif_techinical_chall.Engine.Context.{
  Engine, EngineEvent, EvaluationContext, Providers, RuleProperties, rule_event,
}
use complif_techinical_chall.Engine.Service.{evaluate, get_cached_rules, load_rules}
use complif_techinical_chall.Engine.Facts.{Almanac, TransactionHistoryParams}
use complif_techinical_chall.Engine.Service.Fresh.{get_cached_rules-invalidate}
use complif_techinical_chall.Engine.Service.Runs.{evaluation_after, evaluate-eq, rule_event-params}
use complif_techinical_chall.Transactions.{context_of, new_transaction}
use complif_techinical_chall.Tests.Fixtures.{
  stored, world, payment, sample, Server, empty_server, server_client, server_client-IsRedis,
}

abbrev repositories : Repositories Unit
repositories = stored

abbrev before : World Unit Server
before = world tt empty_server

abbrev nothing : Option ℕ → Bool
nothing t = true

abbrev providers : Providers (World Unit Server)
providers = record {
  transaction_history = λ params almanac organization_id w.
      Facts.transaction_history (λ q d. ok none) 365 sample params almanac organization_id w.db;
  account = Facts.account;
  list_lookup = Facts.list_lookup repositories nothing sample;
}

abbrev fired : EngineEvent
fired = record { type = "large-amount"; params = some (field "ruleId" (str "other") end) }

-- an engine that throws for one rule and fires for every other
run :
    Engine (World Unit Server)
    → RuleProperties
    → Fields
    → World Unit Server
    → Result (List EngineEvent)
run engine properties facts w =
    if properties.name == "Broken" then err (thrown "no such fact") else ok (fired ∷ [])

abbrev context : EvaluationContext
context = context_of (new_transaction "o1" payment)

evaluate-eq_example :
    (result_of (evaluate repositories server_client providers run sample 300 "o1" context) before
      ≡ ok (
          evaluation_after repositories server_client providers run context "o1"
            (get_cached_rules repositories server_client providers run sample 300 "o1" before)))
    × (l : List Effect) × ((state_of
          (evaluate repositories server_client providers run sample 300 "o1" context)
          before).trace
        ≡ l ++ evaluation_duration "o1" ∷ [])
evaluate-eq_example =
    evaluate-eq repositories server_client providers run sample 300 "o1" context before

abbrev cached : CachedRule
cached = record {
  id = "r1";
  name = "Large amount";
  priority = 1;
  config = field "severity" (str "HIGH") end;
}

fired-IsObject : IsObject (field "ruleId" (str "other") end)
unfolding get
fired-IsObject = (refl, tt, tt)

rule_event-params_example :
    (get "ruleConfig" (rule_event cached fired).params ≡ some (obj cached.config))
    × (get "ruleId" (rule_event cached fired).params
        ≡ or_else (get "ruleId" (field "ruleId" (str "other") end)) (some (str cached.id)))
rule_event-params_example =
    rule_event-params cached fired (field "ruleId" (str "other") end) refl fired-IsObject

abbrev rules : CachedRules
rules = record { rules = cached ∷ []; cached_at = sample }

abbrev countries : Items
countries = cons (str "ir") (cons (num (pos 5)) (cons (str "KP") nil))

-- a server that still holds the rules as they were
abbrev stale : World Unit Server
stale = world tt (λ k. some (Cache.json rules))

stale_deletes : (server_client.del (get_cache_key "o1") stale.redis).0 ≡ ok tt
unfolding server_client
stale_deletes = refl

get_cached_rules-invalidate_example :
    result_of
      (get_cached_rules repositories server_client providers run sample 300 "o1")
      (state_of (Cache.invalidate server_client "o1") stale)
    ≡ result_of (load_rules repositories server_client providers run sample 300 "o1") stale
get_cached_rules-invalidate_example =
    get_cached_rules-invalidate repositories server_client providers run (λ r. r)
      server_client-IsRedis sample 300 "o1" stale refl stale_deletes
