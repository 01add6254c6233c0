-- ===== src/Tests/Stale.antt =====
-- A rule that is switched off while its organization's rules are loaded.
use complif_techinical_chall.Base.{
  ℕ, ◌≡◌, refl, String, Bool, true, false, Option, none, some, List, [], ◌∷◌,
}
use complif_techinical_chall.Common.Value.{Fields}
use complif_techinical_chall.Common.Exec.{Result, ok, result_of, state_of}
use complif_techinical_chall.Entities.{Rule}
use complif_techinical_chall.World.{World, Repositories}
use complif_techinical_chall.Rules
use complif_techinical_chall.Rules.{UpdateRuleDto}
use complif_techinical_chall.Engine.RuleCache
use complif_techinical_chall.Engine.RuleCache.{CachedRule, json, get_cache_key}
use complif_techinical_chall.Engine.Facts
use complif_techinical_chall.Engine.Context.{Engine, EngineEvent, Providers, RuleProperties}
use complif_techinical_chall.Engine.Service.{get_cached_rules, build_cached}
use complif_techinical_chall.Engine.Service.Stale.{
  asked, updating, stored, invalidated, entry_of, read_rules, Steps, after_reads, after_change,
  after_listener, after_store, Steps-stale,
}
use complif_techinical_chall.Tests.Fixtures as Fixtures
use complif_techinical_chall.Tests.Fixtures.{
  table, rows_of, world, sample, rule, Server, empty_server, server_client, server_client-IsRedis,
}

abbrev with_id : String → Rule → Rule
with_id i r = record r { id = i }

abbrev repositories : Repositories (Option Rule)
repositories = record Fixtures.stored { rules = table (λ r. r.id) with_id }

abbrev plain_rule : Rule
plain_rule = record rule { id_template = none }

abbrev before : World (Option Rule) Server
before = world (some plain_rule) empty_server

abbrev all_match : Option ℕ → Bool
all_match t = true

abbrev providers : Providers (World (Option Rule) Server)
providers = record {
  transaction_history = λ params almanac organization_id w.
      Facts.transaction_history (λ q d. ok none) 365 sample params almanac organization_id w.db;
  account = Facts.account;
  list_lookup = Facts.list_lookup repositories all_match sample;
}

silent :
    Engine (World (Option Rule) Server)
    → RuleProperties
    → Fields
    → World (Option Rule) Server
    → Result (List EngineEvent)
silent engine properties facts w = ok []

abbrev off : UpdateRuleDto
off = record {
  name = none;
  description = none;
  id_template = none;
  enabled = some false;
  priority = none;
  config = none;
}

abbrev cached : List CachedRule
cached =
    record {
      id = plain_rule.id;
      name = plain_rule.name;
      priority = plain_rule.priority;
      config = plain_rule.config;
    }
    ∷ []

misses : result_of (RuleCache.get server_client "o1") before ≡ ok none
unfolding RuleCache.get server_client
misses = refl

reads :
    result_of
      (read_rules repositories server_client providers silent sample 300 "o1")
      (state_of (RuleCache.get server_client "o1") before)
    ≡ ok cached
unfolding RuleCache.get server_client Rules.find_enabled_by_priority build_cached
    Rules.get_effective_config table
reads = refl

abbrev read : World (Option Rule) Server
read =
    after_reads repositories server_client providers silent sample 300 "o1" "r1" off cached before

abbrev heard : World (Option Rule) Server
heard =
    after_listener repositories server_client providers silent sample 300 "o1" "r1" off cached
      before

changed :
    result_of (Rules.update repositories "o1" "r1" off) read
    ≡ ok (record plain_rule { enabled = false })
unfolding RuleCache.get server_client Rules.find_enabled_by_priority build_cached
    Rules.get_effective_config table Rules.update
changed = refl

is_up : heard.is_connected ≡ true
unfolding RuleCache.get server_client Rules.find_enabled_by_priority build_cached
    Rules.get_effective_config table Rules.update RuleCache.handle_cache_invalidation
is_up = refl

written :
    (server_client.setex
      (get_cache_key "o1")
      300
      (json (entry_of repositories server_client providers silent sample 300 "o1" cached))
      heard.redis).0
    ≡ ok tt
unfolding server_client
written = refl

answered :
    server_client.get
      (get_cache_key "o1")
      (after_store repositories server_client providers silent sample 300 "o1" "r1" off cached
        before).redis
    ≡ ok (
        (after_store repositories server_client providers silent sample 300 "o1" "r1" off cached
            before).redis
          (get_cache_key "o1"))
unfolding server_client
answered = refl

Steps-stale_example :
    Steps repositories server_client providers silent sample 300 "o1" asked
      (updating "r1" off)
      before
      (stored (entry_of repositories server_client providers silent sample 300 "o1" cached))
      invalidated
      (after_store repositories server_client providers silent sample 300 "o1" "r1" off cached
        before)
    × ((after_store repositories server_client providers silent sample 300 "o1" "r1" off cached
          before).db
        ≡ (after_change repositories server_client providers silent sample 300 "o1" "r1" off cached
            before).db)
    × (result_of (get_cached_rules repositories server_client providers silent sample 300 "o1") (
          after_store repositories server_client providers silent sample 300 "o1" "r1" off cached
            before)
        ≡ ok (entry_of repositories server_client providers silent sample 300 "o1" cached))
Steps-stale_example =
    Steps-stale repositories server_client providers silent sample 300 "o1" "r1" off cached before
      (λ r. r) server_client-IsRedis (record plain_rule { enabled = false }) misses reads changed
      is_up written answered
