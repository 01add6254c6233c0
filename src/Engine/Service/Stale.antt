-- ===== src/Engine/Service/Stale.antt =====
-- A load of the rules (getCachedRules of src/engine/engine.service.ts) beside a change of a rule
-- (src/rules/rules.service.ts and the listener of src/engine/rule-cache.service.ts). The load reads
-- the database and writes the cache in two calls, and nothing holds the change up in between.
use complif_techinical_chall.Base.{ℕ, ◌≡◌, ap, ◌∙◌, String, true, Option, none, some, List, arith}
use complif_techinical_chall.Common.Value.{Fields}
use complif_techinical_chall.Common.Exec.{Exec, Result, ok, result_of, state_of, after, ◌>>=◌}
use complif_techinical_chall.Common.Interleaving
use complif_techinical_chall.Common.Interleaving.{done, first, second}
use complif_techinical_chall.Entities.{Rule}
use complif_techinical_chall.World.{World, Repositories}
use complif_techinical_chall.Rules
use complif_techinical_chall.Rules.{UpdateRuleDto}
use complif_techinical_chall.Engine.RuleCache
use complif_techinical_chall.Engine.RuleCache.{
  CachedRule, CachedRules, CacheText, json, RedisClient, get_cache_key,
}
use complif_techinical_chall.Engine.RuleCache.Coherence.{IsRedis, get-answered, held-set}
use complif_techinical_chall.Engine.Context.{EngineEvent, RuleProperties, Providers, Engine}
use complif_techinical_chall.Engine.Service.{build_cached, get_cached_rules, or_load}

-- one call of `getCachedRules`: before it, behind its miss, behind its reads of the database, behind
-- its write of the cache; one call of `update`: before it, behind its write and its event, behind
-- the listener
pub data Call : Type 0 where
  asked missed : Call
  built : List CachedRule → Call
  stored : CachedRules → Call
  updating : String → UpdateRuleDto → Call
  announced invalidated : Call

module _ {Db Redis : Type 0} (repositories : Repositories Db) (client : RedisClient Redis)
    (providers : Providers (World Db Redis))
    (run : Engine (World Db Redis)
      → RuleProperties
      → Fields
      → World Db Redis
      → Result (List EngineEvent))
    (now ttl_seconds : ℕ) (organization_id : String) where
  -- the reads of a load
  abbrev pub read_rules : Exec (World Db Redis) (List CachedRule)
  read_rules = do
    rules ← Rules.find_enabled_by_priority repositories organization_id
    build_cached repositories client providers run organization_id rules

  abbrev pub entry_of : List CachedRule → CachedRules
  entry_of cached = record { rules = cached; cached_at = now }

  pub data Step : Call → World Db Redis → Call → World Db Redis → Type 0 where
    misses :
        {w : World Db Redis}
        → result_of (RuleCache.get client organization_id) w ≡ ok none
        → Step asked w missed (state_of (RuleCache.get client organization_id) w)
    reads :
        {cached : List CachedRule} {w : World Db Redis}
        → result_of read_rules w ≡ ok cached
        → Step missed w (built cached) (state_of read_rules w)
    stores :
        {cached : List CachedRule} {w : World Db Redis}
        → Step
            (built cached)
            w
            (stored (entry_of cached))
            (state_of (RuleCache.set client ttl_seconds organization_id (entry_of cached)) w)
    updates :
        {id : String} {dto : UpdateRuleDto} {rule : Rule} {w : World Db Redis}
        → result_of (Rules.update repositories organization_id id dto) w ≡ ok rule
        → Step
            (updating id dto)
            w
            announced
            (state_of (Rules.update repositories organization_id id dto) w)
    listens :
        {w : World Db Redis}
        → Step announced w invalidated
            (state_of (RuleCache.handle_cache_invalidation client organization_id) w)

  abbrev pub Steps : Call → Call → World Db Redis → Call → Call → World Db Redis → Type 0
  Steps = Interleaving.Steps Step

  listener-db :
      (w : World Db Redis)
      → (state_of (RuleCache.handle_cache_invalidation client organization_id) w).db ≡ w.db
  unfolding RuleCache.handle_cache_invalidation
  listener-db w = ground arith

  set-db :
      (rules : CachedRules) (w : World Db Redis)
      → (state_of (RuleCache.set client ttl_seconds organization_id rules) w).db ≡ w.db
  unfolding RuleCache.set
  set-db rules w = ground arith

  set-connected :
      (rules : CachedRules) (w : World Db Redis)
      → (state_of (RuleCache.set client ttl_seconds organization_id rules) w).is_connected
        ≡ w.is_connected
  unfolding RuleCache.set
  set-connected rules w = ground arith

  -- a hit is what the engine goes by
  hit-result :
      (rules : CachedRules) (w : World Db Redis)
      → result_of (RuleCache.get client organization_id) w ≡ ok (some rules)
      → result_of
          (get_cached_rules repositories client providers run now ttl_seconds organization_id)
          w
        ≡ ok rules
  unfolding get_cached_rules or_load
  hit-result rules w h =
      ap
        (λ r.
          (after r (or_load repositories client providers run now ttl_seconds organization_id)
            (state_of (RuleCache.get client organization_id) w)).0)
        h

  module _ (id : String) (dto : UpdateRuleDto) (cached : List CachedRule) (w : World Db Redis) where
    -- the load has read, and then the change runs to its end
    abbrev pub after_reads : World Db Redis
    after_reads = state_of read_rules (state_of (RuleCache.get client organization_id) w)

    abbrev pub after_change : World Db Redis
    after_change = state_of (Rules.update repositories organization_id id dto) after_reads

    abbrev pub after_listener : World Db Redis
    after_listener =
        state_of (RuleCache.handle_cache_invalidation client organization_id) after_change

    abbrev pub after_store : World Db Redis
    after_store =
        state_of (RuleCache.set client ttl_seconds organization_id (entry_of cached)) after_listener

    -- A load that has read the rules before a rule is changed, and that writes the cache behind the
    -- invalidation, brings the rules as they were back: the database holds the change, but the
    -- engine goes by what was read before it, while Redis still answers with the entry that it holds.
    -- The load misses and reads without an error, the change succeeds, and Redis is connected and
    -- takes the write.
    pub Steps-stale :
        (held : Redis → String → Option CacheText)
        → IsRedis client held
        → (rule : Rule) → result_of (RuleCache.get client organization_id) w ≡ ok none
        → result_of read_rules (state_of (RuleCache.get client organization_id) w) ≡ ok cached
        → result_of (Rules.update repositories organization_id id dto) after_reads ≡ ok rule
        → after_listener.is_connected ≡ true
        → (client.setex
            (get_cache_key organization_id)
            ttl_seconds
            (json (entry_of cached))
            after_listener.redis).0
          ≡ ok tt
        → client.get (get_cache_key organization_id) after_store.redis
          ≡ ok (held after_store.redis (get_cache_key organization_id))
        → Steps asked (updating id dto) w (stored (entry_of cached)) invalidated after_store
          × (after_store.db ≡ after_change.db)
          × (result_of
                (get_cached_rules repositories client providers run now ttl_seconds organization_id)
                after_store
              ≡ ok (entry_of cached))
    Steps-stale held laws rule miss read changed connected written answered = (
      first (misses miss)
          (first (reads read) (second (updates changed) (second listens (first stores done)))),
      set-db (entry_of cached) after_listener ∙ listener-db after_change,
      hit-result (entry_of cached) after_store (
          get-answered client held laws organization_id (entry_of cached) after_store
            (set-connected (entry_of cached) after_listener ∙ connected)
            (answered
              ∙ ap ok (
                  held-set client held laws ttl_seconds organization_id (entry_of cached)
                    after_listener connected written))),
    )
