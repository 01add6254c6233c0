-- ===== src/Engine/Service/Fresh.antt =====
-- What the engine reads after the rules of an organization have changed.
use complif_techinical_chall.Base.{
  ℕ, ◌≡◌, refl, ap, ◌∙◌, String, true, Option, none, List, [], ◌∷◌, arith,
}
use complif_techinical_chall.Common.Value.{Fields}
use complif_techinical_chall.Common.Exec.{Result, ok, result_of, state_of, pure, after, ◌>>◌}
use complif_techinical_chall.Entities.{Rule}
use complif_techinical_chall.World.{World, Repositories}
use complif_techinical_chall.World.Reads.{
  Reads, ReadsResult, pure-Reads, >>=-Reads, >>=-ReadsResult,
}
use complif_techinical_chall.Rules
use complif_techinical_chall.Overrides
use complif_techinical_chall.Templates
use complif_techinical_chall.Engine.RuleCache
use complif_techinical_chall.Engine.RuleCache.{CachedRules, CacheText, RedisClient, get_cache_key}
use complif_techinical_chall.Engine.RuleCache.Coherence.{IsRedis, get-invalidate}
use complif_techinical_chall.Engine.Context.{EngineEvent, RuleProperties, Providers, Engine}
use complif_techinical_chall.Engine.Service.{
  cached_rule, build_cached, load_rules, or_load, get_cached_rules,
}

module _ {Db Redis : Type 0} (repositories : Repositories Db) where
  -- computing a configuration writes nothing, and reads the database only
  pub config-Reads :
      (organization_id : String) (r : Rule)
      → Reads {Redis = Redis} (Rules.get_effective_config repositories organization_id r)
  unfolding Rules.get_effective_config Overrides.get_merged_config Templates.find_one
  config-Reads organization_id r = (λ w. ground arith, λ w v h. ground arith)

  pub rules-Reads :
      (organization_id : String)
      → Reads {Redis = Redis} (Rules.find_enabled_by_priority repositories organization_id)
  unfolding Rules.find_enabled_by_priority
  rules-Reads organization_id = (λ w. refl, λ w v h. ground arith)

module _ {Db Redis : Type 0} (repositories : Repositories Db) (client : RedisClient Redis)
    (providers : Providers (World Db Redis))
    (run : Engine (World Db Redis)
      → RuleProperties
      → Fields
      → World Db Redis
      → Result (List EngineEvent)) where
  pub build-Reads :
      (organization_id : String) (rules : List Rule)
      → Reads (build_cached repositories client providers run organization_id rules)
  unfolding build_cached
  build-Reads organization_id [] = pure-Reads []
  build-Reads organization_id (rule ∷ rules) =
      >>=-Reads _ (Rules.get_effective_config repositories organization_id rule)
        (config-Reads repositories organization_id rule)
        (λ config.
          >>=-Reads _ (build_cached repositories client providers run organization_id rules)
            (build-Reads organization_id rules)
            (λ rest. pure-Reads (cached_rule repositories client providers run rule config ∷ rest)))

  set-result :
      (ttl_seconds : ℕ) (organization_id : String) (rules : CachedRules)
      → ReadsResult {Db = Db} (RuleCache.set client ttl_seconds organization_id rules >> pure rules)
  unfolding RuleCache.set
  set-result ttl_seconds organization_id rules w v h = ground arith

  load-ReadsResult :
      (now ttl_seconds : ℕ) (organization_id : String)
      → ReadsResult (load_rules repositories client providers run now ttl_seconds organization_id)
  unfolding load_rules
  load-ReadsResult now ttl_seconds organization_id =
      >>=-ReadsResult _ (Rules.find_enabled_by_priority repositories organization_id)
        (rules-Reads repositories organization_id)
        (λ rules.
          >>=-ReadsResult _ (build_cached repositories client providers run organization_id rules)
            (build-Reads organization_id rules)
            (λ cached.
              set-result ttl_seconds organization_id (record { rules = cached; cached_at = now })))

  pub get-db :
      (organization_id : String) (w : World Db Redis)
      → (state_of (RuleCache.get client organization_id) w).db ≡ w.db
  unfolding RuleCache.get
  get-db organization_id w = ground arith

  invalidate-db :
      (organization_id : String) (w : World Db Redis)
      → (state_of (RuleCache.invalidate client organization_id) w).db ≡ w.db
  unfolding RuleCache.invalidate
  invalidate-db organization_id w = ground arith

  -- a miss loads the rules from the database
  missed :
      (now ttl_seconds : ℕ) (organization_id : String) (w : World Db Redis)
      → result_of (RuleCache.get client organization_id) w ≡ ok none
      → result_of
          (get_cached_rules repositories client providers run now ttl_seconds organization_id)
          w
        ≡ result_of
            (load_rules repositories client providers run now ttl_seconds organization_id)
            (state_of (RuleCache.get client organization_id) w)
  unfolding get_cached_rules or_load
  missed now ttl_seconds organization_id w h =
      ap
        (λ r.
          (after r (or_load repositories client providers run now ttl_seconds organization_id)
            (state_of (RuleCache.get client organization_id) w)).0)
        h

  -- While Redis is connected, after an invalidation whose deletion went through, the engine takes
  -- the rules that loading them from the database gives, with their configurations computed anew,
  -- and not what was cached.
  pub get_cached_rules-invalidate :
      (held : Redis → String → Option CacheText)
      → IsRedis client held
      → (now ttl_seconds : ℕ) (organization_id : String) (w : World Db Redis)
      → w.is_connected ≡ true
      → (client.del (get_cache_key organization_id) w.redis).0 ≡ ok tt
      → result_of
          (get_cached_rules repositories client providers run now ttl_seconds organization_id)
          (state_of (RuleCache.invalidate client organization_id) w)
        ≡ result_of (load_rules repositories client providers run now ttl_seconds organization_id) w
  get_cached_rules-invalidate held laws now ttl_seconds organization_id w connected deleted =
      let w' = state_of (RuleCache.invalidate client organization_id) w in
      missed now ttl_seconds organization_id w'
        (get-invalidate client held laws organization_id w connected deleted)
      ∙ load-ReadsResult now ttl_seconds organization_id
          (state_of (RuleCache.get client organization_id) w') w
          (get-db organization_id w' ∙ invalidate-db organization_id w)
