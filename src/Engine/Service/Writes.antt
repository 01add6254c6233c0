-- ===== src/Engine/Service/Writes.antt =====
-- What evaluating rules writes: counters and the cache, and nothing in the database.
use complif_techinical_chall.Base.{ℕ, refl, String, Option, none, some, List, [], ◌∷◌, arith}
use complif_techinical_chall.Common.Value.{Fields}
use complif_techinical_chall.Common.Exec.{Result, Exec, pure, catch, ◌>>=◌, ◌>>◌}
use complif_techinical_chall.World.{World, Repositories, evaluation_duration, emit}
use complif_techinical_chall.World.Keeps.{
  KeepsDb, pure-KeepsDb, emit-KeepsDb, >>=-KeepsDb, catch-KeepsDb, finally-KeepsDb,
}
use complif_techinical_chall.World.Reads.{Reads}
use complif_techinical_chall.Rules
use complif_techinical_chall.Engine.RuleCache
use complif_techinical_chall.Engine.RuleCache.{CachedRule, CachedRules, RedisClient}
use complif_techinical_chall.Engine.Context.{
  EngineEvent, EvaluationContext, EvaluationResult, RuleProperties, Providers, Engine,
}
use complif_techinical_chall.Engine.Service.{
  load_rules, or_load, get_cached_rules, build_cached, evaluate_rules, evaluation_failed, evaluate,
}
use complif_techinical_chall.Engine.Service.Fresh.{get-db, rules-Reads, build-Reads}

Reads-KeepsDb : {Db Redis A : Type 0} (m : Exec (World Db Redis) A) → Reads m → KeepsDb m
Reads-KeepsDb m (keeps, same) w i = (keeps w i).db

module _ {Db Redis : Type 0} (repositories : Repositories Db) (client : RedisClient Redis)
    (providers : Providers (World Db Redis))
    (run : Engine (World Db Redis)
      → RuleProperties
      → Fields
      → World Db Redis
      → Result (List EngineEvent)) where
  set-KeepsDb :
      (ttl_seconds : ℕ) (organization_id : String) (rules : CachedRules)
      → KeepsDb {Db = Db} (RuleCache.set client ttl_seconds organization_id rules >> pure rules)
  unfolding RuleCache.set
  set-KeepsDb ttl_seconds organization_id rules w = ground arith

  load-KeepsDb :
      (now ttl_seconds : ℕ) (organization_id : String)
      → KeepsDb (load_rules repositories client providers run now ttl_seconds organization_id)
  unfolding load_rules
  load-KeepsDb now ttl_seconds organization_id =
      >>=-KeepsDb (Rules.find_enabled_by_priority repositories organization_id) _
        (Reads-KeepsDb _ (rules-Reads repositories organization_id))
        (λ rules.
          >>=-KeepsDb (build_cached repositories client providers run organization_id rules) _
            (Reads-KeepsDb _ (build-Reads repositories client providers run organization_id rules))
            (λ cached.
              set-KeepsDb ttl_seconds organization_id (record { rules = cached; cached_at = now })))

  or_load-KeepsDb :
      (now ttl_seconds : ℕ) (organization_id : String) (cached : Option CachedRules)
      → KeepsDb (or_load repositories client providers run now ttl_seconds organization_id cached)
  unfolding or_load
  or_load-KeepsDb now ttl_seconds organization_id none =
      load-KeepsDb now ttl_seconds organization_id
  or_load-KeepsDb now ttl_seconds organization_id (some cached) = pure-KeepsDb cached

  cached_rules-KeepsDb :
      (now ttl_seconds : ℕ) (organization_id : String)
      → KeepsDb (get_cached_rules repositories client providers run now ttl_seconds organization_id)
  unfolding get_cached_rules
  cached_rules-KeepsDb now ttl_seconds organization_id =
      >>=-KeepsDb (RuleCache.get client organization_id) _
        (get-db repositories client providers run organization_id)
        (or_load-KeepsDb now ttl_seconds organization_id)

  rules-KeepsDb :
      (context : EvaluationContext) (organization_id : String) (rules : List CachedRule)
      → KeepsDb (evaluate_rules repositories client providers run context organization_id rules)
  unfolding evaluate_rules
  rules-KeepsDb context organization_id [] w = refl
  rules-KeepsDb context organization_id (rule ∷ rules) w = refl

  -- Evaluating the rules of an organization writes nothing to the database, whatever they do.
  pub evaluate-KeepsDb :
      (now ttl_seconds : ℕ) (organization_id : String) (context : EvaluationContext)
      → KeepsDb (evaluate repositories client providers run now ttl_seconds organization_id context)
  unfolding evaluate
  evaluate-KeepsDb now ttl_seconds organization_id context =
      let block : Exec (World Db Redis) EvaluationResult =
        get_cached_rules repositories client providers run now ttl_seconds organization_id
        >>= λ cached.
            evaluate_rules repositories client providers run context organization_id cached.rules in
      let failed = evaluation_failed repositories client providers run organization_id in
      finally-KeepsDb (catch block failed) (emit (evaluation_duration organization_id))
        (catch-KeepsDb block failed
          (>>=-KeepsDb
            (get_cached_rules repositories client providers run now ttl_seconds organization_id)
            (λ cached.
              evaluate_rules repositories client providers run context organization_id cached.rules)
            (cached_rules-KeepsDb now ttl_seconds organization_id)
            (λ cached. rules-KeepsDb context organization_id cached.rules))
          (λ e w. refl))
        (emit-KeepsDb (evaluation_duration organization_id))
