-- ===== src/Engine/Service.antt =====
-- EngineService (src/engine/engine.service.ts): loading rules and evaluating them. json-rules-engine
-- is a parameter: `run` is `engine.run(facts)` of an engine with one rule, given the operators and
-- the fact providers that were registered. Durations are left out of the result.
pub mod Runs
pub mod Fresh
pub mod Single
pub mod Writes
pub mod Stale
use complif_techinical_chall.Base.{ℕ, String, Option, none, some, List, [], ◌∷◌, length, map}
use complif_techinical_chall.Common.Value.{Fields, get_value}
use complif_techinical_chall.Common.Exec.{
  Error, Result, ok, err, Exec, error_message, pure, catch, finally, ◌>>=◌, ◌>>◌,
}
use complif_techinical_chall.Entities.{Rule}
use complif_techinical_chall.World.{
  World, Repositories, rules_evaluated, evaluation_total, evaluation_duration, success, error, emit,
}
use complif_techinical_chall.Rules
use complif_techinical_chall.Engine.RuleCache
use complif_techinical_chall.Engine.RuleCache.{CachedRule, CachedRules, RedisClient}
use complif_techinical_chall.Engine.Context.{
  EvaluationContext, RuleEvent, FailedRule, EvaluationResult, RuleProperties, EngineEvent,
  Providers, Engine, create_configured_engine, build_facts_from_context, rule_event, build_result,
  collect,
}

module _ {Db Redis : Type 0} (repositories : Repositories Db) (client : RedisClient Redis)
    (providers : Providers (World Db Redis))
    (run : Engine (World Db Redis)
      → RuleProperties
      → Fields
      → World Db Redis
      → Result (List EngineEvent)) where
  -- evaluateSingleRule
  unfoldable pub evaluate_single_rule :
      CachedRule → EvaluationContext → String → World Db Redis → Result (List EngineEvent)
  unfolding build_facts_from_context create_configured_engine get_value
  evaluate_single_rule rule context organization_id =
      run (create_configured_engine providers)
        (record {
          name = rule.name;
          conditions = get_value "conditions" rule.config;
          event = get_value "event" rule.config;
          priority = rule.priority;
        })
        (build_facts_from_context context organization_id)

  abbrev cached_rule : Rule → Fields → CachedRule
  cached_rule rule config = record {
    id = rule.id;
    name = rule.name;
    priority = rule.priority;
    config = config;
  }

  -- the loop that computes the effective configurations
  unfoldable pub build_cached : String → List Rule → Exec (World Db Redis) (List CachedRule)
  build_cached organization_id [] = pure []
  build_cached organization_id (rule ∷ rules) = do
    config ← Rules.get_effective_config repositories organization_id rule
    rest ← build_cached organization_id rules
    pure (cached_rule rule config ∷ rest)

  unfoldable pub load_rules : ℕ → ℕ → String → Exec (World Db Redis) CachedRules
  unfolding build_cached
  load_rules now ttl_seconds organization_id = do
    rules ← Rules.find_enabled_by_priority repositories organization_id
    cached ← build_cached organization_id rules
    let data_to_cache : CachedRules = record { rules = cached; cached_at = now }
    RuleCache.set client ttl_seconds organization_id data_to_cache
    pure data_to_cache

  unfoldable pub or_load : ℕ → ℕ → String → Option CachedRules → Exec (World Db Redis) CachedRules
  unfolding load_rules
  or_load now ttl_seconds organization_id none = load_rules now ttl_seconds organization_id
  or_load now ttl_seconds organization_id (some cached) = pure cached

  -- getCachedRules
  unfoldable pub get_cached_rules : ℕ → ℕ → String → Exec (World Db Redis) CachedRules
  unfolding or_load
  get_cached_rules now ttl_seconds organization_id = do
    cached ← RuleCache.get client organization_id
    or_load now ttl_seconds organization_id cached

  -- the rules, each with the outcome of its own engine (Promise.allSettled)
  unfoldable pub settle :
      EvaluationContext
      → String
      → List CachedRule
      → World Db Redis
      → List (CachedRule × Result (List EngineEvent))
  settle context organization_id rules w =
      map (λ rule. (rule, evaluate_single_rule rule context organization_id w)) rules

  abbrev result_from : List CachedRule → List RuleEvent × List FailedRule → EvaluationResult
  result_from rules (events, failed) = build_result events failed (length rules)

  unfoldable pub evaluate_rules :
      EvaluationContext → String → List CachedRule → Exec (World Db Redis) EvaluationResult
  unfolding settle collect build_result
  evaluate_rules context organization_id [] s = (ok (build_result [] [] 0), s)
  evaluate_rules context organization_id (rule ∷ rules) s =
      (do
        emit (rules_evaluated organization_id (length (rule ∷ rules)))
        emit (evaluation_total organization_id success)
        pure (
            result_from (rule ∷ rules)
              (collect [] [] (settle context organization_id (rule ∷ rules) s))))
        s

  -- the `catch` of `evaluate`: an empty result instead of the error
  abbrev evaluation_failed : String → Error → Exec (World Db Redis) EvaluationResult
  evaluation_failed organization_id e = do
    emit (evaluation_total organization_id error)
    pure (build_result [] [] 0)

  unfoldable pub evaluate :
      ℕ → ℕ → String → EvaluationContext → Exec (World Db Redis) EvaluationResult
  unfolding build_result
  evaluate now ttl_seconds organization_id context =
      finally
        (catch
          (do
            cached ← get_cached_rules now ttl_seconds organization_id
            evaluate_rules context organization_id cached.rules)
          (evaluation_failed organization_id))
        (emit (evaluation_duration organization_id))

  raise : Result (List EngineEvent) → Exec (World Db Redis) (List EngineEvent)
  raise (ok fired) s = (ok fired, s)
  raise (err e) s = (err e, s)

  unfoldable pub evaluate_rule :
      String → String → EvaluationContext → Exec (World Db Redis) EvaluationResult
  unfolding raise build_result rule_event
  evaluate_rule organization_id rule_id context =
      finally
        (catch
          (do
            rule ← Rules.find_one repositories organization_id rule_id
            config ← Rules.get_effective_config repositories organization_id rule
            let cached : CachedRule = cached_rule rule config
            fired ← λ s. raise (evaluate_single_rule cached context organization_id s) s
            emit (rules_evaluated organization_id 1)
            emit (evaluation_total organization_id success)
            pure (build_result (map (rule_event cached) fired) [] 1))
          (λ e. do
            emit (evaluation_total organization_id error)
            pure (
                build_result []
                  (record { rule_id = rule_id; rule_name = "Unknown"; error = error_message e }
                    ∷ [])
                  0)))
        (emit (evaluation_duration organization_id))
