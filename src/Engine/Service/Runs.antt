-- ===== src/Engine/Service/Runs.antt =====
-- What evaluations return, whatever rules, database and cache do.
use complif_techinical_chall.Base.{
  ℕ, String, ◌≡◌, refl, sym, ap, ◌∙◌, some, List, [], ◌∷◌, ◌++◌, map, length,
}
use mathlib.Core.List.{append-nil, append_assoc}
use complif_techinical_chall.Common.Value.{
  obj, str, Fields, end, field, get, spread, IsObject, or_else, get-put, get-put_self, get-spread,
}
use complif_techinical_chall.Common.Exec.{
  Error, Result, ok, err, result_of, state_of, guarded_ok, guarded_err,
}
use complif_techinical_chall.World.{World, Repositories, Effect, evaluation_duration, emit}
use complif_techinical_chall.Engine.RuleCache.{CachedRule, CachedRules, RedisClient}
use complif_techinical_chall.Engine.Context.{
  EvaluationContext, EvaluationResult, RuleEvent, FailedRule, RuleProperties, EngineEvent,
  Providers, Engine, no_failures, build_result, rule_event, failed_rule, collect,
}
use complif_techinical_chall.Engine.Service.{
  settle, get_cached_rules, evaluate, evaluate_rules, evaluation_failed, result_from,
}

abbrev pub Settled : Type 0
Settled = CachedRule × Result (List EngineEvent)

-- what one rule's outcome adds to the events, and to the failed rules
abbrev pub events_of_one : Settled → List RuleEvent
events_of_one (rule, ok fired) = map (rule_event rule) fired
events_of_one (rule, err e) = []

abbrev pub failures_of_one : Settled → List FailedRule
failures_of_one (rule, ok fired) = []
failures_of_one (rule, err e) = failed_rule rule e ∷ []

abbrev pub events_of : List Settled → List RuleEvent
events_of [] = []
events_of (s ∷ ss) = events_of_one s ++ events_of ss

abbrev pub failures_of : List Settled → List FailedRule
failures_of [] = []
failures_of (s ∷ ss) = failures_of_one s ++ failures_of ss

-- The loop with its two accumulators appends what each rule adds.
collect-eq :
    (events : List RuleEvent) (failed : List FailedRule) (ss : List Settled)
    → collect events failed ss ≡ (events ++ events_of ss, failed ++ failures_of ss)
unfolding collect
collect-eq events failed [] = λ i. (sym (append-nil events) i, sym (append-nil failed) i)
collect-eq events failed ((rule, ok fired) ∷ ss) =
    collect-eq (events ++ map (rule_event rule) fired) failed ss
    ∙ ap {B = List RuleEvent × List FailedRule} (λ l. (l, failed ++ failures_of ss))
        (append_assoc events (map (rule_event rule) fired) (events_of ss))
collect-eq events failed ((rule, err e) ∷ ss) =
    collect-eq events (failed ++ failed_rule rule e ∷ []) ss
    ∙ ap {B = List RuleEvent × List FailedRule} (λ l. (events ++ events_of ss, l))
        (append_assoc failed (failed_rule rule e ∷ []) (failures_of ss))

events_of-append : (ss ts : List Settled) → events_of (ss ++ ts) ≡ events_of ss ++ events_of ts
events_of-append [] ts = refl
events_of-append (s ∷ ss) ts =
    ap (λ l. events_of_one s ++ l) (events_of-append ss ts)
    ∙ sym (append_assoc (events_of_one s) (events_of ss) (events_of ts))

-- A rule whose evaluation throws, wherever it stands, does not change the events that the other
-- rules fire.
pub collect-failing :
    (before behind : List Settled) (rule : CachedRule) (e : Error)
    → (collect [] [] (before ++ (rule, err e) ∷ behind)).0 ≡ (collect [] [] (before ++ behind)).0
collect-failing before behind rule e =
    ap (λ p. p.0) (collect-eq [] [] (before ++ (rule, err e) ∷ behind))
    ∙ events_of-append before ((rule, err e) ∷ behind)
    ∙ sym (events_of-append before behind)
    ∙ sym (ap (λ p. p.0) (collect-eq [] [] (before ++ behind)))

-- the evaluation of rules that have settled
abbrev pub summary : List Settled → ℕ → EvaluationResult
summary ss count = record {
  success = no_failures (failures_of ss);
  events = events_of ss;
  failed_rules = failures_of ss;
  evaluated_rules_count = count;
}

module _ {Db Redis : Type 0} (repositories : Repositories Db) (client : RedisClient Redis)
    (providers : Providers (World Db Redis))
    (run : Engine (World Db Redis)
      → RuleProperties
      → Fields
      → World Db Redis
      → Result (List EngineEvent)) where
  -- The evaluation that the rules, once they are loaded or not, lead to.
  abbrev pub evaluation_after :
      EvaluationContext → String → Result CachedRules × World Db Redis → EvaluationResult
  evaluation_after context organization_id (ok cached, w) =
      summary (settle repositories client providers run context organization_id cached.rules w)
        (length cached.rules)
  evaluation_after context organization_id (err e, w) = summary [] 0

  evaluate_rules-summary :
      (context : EvaluationContext) (organization_id : String) (rules : List CachedRule)
      (w : World Db Redis)
      → result_of (evaluate_rules repositories client providers run context organization_id rules) w
        ≡ ok (
            summary
              (settle repositories client providers run context organization_id rules w)
              (length rules))
  unfolding evaluate_rules
  evaluate_rules-summary context organization_id [] w = refl
  evaluate_rules-summary context organization_id (rule ∷ rules) w =
      ap (λ p. ok (result_from repositories client providers run (rule ∷ rules) p))
        (collect-eq [] []
          (settle repositories client providers run context organization_id (rule ∷ rules) w))

  evaluate-result :
      (now ttl_seconds : ℕ) (organization_id : String) (context : EvaluationContext)
      (w : World Db Redis) (r : Result CachedRules) (w' : World Db Redis)
      → get_cached_rules repositories client providers run now ttl_seconds organization_id w
        ≡ (r, w')
      → result_of
          (evaluate repositories client providers run now ttl_seconds organization_id context)
          w
        ≡ ok (evaluation_after context organization_id (r, w'))
  unfolding evaluate build_result
  evaluate-result now ttl_seconds organization_id context w (ok cached) w' h =
      guarded_ok
        (get_cached_rules repositories client providers run now ttl_seconds organization_id)
        (λ cached.
          evaluate_rules repositories client providers run context organization_id cached.rules)
        (evaluation_failed repositories client providers run organization_id)
        (emit (evaluation_duration organization_id)) w w' cached _ h
        (evaluate_rules-summary context organization_id cached.rules w')
  evaluate-result now ttl_seconds organization_id context w (err e) w' h =
      guarded_err
        (get_cached_rules repositories client providers run now ttl_seconds organization_id)
        (λ cached.
          evaluate_rules repositories client providers run context organization_id cached.rules)
        (evaluation_failed repositories client providers run organization_id)
        (emit (evaluation_duration organization_id)) w w' e h

  -- An evaluation never throws. If the rules could be loaded it returns the events that each rule's
  -- own engine fired, in the order of the rules, one entry for each rule whose engine threw, and the
  -- number of rules; it is successful if none threw. If they could not be loaded it returns a
  -- successful result with no event and no rule. On every branch the duration is observed last.
  pub evaluate-eq :
      (now ttl_seconds : ℕ) (organization_id : String) (context : EvaluationContext)
      (w : World Db Redis)
      → (result_of
            (evaluate repositories client providers run now ttl_seconds organization_id context)
            w
          ≡ ok (
              evaluation_after context organization_id (
                get_cached_rules repositories client providers run now ttl_seconds organization_id
                  w)))
        × (l : List Effect) × ((state_of
              (evaluate repositories client providers run now ttl_seconds organization_id context)
              w).trace
            ≡ l ++ evaluation_duration organization_id ∷ [])
  unfolding evaluate build_result
  evaluate-eq now ttl_seconds organization_id context w =
      (evaluate-result now ttl_seconds organization_id context w _ _ refl, _, refl)

-- Whatever an event's own parameters, of unique keys, hold, `ruleConfig` is the rule's
-- configuration; `ruleId` is the rule's id only if those parameters have no such key.
pub rule_event-params :
    (rule : CachedRule) (event : EngineEvent) (params : Fields)
    → event.params ≡ some params
    → IsObject params
    → (get "ruleConfig" (rule_event rule event).params ≡ some (obj rule.config))
      × (get "ruleId" (rule_event rule event).params
          ≡ or_else (get "ruleId" params) (some (str rule.id)))
unfolding rule_event get
rule_event-params rule event params h u =
    let base : Fields = field "ruleId" (str rule.id) (field "ruleName" (str rule.name) end) in
    rw h (
      get-put_self "ruleConfig" (obj rule.config) (spread base params),
      get-put "ruleConfig" "ruleId" (obj rule.config) (spread base params)
          ∙ get-spread "ruleId" base params u,
    )
