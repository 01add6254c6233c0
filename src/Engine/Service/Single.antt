-- ===== src/Engine/Service/Single.antt =====
-- The evaluation of one rule that is asked for by its id.
use complif_techinical_chall.Base.{◌≡◌, refl, String, ◌==◌, ◌&&◌, false, none, List, [], ◌∷◌}
use complif_techinical_chall.Common.Value.{Fields}
use complif_techinical_chall.Common.Exec.{Result, ok, not_found, error_message, result_of, state_of}
use complif_techinical_chall.World.{World, Repositories}
use complif_techinical_chall.Rules
use complif_techinical_chall.Engine.RuleCache.{RedisClient}
use complif_techinical_chall.Engine.Context.{
  Engine, EngineEvent, EvaluationContext, Providers, RuleProperties,
}
use complif_techinical_chall.Engine.Service.{evaluate_rule}

module _ {Db Redis : Type 0} (repositories : Repositories Db) (client : RedisClient Redis)
    (providers : Providers (World Db Redis))
    (run : Engine (World Db Redis)
      → RuleProperties
      → Fields
      → World Db Redis
      → Result (List EngineEvent)) where
  -- Evaluating a rule that the organization does not have does not throw: it returns an unsuccessful
  -- result that names the rule and the not-found message, with no event and no rule evaluated, and
  -- leaves the database as it is.
  pub evaluate_rule-missing :
      (organization_id rule_id : String) (context : EvaluationContext) (w : World Db Redis)
      → repositories.rules.find_one
          (λ r. r.id == rule_id && r.id_organization == organization_id)
          w.db
        ≡ ok none
      → (result_of
            (evaluate_rule repositories client providers run organization_id rule_id context)
            w
          ≡ ok (record {
            success = false;
            events = [];
            failed_rules =
                record {
                  rule_id = rule_id;
                  rule_name = "Unknown";
                  error = error_message (not_found "Rule" rule_id);
                }
                ∷ [];
            evaluated_rules_count = 0;
          }))
        × ((state_of
              (evaluate_rule repositories client providers run organization_id rule_id context)
              w).db
            ≡ w.db)
  unfolding evaluate_rule Rules.find_one
  evaluate_rule-missing organization_id rule_id context w missing =
      (rw missing refl, rw missing refl)
