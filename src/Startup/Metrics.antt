-- ===== src/Startup/Metrics.antt =====
-- The metrics that the services declare by makeCounterProvider and makeHistogramProvider; their help
-- texts are left out.
use complif_techinical_chall.Base.{ℕ, String, List, [], ◌∷◌}

-- The upper bounds of a histogram's buckets are thousandths.
pub data Metric : Type 0 where
  counter : (name : String) (label_names : List String) → Metric
  histogram : (name : String) (label_names : List String) (buckets : List ℕ) → Metric

abbrev pub name_of : Metric → String
name_of (counter name label_names) = name
name_of (histogram name label_names buckets) = name

abbrev pub evaluation_duration_provider : Metric
evaluation_duration_provider =
    histogram "rule_evaluation_duration_seconds" ("organization_id" ∷ [])
      (10 ∷ 25 ∷ 50 ∷ 100 ∷ 250 ∷ 500 ∷ 1000 ∷ [])

abbrev pub evaluation_total_provider : Metric
evaluation_total_provider = counter "rule_evaluation_total" ("organization_id" ∷ "status" ∷ [])

abbrev pub rules_evaluated_provider : Metric
rules_evaluated_provider = counter "rules_evaluated_total" ("organization_id" ∷ [])

abbrev pub rule_cache_hit_provider : Metric
rule_cache_hit_provider = counter "rule_cache_total" ("result" ∷ [])

abbrev pub transactions_processed_provider : Metric
transactions_processed_provider =
    counter "transactions_processed_total" ("organization_id" ∷ "source" ∷ "status" ∷ [])

abbrev pub alerts_created_provider : Metric
alerts_created_provider =
    counter "alerts_created_total" ("organization_id" ∷ "severity" ∷ "category" ∷ [])

abbrev pub alerts_deduplicated_provider : Metric
alerts_deduplicated_provider = counter "alerts_deduplicated_total" ("organization_id" ∷ [])

abbrev pub alert_action_duration_provider : Metric
alert_action_duration_provider =
    histogram "alert_action_duration_seconds" ("action_type" ∷ "status" ∷ [])
      (10 ∷ 25 ∷ 50 ∷ 100 ∷ 250 ∷ 500 ∷ 1000 ∷ [])
