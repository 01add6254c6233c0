-- ===== src/World.antt =====
-- The state that the services share: the database behind their repositories, the Redis client, and
-- the trace of what leaves the process. A trace entry is one call of the event emitter, of a
-- Prometheus counter, of the alerts queue or of a message channel; log lines are left out.
pub mod Reads
pub mod Keeps
pub mod Acks
use complif_techinical_chall.Base.{ℕ, ◌≡◌, refl, String, Bool, List, [], ◌∷◌, ◌++◌}
use complif_techinical_chall.Common.Exec.{Result, ok, Exec, err, after, state_of, ◌>>=◌}
use complif_techinical_chall.Common.Repository.{Repository}
use complif_techinical_chall.Entities.{
  Organization, RuleTemplate, TemplateOverride, Rule, ListEntry, Transaction, Alert,
  AlertEventMessage, AlertSeverity, AlertCategory,
}

pub data Source : Type 0 where
  api queue : Source

pub data Status : Type 0 where
  success error evaluation_error : Status

pub data Effect : Type 0 where
  -- eventEmitter.emit(RULE_CACHE_INVALIDATION_EVENT, organizationId)
  cache_invalidation : String → Effect
  -- rule_cache_total
  cache_hit cache_miss : Effect
  -- client.publish(INVALIDATION_CHANNEL, organizationId)
  invalidation_published : String → Effect
  -- rules_evaluated_total, rule_evaluation_total, rule_evaluation_duration_seconds
  rules_evaluated : String → ℕ → Effect
  evaluation_total : String → Status → Effect
  evaluation_duration : String → Effect
  -- transactions_processed_total
  transactions_processed : String → Source → Status → Effect
  -- alertClient.emit('alerts', message)
  alert_emitted : AlertEventMessage → Effect
  -- alerts_created_total, alerts_deduplicated_total, alert_action_duration_seconds
  alert_created : String → AlertSeverity → AlertCategory → Effect
  alert_deduplicated : String → Effect
  action_duration : String → Status → Effect
  -- channel.ack(originalMsg)
  acknowledged : Effect

pub record World (Db Redis : Type 0) : Type 0 where
  pub db : Db
  pub redis : Redis
  -- the field `isConnected` of RuleCacheService
  pub is_connected : Bool
  pub trace : List Effect

-- The repositories that Nest injects, all on one database.
pub record Repositories (Db : Type 0) : Type 0 where
  pub organizations : Repository Db Organization
  pub rule_templates : Repository Db RuleTemplate
  pub template_overrides : Repository Db TemplateOverride
  pub rules : Repository Db Rule
  pub list_entries : Repository Db ListEntry
  pub transactions : Repository Db Transaction
  pub alerts : Repository Db Alert

module _ {Db Redis A : Type 0} where
  -- a call that reads the database
  abbrev pub query : (Db → Result A) → Exec (World Db Redis) A
  query q s = (q s.db, s)

  -- a call that writes the database
  abbrev pub write : (Db → Result A × Db) → Exec (World Db Redis) A
  write q s = ((q s.db).0, record s { db = (q s.db).1 })

module _ {Db Redis : Type 0} where
  abbrev pub emit : Effect → Exec (World Db Redis) (Unit {0})
  emit e s = (ok tt, record s { trace = s.trace ++ e ∷ [] })

module _ {Db Redis A B : Type 0} where
  db-after :
      (r : Result A) (f : A → Exec (World Db Redis) B)
      → ((a : A) (s : World Db Redis) → (state_of (f a) s).db ≡ s.db)
      → (w : World Db Redis) → (after r f w).1.db ≡ w.db
  db-after (ok a) f h w = h a w
  db-after (err e) f h w = refl

  -- A step whose continuation leaves the database alone leaves what its first part wrote.
  pub db-bind :
      (m : Exec (World Db Redis) A) (f : A → Exec (World Db Redis) B)
      → ((a : A) (s : World Db Redis) → (state_of (f a) s).db ≡ s.db)
      → (w : World Db Redis) → (state_of (m >>= f) w).db ≡ (state_of m w).db
  db-bind m f h w = db-after (m w).0 f h (m w).1
