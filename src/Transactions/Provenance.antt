-- ===== src/Transactions/Provenance.antt =====
-- What the message of a fired event tells the consumer of the alerts queue.
use complif_techinical_chall.Base.{◌≡◌, refl, String, none, some, ap, ◌∙◌, arith}
use complif_techinical_chall.Common.Value.{
  Value, Fields, str, obj, get, get_value, IsObject, or_else,
}
use complif_techinical_chall.Entities.{Transaction}
use complif_techinical_chall.Engine.RuleCache.{CachedRule}
use complif_techinical_chall.Engine.Context.{EngineEvent, rule_event}
use complif_techinical_chall.Engine.Service.Runs.{rule_event-params}
use complif_techinical_chall.Transactions.{alert_message}

get_value-some : (k : String) (v : Value) (o : Fields) → get k o ≡ some v → get_value k o ≡ v
unfolding get_value
get_value-some k v o h = ground arith

message-config :
    (organization_id : String) (t : Transaction) (rule : CachedRule) (event : EngineEvent)
    → get_value "ruleConfig" (rule_event rule event).params ≡ obj rule.config
    → (alert_message organization_id t (rule_event rule event)).rule_config ≡ some rule.config
unfolding alert_message
message-config organization_id t rule event h = rw h refl

message-id :
    (organization_id : String) (t : Transaction) (rule : CachedRule) (event : EngineEvent)
    → get_value "ruleId" (rule_event rule event).params ≡ str rule.id
    → (alert_message organization_id t (rule_event rule event)).rule_id ≡ rule.id
unfolding alert_message
message-id organization_id t rule event h = rw h refl

-- The message of an event that a rule fired, with parameters of unique keys that name no ruleId of
-- their own, carries the rule's effective configuration, from which the consumer takes the window
-- and the actions, and the id of the rule.
pub alert_message-rule_event :
    (organization_id : String) (t : Transaction) (rule : CachedRule) (event : EngineEvent)
    (params : Fields)
    → event.params ≡ some params
    → IsObject params
    → get "ruleId" params ≡ none
    → ((alert_message organization_id t (rule_event rule event)).rule_config ≡ some rule.config)
      × ((alert_message organization_id t (rule_event rule event)).rule_id ≡ rule.id)
alert_message-rule_event organization_id t rule event params h u unnamed =
    let (config, id) = rule_event-params rule event params h u in
    (
      message-config organization_id t rule event
          (get_value-some "ruleConfig" (obj rule.config) (rule_event rule event).params config),
      message-id organization_id t rule event (
          get_value-some "ruleId" (str rule.id) (rule_event rule event).params
            (id ∙ ap (λ o. or_else o (some (str rule.id))) unnamed)),
    )
