-- ===== src/Alerts/Actions.antt =====
-- The action handlers of alerts (src/alerts/actions). All but the database's are stubs that log and
-- report success, and none of them throws in `execute`.
use complif_techinical_chall.Base.{
  ◌*◌, String, Bool, true, false, Option, none, some, any, codes, text_includes,
}
use complif_techinical_chall.Base.Int.{pos}
use complif_techinical_chall.Common.Value.{
  Value, undefined, null, bool, num, str, arr, Fields, end, field, items, get_value, strict_eq,
}
use complif_techinical_chall.Common.Exec.{Result, ok, err, thrown}
use complif_techinical_chall.Entities.{Alert, AlertEventMessage}

pub record ActionResult : Type 0 where
  pub success : Bool
  pub action_type : String
  pub error : Option String
  pub metadata : Option Fields

-- AlertActionHandler
pub record ActionHandler : Type 0 where
  pub action_type : String
  pub should_execute : AlertEventMessage → Result Bool
  pub execute : Alert → AlertEventMessage → Bool → Result ActionResult

-- `event.ruleConfig?.actions`
abbrev pub actions_of : Option Fields → Value
actions_of none = undefined
actions_of (some o) = get_value "actions" o

-- `actions?.includes(name) ?? false`: of an array, of a text, and of values that have no `includes`
unfoldable pub actions_include : Value → String → Result Bool
unfolding strict_eq text_includes
actions_include undefined name = ok false
actions_include null name = ok false
actions_include (arr vs) name = ok (any (λ v. strict_eq v (str name)) (items vs))
actions_include (str s) name = ok (text_includes (codes s) (codes name))
actions_include v name = err (thrown "actions.includes is not a function")

unfoldable pub db_handler : ActionHandler
db_handler = record {
  action_type = "db";
  should_execute = λ event. ok true;
  execute = λ alert event is_new_alert. ok (record {
    success = true;
    action_type = "db";
    error = none;
    metadata = some (
        field "alertId" (str alert.id) (
          field "isNewAlert" (bool is_new_alert)
            (field "hitCount" (num (pos (alert.hit_count * 10000))) end)));
  });
}

-- the `metadata` of a stub
abbrev stub : String → Option Fields
stub message = some (field "stub" (bool true) (field "message" (str message) end))

unfoldable pub webhook_handler : ActionHandler
unfolding actions_include get_value
webhook_handler = record {
  action_type = "webhook";
  should_execute = λ event. actions_include (actions_of event.rule_config) "webhook";
  execute = λ alert event is_new_alert. ok (record {
    success = true;
    action_type = "webhook";
    error = none;
    metadata = stub "Webhook action not yet implemented";
  });
}

unfoldable pub queue_handler : ActionHandler
unfolding actions_include get_value
queue_handler = record {
  action_type = "queue";
  should_execute = λ event. actions_include (actions_of event.rule_config) "queue";
  execute = λ alert event is_new_alert. ok (record {
    success = true;
    action_type = "queue";
    error = none;
    metadata = stub "Queue action not yet implemented";
  });
}

unfoldable pub block_handler : ActionHandler
unfolding actions_include get_value
block_handler = record {
  action_type = "block";
  should_execute = λ event. actions_include (actions_of event.rule_config) "block";
  execute = λ alert event is_new_alert. ok (record {
    success = true;
    action_type = "block";
    error = none;
    metadata = stub "Block action not yet implemented";
  });
}
