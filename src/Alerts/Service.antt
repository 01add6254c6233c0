-- ===== src/Alerts/Service.antt =====
-- AlertsService (src/alerts/alerts.service.ts). `now` is `new Date()`.
pub mod Dedup
pub mod Outcome
pub mod Lost
pub mod Closing
pub mod Reopening
pub mod Keys
pub mod Hits
pub mod Race
pub mod Configured
use complif_techinical_chall.Base.{
  ℕ, ◌+◌, String, ◌==◌, ◌&&◌, ◌||◌, Bool, true, false, not, Option, none, some, List, [], ◌∷◌, ◌++◌,
  any, codes, codes_eq, text_includes, to_upper_case, if◌then◌else◌,
}
use complif_techinical_chall.Common.Value.{
  Value, undefined, null, bool, num, str, arr, obj, Fields, items, get_value, strict_eq,
}
use complif_techinical_chall.Common.Exec.{
  Error, thrown, not_found, Result, ok, err, Exec, pure, throw, catch, ◌>>=◌, ◌>>◌,
}
use complif_techinical_chall.Common.Repository.{desc}
use complif_techinical_chall.Common.Pagination.{
  PaginationQuery, PaginatedResult, skip_of, limit_of, paginated,
}
use complif_techinical_chall.Entities.{
  Alert, AlertEventMessage, AlertSeverity, low, medium, high, critical, AlertCategory, aml, fraud,
  compliance, unknown, AlertStatus, open_status, acknowledged, resolved, false_positive,
}
use complif_techinical_chall.World.{
  World, Repositories, Status, success, error, alert_created, alert_deduplicated, action_duration,
  query, write, emit,
}
use complif_techinical_chall.Alerts.Window.{calculate_window_key}
use complif_techinical_chall.Alerts.Query.{
  AlertQueryDto, matches_status, matches_severity, matches_category, matches_rule,
}
use complif_techinical_chall.Alerts.Actions.{
  ActionResult, ActionHandler, db_handler, webhook_handler, queue_handler, block_handler,
}

-- `Object.values(AlertSeverity).includes(upper)`, MEDIUM for any other text
unfoldable pub parse_severity : String → AlertSeverity
unfolding codes_eq to_upper_case
parse_severity severity =
    let upper = to_upper_case severity in
    if codes_eq upper (codes "LOW")
    then low
    else if codes_eq upper (codes "MEDIUM")
    then medium
    else if codes_eq upper (codes "HIGH")
    then high
    else if codes_eq upper (codes "CRITICAL")
    then critical
    else medium

unfoldable pub parse_category : String → AlertCategory
unfolding codes_eq to_upper_case
parse_category category =
    let upper = to_upper_case category in
    if codes_eq upper (codes "AML")
    then aml
    else if codes_eq upper (codes "FRAUD")
    then fraud
    else if codes_eq upper (codes "COMPLIANCE")
    then compliance
    else if codes_eq upper (codes "UNKNOWN")
    then unknown
    else unknown

-- event.accountId || 'no-account'
abbrev pub account_text : Option String → String
account_text none = "no-account"
account_text (some a) = if a == "" then "no-account" else a

abbrev with_window : AlertEventMessage → Result (List ℕ) → Result (List ℕ)
with_window event (err e) = err e
with_window event (ok window) =
    ok (codes event.rule_id ++ (58 ∷ (codes (account_text event.account_id) ++ (58 ∷ window))))

-- calculateDedupKey: the rule, the account and the window, joined by colons
unfoldable pub calculate_dedup_key : AlertEventMessage → Result (List ℕ)
calculate_dedup_key event =
    with_window event (calculate_window_key event.rule_config event.transaction_datetime)

-- In([AlertStatus.OPEN, AlertStatus.ACKNOWLEDGED])
abbrev pub is_active : AlertStatus → Bool
is_active open_status = true
is_active acknowledged = true
is_active _ = false

-- the condition of the search for an alert to count on
unfoldable pub matches : List ℕ → Alert → Bool
matches dedup_key a = codes_eq a.dedup_key dedup_key && is_active a.status

unfoldable pub new_alert : ℕ → AlertEventMessage → List ℕ → Alert
new_alert now event dedup_key = record {
  id = "";
  created_at = 0;
  updated_at = 0;
  id_organization = event.organization_id;
  id_rule = event.rule_id;
  id_transaction = event.transaction_id;
  id_account = event.account_id;
  severity = parse_severity event.severity;
  category = parse_category event.category;
  status = open_status;
  hit_count = 1;
  first_triggered_at = now;
  last_triggered_at = now;
  dedup_key = dedup_key;
  metadata = record {
    rule_name = event.rule_name;
    event_type = event.event_type;
    event_params = event.event_params;
  };
}

-- existingAlert.hitCount += 1; existingAlert.lastTriggeredAt = new Date()
unfoldable pub hit : ℕ → Alert → Alert
hit now a = record a { hit_count = a.hit_count + 1; last_triggered_at = now }

-- this.actionHandlers
unfoldable pub action_handlers : List ActionHandler
unfolding db_handler webhook_handler queue_handler block_handler
action_handlers = db_handler ∷ webhook_handler ∷ queue_handler ∷ block_handler ∷ []

-- the status that is observed once a handler has run or thrown
abbrev pub status_of : Result ActionResult → Status
status_of (ok r) = if r.success then success else error
status_of (err e) = error

abbrev pub is_none {ℓ} : {A : Type ℓ} → Option A → Bool
is_none none = true
is_none (some a) = false

module _ {Db Redis : Type 0} (repositories : Repositories Db) where
  abbrev lift : {A : Type 0} → Result A → Exec (World Db Redis) A
  lift r s = (r, s)

  -- the two branches on `existingAlert`
  unfoldable pub record_alert :
      ℕ → AlertEventMessage → List ℕ → Option Alert → Exec (World Db Redis) Alert
  unfolding hit new_alert
  record_alert now event dedup_key (some existing) = do
    alert ← write (repositories.alerts.save (hit now existing))
    emit (alert_deduplicated event.organization_id)
    pure alert
  record_alert now event dedup_key none = do
    alert ← write (repositories.alerts.save (new_alert now event dedup_key))
    emit (
        alert_created event.organization_id (parse_severity event.severity)
          (parse_category event.category))
    pure alert

  -- one round of the loop, behind `shouldExecute`
  unfoldable pub perform :
      ActionHandler → Alert → AlertEventMessage → Bool → Bool → Exec (World Db Redis) (Unit {0})
  perform handler alert event is_new_alert false = pure tt
  perform handler alert event is_new_alert true =
      emit
        (action_duration handler.action_type (status_of (handler.execute alert event is_new_alert)))

  -- the loop of `executeActionHandlers`; `shouldExecute` stands outside its `try`
  unfoldable pub execute_action_handlers :
      List ActionHandler → Alert → AlertEventMessage → Bool → Exec (World Db Redis) (Unit {0})
  execute_action_handlers [] alert event is_new_alert = pure tt
  execute_action_handlers (handler ∷ handlers) alert event is_new_alert = do
    runs ← lift (handler.should_execute event)
    perform handler alert event is_new_alert runs
    execute_action_handlers handlers alert event is_new_alert

  unfoldable pub process_alert_event : ℕ → AlertEventMessage → Exec (World Db Redis) Alert
  unfolding action_handlers
  process_alert_event now event = do
    dedup_key ← lift (calculate_dedup_key event)
    existing ← query (repositories.alerts.find_one (matches dedup_key))
    alert ← record_alert now event dedup_key existing
    execute_action_handlers action_handlers alert event (is_none existing)
    pure alert

  unfoldable pub find_by_organization :
      String → AlertQueryDto → Exec (World Db Redis) (PaginatedResult Alert)
  find_by_organization organization_id q = do
    page ← query (
        repositories.alerts.find_and_count
          (λ a.
            a.id_organization == organization_id
            && (matches_status q.status a
                && (matches_severity q.severity a
                    && (matches_category q.category a && matches_rule q.rule_id a))))
          (desc "lastTriggeredAt" ∷ []) (skip_of q.paging) (limit_of q.paging))
    pure (paginated q.paging page)

  abbrev or_missing : String → Option Alert → Exec (World Db Redis) Alert
  or_missing id none = throw (not_found "Alert" id)
  or_missing id (some a) = pure a

  unfoldable pub find_one : String → String → Exec (World Db Redis) Alert
  find_one organization_id id = do
    found ←
        query
          (repositories.alerts.find_one (λ a. a.id == id && a.id_organization == organization_id))
    or_missing id found

  unfoldable pub update_status : String → String → AlertStatus → Exec (World Db Redis) Alert
  unfolding find_one
  update_status organization_id id status = do
    alert ← find_one organization_id id
    write (repositories.alerts.save (record alert { status = status }))
