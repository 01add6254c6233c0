-- ===== src/Alerts/Service/Outcome.antt =====
-- What processing an alert event returns and stores.
use complif_techinical_chall.Base.{ℕ, ◌+◌, ◌≡◌, refl, ap, sym, ◌∙◌, Option, none, some, List, arith}
use complif_techinical_chall.Common.Exec.{
  Exec, Result, ok, result_of, state_of, pure, ◌>>=◌, ◌>>◌, >>=-eq-ok,
}
use complif_techinical_chall.Common.Repository.{IsRepository, total}
use complif_techinical_chall.Entities.{Alert, AlertEventMessage, open_status}
use complif_techinical_chall.World.{World, Repositories}
use complif_techinical_chall.Alerts.Service.{
  matches, new_alert, hit, parse_severity, parse_category, record_alert, execute_action_handlers,
  action_handlers, is_none, calculate_dedup_key, process_alert_event,
}
use complif_techinical_chall.Alerts.Service.Dedup.{content, db-new, db-hit, db-process}

-- the alert that an event leads to: a new one, or one more hit on the one that is active
abbrev pub expected : ℕ → AlertEventMessage → List ℕ → Option Alert → Alert
expected now event key none = record {
  id = "";
  created_at = 0;
  updated_at = 0;
  id_organization = event.organization_id;
  id_rule = event.rule_id;
  id_transaction = event.transaction_id;
  id_account = event.account_id;
  severity = parse_severity event.severity;
  category = parse_category event.category;
  status = open_status;
  hit_count = 1;
  first_triggered_at = now;
  last_triggered_at = now;
  dedup_key = key;
  metadata = record {
    rule_name = event.rule_name;
    event_type = event.event_type;
    event_params = event.event_params;
  };
}
expected now event key (some existing) = record existing {
  hit_count = existing.hit_count + 1;
  last_triggered_at = now;
}

module _ {Db Redis : Type 0} (repositories : Repositories Db) (event : AlertEventMessage) where
  pub saved_by :
      (now : ℕ) (key : List ℕ) (existing : Option Alert) (a : Alert) (w : World Db Redis)
      → result_of (record_alert repositories now event key existing) w ≡ ok a
      → (repositories.alerts.save (expected now event key existing) w.db).0 ≡ ok a
  unfolding record_alert hit new_alert
  saved_by now key none a w h = ground arith
  saved_by now key (some existing) a w h = ground arith

  rest : Option Alert → Alert → Exec (World Db Redis) Alert
  rest existing alert = do
    execute_action_handlers repositories action_handlers alert event (is_none existing)
    pure alert

  process_alert_event-eq :
      (now : ℕ) (key : List ℕ) (existing : Option Alert) (w : World Db Redis)
      → calculate_dedup_key event ≡ ok key
      → repositories.alerts.find_one (matches key) w.db ≡ ok existing
      → result_of (process_alert_event repositories now event) w
        ≡ result_of (record_alert repositories now event key existing >>= rest existing) w
  unfolding process_alert_event rest
  process_alert_event-eq now key existing w e f = rw (e, f) refl

  rest-eq :
      (existing : Option Alert) (alert a : Alert) (w : World Db Redis)
      → result_of (rest existing alert) w ≡ ok a
      → Path (Result Alert) (ok alert) (ok a)
  unfolding rest
  rest-eq existing alert a w h =
      (>>=-eq-ok
        (execute_action_handlers repositories action_handlers alert event (is_none existing))
        (λ _. pure alert) w a h).2

  pub recorded :
      (now : ℕ) (key : List ℕ) (existing : Option Alert) (a : Alert) (w : World Db Redis)
      → calculate_dedup_key event ≡ ok key
      → repositories.alerts.find_one (matches key) w.db ≡ ok existing
      → result_of (process_alert_event repositories now event) w ≡ ok a
      → result_of (record_alert repositories now event key existing) w ≡ ok a
  recorded now key existing a w e f h =
      let step =
        >>=-eq-ok (record_alert repositories now event key existing) (rest existing) w a
          (sym (process_alert_event-eq now key existing w e f) ∙ h) in
      step.1
      ∙ rest-eq existing step.0 a (state_of (record_alert repositories now event key existing) w)
          step.2

pub processed-content :
    {Db Redis : Type 0} (repositories : Repositories Db) (rows : Db → List Alert)
    (laws : IsRepository repositories.alerts rows (λ a. a.id) content) (now : ℕ)
    (event : AlertEventMessage) (key : List ℕ) (existing : Option Alert) (a : Alert)
    (w : World Db Redis)
    → calculate_dedup_key event ≡ ok key
    → repositories.alerts.find_one (matches key) w.db ≡ ok existing
    → result_of (process_alert_event repositories now event) w ≡ ok a
    → content a ≡ content (expected now event key existing)
processed-content repositories rows laws now event key existing a w e f h =
    laws.kept (expected now event key existing) a w.db (
      saved_by repositories event now key existing a w
        (recorded repositories event now key existing a w e f h))

-- what an alert that was found adds to a measure of the table
abbrev pub share : (Alert → ℕ) → Option Alert → ℕ
share f none = 0
share f (some existing) = f existing

module _ {Db Redis : Type 0} (repositories : Repositories Db) (rows : Db → List Alert)
    (laws : IsRepository repositories.alerts rows (λ a. a.id) content) (now : ℕ)
    (event : AlertEventMessage) (key : List ℕ) (a : Alert) (w : World Db Redis)
    (f : Alert → ℕ) where
  -- The alert that is saved is one more row, or takes the place of the row that was found.
  saved-total :
      (existing : Option Alert)
      → repositories.alerts.find_one (matches key) w.db ≡ ok existing
      → (repositories.alerts.save (expected now event key existing) w.db).0 ≡ ok a
      → total f (rows (state_of (record_alert repositories now event key existing) w).db)
          + share f existing
        ≡ total f (rows w.db) + f a
  unfolding new_alert hit
  saved-total none found saved = omega (
    arith,
    ap (λ d. total f (rows d)) (db-new repositories rows laws now event key w),
    laws.inserted (expected now event key none) a w.db f refl saved,
  )
  saved-total (some old) found saved =
      ap (λ d. total f (rows d) + f old) (db-hit repositories rows laws now event key w old)
      ∙ laws.replaced old (expected now event key (some old)) a w.db (matches key) f found refl
          saved

-- By the laws of the repository, a successful processing stores the alert that it returns, and
-- changes no other row: by any measure of the rows, the table has gained that alert, and lost the
-- active one under the event's key if there was one. But for what the database fills in, the alert
-- is, where no alert under the key was active, an open one with one hit, triggered first and last
-- now; else the active one, with one hit more and the time of the last trigger moved to now, and
-- all else as it was.
pub process_alert_event-content :
    {Db Redis : Type 0} (repositories : Repositories Db) (rows : Db → List Alert)
    (laws : IsRepository repositories.alerts rows (λ a. a.id) content) (now : ℕ)
    (event : AlertEventMessage) (key : List ℕ) (existing : Option Alert) (a : Alert)
    (w : World Db Redis) (f : Alert → ℕ)
    → calculate_dedup_key event ≡ ok key
    → repositories.alerts.find_one (matches key) w.db ≡ ok existing
    → result_of (process_alert_event repositories now event) w ≡ ok a
    → (content a ≡ content (expected now event key existing))
      × (total f (rows (state_of (process_alert_event repositories now event) w).db)
            + share f existing
          ≡ total f (rows w.db) + f a)
process_alert_event-content repositories rows laws now event key existing a w f e found h = (
  processed-content repositories rows laws now event key existing a w e found h,
  ap (λ d. total f (rows d) + share f existing)
        (db-process repositories event now key existing w e found)
      ∙ saved-total repositories rows laws now event key a w f existing found (
          saved_by repositories event now key existing a w
            (recorded repositories event now key existing a w e found h)),
)
