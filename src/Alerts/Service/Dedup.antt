-- ===== src/Alerts/Service/Dedup.antt =====
-- Deduplication: at most one alert under each key is active.
use complif_techinical_chall.Base.{
  ℕ, ◌+◌, ◌≤◌, ◌≡◌, refl, ap, ◌∙◌, subst, Bool, true, false, Bool-cases, inl, inr, Option, none,
  some, List, [], ◌∷◌, arith, codes_eq, codes_eq_iff,
}
use complif_techinical_chall.Common.Exec.{Error, Result, ok, err, state_of, Result-cases, pure}
use complif_techinical_chall.Common.Repository.{IsRepository, weight, weight-eq, count_rows}
use complif_techinical_chall.Common.Repository.Saves.{insert-le, replace-le}
use complif_techinical_chall.Entities.{Alert, AlertEventMessage}
use complif_techinical_chall.World.{World, Repositories, db-bind, write}
use complif_techinical_chall.Alerts.Actions.{ActionHandler}
use complif_techinical_chall.Alerts.Service.{
  matches, new_alert, hit, record_alert, execute_action_handlers, perform, action_handlers,
  calculate_dedup_key, process_alert_event, is_none,
}

-- what `save` keeps of an alert: all but what the database fills in
abbrev pub content : Alert → Alert
content a = record a { id = ""; created_at = 0; updated_at = 0 }

pub matches-content : (k : List ℕ) (a b : Alert) → content a ≡ content b → matches k a ≡ matches k b
unfolding matches
matches-content k a b h = ap (matches k) h

matches-hit : (k : List ℕ) (now : ℕ) (a : Alert) → matches k (hit now a) ≡ matches k a
unfolding matches hit
matches-hit k now a = refl

pub hit-id : (now : ℕ) (a : Alert) → (hit now a).id ≡ a.id
unfolding hit
hit-id now a = refl

pub new-id :
    (now : ℕ) (event : AlertEventMessage) (key : List ℕ) → (new_alert now event key).id ≡ ""
unfolding new_alert
new-id now event key = refl

module _ {Db Redis : Type 0} (repositories : Repositories Db) (rows : Db → List Alert)
    (laws : IsRepository repositories.alerts rows (λ a. a.id) content) where
  -- No key has two active alerts.
  abbrev pub IsDeduplicated : World Db Redis → Type 0
  IsDeduplicated w = (k : List ℕ) → count_rows (matches k) (rows w.db) ≤ 1

  module _ (now : ℕ) (event : AlertEventMessage) (key : List ℕ) (w : World Db Redis) where
    pub db-new :
        (state_of (record_alert repositories now event key none) w).db
        ≡ (repositories.alerts.save (new_alert now event key) w.db).1
    unfolding record_alert
    db-new = db-bind (write (repositories.alerts.save (new_alert now event key))) _ (λ a s. refl) w

    pub db-hit :
        (existing : Alert)
        → (state_of (record_alert repositories now event key (some existing)) w).db
          ≡ (repositories.alerts.save (hit now existing) w.db).1
    unfolding record_alert
    db-hit existing =
        db-bind (write (repositories.alerts.save (hit now existing))) _ (λ a s. refl) w

    -- a new alert counts for its own key only
    new-weight :
        (k : List ℕ)
        → repositories.alerts.find_one (matches key) w.db ≡ ok none
        → count_rows (matches k) (rows w.db) ≤ 1
        → count_rows (matches k) (rows w.db) + weight (matches k) (new_alert now event key) ≤ 1
    unfolding matches new_alert
    new-weight k free h = elim (Bool-cases (codes_eq key k)) [
      | inl same ↦
          let none_yet : count_rows (matches k) (rows w.db) ≡ 0 =
            subst (λ j. count_rows (matches j) (rows w.db) ≡ 0) ((codes_eq_iff key k).0 same)
              (laws.missing (matches key) w.db free) in
          ground arith
      | inr other ↦ ground arith
    ]

    save_new-le :
        repositories.alerts.find_one (matches key) w.db ≡ ok none
        → IsDeduplicated w
        → (k : List ℕ)
        → count_rows (matches k) (rows (repositories.alerts.save (new_alert now event key) w.db).1)
          ≤ 1
    save_new-le free h k =
        insert-le repositories.alerts rows (λ a. a.id) content laws (matches k) (matches-content k)
          (new_alert now event key) w.db (new-id now event key) (new-weight k free (h k))

    save_hit-le :
        (existing : Alert)
        → repositories.alerts.find_one (matches key) w.db ≡ ok (some existing)
        → IsDeduplicated w
        → (k : List ℕ)
        → count_rows (matches k) (rows (repositories.alerts.save (hit now existing) w.db).1) ≤ 1
    save_hit-le existing found h k =
        replace-le repositories.alerts rows (λ a. a.id) content laws (matches k) (matches-content k)
          existing (hit now existing) w.db (matches key) found (hit-id now existing)
          (omega
            (arith, weight-eq (matches k) (hit now existing) existing (matches-hit k now existing)))
          (h k)

module _ {Db Redis : Type 0} (repositories : Repositories Db) (event : AlertEventMessage) where
  db-perform :
      (a : ActionHandler) (alert : Alert) (is_new runs : Bool) (s : World Db Redis)
      → (state_of (perform repositories a alert event is_new runs) s).db ≡ s.db
  unfolding perform
  db-perform a alert is_new false s = refl
  db-perform a alert is_new true s = refl

  -- The handlers of the actions do not write the database.
  db-actions :
      (handlers : List ActionHandler) (alert : Alert) (is_new : Bool) (s : World Db Redis)
      → (state_of (execute_action_handlers repositories handlers alert event is_new) s).db ≡ s.db
  unfolding execute_action_handlers
  db-actions [] alert is_new s = refl
  db-actions (a ∷ as') alert is_new s =
      db-bind (λ s'. (a.should_execute event, s')) _
        (λ runs s'.
          db-bind (perform repositories a alert event is_new runs)
            (λ _. execute_action_handlers repositories as' alert event is_new)
            (λ _ s''. db-actions as' alert is_new s'') s'
          ∙ db-perform a alert is_new runs s')
        s

  -- What `process_alert_event` does once the key is known, on the alert that the search found.
  pub db-process :
      (now : ℕ) (key : List ℕ) (existing : Option Alert) (w : World Db Redis)
      → calculate_dedup_key event ≡ ok key
      → repositories.alerts.find_one (matches key) w.db ≡ ok existing
      → (state_of (process_alert_event repositories now event) w).db
        ≡ (state_of (record_alert repositories now event key existing) w).db
  unfolding process_alert_event
  db-process now key existing w h found =
      rw (h, found)
        (db-bind (record_alert repositories now event key existing) _
          (λ alert s.
            db-bind
              (execute_action_handlers repositories action_handlers alert event (is_none existing))
              (λ _. pure alert) (λ _ s'. refl) s
            ∙ db-actions action_handlers alert (is_none existing) s)
          w)

  -- Without a key, or where the search throws, nothing is written.
  db-no_key :
      (now : ℕ) (e : Error) (w : World Db Redis)
      → calculate_dedup_key event ≡ err e
      → (state_of (process_alert_event repositories now event) w).db ≡ w.db
  unfolding process_alert_event
  db-no_key now e w h = rw h

  db-no_search :
      (now : ℕ) (key : List ℕ) (e : Error) (w : World Db Redis)
      → calculate_dedup_key event ≡ ok key
      → repositories.alerts.find_one (matches key) w.db ≡ err e
      → (state_of (process_alert_event repositories now event) w).db ≡ w.db
  unfolding process_alert_event
  db-no_search now key e w h found = rw (h, found)

module _ {Db Redis : Type 0} (repositories : Repositories Db) (rows : Db → List Alert)
    (laws : IsRepository repositories.alerts rows (λ a. a.id) content) (now : ℕ)
    (event : AlertEventMessage) (w : World Db Redis)
    (h : IsDeduplicated repositories rows laws w) where
  searched-IsDeduplicated :
      (key : List ℕ)
      → calculate_dedup_key event ≡ ok key
      → (found : Result (Option Alert)) → repositories.alerts.find_one (matches key) w.db ≡ found
      → IsDeduplicated repositories rows laws
          (state_of (process_alert_event repositories now event) w)
  searched-IsDeduplicated key e (err x) f k =
      rw (db-no_search repositories event now key x w e f) (h k)
  searched-IsDeduplicated key e (ok none) f k =
      rw
        (
          db-process repositories event now key none w e f,
          db-new repositories rows laws now event key w,
        )
        (save_new-le repositories rows laws now event key w f h k)
  searched-IsDeduplicated key e (ok (some existing)) f k =
      rw
        (
          db-process repositories event now key (some existing) w e f,
          db-hit repositories rows laws now event key w existing,
        )
        (save_hit-le repositories rows laws now event key w existing f h k)

  -- By the laws of the repository, processing an alert event, on every branch and also where the
  -- database or an action throws, keeps it so that no deduplication key has two alerts that are
  -- open or acknowledged.
  pub process_alert_event-IsDeduplicated :
      IsDeduplicated repositories rows laws
        (state_of (process_alert_event repositories now event) w)
  process_alert_event-IsDeduplicated = elim (Result-cases (calculate_dedup_key event)) [
    | inl (key, e) ↦
        searched-IsDeduplicated key e (repositories.alerts.find_one (matches key) w.db) refl
    | inr (x, e) ↦ λ k. rw (db-no_key repositories event now x w e) (h k)
  ]
