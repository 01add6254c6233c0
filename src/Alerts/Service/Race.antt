-- ===== src/Alerts/Service/Race.antt =====
-- Two alert events that are processed at the same time (src/alerts/alerts.service.ts): the search
-- for an alert and the write of its outcome are two calls of the database, which other calls may
-- come between. No index of the table makes the key of an active alert unique.
use complif_techinical_chall.Base.{
  ℕ, ◌+◌, ◌≡◌, refl, sym, ap, ◌∙◌, true, ◌&&◌, Option, none, some, List, arith, codes_eq_iff,
}
use complif_techinical_chall.Common.Exec.{ok, state_of}
use complif_techinical_chall.Common.Interleaving
use complif_techinical_chall.Common.Interleaving.{done, first, second}
use complif_techinical_chall.Common.Repository.{IsRepository, weight, weight-eq, count_rows, total}
use complif_techinical_chall.Entities.{Alert, AlertEventMessage}
use complif_techinical_chall.World.{World, Repositories}
use complif_techinical_chall.Alerts.Service.{
  matches, hit, new_alert, calculate_dedup_key, record_alert, process_alert_event,
}
use complif_techinical_chall.Alerts.Service.Hits.{hits, hits_of, hits_of-content, hits_of-hit}
use complif_techinical_chall.Alerts.Service.Dedup.{
  content, matches-content, db-new, db-hit, hit-id, db-process, new-id,
}

-- one call of `processAlertEvent`: before its search, between the search and the write, behind it
pub data Call : Type 0 where
  arrived : AlertEventMessage → Call
  searched : AlertEventMessage → List ℕ → Option Alert → Call
  recorded : Call

module _ {Db : Type 0} (repositories : Repositories Db) (now : ℕ) (rows : Db → List Alert)
    (laws : IsRepository repositories.alerts rows (λ a. a.id) content) where
  new-counts :
      (event : AlertEventMessage) (key : List ℕ) (d : Db) (a : Alert)
      → (repositories.alerts.save (new_alert now event key) d).0 ≡ ok a
      → weight (matches key) a ≡ 1
  unfolding matches new_alert
  new-counts event key d a h =
      weight-eq (matches key) a (new_alert now event key) (
        matches-content key a (new_alert now event key) (laws.kept (new_alert now event key) a d h))
      ∙ ap (λ b. weight (λ _. b && true) a) ((codes_eq_iff key key).1 refl)

module _ {Db Redis : Type 0} (repositories : Repositories Db) (now : ℕ) where
  -- a step of one call
  pub data Step : Call → World Db Redis → Call → World Db Redis → Type 0 where
    searches :
        {event : AlertEventMessage} {key : List ℕ} {existing : Option Alert} {w : World Db Redis}
        → calculate_dedup_key event ≡ ok key
        → repositories.alerts.find_one (matches key) w.db ≡ ok existing
        → Step (arrived event) w (searched event key existing) w
    records :
        {event : AlertEventMessage} {key : List ℕ} {existing : Option Alert} {w : World Db Redis}
        → Step
            (searched event key existing)
            w
            recorded
            (state_of (record_alert repositories now event key existing) w)

  -- the steps of two calls, in any order
  abbrev pub Steps : Call → Call → World Db Redis → Call → Call → World Db Redis → Type 0
  Steps = Interleaving.Steps Step

  -- A call that runs on its own does to the database what `process_alert_event` does, by one search
  -- and one write, and leaves the call beside it where it was.
  pub Steps-process_alert_event :
      (event : AlertEventMessage) (key : List ℕ) (existing : Option Alert) (other : Call)
      (w : World Db Redis)
      → calculate_dedup_key event ≡ ok key
      → repositories.alerts.find_one (matches key) w.db ≡ ok existing
      → (v : World Db Redis) × Steps (arrived event) other w recorded other v
        × (v.db ≡ (state_of (process_alert_event repositories now event) w).db)
  Steps-process_alert_event event key existing other w e f = (
    state_of (record_alert repositories now event key existing) w,
    first (searches e f) (first records done),
    sym (db-process repositories event now key existing w e f),
  )

  module _ (rows : Db → List Alert)
      (laws : IsRepository repositories.alerts rows (λ a. a.id) content) where
    -- a first alert adds one to the active ones of its key
    record_alert-counts :
        (event : AlertEventMessage) (key : List ℕ) (w : World Db Redis) (a : Alert)
        → (repositories.alerts.save (new_alert now event key) w.db).0 ≡ ok a
        → count_rows
            (matches key)
            (rows (state_of (record_alert repositories now event key none) w).db)
          ≡ count_rows (matches key) (rows w.db) + 1
    record_alert-counts event key w a h =
        ap (λ d. count_rows (matches key) (rows d)) (db-new repositories rows laws now event key w)
        ∙ laws.inserted (new_alert now event key) a w.db (weight (matches key))
            (new-id now event key) h
        ∙ ap (λ n. count_rows (matches key) (rows w.db) + n)
            (new-counts repositories now rows laws event key w.db a h)

    module _ (one two : AlertEventMessage) (key : List ℕ) (w : World Db Redis) where
      abbrev pub once : World Db Redis
      once = state_of (record_alert repositories now one key none) w

      abbrev pub twice : World Db Redis
      twice = state_of (record_alert repositories now two key none) once

      -- By the laws of the repository, two events of one key for which no alert is active yet, that
      -- arrive together and are both searched for before either is recorded, leave two active
      -- alerts under the key, where both are stored.
      pub Steps-duplicates :
          (a b : Alert)
          → calculate_dedup_key one ≡ ok key
          → calculate_dedup_key two ≡ ok key
          → repositories.alerts.find_one (matches key) w.db ≡ ok none
          → (repositories.alerts.save (new_alert now one key) w.db).0 ≡ ok a
          → (repositories.alerts.save (new_alert now two key) once.db).0 ≡ ok b
          → Steps (arrived one) (arrived two) w recorded recorded twice
            × (count_rows (matches key) (rows twice.db) ≡ 2)
      Steps-duplicates a b e e' free h k = (
        first (searches e free) (second (searches e' free) (first records (second records done))),
        omega (
          arith,
          laws.missing (matches key) w.db free,
          record_alert-counts one key w a h,
          record_alert-counts two key once b k,
        ),
      )

    module _ (one two : AlertEventMessage) (key : List ℕ) (old : Alert) (w : World Db Redis) where
      abbrev pub hit_once : World Db Redis
      hit_once = state_of (record_alert repositories now one key (some old)) w

      abbrev pub hit_twice : World Db Redis
      hit_twice = state_of (record_alert repositories now two key (some old)) hit_once

      -- By the laws of the repository, two events of the key of an active alert, that are both
      -- searched for before either is recorded, leave the hits that are stored under the key only
      -- one higher, where both writes succeed on the row of that alert.
      pub Steps-lost_hit :
          (a b : Alert)
          → calculate_dedup_key one ≡ ok key
          → calculate_dedup_key two ≡ ok key
          → repositories.alerts.find_one (matches key) w.db ≡ ok (some old)
          → (repositories.alerts.save (hit now old) w.db).0 ≡ ok a
          → repositories.alerts.find_one (matches key) hit_once.db ≡ ok (some a)
          → a.id ≡ old.id
          → (repositories.alerts.save (hit now old) hit_once.db).0 ≡ ok b
          → Steps (arrived one) (arrived two) w recorded recorded hit_twice
            × (hits repositories rows laws key hit_twice ≡ hits repositories rows laws key w + 1)
      Steps-lost_hit a b e e' found h again same k = (
        first (searches e found) (second (searches e' found) (first records (second records done))),
        omega (
          arith,
          ap (λ d. total (hits_of key) (rows d)) (db-hit repositories rows laws now one key w old),
          ap (λ d. total (hits_of key) (rows d))
              (db-hit repositories rows laws now two key hit_once old),
          laws.replaced old (hit now old) a w.db (matches key) (hits_of key) found (hit-id now old)
              h,
          laws.replaced a (hit now old) b hit_once.db (matches key) (hits_of key) again
              (hit-id now old ∙ sym same) k,
          hits_of-content key a (hit now old) (laws.kept (hit now old) a w.db h),
          hits_of-content key b (hit now old) (laws.kept (hit now old) b hit_once.db k),
          hits_of-hit now key old (laws.found (matches key) w.db old found),
        ),
      )
