-- ===== src/Alerts/Service/Hits.antt =====
-- How often the alerts of a key were triggered, against the events that were delivered.
use complif_techinical_chall.Base.{
  ℕ, ◌+◌, ◌≡◌, ◌≢◌, refl, sym, ap, ◌∙◌, true, inl, inr, Option, none, some, List, arith, codes_eq,
  codes_eq_iff, if◌then◌else◌,
}
use complif_techinical_chall.Common.Exec.{Error, Result, ok, err, result_of, state_of, Result-cases}
use complif_techinical_chall.Common.Repository.{IsRepository, total}
use complif_techinical_chall.Entities.{Alert, AlertEventMessage}
use complif_techinical_chall.World.{World, Repositories}
use complif_techinical_chall.Alerts.Service.{
  matches, hit, new_alert, calculate_dedup_key, process_alert_event,
}
use complif_techinical_chall.Alerts.Service.Dedup.{content, db-new, db-hit, db-process}
use complif_techinical_chall.Alerts.Service.Outcome.{
  expected, saved_by, recorded, processed-content,
}

-- the hits that an alert adds to the count of a key
unfoldable pub hits_of : List ℕ → Alert → ℕ
hits_of k a = if codes_eq a.dedup_key k then a.hit_count else 0

abbrev counts : List ℕ → Result (List ℕ) → ℕ
counts k (ok key) = if codes_eq key k then 1 else 0
counts k (err e) = 0

-- one for an event that has the key, else zero
unfoldable pub counted_for : List ℕ → AlertEventMessage → ℕ
counted_for k event = counts k (calculate_dedup_key event)

pub hits_of-content : (k : List ℕ) (a b : Alert) → content a ≡ content b → hits_of k a ≡ hits_of k b
unfolding hits_of
hits_of-content k a b h = ap (hits_of k) h

counted_for-eq :
    (k key : List ℕ) (event : AlertEventMessage)
    → calculate_dedup_key event ≡ ok key
    → counted_for k event ≡ (if codes_eq key k then 1 else 0)
unfolding counted_for
counted_for-eq k key event h = ap (counts k) h

matches-key : (key : List ℕ) (a : Alert) → matches key a ≡ true → codes_eq a.dedup_key key ≡ true
unfolding matches
matches-key key a h = ground arith

pub hits_of-hit :
    (now : ℕ) (key : List ℕ) (a : Alert)
    → matches key a ≡ true
    → hits_of key (hit now a) ≡ hits_of key a + 1
unfolding hits_of hit
hits_of-hit now key a h = ground (arith, matches-key key a h)

-- a first trigger counts one for its key, and a further one adds one to what the alert counts
expected-new :
    (now : ℕ) (event : AlertEventMessage) (key k : List ℕ)
    → calculate_dedup_key event ≡ ok key
    → hits_of k (expected now event key none) ≡ counted_for k event
unfolding hits_of
expected-new now event key k e = sym (counted_for-eq k key event e)

expected-hit :
    (now : ℕ) (event : AlertEventMessage) (key k : List ℕ) (old : Alert)
    → calculate_dedup_key event ≡ ok key
    → old.dedup_key ≡ key
    → hits_of k (expected now event key (some old)) ≡ hits_of k old + counted_for k event
unfolding hits_of
expected-hit now event key k old e same = rw (counted_for-eq k key event e, sym same) (ground arith)

module _ {Db Redis : Type 0} (repositories : Repositories Db) (now : ℕ)
    (event : AlertEventMessage) where
  no_key :
      (w : World Db Redis) (a : Alert) (x : Error)
      → calculate_dedup_key event ≡ err x
      → result_of (process_alert_event repositories now event) w ≢ ok a
  unfolding process_alert_event
  no_key w a x e = rw e (λ h. cc)

  no_search :
      (key : List ℕ) (w : World Db Redis) (a : Alert) (x : Error)
      → calculate_dedup_key event ≡ ok key
      → repositories.alerts.find_one (matches key) w.db ≡ err x
      → result_of (process_alert_event repositories now event) w ≢ ok a
  unfolding process_alert_event
  no_search key w a x e f = rw (e, f) (λ h. cc)

module _ {Db Redis : Type 0} (repositories : Repositories Db) (rows : Db → List Alert)
    (laws : IsRepository repositories.alerts rows (λ a. a.id) content) where
  -- the hits that the stored alerts of a key have between them
  abbrev pub hits : List ℕ → World Db Redis → ℕ
  hits k w = total (hits_of k) (rows w.db)

  module _ (now : ℕ) (event : AlertEventMessage) (key : List ℕ) (w : World Db Redis) (a : Alert)
      (k : List ℕ) (e : calculate_dedup_key event ≡ ok key)
      (h : result_of (process_alert_event repositories now event) w ≡ ok a) where
    stored :
        (existing : Option Alert)
        → repositories.alerts.find_one (matches key) w.db ≡ ok existing
        → (repositories.alerts.save (expected now event key existing) w.db).0 ≡ ok a
    stored existing f =
        saved_by repositories event now key existing a w
          (recorded repositories event now key existing a w e f h)

    saved-hits :
        (existing : Option Alert)
        → repositories.alerts.find_one (matches key) w.db ≡ ok existing
        → hits_of k a ≡ hits_of k (expected now event key existing)
    saved-hits existing f =
        hits_of-content k a (expected now event key existing)
          (processed-content repositories rows laws now event key existing a w e f h)

    hits-new :
        repositories.alerts.find_one (matches key) w.db ≡ ok none
        → hits k (state_of (process_alert_event repositories now event) w)
          ≡ hits k w + counted_for k event
    unfolding new_alert
    hits-new f =
        ap (λ d. total (hits_of k) (rows d))
          (db-process repositories event now key none w e f
            ∙ db-new repositories rows laws now event key w)
        ∙ laws.inserted (expected now event key none) a w.db (hits_of k) refl (stored none f)
        ∙ ap (λ n. hits k w + n) (saved-hits none f ∙ expected-new now event key k e)

    hits-hit :
        (old : Alert)
        → repositories.alerts.find_one (matches key) w.db ≡ ok (some old)
        → hits k (state_of (process_alert_event repositories now event) w)
          ≡ hits k w + counted_for k event
    unfolding hit
    hits-hit old f =
        let written =
          ap (λ d. total (hits_of k) (rows d))
            (db-process repositories event now key (some old) w e f
              ∙ db-hit repositories rows laws now event key w old) in
        let same =
          (codes_eq_iff old.dedup_key key).0
            (matches-key key old (laws.found (matches key) w.db old f)) in
        let replaced =
          laws.replaced old (expected now event key (some old)) a w.db (matches key) (hits_of k) f
            refl (stored (some old) f) in
        omega (
          arith,
          written,
          replaced,
          saved-hits (some old) f,
          expected-hit now event key k old e same,
        )

  -- the search for an alert, and what the block does with it
  module _ (now : ℕ) (event : AlertEventMessage) (w : World Db Redis) (a : Alert) (k : List ℕ)
      (h : result_of (process_alert_event repositories now event) w ≡ ok a) where
    searched-hits :
        (key : List ℕ)
        → calculate_dedup_key event ≡ ok key
        → (found : Result (Option Alert)) → repositories.alerts.find_one (matches key) w.db ≡ found
        → hits k (state_of (process_alert_event repositories now event) w)
          ≡ hits k w + counted_for k event
    searched-hits key e (ok none) f = hits-new now event key w a k e h f
    searched-hits key e (ok (some old)) f = hits-hit now event key w a k e h old f
    searched-hits key e (err x) f = absurd (no_search repositories now event key w a x e f h)

    -- By the laws of the repository, an event that is processed adds exactly one to the hits that
    -- are stored under its own deduplication key, and nothing to those of any other key.
    pub process_alert_event-hits :
        hits k (state_of (process_alert_event repositories now event) w)
        ≡ hits k w + counted_for k event
    process_alert_event-hits = elim (Result-cases (calculate_dedup_key event)) [
      | inl (key, e) ↦ searched-hits key e (repositories.alerts.find_one (matches key) w.db) refl
      | inr (x, e) ↦ absurd (no_key repositories now event w a x e h)
    ]
