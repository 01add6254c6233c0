-- ===== src/Tests/Race.antt =====
-- Two alert events of one key on a table that grows: every row that is read has the id "1", and a
-- row that is there cannot be written again.
use complif_techinical_chall.Base.{
  ℕ, ◌+◌, ◌≤◌, ◌≡◌, ◌≢◌, refl, ap, ◌∙◌, ◌==◌, eq_iff, Bool, true, false, Option, none, some, List,
  [], ◌∷◌, map, arith, codes, if◌then◌else◌,
}
use complif_techinical_chall.Common.Value.{get_value}
use complif_techinical_chall.Common.Exec.{thrown, Error, Result, ok, err}
use complif_techinical_chall.Common.Repository.{Repository, IsRepository, count_rows, total}
use complif_techinical_chall.Entities.{Alert}
use complif_techinical_chall.World.{World, Repositories}
use complif_techinical_chall.Alerts.Calendar.{utc}
use complif_techinical_chall.Alerts.Window.{calculate_window_key, time_window, parse_window, key_of}
use complif_techinical_chall.Alerts.Service.{matches, new_alert, record_alert, calculate_dedup_key}
use complif_techinical_chall.Alerts.Service.Dedup.{content}
use complif_techinical_chall.Alerts.Service.Race.{
  arrived, recorded, Steps, once, twice, Steps-duplicates,
}
use complif_techinical_chall.Tests.Fixtures.{stored, world, event, Server, empty_server}

abbrev stamped : Alert → Alert
stamped a = record a { id = "1" }

abbrev rows : List Alert → List Alert
rows d = map stamped d

first_row : (Alert → Bool) → List Alert → Option Alert
first_row p [] = none
first_row p (a ∷ as') = if p a then some a else first_row p as'

appended : Alert → List Alert → Result Alert × List Alert
appended a d = if a.id == "" then (ok (stamped a), a ∷ d) else (err (thrown "no such row"), d)

unfoldable log : Repository (List Alert) Alert
unfolding first_row appended
log = record {
  find_one = λ p d. ok (first_row p (rows d));
  find = λ p order d. ok (rows d);
  find_and_count = λ p order skip take d. ok (rows d, count_rows p (rows d));
  count = λ p d. ok (count_rows p (rows d));
  save = appended;
  remove = λ a d. (ok tt, []);
  delete = λ p d. (ok (count_rows p (rows d)), []);
}

first-found : (p : Alert → Bool) (d : List Alert) (a : Alert) → first_row p d ≡ some a → p a ≡ true
unfolding first_row
first-found p [] a h = ground arith
first-found p (b ∷ d) a h = ground (arith, first-found p d a)

first-missing : (p : Alert → Bool) (d : List Alert) → first_row p d ≡ none → count_rows p d ≡ 0
unfolding first_row
first-missing p [] h = refl
first-missing p (b ∷ d) h = ground (arith, first-missing p d)

first-counted :
    (p q : Alert → Bool) (d : List Alert) (a : Alert)
    → first_row p d ≡ some a
    → q a ≡ true
    → 1 ≤ count_rows q d
unfolding first_row
first-counted p q [] a h k = ground arith
first-counted p q (b ∷ d) a h k = ground (arith, first-counted p q d a)

first-stamped :
    (p : Alert → Bool) (d : List Alert) (a : Alert) → first_row p (rows d) ≡ some a → a.id ≡ "1"
unfolding first_row
first-stamped p [] a h = ground arith
first-stamped p (b ∷ d) a h = ground (arith, first-stamped p d a)

log-kept :
    (e saved : Alert) (d : List Alert) → (log.save e d).0 ≡ ok saved → content saved ≡ content e
unfolding log appended
log-kept e saved d h = ground arith

log-inserted :
    (e saved : Alert) (d : List Alert) (f : Alert → ℕ)
    → e.id ≡ ""
    → (log.save e d).0 ≡ ok saved
    → total f (rows (log.save e d).1) ≡ total f (rows d) + f saved
unfolding log appended
log-inserted e saved d f i h = ground (arith, eq_iff e.id "")

found_row :
    (q : Alert → Bool) (d : List Alert) (old : Alert)
    → log.find_one q d ≡ ok (some old)
    → first_row q (rows d) ≡ some old
unfolding log
found_row q d old h = cc

refused : (e saved : Alert) (d : List Alert) → (e.id == "") ≡ false → (log.save e d).0 ≢ ok saved
unfolding log appended
refused e saved d there = rw there (λ h. cc)

log-replaced :
    (old e saved : Alert) (d : List Alert) (q : Alert → Bool) (f : Alert → ℕ)
    → log.find_one q d ≡ ok (some old)
    → e.id ≡ old.id
    → (log.save e d).0 ≡ ok saved
    → total f (rows (log.save e d).1) + f old ≡ total f (rows d) + f saved
unfolding log appended
log-replaced old e saved d q f found i h =
    let there : (e.id == "") ≡ false =
      ap (λ j. j == "") (i ∙ first-stamped q d old (found_row q d old found)) in
    absurd (refused e saved d there h)

log-failed :
    (e : Alert) (d : List Alert) (error : Error)
    → (log.save e d).0 ≡ err error
    → rows (log.save e d).1 ≡ rows d
unfolding log appended
log-failed e d error h = ground arith

laws : IsRepository log rows (λ a. a.id) content
unfolding log
laws = record {
  found = λ p d e h. first-found p (rows d) e (ground arith);
  missing = λ p d h. first-missing p (rows d) (ground arith);
  counted = λ p q d e h k. first-counted p q (rows d) e (ground arith) k;
  kept = log-kept;
  inserted = log-inserted;
  replaced = log-replaced;
  failed = log-failed;
}

abbrev repositories : Repositories (List Alert)
repositories = record stored { alerts = log }

abbrev key : List ℕ
key = codes "r1:a1:2024-03-05T12:00:00.000Z"

abbrev before : World (List Alert) Server
before = world [] empty_server

event_key : calculate_dedup_key event ≡ ok key
unfolding calculate_dedup_key calculate_window_key get_value time_window parse_window key_of utc
event_key = refl

free : repositories.alerts.find_one (matches key) before.db ≡ ok none
unfolding log first_row
free = refl

stored_once :
    (repositories.alerts.save (new_alert 9 event key) before.db).0
    ≡ ok (stamped (new_alert 9 event key))
unfolding log appended new_alert
stored_once = refl

stored_twice :
    (repositories.alerts.save
      (new_alert 9 event key)
      (once repositories 9 rows laws event event key before).db).0
    ≡ ok (stamped (new_alert 9 event key))
unfolding log appended new_alert record_alert
stored_twice = refl

Steps-duplicates_example :
    Steps repositories 9
      (arrived event)
      (arrived event)
      before
      recorded
      recorded
      (twice repositories 9 rows laws event event key before)
    × (count_rows (matches key) (rows (twice repositories 9 rows laws event event key before).db)
        ≡ 2)
Steps-duplicates_example =
    Steps-duplicates repositories 9 rows laws event event key before
      (stamped (new_alert 9 event key)) (stamped (new_alert 9 event key)) event_key event_key free
      stored_once stored_twice
