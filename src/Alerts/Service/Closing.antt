-- ===== src/Alerts/Service/Closing.antt =====
-- What a change of an alert's status does to deduplication.
use complif_techinical_chall.Base.{
  ℕ, ◌≤◌, ◌≡◌, String, ◌==◌, ◌&&◌, Bool, false, Option, none, some, List, arith, refl,
}
use complif_techinical_chall.Common.Exec.{Result, ok, err, state_of}
use complif_techinical_chall.Common.Repository.{IsRepository, count_rows, weight}
use complif_techinical_chall.Common.Repository.Saves.{replace-le}
use complif_techinical_chall.Entities.{Alert, AlertStatus}
use complif_techinical_chall.World.{World, Repositories}
use complif_techinical_chall.Alerts.Service.{is_active, matches, update_status}
use complif_techinical_chall.Alerts.Service.Dedup.{content, matches-content, IsDeduplicated}

closed-weight :
    (k : List ℕ) (a : Alert) (status : AlertStatus)
    → is_active status ≡ false
    → weight (matches k) (record a { status = status }) ≤ weight (matches k) a
unfolding matches
closed-weight k a status h = ground arith

-- the condition of the search for the alert
abbrev pub own : String → String → Alert → Bool
own organization_id id a = a.id == id && a.id_organization == organization_id

module _ {Db Redis : Type 0} (repositories : Repositories Db) (rows : Db → List Alert)
    (laws : IsRepository repositories.alerts rows (λ a. a.id) content) (organization_id id : String)
    (status : AlertStatus) (w : World Db Redis) where
  updated-le :
      (k : List ℕ)
      → is_active status ≡ false
      → count_rows (matches k) (rows w.db) ≤ 1
      → (found : Result (Option Alert))
      → repositories.alerts.find_one (own organization_id id) w.db ≡ found
      → count_rows
          (matches k)
          (rows (state_of (update_status repositories organization_id id status) w).db)
        ≤ 1
  unfolding update_status
  updated-le k closed h (err x) f = rw f h
  updated-le k closed h (ok none) f = rw f h
  updated-le k closed h (ok (some old)) f = rw f (
      replace-le repositories.alerts rows (λ a. a.id) content laws (matches k) (matches-content k)
        old (record old { status = status }) w.db (own organization_id id) f refl
        (closed-weight k old status closed) h)

  -- By the laws of the repository, closing an alert, as resolved or as a false positive, keeps it
  -- so that no deduplication key has two active alerts, also where the alert is missing or the
  -- database throws.
  pub update_status-IsDeduplicated :
      is_active status ≡ false
      → IsDeduplicated repositories rows laws w
      → IsDeduplicated repositories rows laws
          (state_of (update_status repositories organization_id id status) w)
  update_status-IsDeduplicated closed h k = updated-le k closed (h k) _ refl
