-- ===== src/Alerts/Service/Reopening.antt =====
-- A closed alert that is opened again (src/alerts/alerts.service.ts): `updateStatus` takes any status.
use complif_techinical_chall.Base.{
  ℕ, ◌+◌, ◌≡◌, refl, sym, ap, ◌∙◌, String, true, false, some, List, arith, codes_eq_iff,
}
use complif_techinical_chall.Common.Exec.{ok, state_of, result_of}
use complif_techinical_chall.Common.Repository.{IsRepository, count_rows, weight, weight-eq}
use complif_techinical_chall.Entities.{Alert, AlertStatus}
use complif_techinical_chall.World.{World, Repositories}
use complif_techinical_chall.Alerts.Service.{is_active, matches, update_status}
use complif_techinical_chall.Alerts.Service.Closing.{own}
use complif_techinical_chall.Alerts.Service.Dedup.{content, matches-content}

closed-weight_zero :
    (k : List ℕ) (a : Alert) → is_active a.status ≡ false → weight (matches k) a ≡ 0
unfolding matches
closed-weight_zero k a h = ground arith

opened-weight :
    (a : Alert) (status : AlertStatus)
    → is_active status ≡ true
    → weight (matches a.dedup_key) (record a { status = status }) ≡ 1
unfolding matches
opened-weight a status h = ground (arith, codes_eq_iff a.dedup_key a.dedup_key)

module _ {Db Redis : Type 0} (repositories : Repositories Db) (rows : Db → List Alert)
    (laws : IsRepository repositories.alerts rows (λ a. a.id) content) (organization_id id : String)
    (status : AlertStatus) (w : World Db Redis) where
  update_status-eq :
      (old : Alert)
      → repositories.alerts.find_one (own organization_id id) w.db ≡ ok (some old)
      → (result_of (update_status repositories organization_id id status) w
          ≡ (repositories.alerts.save (record old { status = status }) w.db).0)
        × ((state_of (update_status repositories organization_id id status) w).db
            ≡ (repositories.alerts.save (record old { status = status }) w.db).1)
  unfolding update_status
  update_status-eq old f = (rw f refl, rw f refl)

  -- By the laws of the repository, giving an active status to an alert that was closed, where that
  -- succeeds, adds one to the active alerts of its key, however many there are: beside an alert that
  -- was opened for the key in the meantime it is a second one.
  pub update_status-reopens :
      (old a : Alert)
      → repositories.alerts.find_one (own organization_id id) w.db ≡ ok (some old)
      → is_active old.status ≡ false
      → is_active status ≡ true
      → result_of (update_status repositories organization_id id status) w ≡ ok a
      → count_rows
          (matches old.dedup_key)
          (rows (state_of (update_status repositories organization_id id status) w).db)
        ≡ count_rows (matches old.dedup_key) (rows w.db) + 1
  update_status-reopens old a f closed active h =
      let opened = record old { status = status } in
      let (result, db) = update_status-eq old f in
      let stored = sym result ∙ h in
      omega (
        arith,
        ap (λ d. count_rows (matches old.dedup_key) (rows d)) db,
        laws.replaced old opened a w.db (own organization_id id) (weight (matches old.dedup_key)) f
            refl stored,
        closed-weight_zero old.dedup_key old closed,
        weight-eq (matches old.dedup_key) a opened
            (matches-content old.dedup_key a opened (laws.kept opened a w.db stored)),
        opened-weight old status active,
      )
