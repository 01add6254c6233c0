-- ===== src/Tenancy.antt =====
-- What an organization may reach: the searches by id of the services that keep an organization's
-- own rows.
use complif_techinical_chall.Base.{◌≡◌, String, ◌==◌, ◌&&◌, Bool, true, some, arith, eq_iff}
use complif_techinical_chall.Common.Exec.{Exec, ok, result_of}
use complif_techinical_chall.Common.Repository.{Repository}
use complif_techinical_chall.World.{World, Repositories}
use complif_techinical_chall.Rules
use complif_techinical_chall.Overrides
use complif_techinical_chall.Lists
use complif_techinical_chall.Transactions
use complif_techinical_chall.Alerts.Service

-- `findOne` finds a row that meets the condition.
abbrev pub Finds : {Db E : Type 0} → Repository Db E → Type 0
Finds {Db} {E} repository =
    (p : E → Bool) (d : Db) (e : E) → repository.find_one p d ≡ ok (some e) → p e ≡ true

-- Whatever the search returns has the id that was asked for, and belongs to the organization.
abbrev pub ReturnsOwn :
    {Db Redis E : Type 0} (identity organization : E → String)
    → (String → String → Exec (World Db Redis) E)
    → Type 0
ReturnsOwn {Db} {Redis} {E} identity organization find_one =
    (organization_id id : String) (w : World Db Redis) (e : E)
    → result_of (find_one organization_id id) w ≡ ok e
    → (identity e ≡ id) × (organization e ≡ organization_id)

own_row :
    {Db E : Type 0} (repository : Repository Db E) (identity organization : E → String)
    → Finds repository
    → (organization_id id : String) (d : Db) (e : E)
    → repository.find_one (λ e. identity e == id && organization e == organization_id) d
      ≡ ok (some e)
    → (identity e ≡ id) × (organization e ≡ organization_id)
own_row repository identity organization finds organization_id id d e h =
    let meets = finds (λ e. identity e == id && organization e == organization_id) d e h in
    ground (arith, eq_iff (identity e) id, eq_iff (organization e) organization_id)

module _ {Db Redis : Type 0} (repositories : Repositories Db) where
  pub rules-ReturnsOwn :
      Finds repositories.rules
      → ReturnsOwn
          (λ r. r.id)
          (λ r. r.id_organization)
          (Rules.find_one {Redis = Redis} repositories)
  unfolding Rules.find_one
  rules-ReturnsOwn finds organization_id id w e h =
      own_row repositories.rules (λ r. r.id) (λ r. r.id_organization) finds organization_id id w.db
        e (ground arith)

  pub overrides-ReturnsOwn :
      Finds repositories.template_overrides
      → ReturnsOwn
          (λ r. r.id)
          (λ r. r.id_organization)
          (Overrides.find_one {Redis = Redis} repositories)
  unfolding Overrides.find_one
  overrides-ReturnsOwn finds organization_id id w e h =
      own_row repositories.template_overrides (λ r. r.id) (λ r. r.id_organization) finds
        organization_id id w.db e (ground arith)

  pub lists-ReturnsOwn :
      Finds repositories.list_entries
      → ReturnsOwn
          (λ r. r.id)
          (λ r. r.id_organization)
          (Lists.find_one {Redis = Redis} repositories)
  unfolding Lists.find_one
  lists-ReturnsOwn finds organization_id id w e h =
      own_row repositories.list_entries (λ r. r.id) (λ r. r.id_organization) finds organization_id
        id w.db e (ground arith)

  pub transactions-ReturnsOwn :
      Finds repositories.transactions
      → ReturnsOwn
          (λ r. r.id)
          (λ r. r.id_organization)
          (Transactions.find_one {Redis = Redis} repositories)
  unfolding Transactions.find_one
  transactions-ReturnsOwn finds organization_id id w e h =
      own_row repositories.transactions (λ r. r.id) (λ r. r.id_organization) finds organization_id
        id w.db e (ground arith)

  pub alerts-ReturnsOwn :
      Finds repositories.alerts
      → ReturnsOwn
          (λ r. r.id)
          (λ r. r.id_organization)
          (Service.find_one {Redis = Redis} repositories)
  unfolding Service.find_one
  alerts-ReturnsOwn finds organization_id id w e h =
      own_row repositories.alerts (λ r. r.id) (λ r. r.id_organization) finds organization_id id w.db
        e (ground arith)

  -- Where the repositories find only rows that meet the condition, a rule, override, list entry,
  -- transaction or alert that its service finds by an id for an organization has that id and
  -- belongs to that organization.
  pub find_one-ReturnsOwn :
      Finds repositories.rules
      → Finds repositories.template_overrides
      → Finds repositories.list_entries
      → Finds repositories.transactions
      → Finds repositories.alerts
      → ReturnsOwn
          (λ r. r.id)
          (λ r. r.id_organization)
          (Rules.find_one {Redis = Redis} repositories)
        × ReturnsOwn
            (λ r. r.id)
            (λ r. r.id_organization)
            (Overrides.find_one {Redis = Redis} repositories)
        × ReturnsOwn
            (λ r. r.id)
            (λ r. r.id_organization)
            (Lists.find_one {Redis = Redis} repositories)
        × ReturnsOwn
            (λ r. r.id)
            (λ r. r.id_organization)
            (Transactions.find_one {Redis = Redis} repositories)
        × ReturnsOwn
            (λ r. r.id)
            (λ r. r.id_organization)
            (Service.find_one {Redis = Redis} repositories)
  find_one-ReturnsOwn rules overrides lists transactions alerts = (
    rules-ReturnsOwn rules,
    overrides-ReturnsOwn overrides,
    lists-ReturnsOwn lists,
    transactions-ReturnsOwn transactions,
    alerts-ReturnsOwn alerts,
  )
