-- ===== src/Controllers/Rows.antt =====
-- The rows that an organization reads over HTTP, by their ids: GET /rules/:id and its like.
use complif_techinical_chall.Base.{String, ◌≡◌, inl, inr, ap, ◌∙◌, sym, Bool, some}
use complif_techinical_chall.Common.Exec.{Result, ok, err, Exec, result_of, after}
use complif_techinical_chall.Common.Repository.{Repository}
use complif_techinical_chall.Entities.{Rule, TemplateOverride, ListEntry, Transaction, Alert}
use complif_techinical_chall.World.{World, Repositories}
use complif_techinical_chall.Rules
use complif_techinical_chall.Overrides
use complif_techinical_chall.Lists
use complif_techinical_chall.Transactions
use complif_techinical_chall.Alerts.Service
use complif_techinical_chall.Http.{Request, can_activate, organization_of}
use complif_techinical_chall.Tenancy.{
  Finds, ReturnsOwn, rules-ReturnsOwn, overrides-ReturnsOwn, lists-ReturnsOwn,
  transactions-ReturnsOwn, alerts-ReturnsOwn,
}
use complif_techinical_chall.Controllers.Tenant.{Dispatch, IsNest, guarded-cases}
use complif_techinical_chall.Controllers.AlertsController
use complif_techinical_chall.Controllers.ListsController
use complif_techinical_chall.Controllers.RulesController
use complif_techinical_chall.Controllers.TemplateOverridesController
use complif_techinical_chall.Controllers.TransactionsController

-- the controllers that keep rows of organizations
pub data Resource : Type 0 where
  rules template_overrides lists transactions alerts : Resource

abbrev pub Row : Resource → Type 0
Row rules = Rule
Row template_overrides = TemplateOverride
Row lists = ListEntry
Row transactions = Transaction
Row alerts = Alert

abbrev pub identity_of : (r : Resource) → Row r → String
identity_of rules e = e.id
identity_of template_overrides e = e.id
identity_of lists e = e.id
identity_of transactions e = e.id
identity_of alerts e = e.id

abbrev pub owner_of : (r : Resource) → Row r → String
owner_of rules e = e.id_organization
owner_of template_overrides e = e.id_organization
owner_of lists e = e.id_organization
owner_of transactions e = e.id_organization
owner_of alerts e = e.id_organization

abbrev pub rows_of : {Db : Type 0} → Repositories Db → (r : Resource) → Repository Db (Row r)
rows_of repositories rules = repositories.rules
rows_of repositories template_overrides = repositories.template_overrides
rows_of repositories lists = repositories.list_entries
rows_of repositories transactions = repositories.transactions
rows_of repositories alerts = repositories.alerts

module _ {Db Redis : Type 0} (repositories : Repositories Db)
    (parse_uuid_pipe : String → Result String) where
  -- the handler of GET /:id
  abbrev pub get_by_id : (r : Resource) → Request → String → Exec (World Db Redis) (Row r)
  get_by_id rules = RulesController.find_one repositories parse_uuid_pipe
  get_by_id template_overrides = TemplateOverridesController.find_one repositories parse_uuid_pipe
  get_by_id lists = ListsController.find_one repositories parse_uuid_pipe
  get_by_id transactions = TransactionsController.find_one repositories parse_uuid_pipe
  get_by_id alerts = AlertsController.find_one repositories parse_uuid_pipe

  piped-own :
      {E : Type 0} (identity organization : E → String)
      (find_one : String → String → Exec (World Db Redis) E)
      → ReturnsOwn identity organization find_one
      → (owner : String) (parsed : Result String) (w : World Db Redis) (e : E)
      → (after parsed (find_one owner) w).0 ≡ ok e
      → (parsed ≡ ok (identity e)) × (organization e ≡ owner)
  piped-own identity organization find_one own owner (ok id) w e h =
      let (same, owned) = own owner id w e h in (ap ok (sym same), owned)
  piped-own identity organization find_one own owner (err x) w e h = absurd (cc)

  get_by_id-own :
      (r : Resource)
      → Finds (rows_of repositories r)
      → (request : Request) (id : String) (w : World Db Redis) (e : Row r)
      → result_of (get_by_id r request id) w ≡ ok e
      → (parse_uuid_pipe id ≡ ok (identity_of r e)) × (owner_of r e ≡ organization_of request)
  unfolding RulesController.find_one TemplateOverridesController.find_one ListsController.find_one
      TransactionsController.find_one AlertsController.find_one
  get_by_id-own rules finds request id w =
      piped-own (λ e. e.id) (λ e. e.id_organization) (Rules.find_one repositories)
        (rules-ReturnsOwn repositories finds) (organization_of request) (parse_uuid_pipe id) w
  get_by_id-own template_overrides finds request id w =
      piped-own (λ e. e.id) (λ e. e.id_organization) (Overrides.find_one repositories)
        (overrides-ReturnsOwn repositories finds) (organization_of request) (parse_uuid_pipe id) w
  get_by_id-own lists finds request id w =
      piped-own (λ e. e.id) (λ e. e.id_organization) (Lists.find_one repositories)
        (lists-ReturnsOwn repositories finds) (organization_of request) (parse_uuid_pipe id) w
  get_by_id-own transactions finds request id w =
      piped-own (λ e. e.id) (λ e. e.id_organization) (Transactions.find_one repositories)
        (transactions-ReturnsOwn repositories finds) (organization_of request) (parse_uuid_pipe id)
        w
  get_by_id-own alerts finds request id w =
      piped-own (λ e. e.id) (λ e. e.id_organization) (Service.find_one repositories)
        (alerts-ReturnsOwn repositories finds) (organization_of request) (parse_uuid_pipe id) w

  -- Where Nest calls guarded handlers as it documents, and the repository finds only rows that
  -- meet the condition, GET /:id of rules, overrides, list entries, transactions and alerts
  -- returns only the row of the requested id, and only to the organization that owns it.
  pub get_by_id-Owned :
      (r : Resource) (dispatch : Dispatch (World Db Redis) (Row r))
      → IsNest dispatch
      → Finds (rows_of repositories r)
      → (is_valid_uuid : String → Bool) (request : Request) (id : String) (w : World Db Redis)
        (e : Row r)
      → result_of
          (dispatch (can_activate is_valid_uuid) (λ passed. get_by_id r passed id) request)
          w
        ≡ ok e
      → (parse_uuid_pipe id ≡ ok (identity_of r e)) × (request.header ≡ some (owner_of r e))
  get_by_id-Owned r dispatch nest finds is_valid_uuid request id w e h =
      elim (guarded-cases dispatch nest is_valid_uuid (λ passed. get_by_id r passed id) request w) [
        | inl (passed, header, valid, runs) ↦
            let (parsed, owned) =
              get_by_id-own r finds passed id w e (ap (λ s. s.0) (sym runs) ∙ h) in
            (parsed, header ∙ ap some (sym owned))
        | inr (message, refused) ↦ absurd (cc (refused, h))
      ]
