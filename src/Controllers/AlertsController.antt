-- ===== src/Controllers/AlertsController.antt =====
-- AlertsController (src/alerts/alerts.controller.ts).
use complif_techinical_chall.Base.{String}
use complif_techinical_chall.Common.Exec.{Result, Exec, ◌>>=◌}
use complif_techinical_chall.World.{World, Repositories}
use complif_techinical_chall.Common.Pagination.{PaginatedResult}
use complif_techinical_chall.Entities.{Alert, AlertStatus}
use complif_techinical_chall.Alerts.Service
use complif_techinical_chall.Alerts.Query.{AlertQueryDto}
use complif_techinical_chall.Http.{Request, organization_of}
use complif_techinical_chall.Controllers.{piped}

module _ {Db Redis : Type 0} (repositories : Repositories Db)
    (parse_uuid_pipe : String → Result String) where
  unfoldable pub find_all : Request → AlertQueryDto → Exec (World Db Redis) (PaginatedResult Alert)
  find_all request q = Service.find_by_organization repositories (organization_of request) q

  unfoldable pub find_one : Request → String → Exec (World Db Redis) Alert
  find_one request id = do
    valid_id ← piped (parse_uuid_pipe id)
    Service.find_one repositories (organization_of request) valid_id

  -- UpdateAlertStatusDto by its `status`
  unfoldable pub update_status : Request → String → AlertStatus → Exec (World Db Redis) Alert
  update_status request id status = do
    valid_id ← piped (parse_uuid_pipe id)
    Service.update_status repositories (organization_of request) valid_id status
