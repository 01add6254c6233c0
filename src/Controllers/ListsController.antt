-- ===== src/Controllers/ListsController.antt =====
-- ListsController (src/lists/lists.controller.ts).
use complif_techinical_chall.Base.{String}
use complif_techinical_chall.Common.Exec.{Result, Exec, ◌>>=◌}
use complif_techinical_chall.World.{World, Repositories}
use complif_techinical_chall.Common.Pagination.{PaginatedResult}
use complif_techinical_chall.Entities.{ListEntry}
use complif_techinical_chall.Lists
use complif_techinical_chall.Lists.{CreateListEntryDto, ListEntryQueryDto}
use complif_techinical_chall.Http.{Request, organization_of}
use complif_techinical_chall.Controllers.{piped}

module _ {Db Redis : Type 0} (repositories : Repositories Db)
    (parse_uuid_pipe : String → Result String) where
  unfoldable pub create : Request → CreateListEntryDto → Exec (World Db Redis) ListEntry
  create request dto = Lists.create repositories (organization_of request) dto

  unfoldable pub find_all :
      Request → ListEntryQueryDto → Exec (World Db Redis) (PaginatedResult ListEntry)
  find_all request q = Lists.find_by_organization repositories (organization_of request) q

  unfoldable pub find_one : Request → String → Exec (World Db Redis) ListEntry
  find_one request id = do
    valid_id ← piped (parse_uuid_pipe id)
    Lists.find_one repositories (organization_of request) valid_id

  unfoldable pub remove : Request → String → Exec (World Db Redis) (Unit {0})
  remove request id = do
    valid_id ← piped (parse_uuid_pipe id)
    Lists.remove repositories (organization_of request) valid_id
