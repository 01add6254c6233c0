-- ===== src/Controllers/OrganizationsController.antt =====
-- OrganizationsController (src/organizations/organizations.controller.ts).
use complif_techinical_chall.Base.{String}
use complif_techinical_chall.Common.Exec.{Result, Exec, ◌>>=◌}
use complif_techinical_chall.World.{World, Repositories}
use complif_techinical_chall.Common.Pagination.{PaginationQuery, PaginatedResult}
use complif_techinical_chall.Entities.{Organization}
use complif_techinical_chall.Organizations
use complif_techinical_chall.Organizations.{CreateOrganizationDto, UpdateOrganizationDto}
use complif_techinical_chall.Controllers.{piped}

module _ {Db Redis : Type 0} (repositories : Repositories Db)
    (parse_uuid_pipe : String → Result String) where
  unfoldable pub create : CreateOrganizationDto → Exec (World Db Redis) Organization
  create dto = Organizations.create repositories dto

  unfoldable pub find_all : PaginationQuery → Exec (World Db Redis) (PaginatedResult Organization)
  find_all q = Organizations.find_all repositories q

  unfoldable pub find_one : String → Exec (World Db Redis) Organization
  find_one id = do
    valid_id ← piped (parse_uuid_pipe id)
    Organizations.find_one repositories valid_id

  unfoldable pub update : String → UpdateOrganizationDto → Exec (World Db Redis) Organization
  update id dto = do
    valid_id ← piped (parse_uuid_pipe id)
    Organizations.update repositories valid_id dto

  unfoldable pub remove : String → Exec (World Db Redis) (Unit {0})
  remove id = do valid_id ← piped (parse_uuid_pipe id); Organizations.remove repositories valid_id
