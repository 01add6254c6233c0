-- ===== src/Controllers/TemplateOverridesController.antt =====
-- TemplateOverridesController (src/template-overrides/template-overrides.controller.ts).
use complif_techinical_chall.Base.{String}
use complif_techinical_chall.Common.Exec.{Result, Exec, ◌>>=◌}
use complif_techinical_chall.World.{World, Repositories}
use complif_techinical_chall.Common.Value.{Fields}
use complif_techinical_chall.Common.Pagination.{PaginationQuery, PaginatedResult}
use complif_techinical_chall.Entities.{TemplateOverride}
use complif_techinical_chall.Overrides
use complif_techinical_chall.Overrides.{CreateTemplateOverrideDto, UpdateTemplateOverrideDto}
use complif_techinical_chall.Http.{Request, organization_of}
use complif_techinical_chall.Controllers.{piped}

module _ {Db Redis : Type 0} (repositories : Repositories Db)
    (parse_uuid_pipe : String → Result String) where
  unfoldable pub create :
      Request → CreateTemplateOverrideDto → Exec (World Db Redis) TemplateOverride
  create request dto = Overrides.create repositories (organization_of request) dto

  unfoldable pub find_all :
      Request → PaginationQuery → Exec (World Db Redis) (PaginatedResult TemplateOverride)
  find_all request q = Overrides.find_all repositories (organization_of request) q

  unfoldable pub find_one : Request → String → Exec (World Db Redis) TemplateOverride
  find_one request id = do
    valid_id ← piped (parse_uuid_pipe id)
    Overrides.find_one repositories (organization_of request) valid_id

  unfoldable pub get_merged_config : Request → String → Exec (World Db Redis) Fields
  get_merged_config request template_id = do
    valid_id ← piped (parse_uuid_pipe template_id)
    Overrides.get_merged_config repositories (organization_of request) valid_id

  unfoldable pub update :
      Request → String → UpdateTemplateOverrideDto → Exec (World Db Redis) TemplateOverride
  update request id dto = do
    valid_id ← piped (parse_uuid_pipe id)
    Overrides.update repositories (organization_of request) valid_id dto

  unfoldable pub remove : Request → String → Exec (World Db Redis) (Unit {0})
  remove request id = do
    valid_id ← piped (parse_uuid_pipe id)
    Overrides.remove repositories (organization_of request) valid_id
