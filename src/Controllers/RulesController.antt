-- ===== src/Controllers/RulesController.antt =====
-- RulesController (src/rules/rules.controller.ts).
use complif_techinical_chall.Base.{String, List}
use complif_techinical_chall.Common.Exec.{Result, Exec, ◌>>=◌}
use complif_techinical_chall.World.{World, Repositories}
use complif_techinical_chall.Common.Value.{Fields}
use complif_techinical_chall.Common.Pagination.{PaginationQuery, PaginatedResult}
use complif_techinical_chall.Entities.{Rule}
use complif_techinical_chall.Rules
use complif_techinical_chall.Rules.{CreateRuleDto, UpdateRuleDto}
use complif_techinical_chall.Http.{Request, organization_of}
use complif_techinical_chall.Controllers.{piped}

module _ {Db Redis : Type 0} (repositories : Repositories Db)
    (parse_uuid_pipe : String → Result String) where
  unfoldable pub create : Request → CreateRuleDto → Exec (World Db Redis) Rule
  create request dto = Rules.create repositories (organization_of request) dto

  unfoldable pub find_all : Request → PaginationQuery → Exec (World Db Redis) (PaginatedResult Rule)
  find_all request q = Rules.find_all repositories (organization_of request) q

  unfoldable pub find_enabled_by_priority : Request → Exec (World Db Redis) (List Rule)
  find_enabled_by_priority request =
      Rules.find_enabled_by_priority repositories (organization_of request)

  unfoldable pub find_one : Request → String → Exec (World Db Redis) Rule
  find_one request id = do
    valid_id ← piped (parse_uuid_pipe id)
    Rules.find_one repositories (organization_of request) valid_id

  unfoldable pub get_effective_config : Request → String → Exec (World Db Redis) Fields
  get_effective_config request id = do
    valid_id ← piped (parse_uuid_pipe id)
    Rules.get_effective_config_by_id repositories (organization_of request) valid_id

  unfoldable pub update : Request → String → UpdateRuleDto → Exec (World Db Redis) Rule
  update request id dto = do
    valid_id ← piped (parse_uuid_pipe id)
    Rules.update repositories (organization_of request) valid_id dto

  unfoldable pub remove : Request → String → Exec (World Db Redis) (Unit {0})
  remove request id = do
    valid_id ← piped (parse_uuid_pipe id)
    Rules.remove repositories (organization_of request) valid_id
