-- ===== src/Controllers/RuleTemplatesController.antt =====
-- RuleTemplatesController (src/rule-templates/rule-templates.controller.ts).
use complif_techinical_chall.Base.{String, List}
use complif_techinical_chall.Common.Exec.{Result, Exec, ◌>>=◌}
use complif_techinical_chall.World.{World, Repositories}
use complif_techinical_chall.Common.Pagination.{PaginationQuery, PaginatedResult}
use complif_techinical_chall.Entities.{RuleTemplate}
use complif_techinical_chall.Templates
use complif_techinical_chall.Templates.{CreateRuleTemplateDto, UpdateRuleTemplateDto}
use complif_techinical_chall.Controllers.{piped}

module _ {Db Redis : Type 0} (repositories : Repositories Db)
    (parse_uuid_pipe : String → Result String) where
  unfoldable pub create : CreateRuleTemplateDto → Exec (World Db Redis) RuleTemplate
  create dto = Templates.create repositories dto

  unfoldable pub find_all : PaginationQuery → Exec (World Db Redis) (PaginatedResult RuleTemplate)
  find_all q = Templates.find_all repositories q

  unfoldable pub find_defaults : Exec (World Db Redis) (List RuleTemplate)
  find_defaults = Templates.find_defaults repositories

  unfoldable pub find_one : String → Exec (World Db Redis) RuleTemplate
  find_one id = do valid_id ← piped (parse_uuid_pipe id); Templates.find_one repositories valid_id

  unfoldable pub update : String → UpdateRuleTemplateDto → Exec (World Db Redis) RuleTemplate
  update id dto = do
    valid_id ← piped (parse_uuid_pipe id)
    Templates.update repositories valid_id dto

  unfoldable pub remove : String → Exec (World Db Redis) (Unit {0})
  remove id = do valid_id ← piped (parse_uuid_pipe id); Templates.remove repositories valid_id
