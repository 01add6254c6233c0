-- ===== src/Templates.antt =====
-- RuleTemplatesService (src/rule-templates/rule-templates.service.ts).
use complif_techinical_chall.Base.{
  ltb, String, ◌==◌, Bool, true, false, Option, none, some, List, [], ◌∷◌, get_or,
}
use complif_techinical_chall.Common.Value.{Fields, end}
use complif_techinical_chall.Common.Exec.{Exec, not_found, pure, throw, ◌>>=◌}
use complif_techinical_chall.Common.Repository.{asc, desc}
use complif_techinical_chall.Common.Pagination.{
  PaginationQuery, PaginatedResult, skip_of, limit_of, paginated,
}
use complif_techinical_chall.Entities.{RuleTemplate}
use complif_techinical_chall.World.{World, Repositories, query, write}

pub record CreateRuleTemplateDto : Type 0 where
  pub name : String
  pub description : Option String
  pub config : Option Fields
  pub is_default : Option Bool

pub record UpdateRuleTemplateDto : Type 0 where
  pub name : Option String
  pub description : Option String
  pub config : Option Fields
  pub is_default : Option Bool

-- `??` on a value that stays nullable, and `Object.assign` of a key that may be missing.
abbrev pub or_else : Option String → Option String → Option String
or_else none old = old
or_else (some s) old = some s

-- Object.assign(ruleTemplate, updateDto)
unfoldable pub assign : RuleTemplate → UpdateRuleTemplateDto → RuleTemplate
assign t dto = record t {
  name = get_or dto.name t.name;
  description = or_else dto.description t.description;
  config = get_or dto.config t.config;
  is_default = get_or dto.is_default t.is_default;
}

abbrev new_template : CreateRuleTemplateDto → RuleTemplate
new_template dto = record {
  id = "";
  created_at = 0;
  updated_at = 0;
  name = dto.name;
  description = dto.description;
  config = get_or dto.config end;
  is_default = get_or dto.is_default false;
}

module _ {Db Redis : Type 0} (repositories : Repositories Db) where
  unfoldable pub create : CreateRuleTemplateDto → Exec (World Db Redis) RuleTemplate
  create dto = write (repositories.rule_templates.save (new_template dto))

  unfoldable pub find_all : PaginationQuery → Exec (World Db Redis) (PaginatedResult RuleTemplate)
  find_all q = do
    page ← query (
        repositories.rule_templates.find_and_count (λ t. true) (desc "createdAt" ∷ []) (skip_of q)
          (limit_of q))
    pure (paginated q page)

  abbrev or_missing : String → Option RuleTemplate → Exec (World Db Redis) RuleTemplate
  or_missing id none = throw (not_found "Rule template" id)
  or_missing id (some t) = pure t

  unfoldable pub find_one : String → Exec (World Db Redis) RuleTemplate
  find_one id = do
    template ← query (repositories.rule_templates.find_one (λ t. t.id == id))
    or_missing id template

  unfoldable pub find_defaults : Exec (World Db Redis) (List RuleTemplate)
  find_defaults = query (repositories.rule_templates.find (λ t. t.is_default) (asc "name" ∷ []))

  unfoldable pub update : String → UpdateRuleTemplateDto → Exec (World Db Redis) RuleTemplate
  unfolding find_one assign
  update id dto = do
    template ← find_one id
    write (repositories.rule_templates.save (assign template dto))

  unfoldable pub remove : String → Exec (World Db Redis) (Unit {0})
  unfolding find_one
  remove id = do template ← find_one id; write (repositories.rule_templates.remove template)

  unfoldable pub exists : String → Exec (World Db Redis) Bool
  exists id = do
    count ← query (repositories.rule_templates.count (λ t. t.id == id))
    pure (ltb 0 count)
