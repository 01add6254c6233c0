-- ===== src/Rules.antt =====
-- RulesService (src/rules/rules.service.ts).
pub mod Invalidation
pub mod Effective
use complif_techinical_chall.Base.{
  ℕ, String, ◌==◌, ◌&&◌, Bool, true, Option, none, some, List, [], ◌∷◌, get_or, if◌then◌else◌,
}
use complif_techinical_chall.Common.Value.{Fields, end}
use complif_techinical_chall.Common.Exec.{Exec, not_found, pure, throw, ◌>>=◌, ◌>>◌}
use complif_techinical_chall.Common.Repository.{asc, desc}
use complif_techinical_chall.Common.DeepMerge.{deep_merge}
use complif_techinical_chall.Common.Pagination.{
  PaginationQuery, PaginatedResult, skip_of, limit_of, paginated,
}
use complif_techinical_chall.Entities.{Rule}
use complif_techinical_chall.World.{World, Repositories, cache_invalidation, query, write, emit}
use complif_techinical_chall.Overrides
use complif_techinical_chall.Templates.{or_else}

pub record CreateRuleDto : Type 0 where
  pub name : String
  pub description : Option String
  pub id_template : Option String
  pub enabled : Option Bool
  pub priority : Option ℕ
  pub config : Option Fields
  pub created_by : Option String

pub record UpdateRuleDto : Type 0 where
  pub name : Option String
  pub description : Option String
  pub id_template : Option String
  pub enabled : Option Bool
  pub priority : Option ℕ
  pub config : Option Fields

-- Object.assign(rule, updateDto)
unfoldable pub assign : Rule → UpdateRuleDto → Rule
assign r dto = record r {
  name = get_or dto.name r.name;
  description = or_else dto.description r.description;
  id_template = or_else dto.id_template r.id_template;
  enabled = get_or dto.enabled r.enabled;
  priority = get_or dto.priority r.priority;
  config = get_or dto.config r.config;
}

abbrev new_rule : String → CreateRuleDto → Rule
new_rule organization_id dto = record {
  id = "";
  created_at = 0;
  updated_at = 0;
  id_organization = organization_id;
  id_template = dto.id_template;
  name = dto.name;
  description = dto.description;
  enabled = get_or dto.enabled true;
  priority = get_or dto.priority 0;
  config = get_or dto.config end;
  created_by = dto.created_by;
}

module _ {Db Redis : Type 0} (repositories : Repositories Db) where
  unfoldable pub create : String → CreateRuleDto → Exec (World Db Redis) Rule
  create organization_id dto = do
    saved ← write (repositories.rules.save (new_rule organization_id dto))
    emit (cache_invalidation organization_id)
    pure saved

  unfoldable pub find_all : String → PaginationQuery → Exec (World Db Redis) (PaginatedResult Rule)
  find_all organization_id q = do
    page ← query (
        repositories.rules.find_and_count (λ r. r.id_organization == organization_id)
          (asc "priority" ∷ desc "createdAt" ∷ []) (skip_of q) (limit_of q))
    pure (paginated q page)

  abbrev or_missing : String → Option Rule → Exec (World Db Redis) Rule
  or_missing id none = throw (not_found "Rule" id)
  or_missing id (some r) = pure r

  unfoldable pub find_one : String → String → Exec (World Db Redis) Rule
  find_one organization_id id = do
    found ←
        query
          (repositories.rules.find_one (λ r. r.id == id && r.id_organization == organization_id))
    or_missing id found

  unfoldable pub find_enabled_by_priority : String → Exec (World Db Redis) (List Rule)
  find_enabled_by_priority organization_id = query (
      repositories.rules.find (λ r. r.id_organization == organization_id && r.enabled)
        (asc "priority" ∷ asc "createdAt" ∷ []))

  -- `!rule.idTemplate`: null, or the empty text
  with_template : String → Rule → Option String → Exec (World Db Redis) Fields
  with_template organization_id r none = pure r.config
  with_template organization_id r (some id_template) =
      if id_template == "" then pure r.config else do
        template_config ← Overrides.get_merged_config repositories organization_id id_template
        pure (deep_merge template_config r.config)

  unfoldable pub get_effective_config : String → Rule → Exec (World Db Redis) Fields
  unfolding with_template
  get_effective_config organization_id r = with_template organization_id r r.id_template

  unfoldable pub get_effective_config_by_id : String → String → Exec (World Db Redis) Fields
  get_effective_config_by_id organization_id rule_id = do
    r ← find_one organization_id rule_id
    get_effective_config organization_id r

  unfoldable pub update : String → String → UpdateRuleDto → Exec (World Db Redis) Rule
  unfolding find_one assign
  update organization_id id dto = do
    found ← find_one organization_id id
    saved ← write (repositories.rules.save (assign found dto))
    emit (cache_invalidation organization_id)
    pure saved

  unfoldable pub remove : String → String → Exec (World Db Redis) (Unit {0})
  unfolding find_one
  remove organization_id id = do
    found ← find_one organization_id id
    write (repositories.rules.remove found)
    emit (cache_invalidation organization_id)
