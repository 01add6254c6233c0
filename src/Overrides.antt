-- ===== src/Overrides.antt =====
-- TemplateOverridesService (src/template-overrides/template-overrides.service.ts).
pub mod Unique
use Prim.Native.String
use complif_techinical_chall.Base.{
  String, ◌==◌, ◌&&◌, Bool, true, Option, none, some, [], ◌∷◌, get_or, if◌then◌else◌,
}
use complif_techinical_chall.Common.Value.{Fields, end}
use complif_techinical_chall.Common.Exec.{Exec, not_found, conflict, pure, throw, ◌>>=◌, ◌>>◌}
use complif_techinical_chall.Common.Repository.{desc}
use complif_techinical_chall.Common.DeepMerge.{deep_merge}
use complif_techinical_chall.Common.Pagination.{
  PaginationQuery, PaginatedResult, skip_of, limit_of, paginated,
}
use complif_techinical_chall.Entities.{RuleTemplate, TemplateOverride}
use complif_techinical_chall.World.{World, Repositories, cache_invalidation, query, write, emit}
use complif_techinical_chall.Templates

pub record CreateTemplateOverrideDto : Type 0 where
  pub id_template : String
  pub overrides : Option Fields
  pub enabled : Option Bool

pub record UpdateTemplateOverrideDto : Type 0 where
  pub overrides : Option Fields
  pub enabled : Option Bool

-- Object.assign(templateOverride, updateDto)
unfoldable pub assign : TemplateOverride → UpdateTemplateOverrideDto → TemplateOverride
assign o dto = record o {
  overrides = get_or dto.overrides o.overrides;
  enabled = get_or dto.enabled o.enabled;
}

abbrev pub new_override : String → CreateTemplateOverrideDto → TemplateOverride
new_override organization_id dto = record {
  id = "";
  created_at = 0;
  updated_at = 0;
  id_organization = organization_id;
  id_template = dto.id_template;
  overrides = get_or dto.overrides end;
  enabled = get_or dto.enabled true;
}

-- where: { idOrganization: organizationId, idTemplate: templateId }
abbrev pub is_for : String → String → TemplateOverride → Bool
is_for organization_id template_id o =
    o.id_organization == organization_id && o.id_template == template_id

-- The template's configuration with the organization's override, if that is enabled.
unfoldable pub with_override : RuleTemplate → Option TemplateOverride → Fields
with_override t none = t.config
with_override t (some o) = if o.enabled then deep_merge t.config o.overrides else t.config

-- the message of the ConflictException
abbrev already_exists : String → String
already_exists id_template =
    String.◌++◌ "Override for template \""
      (String.◌++◌ id_template "\" already exists for this organization")

module _ {Db Redis : Type 0} (repositories : Repositories Db) where
  abbrev none_exists : String → Option TemplateOverride → Exec (World Db Redis) (Unit {0})
  none_exists id_template none = pure tt
  none_exists id_template (some o) = throw (conflict (already_exists id_template))

  unfoldable pub create :
      String → CreateTemplateOverrideDto → Exec (World Db Redis) TemplateOverride
  create organization_id dto = do
    _ ← Templates.find_one repositories dto.id_template
    existing ←
        query (repositories.template_overrides.find_one (is_for organization_id dto.id_template))
    none_exists dto.id_template existing
    saved ← write (repositories.template_overrides.save (new_override organization_id dto))
    emit (cache_invalidation organization_id)
    pure saved

  unfoldable pub find_all :
      String → PaginationQuery → Exec (World Db Redis) (PaginatedResult TemplateOverride)
  find_all organization_id q = do
    page ← query (
        repositories.template_overrides.find_and_count (λ o. o.id_organization == organization_id)
          (desc "createdAt" ∷ []) (skip_of q) (limit_of q))
    pure (paginated q page)

  abbrev or_missing : String → Option TemplateOverride → Exec (World Db Redis) TemplateOverride
  or_missing id none = throw (not_found "Template override" id)
  or_missing id (some o) = pure o

  unfoldable pub find_one : String → String → Exec (World Db Redis) TemplateOverride
  find_one organization_id id = do
    found ← query (
        repositories.template_overrides.find_one
          (λ o. o.id == id && o.id_organization == organization_id))
    or_missing id found

  unfoldable pub find_by_template :
      String → String → Exec (World Db Redis) (Option TemplateOverride)
  find_by_template organization_id template_id =
      query (repositories.template_overrides.find_one (is_for organization_id template_id))

  unfoldable pub get_merged_config : String → String → Exec (World Db Redis) Fields
  unfolding find_by_template
  get_merged_config organization_id template_id = do
    template ← Templates.find_one repositories template_id
    override ← find_by_template organization_id template_id
    pure (with_override template override)

  unfoldable pub update :
      String → String → UpdateTemplateOverrideDto → Exec (World Db Redis) TemplateOverride
  unfolding find_one assign
  update organization_id id dto = do
    found ← find_one organization_id id
    saved ← write (repositories.template_overrides.save (assign found dto))
    emit (cache_invalidation organization_id)
    pure saved

  unfoldable pub remove : String → String → Exec (World Db Redis) (Unit {0})
  unfolding find_one
  remove organization_id id = do
    found ← find_one organization_id id
    write (repositories.template_overrides.remove found)
    emit (cache_invalidation organization_id)
