-- ===== src/Organizations.antt =====
-- OrganizationsService (src/organizations/organizations.service.ts).
use complif_techinical_chall.Base.{
  ltb, String, ◌==◌, Bool, true, Option, none, some, [], ◌∷◌, get_or,
}
use complif_techinical_chall.Common.Value.{Fields, end}
use complif_techinical_chall.Common.Exec.{Exec, not_found, pure, throw, ◌>>=◌}
use complif_techinical_chall.Common.Repository.{desc}
use complif_techinical_chall.Common.Pagination.{
  PaginationQuery, PaginatedResult, skip_of, limit_of, paginated,
}
use complif_techinical_chall.Entities.{Organization}
use complif_techinical_chall.World.{World, Repositories, query, write}

pub record CreateOrganizationDto : Type 0 where
  pub name : String
  pub settings : Option Fields

pub record UpdateOrganizationDto : Type 0 where
  pub name : Option String
  pub settings : Option Fields

-- Object.assign(organization, updateDto)
unfoldable pub assign : Organization → UpdateOrganizationDto → Organization
assign o dto = record o { name = get_or dto.name o.name; settings = get_or dto.settings o.settings }

abbrev new_organization : CreateOrganizationDto → Organization
new_organization dto = record {
  id = "";
  created_at = 0;
  updated_at = 0;
  name = dto.name;
  settings = get_or dto.settings end;
}

module _ {Db Redis : Type 0} (repositories : Repositories Db) where
  unfoldable pub create : CreateOrganizationDto → Exec (World Db Redis) Organization
  create dto = write (repositories.organizations.save (new_organization dto))

  unfoldable pub find_all : PaginationQuery → Exec (World Db Redis) (PaginatedResult Organization)
  find_all q = do
    page ← query (
        repositories.organizations.find_and_count (λ o. true) (desc "createdAt" ∷ []) (skip_of q)
          (limit_of q))
    pure (paginated q page)

  abbrev or_missing : String → Option Organization → Exec (World Db Redis) Organization
  or_missing id none = throw (not_found "Organization" id)
  or_missing id (some o) = pure o

  unfoldable pub find_one : String → Exec (World Db Redis) Organization
  find_one id = do
    found ← query (repositories.organizations.find_one (λ o. o.id == id))
    or_missing id found

  unfoldable pub update : String → UpdateOrganizationDto → Exec (World Db Redis) Organization
  unfolding find_one assign
  update id dto = do found ← find_one id; write (repositories.organizations.save (assign found dto))

  unfoldable pub remove : String → Exec (World Db Redis) (Unit {0})
  unfolding find_one
  remove id = do found ← find_one id; write (repositories.organizations.remove found)

  unfoldable pub exists : String → Exec (World Db Redis) Bool
  exists id = do
    count ← query (repositories.organizations.count (λ o. o.id == id))
    pure (ltb 0 count)
