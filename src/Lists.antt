-- ===== src/Lists.antt =====
-- ListsService (src/lists/lists.service.ts). How TypeORM reads a `null` in a `where` object is its
-- own affair: `null_matches` says which values of the column such a condition lets through.
pub mod Entries
pub mod Added
use Prim.Native.String
use complif_techinical_chall.Base.{
  ℕ, ltb, String, ◌==◌, ◌&&◌, ◌||◌, Bool, true, false, Option, none, some, [], ◌∷◌, if◌then◌else◌,
}
use complif_techinical_chall.Common.Exec.{Exec, not_found, conflict, pure, throw, ◌>>=◌}
use complif_techinical_chall.Common.Repository.{desc}
use complif_techinical_chall.Common.Pagination.{
  PaginationQuery, PaginatedResult, skip_of, limit_of, paginated,
}
use complif_techinical_chall.Entities.{
  ListType, blacklist, whitelist, EntityType, account, ip, country, device, email, phone, ListEntry,
}
use complif_techinical_chall.World.{World, Repositories, query, write}

-- `expiresAt` is the time that the ISO text denotes
pub record CreateListEntryDto : Type 0 where
  pub list_type : ListType
  pub entity_type : EntityType
  pub entity_value : String
  pub reason : Option String
  pub expires_at : Option ℕ
  pub created_by : Option String

pub record ListEntryQueryDto : Type 0 where
  pub list_type : Option ListType
  pub entity_type : Option EntityType
  pub entity_value : Option String
  pub paging : PaginationQuery

abbrev pub same_list : ListType → ListType → Bool
same_list blacklist blacklist = true
same_list whitelist whitelist = true
same_list _ _ = false

abbrev pub same_entity : EntityType → EntityType → Bool
same_entity account account = true
same_entity ip ip = true
same_entity country country = true
same_entity device device = true
same_entity email email = true
same_entity phone phone = true
same_entity _ _ = false

-- where: { idOrganization, listType, entityType, entityValue }
abbrev pub is_entry : String → ListType → EntityType → String → ListEntry → Bool
is_entry organization_id list_type entity_type entity_value e =
    e.id_organization == organization_id
    && (same_list e.list_type list_type
        && (same_entity e.entity_type entity_type && e.entity_value == entity_value))

abbrev list_type_text : ListType → String
list_type_text blacklist = "BLACKLIST"
list_type_text whitelist = "WHITELIST"

abbrev entity_type_text : EntityType → String
entity_type_text account = "ACCOUNT"
entity_type_text ip = "IP"
entity_type_text country = "COUNTRY"
entity_type_text device = "DEVICE"
entity_type_text email = "EMAIL"
entity_type_text phone = "PHONE"

-- the message of the ConflictException
already_exists : CreateListEntryDto → String
already_exists dto = String.◌++◌ "Entry already exists for " (
    String.◌++◌ (list_type_text dto.list_type) (
      String.◌++◌ "/"
        (String.◌++◌ (entity_type_text dto.entity_type) (String.◌++◌ "/" dto.entity_value))))

-- `text || null`
abbrev pub non_empty : Option String → Option String
non_empty none = none
non_empty (some s) = if s == "" then none else some s

abbrev pub new_entry : String → CreateListEntryDto → ListEntry
new_entry organization_id dto = record {
  id = "";
  created_at = 0;
  updated_at = 0;
  id_organization = organization_id;
  list_type = dto.list_type;
  entity_type = dto.entity_type;
  entity_value = dto.entity_value;
  reason = non_empty dto.reason;
  expires_at = dto.expires_at;
  created_by = non_empty dto.created_by;
}

-- MoreThan(now) and LessThan(now) on a nullable column
abbrev pub expires_after : ℕ → Option ℕ → Bool
expires_after now none = false
expires_after now (some t) = ltb now t

abbrev pub expires_before : ℕ → Option ℕ → Bool
expires_before now none = false
expires_before now (some t) = ltb t now

abbrev matches_list : Option ListType → ListEntry → Bool
matches_list none e = true
matches_list (some t) e = same_list e.list_type t

abbrev matches_entity : Option EntityType → ListEntry → Bool
matches_entity none e = true
matches_entity (some t) e = same_entity e.entity_type t

abbrev matches_value : Option String → ListEntry → Bool
matches_value none e = true
matches_value (some v) e = if v == "" then true else e.entity_value == v

abbrev in_organization : Option String → ListEntry → Bool
in_organization none e = true
in_organization (some o) e = if o == "" then true else e.id_organization == o

abbrev pub is_missing {ℓ} : {A : Type ℓ} → Option A → Bool
is_missing none = true
is_missing (some a) = false

abbrev pub is_some {ℓ} : {A : Type ℓ} → Option A → Bool
is_some none = false
is_some (some a) = true

-- the two alternatives of the `where` array of `isInList`
abbrev pub is_listed :
    (Option ℕ → Bool) → ℕ → String → ListType → EntityType → String → ListEntry → Bool
is_listed null_matches now organization_id list_type entity_type entity_value e =
    (is_entry organization_id list_type entity_type entity_value e && null_matches e.expires_at)
    || (is_entry organization_id list_type entity_type entity_value e
        && expires_after now e.expires_at)

module _ {Db Redis : Type 0} (repositories : Repositories Db) where
  none_exists : CreateListEntryDto → Option ListEntry → Exec (World Db Redis) (Unit {0})
  none_exists dto none = pure tt
  none_exists dto (some e) = throw (conflict (already_exists dto))

  unfoldable pub create : String → CreateListEntryDto → Exec (World Db Redis) ListEntry
  unfolding none_exists already_exists
  create organization_id dto = do
    existing ← query (
        repositories.list_entries.find_one
          (is_entry organization_id dto.list_type dto.entity_type dto.entity_value))
    _ ← none_exists dto existing
    write (repositories.list_entries.save (new_entry organization_id dto))

  unfoldable pub find_by_organization :
      String → ListEntryQueryDto → Exec (World Db Redis) (PaginatedResult ListEntry)
  find_by_organization organization_id q = do
    page ← query (
        repositories.list_entries.find_and_count
          (λ e.
            e.id_organization == organization_id
            && (matches_list q.list_type e
                && (matches_entity q.entity_type e && matches_value q.entity_value e)))
          (desc "createdAt" ∷ []) (skip_of q.paging) (limit_of q.paging))
    pure (paginated q.paging page)

  or_missing : String → Option ListEntry → Exec (World Db Redis) ListEntry
  or_missing id none = throw (not_found "List entry" id)
  or_missing id (some e) = pure e

  unfoldable pub find_one : String → String → Exec (World Db Redis) ListEntry
  unfolding or_missing
  find_one organization_id id = do
    entry ← query (
        repositories.list_entries.find_one
          (λ e. e.id == id && e.id_organization == organization_id))
    or_missing id entry

  unfoldable pub remove : String → String → Exec (World Db Redis) (Unit {0})
  unfolding find_one
  remove organization_id id = do
    entry ← find_one organization_id id
    write (repositories.list_entries.remove entry)

  unfoldable pub is_in_list :
      (Option ℕ → Bool) → ℕ → String → ListType → EntityType → String → Exec (World Db Redis) Bool
  is_in_list null_matches now organization_id list_type entity_type entity_value = do
    entry ← query (
        repositories.list_entries.find_one
          (is_listed null_matches now organization_id list_type entity_type entity_value))
    pure (is_some entry)

  -- the number of rows that were deleted; `affected` is always reported by the driver
  unfoldable pub remove_expired : ℕ → Option String → Exec (World Db Redis) ℕ
  remove_expired now organization_id = write (
      repositories.list_entries.delete
        (λ e. expires_before now e.expires_at && in_organization organization_id e))
