-- ===== src/Lists/Added.antt =====
-- An entry that is created is found: `create` and then `isInList` of src/lists/lists.service.ts.
use complif_techinical_chall.Base.{
  ℕ, ◌<◌, ◌≡◌, refl, ap, ◌∙◌, String, eq_refl, Bool, true, ◌&&◌, ◌||◌, if◌then◌else◌, Option, none,
  some, List, arith,
}
use complif_techinical_chall.Common.Exec.{Result, ok, err, result_of, state_of}
use complif_techinical_chall.Common.Repository.{IsRepository, weight, weight-eq, count_rows}
use complif_techinical_chall.Entities.{
  ListType, blacklist, whitelist, EntityType, account, ip, country, device, email, phone, ListEntry,
}
use complif_techinical_chall.World.{World, Repositories}
use complif_techinical_chall.Lists.{
  CreateListEntryDto, is_entry, new_entry, create, is_listed, is_in_list, expires_after, same_list,
  same_entity,
}
use complif_techinical_chall.Lists.Entries.{content, is_in_list_sound}

-- no expiry, or a later one
abbrev pub Unexpired : ℕ → Option ℕ → Type 0
Unexpired now none = Unit {0}
Unexpired now (some t) = now < t

same_list_refl : (l : ListType) → same_list l l ≡ true
same_list_refl blacklist = refl
same_list_refl whitelist = refl

same_entity_refl : (t : EntityType) → same_entity t t ≡ true
same_entity_refl account = refl
same_entity_refl ip = refl
same_entity_refl country = refl
same_entity_refl device = refl
same_entity_refl email = refl
same_entity_refl phone = refl

new_entry-is_entry :
    (organization_id : String) (dto : CreateListEntryDto)
    → is_entry organization_id dto.list_type dto.entity_type dto.entity_value
        (new_entry organization_id dto)
      ≡ true
new_entry-is_entry organization_id dto = ground (
  arith,
  eq_refl organization_id,
  eq_refl dto.entity_value,
  same_list_refl dto.list_type,
  same_entity_refl dto.entity_type,
)

either_alternative :
    (null_matches : Option ℕ → Bool) (now : ℕ) (t : Option ℕ) (entry : Bool)
    → entry ≡ true
    → null_matches none ≡ true
    → Unexpired now t
    → (entry && null_matches t || entry && expires_after now t) ≡ true
either_alternative null_matches now none entry e n later = ground arith
either_alternative null_matches now (some t) entry e n later = ground arith

module _ {Db Redis : Type 0} (repositories : Repositories Db) (rows : Db → List ListEntry)
    (laws : IsRepository repositories.list_entries rows (λ e. e.id) content)
    (organization_id : String) (dto : CreateListEntryDto) (w : World Db Redis)
    (created : ListEntry) where
  -- what a creation that succeeds did to the table
  saved-from :
      (found : Result (Option ListEntry))
      → repositories.list_entries.find_one
          (is_entry organization_id dto.list_type dto.entity_type dto.entity_value)
          w.db
        ≡ found
      → result_of (create repositories organization_id dto) w ≡ ok created
      → ((repositories.list_entries.save (new_entry organization_id dto) w.db).0 ≡ ok created)
        × ((state_of (create repositories organization_id dto) w).db
            ≡ (repositories.list_entries.save (new_entry organization_id dto) w.db).1)
  unfolding create
  saved-from (err x) f h = absurd (ground arith)
  saved-from (ok (some e)) f h = absurd (ground arith)
  saved-from (ok none) f h = (ground arith, ground arith)

  -- By the laws of the repository, where a `null` lets entries without expiry through, as it is
  -- meant to, an entry that was created without an expiry or with one later than now is on its list:
  -- `isInList` of its value answers true, if it answers.
  pub create-is_in_list :
      (null_matches : Option ℕ → Bool) (now : ℕ) (b : Bool)
      → null_matches none ≡ true
      → Unexpired now dto.expires_at
      → result_of (create repositories organization_id dto) w ≡ ok created
      → result_of
          (is_in_list repositories null_matches now organization_id dto.list_type dto.entity_type
            dto.entity_value)
          (state_of (create repositories organization_id dto) w)
        ≡ ok b
      → b ≡ true
  create-is_in_list null_matches now b n later h answer =
      let condition =
        is_listed null_matches now organization_id dto.list_type dto.entity_type dto.entity_value in
      let entry = new_entry organization_id dto in
      let (saved, left) = saved-from _ refl h in
      let listed : condition entry ≡ true =
        either_alternative null_matches now dto.expires_at _
          (new_entry-is_entry organization_id dto) n later in
      let counts : weight condition created ≡ 1 =
        weight-eq condition created entry (ap condition (laws.kept entry created w.db saved))
        ∙ ap {B = ℕ} (λ t. if t then 1 else 0) listed in
      let sound =
        is_in_list_sound repositories rows laws null_matches now organization_id dto.list_type
          dto.entity_type dto.entity_value (state_of (create repositories organization_id dto) w) b
          answer in
      sound.1 (
        omega (
          arith,
          counts,
          laws.inserted entry created w.db (weight condition) refl saved,
          ap (λ d. count_rows condition (rows d)) left,
        ))
