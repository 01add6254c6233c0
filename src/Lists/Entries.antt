-- ===== src/Lists/Entries.antt =====
-- Entries of the lists: one for each value, and what expiry does to them.
use complif_techinical_chall.Base.{
  ℕ, ◌+◌, ◌≤◌, ◌<◌, ◌↔◌, ◌≡◌, refl, sym, ap, ◌∙◌, String, ◌==◌, ◌&&◌, ◌||◌, Bool, true, false,
  Bool-cases, inl, inr, Option, none, some, List, arith, eq_iff, fun_ext,
}
use complif_techinical_chall.Common.Exec.{Result, ok, err, result_of, state_of}
use complif_techinical_chall.Common.Repository.{IsRepository, weight, count_rows}
use complif_techinical_chall.Common.Repository.Saves.{insert-le}
use complif_techinical_chall.Entities.{ListType, EntityType, ListEntry}
use complif_techinical_chall.World.{World, Repositories}
use complif_techinical_chall.Lists.{
  CreateListEntryDto, is_entry, new_entry, create, is_listed, is_in_list, is_missing,
  expires_before, expires_after, same_list, same_entity,
}

-- what `save` keeps of an entry: all but what the database fills in
abbrev pub content : ListEntry → ListEntry
content e = record e { id = ""; created_at = 0; updated_at = 0 }

both_sides :
    (entry null_case before after : Bool)
    → null_case ≡ true
    → (entry && null_case || entry && before) ≡ (entry && null_case || entry && after)
both_sides entry null_case before after h = ground arith

kept_at :
    (null_matches : Option ℕ → Bool) (now earlier : ℕ) (t : Option ℕ) (entry : Bool)
    → ((t : Option ℕ) → null_matches t ≡ is_missing t)
    → earlier ≤ now
    → (entry && null_matches t || entry && expires_after now t) ≡ true
    → expires_before earlier t ≡ false
kept_at null_matches now earlier none entry n le h = refl
kept_at null_matches now earlier (some t) entry n le h = ground (arith, n (some t))

same_condition :
    (null_matches : Option ℕ → Bool) (now later : ℕ) (organization_id : String)
    (list_type : ListType) (entity_type : EntityType) (entity_value : String)
    → ((t : Option ℕ) → null_matches t ≡ true)
    → (e : ListEntry)
    → is_listed null_matches now organization_id list_type entity_type entity_value e
      ≡ is_listed null_matches later organization_id list_type entity_type entity_value e
same_condition null_matches now later organization_id list_type entity_type entity_value h e =
    both_sides (is_entry organization_id list_type entity_type entity_value e)
      (null_matches e.expires_at) _ _ (h e.expires_at)

-- Where TypeORM leaves a `null` out of the `where` object, as its version 0.3 does by default, the
-- answer of `isInList` does not depend on the time: an entry that has expired still counts.
pub is_in_list-ignores_expiry :
    {Db Redis : Type 0} (repositories : Repositories Db) (null_matches : Option ℕ → Bool)
    (now later : ℕ) (organization_id : String) (list_type : ListType) (entity_type : EntityType)
    (entity_value : String) (w : World Db Redis)
    → ((t : Option ℕ) → null_matches t ≡ true)
    → result_of
        (is_in_list repositories null_matches now organization_id list_type entity_type
          entity_value)
        w
      ≡ result_of
          (is_in_list repositories null_matches later organization_id list_type entity_type
            entity_value)
          w
unfolding is_in_list
is_in_list-ignores_expiry repositories null_matches now later organization_id list_type entity_type
      entity_value w h =
    rw (
      fun_ext (
        same_condition null_matches now later organization_id list_type entity_type entity_value h))

-- Where a `null` lets exactly the entries without expiry through, an entry that `isInList` counts
-- is none that `removeExpired` deletes at the same time or before.
pub listed-kept :
    (null_matches : Option ℕ → Bool) (now earlier : ℕ) (organization_id : String)
    (list_type : ListType) (entity_type : EntityType) (entity_value : String) (e : ListEntry)
    → ((t : Option ℕ) → null_matches t ≡ is_missing t)
    → earlier ≤ now
    → is_listed null_matches now organization_id list_type entity_type entity_value e ≡ true
    → expires_before earlier e.expires_at ≡ false
listed-kept null_matches now earlier organization_id list_type entity_type entity_value e n le h =
    kept_at null_matches now earlier e.expires_at
      (is_entry organization_id list_type entity_type entity_value e) n le h

same_list-eq : (a b : ListType) → same_list a b ≡ true → a ≡ b
same_list-eq a b h = ground arith

same_entity-eq : (a b : EntityType) → same_entity a b ≡ true → a ≡ b
same_entity-eq a b h = ground arith

-- the columns of a row that meets the condition are those of the condition
is_entry-eq :
    (o : String) (l : ListType) (t : EntityType) (v : String) (o' : String) (l' : ListType)
    (t' : EntityType) (v' : String)
    → (o' == o && (same_list l' l && (same_entity t' t && v' == v))) ≡ true
    → is_entry o l t v ≡ is_entry o' l' t' v'
is_entry-eq o l t v o' l' t' v' h =
    let p : o ≡ o' = ground (arith, eq_iff o' o) in
    let q : l ≡ l' = sym (same_list-eq l' l (ground arith)) in
    let r : t ≡ t' = sym (same_entity-eq t' t (ground arith)) in
    let s : v ≡ v' = ground (arith, eq_iff v' v) in λ i. is_entry (p i) (q i) (r i) (s i)

module _ {Db Redis : Type 0} (repositories : Repositories Db) (rows : Db → List ListEntry)
    (laws : IsRepository repositories.list_entries rows (λ e. e.id) content) where
  answered_row :
      (null_matches : Option ℕ → Bool) (now : ℕ) (o : String) (l : ListType) (t : EntityType)
      (v : String) (w : World Db Redis) (e : ListEntry)
      → repositories.list_entries.find_one (is_listed null_matches now o l t v) w.db ≡ ok (some e)
      → 1 ≤ count_rows (is_listed null_matches now o l t v) (rows w.db)
  answered_row null_matches now o l t v w e f =
      let condition = is_listed null_matches now o l t v in
      laws.counted condition condition w.db e f (laws.found condition w.db e f)

  answered :
      (null_matches : Option ℕ → Bool) (now : ℕ) (organization_id : String) (list_type : ListType)
      (entity_type : EntityType) (entity_value : String) (w : World Db Redis) (b : Bool)
      → (found : Result (Option ListEntry))
      → repositories.list_entries.find_one
          (is_listed null_matches now organization_id list_type entity_type entity_value)
          w.db
        ≡ found
      → result_of
          (is_in_list repositories null_matches now organization_id list_type entity_type
            entity_value)
          w
        ≡ ok b
      → (b ≡ true) ↔ (
          0
          < count_rows
              (is_listed null_matches now organization_id list_type entity_type entity_value)
              (rows w.db))
  unfolding is_in_list
  answered null_matches now o l t v w b (err x) f h = ground arith
  answered null_matches now o l t v w b (ok none) f h =
      ground (arith, laws.missing (is_listed null_matches now o l t v) w.db f)
  answered null_matches now o l t v w b (ok (some e)) f h =
      ground (arith, answered_row null_matches now o l t v w e f)

  -- By the laws of the repository, where `isInList` answers, it answers true exactly if a row of
  -- the table meets its condition.
  pub is_in_list_sound :
      (null_matches : Option ℕ → Bool) (now : ℕ) (organization_id : String) (list_type : ListType)
      (entity_type : EntityType) (entity_value : String) (w : World Db Redis) (b : Bool)
      → result_of
          (is_in_list repositories null_matches now organization_id list_type entity_type
            entity_value)
          w
        ≡ ok b
      → (b ≡ true) ↔ (
          0
          < count_rows
              (is_listed null_matches now organization_id list_type entity_type entity_value)
              (rows w.db))
  is_in_list_sound null_matches now o l t v w b h = answered null_matches now o l t v w b _ refl h

  -- No value stands twice on a list of an organization.
  abbrev pub IsUnique : World Db Redis → Type 0
  IsUnique w =
      (organization_id : String) (list_type : ListType) (entity_type : EntityType)
      (entity_value : String)
      → count_rows (is_entry organization_id list_type entity_type entity_value) (rows w.db) ≤ 1

  module _ (organization_id : String) (dto : CreateListEntryDto) (w : World Db Redis) where
    abbrev same_value : ListEntry → Bool
    same_value = is_entry organization_id dto.list_type dto.entity_type dto.entity_value

    -- a new entry counts for its own value only
    new-weight :
        (o : String) (l : ListType) (t : EntityType) (v : String)
        → count_rows same_value (rows w.db) ≡ 0
        → count_rows (is_entry o l t v) (rows w.db) ≤ 1
        → count_rows (is_entry o l t v) (rows w.db)
            + weight (is_entry o l t v) (new_entry organization_id dto)
          ≤ 1
    new-weight o l t v free h =
        elim (Bool-cases (is_entry o l t v (new_entry organization_id dto))) [
          | inl same ↦
              let none_yet : count_rows (is_entry o l t v) (rows w.db) ≡ 0 =
                ap (λ f. count_rows f (rows w.db)) (is_entry-eq o l t v _ _ _ _ same) ∙ free in
              rw (none_yet, same) (omega arith)
          | inr other ↦ rw other (omega arith)
        ]

    save-le :
        (o : String) (l : ListType) (t : EntityType) (v : String)
        → count_rows same_value (rows w.db) ≡ 0
        → count_rows (is_entry o l t v) (rows w.db) ≤ 1
        → count_rows
            (is_entry o l t v)
            (rows (repositories.list_entries.save (new_entry organization_id dto) w.db).1)
          ≤ 1
    save-le o l t v free h =
        insert-le repositories.list_entries rows (λ e. e.id) content laws (is_entry o l t v)
          (λ a b. ap (is_entry o l t v)) (new_entry organization_id dto) w.db refl
          (new-weight o l t v free h)

    created-le :
        (o : String) (l : ListType) (t : EntityType) (v : String)
        → count_rows (is_entry o l t v) (rows w.db) ≤ 1
        → (found : Result (Option ListEntry))
        → repositories.list_entries.find_one same_value w.db ≡ found
        → count_rows
            (is_entry o l t v)
            (rows (state_of (create repositories organization_id dto) w).db)
          ≤ 1
    unfolding create
    created-le o l t v h (err x) f = rw f h
    created-le o l t v h (ok (some e)) f = rw f h
    created-le o l t v h (ok none) f = rw f (save-le o l t v (laws.missing same_value w.db f) h)

  -- By the laws of the repository, creating an entry, whether it succeeds, meets an entry that
  -- exists or fails in the database, keeps every value at most once on each list of each
  -- organization.
  pub create-IsUnique :
      (organization_id : String) (dto : CreateListEntryDto) (w : World Db Redis)
      → IsUnique w
      → IsUnique (state_of (create repositories organization_id dto) w)
  create-IsUnique organization_id dto w h o l t v =
      created-le organization_id dto w o l t v (h o l t v) _ refl
