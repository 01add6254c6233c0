-- ===== src/Tests/Lists.antt =====
-- List entries against an empty table and one that holds an entry that has expired.
use complif_techinical_chall.Base.{
  ◌≤◌, ℕ, ◌≡◌, refl, String, Bool, true, false, Option, none, some, arith,
}
use complif_techinical_chall.Common.Exec.{ok, result_of, state_of}
use complif_techinical_chall.Common.Repository.{count_rows, IsRepository}
use complif_techinical_chall.Entities.{ListEntry, blacklist, country}
use complif_techinical_chall.World.{World, Repositories}
use complif_techinical_chall.Lists.{
  CreateListEntryDto, create, new_entry, is_entry, is_in_list, is_missing,
}
use complif_techinical_chall.Lists.Entries.{
  content, IsUnique, create-IsUnique, is_in_list-ignores_expiry,
}
use complif_techinical_chall.Lists.Added.{create-is_in_list}
use complif_techinical_chall.Tests.Fixtures.{
  table, rows_of, table-IsRepository, stored, world, entry, Server, empty_server,
}

abbrev with_id : String → ListEntry → ListEntry
with_id i e = record e { id = i }

abbrev repositories : Repositories (Option ListEntry)
repositories = record stored { list_entries = table (λ e. e.id) with_id }

laws : IsRepository repositories.list_entries (rows_of (λ e. e.id) with_id) (λ e. e.id) content
laws = table-IsRepository (λ e. e.id) with_id content (λ s e. refl)

abbrev before : World (Option ListEntry) Server
before = world none empty_server

abbrev listed : World (Option ListEntry) Server
listed = world (some entry) empty_server

abbrev dto : CreateListEntryDto
dto = record {
  list_type = blacklist;
  entity_type = country;
  entity_value = "XX";
  reason = none;
  expires_at = none;
  created_by = none;
}

before-IsUnique : IsUnique repositories (rows_of (λ e. e.id) with_id) laws before
before-IsUnique o l t v = omega arith

create-IsUnique_example :
    count_rows
      (is_entry "o1" blacklist country "XX")
      (rows_of (λ e. e.id) with_id (state_of (create repositories "o1" dto) before).db)
    ≤ 1
create-IsUnique_example =
    create-IsUnique repositories (rows_of (λ e. e.id) with_id) laws "o1" dto before before-IsUnique
      "o1" blacklist country "XX"

-- the entry expires at 10; at 20 it is not listed, if `null` matches entries without expiry only
not_listed :
    result_of (is_in_list repositories is_missing 20 "o1" blacklist country "XX") listed ≡ ok false
unfolding is_in_list table
not_listed = refl

abbrev all_match : Option ℕ → Bool
all_match t = true

is_in_list-ignores_expiry_example :
    result_of (is_in_list repositories all_match 5 "o1" blacklist country "XX") listed
    ≡ result_of (is_in_list repositories all_match 20 "o1" blacklist country "XX") listed
is_in_list-ignores_expiry_example =
    is_in_list-ignores_expiry repositories all_match 5 20 "o1" blacklist country "XX" listed
      (λ t. refl)

-- and it answers true in both
expired_counts :
    result_of (is_in_list repositories all_match 20 "o1" blacklist country "XX") listed ≡ ok true
unfolding is_in_list table
expired_counts = refl

abbrev first_entry : ListEntry
first_entry = with_id "1" (new_entry "o1" dto)

creates : result_of (create repositories "o1" dto) before ≡ ok first_entry
unfolding create table
creates = refl

is_answered :
    result_of
      (is_in_list repositories is_missing 20 "o1" blacklist country "XX")
      (state_of (create repositories "o1" dto) before)
    ≡ ok true
unfolding create is_in_list table
is_answered = refl

create-is_in_list_example : Path Bool true true
create-is_in_list_example =
    create-is_in_list repositories (rows_of (λ e. e.id) with_id) laws "o1" dto before first_entry
      is_missing 20 true refl tt creates is_answered
