-- ===== src/Tests/Overrides.antt =====
-- Overrides in an empty table and in one that holds an override.
use complif_techinical_chall.Base.{◌≤◌, refl, String, false, Option, none, some, arith}
use complif_techinical_chall.Common.Exec.{state_of}
use complif_techinical_chall.Common.Repository.{count_rows, IsRepository}
use complif_techinical_chall.Entities.{TemplateOverride}
use complif_techinical_chall.World.{World, Repositories}
use complif_techinical_chall.Overrides.{
  CreateTemplateOverrideDto, UpdateTemplateOverrideDto, create, is_for, update,
}
use complif_techinical_chall.Overrides.Unique.{content, IsSingle, create-IsSingle, update-IsSingle}
use complif_techinical_chall.Tests.Fixtures.{
  table, rows_of, table-IsRepository, stored, world, override, Server, empty_server,
}

abbrev with_id : String → TemplateOverride → TemplateOverride
with_id i o = record o { id = i }

abbrev repositories : Repositories (Option TemplateOverride)
repositories = record stored { template_overrides = table (λ o. o.id) with_id }

laws :
    IsRepository repositories.template_overrides (rows_of (λ o. o.id) with_id) (λ o. o.id) content
laws = table-IsRepository (λ o. o.id) with_id content (λ s o. refl)

abbrev empty : World (Option TemplateOverride) Server
empty = world none empty_server

abbrev filled : World (Option TemplateOverride) Server
filled = world (some override) empty_server

empty-IsSingle : IsSingle repositories (rows_of (λ o. o.id) with_id) laws empty
empty-IsSingle o t = omega arith

filled-IsSingle : IsSingle repositories (rows_of (λ o. o.id) with_id) laws filled
filled-IsSingle o t = ground arith

abbrev dto : CreateTemplateOverrideDto
dto = record { id_template = "t1"; overrides = none; enabled = none }

abbrev change : UpdateTemplateOverrideDto
change = record { overrides = none; enabled = some false }

create-IsSingle_example :
    count_rows
      (is_for "o1" "t1")
      (rows_of (λ o. o.id) with_id (state_of (create repositories "o1" dto) empty).db)
    ≤ 1
create-IsSingle_example =
    create-IsSingle repositories (rows_of (λ o. o.id) with_id) laws "o1" dto empty empty-IsSingle
      "o1" "t1"

update-IsSingle_example :
    count_rows
      (is_for "o1" "t1")
      (rows_of (λ o. o.id) with_id (state_of (update repositories "o1" "v1" change) filled).db)
    ≤ 1
update-IsSingle_example =
    update-IsSingle repositories (rows_of (λ o. o.id) with_id) laws "o1" "v1" change filled
      filled-IsSingle "o1" "t1"
