-- ===== src/Tests/Migrations.antt =====
-- The migrations on two small databases: one that knows its tables and refuses every foreign key,
-- and one that keeps the names of what was created, the last one first.
use complif_techinical_chall.Base.{
  String, ◌==◌, eq_refl, ◌≡◌, ◌≢◌, refl, Bool, true, false, ◌||◌, List, [], ◌∷◌, arith,
  if◌then◌else◌,
}
use complif_techinical_chall.Common.Exec.{Result, ok, err, thrown}
use complif_techinical_chall.Migrations.Statements.{
  Statement, Constraint, primary_key, unique, foreign_key, create_type, create_table, create_index,
  add_foreign_key, drop_constraint, drop_index, drop_table, drop_type,
}
use complif_techinical_chall.Migrations.CreateOrganizations.{create_organizations}
use complif_techinical_chall.Migrations.Order.{
  IsPostgres, run, statements, by_timestamp, migrations, targets, creates, refers_to,
  run-by_timestamp,
}
use complif_techinical_chall.Migrations.Rollback.{
  Undoes, migration, organizations, is_creation, run-down,
}

abbrev has_table : List String → String → Bool
has_table [] table = false
has_table (t ∷ ts) table = t == table || has_table ts table

refers_none : List Constraint → Bool
refers_none [] = true
refers_none (foreign_key name of_column target on_delete ∷ constraints) = false
refers_none (_ ∷ constraints) = refers_none constraints

without : String → List String → List String
without name [] = []
without name (t ∷ ts) = let rest = without name ts in if t == name then rest else t ∷ rest

without-missing :
    (name table : String) (ts : List String)
    → has_table ts table ≡ false
    → has_table (without name ts) table ≡ false
unfolding without
without-missing name table [] h = refl
without-missing name table (t ∷ ts) h = ground (arith, without-missing name table ts)

execute : Statement → List String → Result (List String)
unfolding refers_none without
execute (create_table name columns constraints) c =
    if refers_none constraints then ok (name ∷ c) else err (thrown "no such relation")
execute (add_foreign_key table name of_column target on_delete) c = err (thrown "no such relation")
execute (drop_table name) c = ok (without name c)
execute s c = ok c

no-targets :
    (table : String) (constraints : List Constraint)
    → refers_none constraints ≡ true
    → targets table constraints ≡ false
unfolding refers_none
no-targets table [] h = refl
no-targets table (primary_key name columns ∷ constraints) h = no-targets table constraints h
no-targets table (unique name columns ∷ constraints) h = no-targets table constraints h
no-targets table (foreign_key name of_column target on_delete ∷ constraints) h = absurd (cc)

execute-refers :
    (s : Statement) (c d : List String) (table : String)
    → execute s c ≡ ok d
    → refers_to table s ≡ true
    → has_table c table ≡ true
unfolding execute
execute-refers (create_table name columns constraints) c d table h k =
    ground (arith, no-targets table constraints)
execute-refers (add_foreign_key t name of_column target on_delete) c d table h k = absurd (cc)
execute-refers (create_type name values) c d table h k = absurd (cc)
execute-refers (create_index name u t columns w) c d table h k = absurd (cc)
execute-refers (drop_constraint t name) c d table h k = absurd (cc)
execute-refers (drop_index name) c d table h k = absurd (cc)
execute-refers (drop_table name) c d table h k = absurd (cc)
execute-refers (drop_type name) c d table h k = absurd (cc)

execute-creates :
    (s : Statement) (c d : List String) (table : String)
    → execute s c ≡ ok d
    → creates table s ≡ false
    → has_table c table ≡ false
    → has_table d table ≡ false
unfolding execute
execute-creates (create_table name columns constraints) c d table h k m = ground arith
execute-creates (add_foreign_key t name of_column target on_delete) c d table h k m = absurd (cc)
execute-creates (create_type name values) c d table h k m = ground arith
execute-creates (create_index name u t columns w) c d table h k m = ground arith
execute-creates (drop_constraint t name) c d table h k m = ground arith
execute-creates (drop_index name) c d table h k m = ground arith
execute-creates (drop_table name) c d table h k m = ground (arith, without-missing name table c m)
execute-creates (drop_type name) c d table h k m = ground arith

execute-IsPostgres : IsPostgres execute has_table
execute-IsPostgres = record { refers = execute-refers; creates_only = execute-creates }

run-by_timestamp_example :
    run execute (statements (by_timestamp migrations)) [] ≢ ok ("alerts" ∷ [])
run-by_timestamp_example =
    run-by_timestamp execute has_table execute-IsPostgres [] ("alerts" ∷ []) refl

abbrev name_of : Statement → String
name_of (create_type name values) = name
name_of (create_table name columns constraints) = name
name_of (create_index name is_unique table columns not_null) = name
name_of (add_foreign_key table name of_column target on_delete) = name
name_of (drop_constraint table name) = name
name_of (drop_index name) = name
name_of (drop_table name) = name
name_of (drop_type name) = name

pop : String → List String → Result (List String)
pop name [] = err (thrown "no such object")
pop name (n ∷ ns) = if n == name then ok ns else err (thrown "others depend on it")

stacked : Statement → List String → Result (List String)
unfolding pop
stacked s c = if is_creation s then ok (name_of s ∷ c) else pop (name_of s) c

stacked-Undoes : Undoes stacked
unfolding stacked pop
stacked-Undoes (create_type name values) c d h k = ground (arith, eq_refl name)
stacked-Undoes (create_table name columns constraints) c d h k = ground (arith, eq_refl name)
stacked-Undoes (create_index name u t columns w) c d h k = ground (arith, eq_refl name)
stacked-Undoes (add_foreign_key t name of_column target on_delete) c d h k =
    ground (arith, eq_refl name)
stacked-Undoes (drop_constraint t name) c d h k = absurd (cc)
stacked-Undoes (drop_index name) c d h k = absurd (cc)
stacked-Undoes (drop_table name) c d h k = absurd (cc)
stacked-Undoes (drop_type name) c d h k = absurd (cc)

went_up :
    run stacked (migration organizations).up []
    ≡ ok ("idx_organizations_name" ∷ "organizations" ∷ [])
unfolding stacked create_organizations
went_up = refl

run-down_example :
    run stacked (migration organizations).down ("idx_organizations_name" ∷ "organizations" ∷ [])
    ≡ ok []
run-down_example =
    run-down stacked stacked-Undoes organizations []
      ("idx_organizations_name" ∷ "organizations" ∷ []) went_up
