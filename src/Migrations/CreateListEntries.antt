-- ===== src/Migrations/CreateListEntries.antt =====
-- CreateListEntries1738627200000 (src/database/migrations/1738627200000-CreateListEntries.ts).
use complif_techinical_chall.Base.{List, [], ◌∷◌, true, false, none, some}
use complif_techinical_chall.Migrations.Statements.{
  Statement, Migration, create_type, create_table, create_index, add_foreign_key, drop_constraint,
  drop_index, drop_table, drop_type, column, primary_key, cascade,
}

abbrev up : List Statement
up =
    create_type "list_type_enum" ("BLACKLIST" ∷ "WHITELIST" ∷ [])
    ∷ create_type "entity_type_enum"
        ("ACCOUNT" ∷ "IP" ∷ "COUNTRY" ∷ "DEVICE" ∷ "EMAIL" ∷ "PHONE" ∷ [])
    ∷ create_table "list_entries"
        (column "id" "uuid" false (some "uuid_generate_v4()")
          ∷ column "created_at" "TIMESTAMP" false (some "now()")
          ∷ column "updated_at" "TIMESTAMP" false (some "now()")
          ∷ column "id_organization" "uuid" false none
          ∷ column "list_type" "list_type_enum" false none
          ∷ column "entity_type" "entity_type_enum" false none
          ∷ column "entity_value" "character varying(255)" false none
          ∷ column "reason" "text" true none
          ∷ column "expires_at" "TIMESTAMP" true none
          ∷ column "created_by" "uuid" true none
          ∷ [])
        (primary_key "PK_list_entries" ("id" ∷ []) ∷ [])
    ∷ create_index "idx_list_entries_id_organization" false "list_entries" ("id_organization" ∷ [])
        none
    ∷ create_index "idx_list_entries_org_type" false "list_entries"
        ("id_organization" ∷ "list_type" ∷ "entity_type" ∷ []) none
    ∷ create_index "idx_list_entries_expires" false "list_entries" ("expires_at" ∷ [])
        (some "expires_at")
    ∷ create_index "uq_list_entries_org_list_entity" true "list_entries"
        ("id_organization" ∷ "list_type" ∷ "entity_type" ∷ "entity_value" ∷ []) none
    ∷ add_foreign_key "list_entries" "FK_list_entries_organization" "id_organization"
        "organizations" cascade
    ∷ []

abbrev down : List Statement
down =
    drop_constraint "list_entries" "FK_list_entries_organization"
    ∷ drop_index "uq_list_entries_org_list_entity"
    ∷ drop_index "idx_list_entries_expires"
    ∷ drop_index "idx_list_entries_org_type"
    ∷ drop_index "idx_list_entries_id_organization"
    ∷ drop_table "list_entries"
    ∷ drop_type "entity_type_enum"
    ∷ drop_type "list_type_enum"
    ∷ []

-- the class
unfoldable pub create_list_entries : Migration
create_list_entries = record {
  name = "CreateListEntries";
  timestamp = 1738627200000;
  up = up;
  down = down;
}
