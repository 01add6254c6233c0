-- ===== src/Migrations/CreateRules.antt =====
-- CreateRules1769882246824 (src/database/migrations/1769882246824-CreateRules.ts).
use complif_techinical_chall.Base.{List, [], ◌∷◌, true, false, none, some}
use complif_techinical_chall.Migrations.Statements.{
  Statement, Migration, create_table, create_index, drop_index, drop_table, column, primary_key,
  foreign_key, set_null,
}

abbrev up : List Statement
up =
    create_table "rules"
      (column "id" "uuid" false (some "uuid_generate_v4()")
        ∷ column "created_at" "TIMESTAMP" false (some "now()")
        ∷ column "updated_at" "TIMESTAMP" false (some "now()")
        ∷ column "id_organization" "uuid" false none
        ∷ column "id_template" "uuid" true none
        ∷ column "name" "character varying(255)" false none
        ∷ column "description" "text" true none
        ∷ column "enabled" "boolean" false (some "true")
        ∷ column "priority" "integer" false (some "0")
        ∷ column "config" "jsonb" false (some "'{}'")
        ∷ column "created_by" "character varying(255)" true none
        ∷ [])
      (primary_key "PK_rules" ("id" ∷ [])
        ∷ foreign_key "FK_rules_template" "id_template" "rule_templates" set_null
        ∷ [])
    ∷ create_index "idx_rules_id_organization" false "rules" ("id_organization" ∷ []) none
    ∷ create_index "idx_rules_id_template" false "rules" ("id_template" ∷ []) none
    ∷ create_index "idx_rules_id_organization_priority" false "rules"
        ("id_organization" ∷ "priority" ∷ []) none
    ∷ create_index "idx_rules_id_organization_enabled" false "rules"
        ("id_organization" ∷ "enabled" ∷ []) none
    ∷ []

abbrev down : List Statement
down =
    drop_index "idx_rules_id_organization_enabled"
    ∷ drop_index "idx_rules_id_organization_priority"
    ∷ drop_index "idx_rules_id_template"
    ∷ drop_index "idx_rules_id_organization"
    ∷ drop_table "rules"
    ∷ []

-- the class
unfoldable pub create_rules : Migration
create_rules = record { name = "CreateRules"; timestamp = 1769882246824; up = up; down = down }
