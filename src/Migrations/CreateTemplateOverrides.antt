-- ===== src/Migrations/CreateTemplateOverrides.antt =====
-- CreateTemplateOverrides1769882137084 (src/database/migrations/1769882137084-CreateTemplateOverrides.ts).
use complif_techinical_chall.Base.{List, [], ◌∷◌, false, none, some}
use complif_techinical_chall.Migrations.Statements.{
  Statement, Migration, create_table, create_index, drop_index, drop_table, column, primary_key,
  unique, foreign_key, cascade,
}

abbrev up : List Statement
up =
    create_table "template_overrides"
      (column "id" "uuid" false (some "uuid_generate_v4()")
        ∷ column "created_at" "TIMESTAMP" false (some "now()")
        ∷ column "updated_at" "TIMESTAMP" false (some "now()")
        ∷ column "id_organization" "uuid" false none
        ∷ column "id_template" "uuid" false none
        ∷ column "overrides" "jsonb" false (some "'{}'")
        ∷ column "enabled" "boolean" false (some "true")
        ∷ [])
      (unique "UQ_template_overrides_org_template" ("id_organization" ∷ "id_template" ∷ [])
        ∷ primary_key "PK_template_overrides" ("id" ∷ [])
        ∷ foreign_key "FK_template_overrides_template" "id_template" "rule_templates" cascade
        ∷ [])
    ∷ create_index "idx_template_overrides_id_organization" false "template_overrides"
        ("id_organization" ∷ []) none
    ∷ create_index "idx_template_overrides_id_template" false "template_overrides"
        ("id_template" ∷ []) none
    ∷ []

abbrev down : List Statement
down =
    drop_index "idx_template_overrides_id_template"
    ∷ drop_index "idx_template_overrides_id_organization"
    ∷ drop_table "template_overrides"
    ∷ []

-- the class
unfoldable pub create_template_overrides : Migration
create_template_overrides = record {
  name = "CreateTemplateOverrides";
  timestamp = 1769882137084;
  up = up;
  down = down;
}
