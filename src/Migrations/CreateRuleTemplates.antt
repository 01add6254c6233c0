-- ===== src/Migrations/CreateRuleTemplates.antt =====
-- CreateRuleTemplates1769882048834 (src/database/migrations/1769882048834-CreateRuleTemplates.ts).
use complif_techinical_chall.Base.{List, [], ◌∷◌, true, false, none, some}
use complif_techinical_chall.Migrations.Statements.{
  Statement, Migration, create_table, create_index, drop_index, drop_table, column, primary_key,
  unique,
}

abbrev up : List Statement
up =
    create_table "rule_templates"
      (column "id" "uuid" false (some "uuid_generate_v4()")
        ∷ column "created_at" "TIMESTAMP" false (some "now()")
        ∷ column "updated_at" "TIMESTAMP" false (some "now()")
        ∷ column "name" "character varying(255)" false none
        ∷ column "description" "text" true none
        ∷ column "config" "jsonb" false (some "'{}'")
        ∷ column "is_default" "boolean" false (some "false")
        ∷ [])
      (unique "UQ_rule_templates_name" ("name" ∷ [])
        ∷ primary_key "PK_rule_templates" ("id" ∷ [])
        ∷ [])
    ∷ create_index "idx_rule_templates_name" false "rule_templates" ("name" ∷ []) none
    ∷ create_index "idx_rule_templates_is_default" false "rule_templates" ("is_default" ∷ []) none
    ∷ []

abbrev down : List Statement
down =
    drop_index "idx_rule_templates_is_default"
    ∷ drop_index "idx_rule_templates_name"
    ∷ drop_table "rule_templates"
    ∷ []

-- the class
unfoldable pub create_rule_templates : Migration
create_rule_templates = record {
  name = "CreateRuleTemplates";
  timestamp = 1769882048834;
  up = up;
  down = down;
}
