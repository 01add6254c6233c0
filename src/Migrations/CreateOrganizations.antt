-- ===== src/Migrations/CreateOrganizations.antt =====
-- CreateOrganizations1769720994153 (src/database/migrations/1769720994153-CreateOrganizations.ts).
use complif_techinical_chall.Base.{List, [], ◌∷◌, false, none, some}
use complif_techinical_chall.Migrations.Statements.{
  Statement, Migration, create_table, create_index, drop_index, drop_table, column, primary_key,
}

abbrev up : List Statement
up =
    create_table "organizations"
      (column "id" "uuid" false (some "uuid_generate_v4()")
        ∷ column "created_at" "TIMESTAMP" false (some "now()")
        ∷ column "updated_at" "TIMESTAMP" false (some "now()")
        ∷ column "name" "character varying(255)" false none
        ∷ column "settings" "jsonb" false (some "'{}'")
        ∷ [])
      (primary_key "PK_6b031fcd0863e3f6b44230163f9" ("id" ∷ []) ∷ [])
    ∷ create_index "idx_organizations_name" false "organizations" ("name" ∷ []) none
    ∷ []

abbrev down : List Statement
down = drop_index "idx_organizations_name" ∷ drop_table "organizations" ∷ []

-- the class
unfoldable pub create_organizations : Migration
create_organizations = record {
  name = "CreateOrganizations";
  timestamp = 1769720994153;
  up = up;
  down = down;
}
