-- ===== src/Migrations/CreateAlerts.antt =====
-- CreateAlerts1738540800000 (src/database/migrations/1738540800000-CreateAlerts.ts).
use complif_techinical_chall.Base.{List, [], ◌∷◌, true, false, none, some}
use complif_techinical_chall.Migrations.Statements.{
  Statement, Migration, create_type, create_table, create_index, add_foreign_key, drop_constraint,
  drop_index, drop_table, drop_type, column, primary_key, cascade,
}

abbrev up : List Statement
up =
    create_type "alert_severity_enum" ("LOW" ∷ "MEDIUM" ∷ "HIGH" ∷ "CRITICAL" ∷ [])
    ∷ create_type "alert_category_enum" ("AML" ∷ "FRAUD" ∷ "COMPLIANCE" ∷ "UNKNOWN" ∷ [])
    ∷ create_type "alert_status_enum" ("OPEN" ∷ "ACKNOWLEDGED" ∷ "RESOLVED" ∷ "FALSE_POSITIVE" ∷ [])
    ∷ create_table "alerts"
        (column "id" "uuid" false (some "uuid_generate_v4()")
          ∷ column "created_at" "TIMESTAMP" false (some "now()")
          ∷ column "updated_at" "TIMESTAMP" false (some "now()")
          ∷ column "id_organization" "uuid" false none
          ∷ column "id_rule" "uuid" false none
          ∷ column "id_transaction" "uuid" false none
          ∷ column "id_account" "character varying(255)" true none
          ∷ column "severity" "alert_severity_enum" false (some "'MEDIUM'")
          ∷ column "category" "alert_category_enum" false (some "'UNKNOWN'")
          ∷ column "status" "alert_status_enum" false (some "'OPEN'")
          ∷ column "hit_count" "integer" false (some "1")
          ∷ column "first_triggered_at" "TIMESTAMP" false none
          ∷ column "last_triggered_at" "TIMESTAMP" false none
          ∷ column "dedup_key" "character varying(512)" false none
          ∷ column "metadata" "jsonb" false (some "'{}'")
          ∷ [])
        (primary_key "PK_alerts" ("id" ∷ []) ∷ [])
    ∷ create_index "idx_alerts_id_organization" false "alerts" ("id_organization" ∷ []) none
    ∷ create_index "idx_alerts_org_status" false "alerts" ("id_organization" ∷ "status" ∷ []) none
    ∷ create_index "idx_alerts_org_severity" false "alerts" ("id_organization" ∷ "severity" ∷ [])
        none
    ∷ create_index "idx_alerts_org_category" false "alerts" ("id_organization" ∷ "category" ∷ [])
        none
    ∷ create_index "idx_alerts_org_rule" false "alerts" ("id_organization" ∷ "id_rule" ∷ []) none
    ∷ create_index "idx_alerts_dedup_key" false "alerts" ("dedup_key" ∷ []) none
    ∷ create_index "idx_alerts_id_rule" false "alerts" ("id_rule" ∷ []) none
    ∷ add_foreign_key "alerts" "FK_alerts_rule" "id_rule" "rules" cascade
    ∷ add_foreign_key "alerts" "FK_alerts_transaction" "id_transaction" "transactions" cascade
    ∷ []

abbrev down : List Statement
down =
    drop_constraint "alerts" "FK_alerts_transaction"
    ∷ drop_constraint "alerts" "FK_alerts_rule"
    ∷ drop_index "idx_alerts_id_rule"
    ∷ drop_index "idx_alerts_dedup_key"
    ∷ drop_index "idx_alerts_org_rule"
    ∷ drop_index "idx_alerts_org_category"
    ∷ drop_index "idx_alerts_org_severity"
    ∷ drop_index "idx_alerts_org_status"
    ∷ drop_index "idx_alerts_id_organization"
    ∷ drop_table "alerts"
    ∷ drop_type "alert_status_enum"
    ∷ drop_type "alert_category_enum"
    ∷ drop_type "alert_severity_enum"
    ∷ []

-- the class
unfoldable pub create_alerts : Migration
create_alerts = record { name = "CreateAlerts"; timestamp = 1738540800000; up = up; down = down }
