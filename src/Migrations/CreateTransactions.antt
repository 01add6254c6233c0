-- ===== src/Migrations/CreateTransactions.antt =====
-- CreateTransactions1769900000000 (src/database/migrations/1769900000000-CreateTransactions.ts).
use complif_techinical_chall.Base.{List, [], ◌∷◌, true, false, none, some}
use complif_techinical_chall.Migrations.Statements.{
  Statement, Migration, create_table, create_index, drop_index, drop_table, column, primary_key,
}

abbrev up : List Statement
up =
    create_table "transactions"
      (column "id" "uuid" false (some "uuid_generate_v4()")
        ∷ column "created_at" "TIMESTAMP" false (some "now()")
        ∷ column "updated_at" "TIMESTAMP" false (some "now()")
        ∷ column "id_organization" "uuid" false none
        ∷ column "id_account" "character varying(255)" false none
        ∷ column "amount" "numeric(18, 4)" false none
        ∷ column "amount_normalized" "numeric(18, 4)" false none
        ∷ column "currency" "character varying(10)" false none
        ∷ column "type" "character varying(50)" false none
        ∷ column "sub_type" "character varying(50)" true none
        ∷ column "datetime" "TIMESTAMP" false none
        ∷ column "date" "date" false none
        ∷ column "is_voided" "boolean" false (some "false")
        ∷ column "is_blocked" "boolean" false (some "false")
        ∷ column "is_deleted" "boolean" false (some "false")
        ∷ column "origin" "character varying(100)" true none
        ∷ column "device_info" "jsonb" true none
        ∷ column "data" "jsonb" false (some "'{}'")
        ∷ column "external_code" "character varying(255)" true none
        ∷ column "country" "character varying(10)" true none
        ∷ column "counterparty_id" "character varying(255)" true none
        ∷ column "counterparty_country" "character varying(10)" true none
        ∷ [])
      (primary_key "PK_transactions" ("id" ∷ []) ∷ [])
    ∷ create_index "idx_tx_org_account_datetime" false "transactions"
        ("id_organization" ∷ "id_account" ∷ "datetime" ∷ []) none
    ∷ create_index "idx_tx_org_datetime" false "transactions" ("id_organization" ∷ "datetime" ∷ [])
        none
    ∷ create_index "idx_tx_org_account_type_datetime" false "transactions"
        ("id_organization" ∷ "id_account" ∷ "type" ∷ "datetime" ∷ []) none
    ∷ create_index "idx_transactions_id_organization" false "transactions" ("id_organization" ∷ [])
        none
    ∷ create_index "idx_tx_org_external_code" false "transactions"
        ("id_organization" ∷ "external_code" ∷ []) (some "external_code")
    ∷ []

abbrev down : List Statement
down =
    drop_index "idx_tx_org_external_code"
    ∷ drop_index "idx_transactions_id_organization"
    ∷ drop_index "idx_tx_org_account_type_datetime"
    ∷ drop_index "idx_tx_org_datetime"
    ∷ drop_index "idx_tx_org_account_datetime"
    ∷ drop_table "transactions"
    ∷ []

-- the class
unfoldable pub create_transactions : Migration
create_transactions = record {
  name = "CreateTransactions";
  timestamp = 1769900000000;
  up = up;
  down = down;
}
