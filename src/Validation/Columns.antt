-- ===== src/Validation/Columns.antt =====
-- The columns of the tables, as the decorators of src/*/entities/*.entity.ts declare them, with those
-- that an entity inherits (src/common/entities). A column without a name of its own has that of its
-- property.
use complif_techinical_chall.Base.{
  ℕ, String, Bool, true, false, Option, none, some, List, [], ◌∷◌, ◌++◌,
}

pub data ColumnType : Type 0 where
  uuid text int boolean jsonb date timestamp : ColumnType
  varchar : ℕ → ColumnType
  numeric : (precision scale : ℕ) → ColumnType
  -- an enumeration, by its values
  enum : List String → ColumnType

-- `default` is the default's text in SQL.
pub record EntityColumn : Type 0 where
  pub property : String
  pub name : String
  pub type : ColumnType
  pub nullable : Bool
  pub default : Option String

abbrev col : String → String → ColumnType → EntityColumn
col property name type = record {
  property = property;
  name = name;
  type = type;
  nullable = false;
  default = none;
}

abbrev nullable : EntityColumn → EntityColumn
nullable c = record c { nullable = true }

abbrev defaults_to : String → EntityColumn → EntityColumn
defaults_to d c = record c { default = some d }

-- @PrimaryGeneratedColumn('uuid'), @CreateDateColumn and @UpdateDateColumn
abbrev base_entity : List EntityColumn
base_entity =
    defaults_to "uuid_generate_v4()" (col "id" "id" uuid)
    ∷ defaults_to "now()" (col "createdAt" "created_at" timestamp)
    ∷ defaults_to "now()" (col "updatedAt" "updated_at" timestamp)
    ∷ []

abbrev tenant_base_entity : List EntityColumn
tenant_base_entity = base_entity ++ col "idOrganization" "id_organization" uuid ∷ []

unfoldable pub organization_columns : List EntityColumn
organization_columns =
    base_entity
    ++ (col "name" "name" (varchar 255) ∷ defaults_to "'{}'" (col "settings" "settings" jsonb) ∷ [])

unfoldable pub rule_template_columns : List EntityColumn
rule_template_columns =
    base_entity
    ++ (col "name" "name" (varchar 255)
        ∷ nullable (col "description" "description" text)
        ∷ defaults_to "'{}'" (col "config" "config" jsonb)
        ∷ defaults_to "false" (col "isDefault" "is_default" boolean)
        ∷ [])

unfoldable pub template_override_columns : List EntityColumn
template_override_columns =
    tenant_base_entity
    ++ (col "idTemplate" "id_template" uuid
        ∷ defaults_to "'{}'" (col "overrides" "overrides" jsonb)
        ∷ defaults_to "true" (col "enabled" "enabled" boolean)
        ∷ [])

unfoldable pub rule_columns : List EntityColumn
rule_columns =
    tenant_base_entity
    ++ (nullable (col "idTemplate" "id_template" uuid)
        ∷ col "name" "name" (varchar 255)
        ∷ nullable (col "description" "description" text)
        ∷ defaults_to "true" (col "enabled" "enabled" boolean)
        ∷ defaults_to "0" (col "priority" "priority" int)
        ∷ defaults_to "'{}'" (col "config" "config" jsonb)
        ∷ nullable (col "createdBy" "created_by" (varchar 255))
        ∷ [])

unfoldable pub list_entry_columns : List EntityColumn
list_entry_columns =
    tenant_base_entity
    ++ (col "listType" "list_type" (enum ("BLACKLIST" ∷ "WHITELIST" ∷ []))
        ∷ col "entityType" "entity_type"
            (enum ("ACCOUNT" ∷ "IP" ∷ "COUNTRY" ∷ "DEVICE" ∷ "EMAIL" ∷ "PHONE" ∷ []))
        ∷ col "entityValue" "entity_value" (varchar 255)
        ∷ nullable (col "reason" "reason" text)
        ∷ nullable (col "expiresAt" "expires_at" timestamp)
        ∷ nullable (col "createdBy" "created_by" uuid)
        ∷ [])

unfoldable pub transaction_columns : List EntityColumn
transaction_columns =
    tenant_base_entity
    ++ (col "idAccount" "id_account" (varchar 255)
        ∷ col "amount" "amount" (numeric 18 4)
        ∷ col "amountNormalized" "amount_normalized" (numeric 18 4)
        ∷ col "currency" "currency" (varchar 10)
        ∷ col "type" "type" (varchar 50)
        ∷ nullable (col "subType" "sub_type" (varchar 50))
        ∷ col "datetime" "datetime" timestamp
        ∷ col "date" "date" date
        ∷ defaults_to "false" (col "isVoided" "is_voided" boolean)
        ∷ defaults_to "false" (col "isBlocked" "is_blocked" boolean)
        ∷ defaults_to "false" (col "isDeleted" "is_deleted" boolean)
        ∷ nullable (col "origin" "origin" (varchar 100))
        ∷ nullable (col "deviceInfo" "device_info" jsonb)
        ∷ defaults_to "'{}'" (col "data" "data" jsonb)
        ∷ nullable (col "externalCode" "external_code" (varchar 255))
        ∷ nullable (col "country" "country" (varchar 10))
        ∷ nullable (col "counterpartyId" "counterparty_id" (varchar 255))
        ∷ nullable (col "counterpartyCountry" "counterparty_country" (varchar 10))
        ∷ [])

unfoldable pub alert_columns : List EntityColumn
alert_columns =
    tenant_base_entity
    ++ (col "idRule" "id_rule" uuid
        ∷ col "idTransaction" "id_transaction" uuid
        ∷ nullable (col "idAccount" "id_account" (varchar 255))
        ∷ defaults_to "'MEDIUM'"
            (col "severity" "severity" (enum ("LOW" ∷ "MEDIUM" ∷ "HIGH" ∷ "CRITICAL" ∷ [])))
        ∷ defaults_to "'UNKNOWN'"
            (col "category" "category" (enum ("AML" ∷ "FRAUD" ∷ "COMPLIANCE" ∷ "UNKNOWN" ∷ [])))
        ∷ defaults_to "'OPEN'" (
            col "status" "status"
              (enum ("OPEN" ∷ "ACKNOWLEDGED" ∷ "RESOLVED" ∷ "FALSE_POSITIVE" ∷ [])))
        ∷ defaults_to "1" (col "hitCount" "hit_count" int)
        ∷ col "firstTriggeredAt" "first_triggered_at" timestamp
        ∷ col "lastTriggeredAt" "last_triggered_at" timestamp
        ∷ col "dedupKey" "dedup_key" (varchar 512)
        ∷ defaults_to "'{}'" (col "metadata" "metadata" jsonb)
        ∷ [])
