-- ===== src/Entities.antt =====
-- The rows of the tables (src/*/entities/*.entity.ts), with the columns of
-- src/common/entities/base.entity.ts and tenant-base.entity.ts written out in each, and the alert
-- message. A column that TypeORM fills on `save` is "" or 0 before; the joined entities that
-- `relations` loads are never read by the services and are left out. Times are milliseconds since
-- the epoch, and amounts are counted in units of 1/10000, as the columns store them.
use complif_techinical_chall.Base.{ℕ, String, Bool, Option, List}
use complif_techinical_chall.Base.Int.{ℤ}
use complif_techinical_chall.Common.Value.{Fields}

pub record Organization : Type 0 where
  pub id : String
  pub created_at : ℕ
  pub updated_at : ℕ
  pub name : String
  pub settings : Fields

pub record RuleTemplate : Type 0 where
  pub id : String
  pub created_at : ℕ
  pub updated_at : ℕ
  pub name : String
  pub description : Option String
  pub config : Fields
  pub is_default : Bool

pub record TemplateOverride : Type 0 where
  pub id : String
  pub created_at : ℕ
  pub updated_at : ℕ
  pub id_organization : String
  pub id_template : String
  pub overrides : Fields
  pub enabled : Bool

pub record Rule : Type 0 where
  pub id : String
  pub created_at : ℕ
  pub updated_at : ℕ
  pub id_organization : String
  pub id_template : Option String
  pub name : String
  pub description : Option String
  pub enabled : Bool
  pub priority : ℕ
  pub config : Fields
  pub created_by : Option String

pub data ListType : Type 0 where
  blacklist whitelist : ListType

pub data EntityType : Type 0 where
  account ip country device email phone : EntityType

pub record ListEntry : Type 0 where
  pub id : String
  pub created_at : ℕ
  pub updated_at : ℕ
  pub id_organization : String
  pub list_type : ListType
  pub entity_type : EntityType
  pub entity_value : String
  pub reason : Option String
  pub expires_at : Option ℕ
  pub created_by : Option String

pub record Transaction : Type 0 where
  pub id : String
  pub created_at : ℕ
  pub updated_at : ℕ
  pub id_organization : String
  pub id_account : String
  pub amount : ℤ
  pub amount_normalized : ℤ
  pub currency : String
  pub type : String
  pub sub_type : Option String
  pub datetime : ℕ
  pub date : String
  pub is_voided : Bool
  pub is_blocked : Bool
  pub is_deleted : Bool
  pub origin : Option String
  pub device_info : Option Fields
  pub payload : Fields
  pub external_code : Option String
  pub country : Option String
  pub counterparty_id : Option String
  pub counterparty_country : Option String

pub data AlertSeverity : Type 0 where
  low medium high critical : AlertSeverity

pub data AlertCategory : Type 0 where
  aml fraud compliance unknown : AlertCategory

pub data AlertStatus : Type 0 where
  open_status acknowledged resolved false_positive : AlertStatus

pub record AlertMetadata : Type 0 where
  pub rule_name : String
  pub event_type : String
  pub event_params : Fields

pub record Alert : Type 0 where
  pub id : String
  pub created_at : ℕ
  pub updated_at : ℕ
  pub id_organization : String
  pub id_rule : String
  pub id_transaction : String
  pub id_account : Option String
  pub severity : AlertSeverity
  pub category : AlertCategory
  pub status : AlertStatus
  pub hit_count : ℕ
  pub first_triggered_at : ℕ
  pub last_triggered_at : ℕ
  pub dedup_key : List ℕ
  pub metadata : AlertMetadata

-- src/alerts/dto/alert-event.message.ts; `transactionDatetime` is the time that the text denotes
pub record AlertEventMessage : Type 0 where
  pub organization_id : String
  pub transaction_id : String
  pub account_id : Option String
  pub rule_id : String
  pub rule_name : String
  pub severity : String
  pub category : String
  pub event_type : String
  pub event_params : Fields
  pub transaction_datetime : ℕ
  pub rule_config : Option Fields
