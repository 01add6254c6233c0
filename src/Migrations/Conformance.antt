-- ===== src/Migrations/Conformance.antt =====
-- The tables that the migrations create, against the columns that the entities declare
-- (src/*/entities). The program runs with `synchronize: false`, so nothing else makes them agree.
use complif_techinical_chall.Base.{
  ◌≡◌, refl, String, ◌==◌, Bool, true, false, not, ◌&&◌, any, all, all-Memᴰ, any-Memᴰ, codes,
  codes_eq, Option, none, some, List, [], ◌∷◌, ◌++◌, if◌then◌else◌,
}
use mathlib.Core.List.{Memᴰ}
use complif_techinical_chall.Alerts.Window.{decimal}
use complif_techinical_chall.Validation.Columns.{
  ColumnType, uuid, text, int, boolean, jsonb, date, timestamp, varchar, numeric, enum,
  EntityColumn, organization_columns, rule_template_columns, template_override_columns,
  rule_columns, list_entry_columns, transaction_columns, alert_columns,
}
use complif_techinical_chall.Migrations.Statements.{
  Statement, Column, column, create_type, create_table,
}
use complif_techinical_chall.Migrations.Order.{migrations, statements}
use complif_techinical_chall.Migrations.CreateAlerts.{create_alerts}
use complif_techinical_chall.Migrations.CreateListEntries.{create_list_entries}
use complif_techinical_chall.Migrations.CreateOrganizations.{create_organizations}
use complif_techinical_chall.Migrations.CreateRuleTemplates.{create_rule_templates}
use complif_techinical_chall.Migrations.CreateTemplateOverrides.{create_template_overrides}
use complif_techinical_chall.Migrations.CreateRules.{create_rules}
use complif_techinical_chall.Migrations.CreateTransactions.{create_transactions}

pub data Table : Type 0 where
  organizations rule_templates template_overrides rules list_entries transactions alerts : Table

-- the name in @Entity
abbrev pub name_of : Table → String
name_of organizations = "organizations"
name_of rule_templates = "rule_templates"
name_of template_overrides = "template_overrides"
name_of rules = "rules"
name_of list_entries = "list_entries"
name_of transactions = "transactions"
name_of alerts = "alerts"

unfoldable pub entity_of : Table → List EntityColumn
unfolding organization_columns rule_template_columns template_override_columns rule_columns
    list_entry_columns transaction_columns alert_columns
entity_of organizations = organization_columns
entity_of rule_templates = rule_template_columns
entity_of template_overrides = template_override_columns
entity_of rules = rule_columns
entity_of list_entries = list_entry_columns
entity_of transactions = transaction_columns
entity_of alerts = alert_columns

-- the columns of a table that is created
abbrev created : String → List Statement → List Column
created table [] = []
created table (create_table name columns constraints ∷ rest) =
    let others = created table rest in if name == table then columns ++ others else others
created table (_ ∷ rest) = created table rest

-- the table as the migrations create it
unfoldable pub migrated : Table → List Column
unfolding create_organizations create_rule_templates create_template_overrides create_rules
    create_transactions create_list_entries create_alerts
migrated table = created (name_of table) (statements migrations)

abbrev same_texts : List String → List String → Bool
same_texts [] [] = true
same_texts (a ∷ as') (b ∷ bs) = a == b && same_texts as' bs
same_texts _ _ = false

-- an enumeration is a type that a migration creates with the same values
abbrev is_enumeration : String → List String → Statement → Bool
is_enumeration type values (create_type name others) = name == type && same_texts others values
is_enumeration type values _ = false

-- whether a type of Postgres, by its text, is a type of TypeORM
unfoldable pub is_type : ColumnType → String → Bool
unfolding create_organizations create_rule_templates create_template_overrides create_rules
    create_transactions create_list_entries create_alerts decimal codes_eq
is_type uuid type = type == "uuid"
is_type text type = type == "text"
is_type int type = type == "integer"
is_type boolean type = type == "boolean"
is_type jsonb type = type == "jsonb"
is_type date type = type == "date"
is_type timestamp type = type == "TIMESTAMP"
is_type (varchar n) type =
    codes_eq (codes type) (codes "character varying(" ++ (decimal n ++ codes ")"))
is_type (numeric p s) type =
    codes_eq (codes type)
      (codes "numeric(" ++ (decimal p ++ (codes ", " ++ (decimal s ++ codes ")"))))
is_type (enum values) type = any (is_enumeration type values) (statements migrations)

abbrev same_default : Option String → Option String → Bool
same_default none none = true
same_default (some a) (some b) = a == b
same_default _ _ = false

abbrev same_bool : Bool → Bool → Bool
same_bool true b = b
same_bool false b = not b

-- one column, by its name, its type, whether it may be null, and its default
abbrev pub agrees : EntityColumn → Column → Bool
agrees c (column name type nullable default) =
    c.name == name
    && (is_type c.type type && (same_bool c.nullable nullable && same_default c.default default))

all-migrated : (t : Table) → all (λ c. any (agrees c) (migrated t)) (entity_of t) ≡ true
unfolding entity_of migrated is_type
all-migrated organizations = refl
all-migrated rule_templates = refl
all-migrated template_overrides = refl
all-migrated rules = refl
all-migrated list_entries = refl
all-migrated transactions = refl
all-migrated alerts = refl

all-declared : (t : Table) → all (λ m. any (λ c. agrees c m) (entity_of t)) (migrated t) ≡ true
unfolding entity_of migrated is_type
all-declared organizations = refl
all-declared rule_templates = refl
all-declared template_overrides = refl
all-declared rules = refl
all-declared list_entries = refl
all-declared transactions = refl
all-declared alerts = refl

-- Each column that an entity declares is created by the migrations in the table of its name, with
-- the same type, the same default, and as nullable as it is; and each column that they create there
-- is one that the entity declares.
pub entity_of-migrated :
    (t : Table) (c : EntityColumn) (m : Column)
    → Memᴰ c (entity_of t)
    → Memᴰ m (migrated t)
    → ((m' : Column) × Memᴰ m' (migrated t) × (agrees c m' ≡ true))
      × ((c' : EntityColumn) × Memᴰ c' (entity_of t) × (agrees c' m ≡ true))
entity_of-migrated t c m inside there = (
  any-Memᴰ (agrees c) (migrated t)
      (all-Memᴰ (λ d. any (agrees d) (migrated t)) (entity_of t) c (all-migrated t) inside),
  any-Memᴰ (λ d. agrees d m) (entity_of t)
      (all-Memᴰ (λ n. any (λ d. agrees d n) (entity_of t)) (migrated t) m (all-declared t) there),
)
