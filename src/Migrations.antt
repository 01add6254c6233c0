-- ===== src/Migrations.antt =====
-- The migrations of the database (src/database/migrations).
pub mod Statements
pub mod CreateAlerts
pub mod CreateListEntries
pub mod CreateOrganizations
pub mod CreateRuleTemplates
pub mod CreateTemplateOverrides
pub mod CreateRules
pub mod CreateTransactions
pub mod Order
pub mod Conformance
pub mod Rollback
