-- ===== src/Controllers.antt =====
-- The HTTP controllers (src/*/*.controller.ts), one module each. A handler takes the request, from
-- which the decorator OrganizationId reads, and the other parameters as the request carries them.
-- ParseUUIDPipe of Nest is a parameter.
pub mod Tenant
pub mod Rows
pub mod Writes
pub mod Routes
pub mod AlertsController
pub mod EngineController
pub mod HealthController
pub mod ListsController
pub mod OrganizationsController
pub mod RuleTemplatesController
pub mod RulesController
pub mod TemplateOverridesController
pub mod TransactionsController
use complif_techinical_chall.Common.Exec.{Result, Exec}

-- a pipe that has run on a parameter of a handler
abbrev pub piped {ℓ} : {S A : Type ℓ} → Result A → Exec S A
piped r s = (r, s)
