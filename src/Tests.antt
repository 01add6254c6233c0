-- ===== src/Tests.antt =====
-- Runs of the definitions on concrete inputs.
mod Fixtures
mod Windows
mod AlertTable
mod Alerts
mod Hits
mod Lists
mod Overrides
mod Rules
mod Engine
mod History
mod Posted
mod Requests
mod Race
mod Controllers
mod Routes
mod Cache
mod Stale
mod Validation
mod Startup
mod Config
mod Migrations
