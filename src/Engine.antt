-- ===== src/Engine.antt =====
-- The rule engine (src/engine).
pub mod Operators
pub mod RuleCache
pub mod Facts
pub mod Context
pub mod Service
