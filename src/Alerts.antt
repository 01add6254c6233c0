-- ===== src/Alerts.antt =====
-- Alerts (src/alerts).
pub mod Number
pub mod Calendar
pub mod Window
pub mod Actions
pub mod Query
pub mod Service
