-- ===== src/Dashboard.antt =====
-- The login of the dashboard: one-time codes, sessions, admission.
pub mod Rows
pub mod Codes
pub mod Sessions
mod Tests
