-- ===== src/Admin.antt =====
-- internal/admin: the dashboard.
pub mod Logs
pub mod Access
pub mod View
pub mod Dashboard
