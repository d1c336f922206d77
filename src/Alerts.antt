-- ===== src/Alerts.antt =====
-- Alerts on threat intelligence, backend/app/services/alerts.py and backend/app/api/routes/alerts.py.
pub mod Entry
pub mod Rules
pub mod Service
pub mod Levels
pub mod Again
pub mod Triggers
