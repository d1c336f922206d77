-- ===== src/Access.antt =====
-- Who may use the backend: backend/app/security/tokens.py, backend/app/api/deps.py and the routes of
-- authentication and users.
pub mod Tokens
pub mod Guards
pub mod Users
pub mod Accounts
