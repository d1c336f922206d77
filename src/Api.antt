-- ===== src/Api.antt =====
-- The parts of the backend that its routes share: backend/app/api.
pub mod Safety
