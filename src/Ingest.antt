-- ===== src/Ingest.antt =====
-- The ingest of external intelligence: backend/app/services/intelligence_ingest.py with the request
-- of backend/app/api/schemas/intelligence.py.
pub mod Request
pub mod Payload
pub mod Derived
pub mod Store
pub mod Service
pub mod Findable
pub mod Again
pub mod Invariant
pub mod Redacted
pub mod Merged
pub mod Agreement
pub mod Urls
