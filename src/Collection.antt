-- ===== src/Collection.antt =====
-- Collection from the sources, worker/sentineldrive_worker/connectors.
pub mod Contracts
pub mod Registry
pub mod Runtime
pub mod Enabled
