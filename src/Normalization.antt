-- ===== src/Normalization.antt =====
-- Normalisation, worker/sentineldrive_worker/normalization.
pub mod Dedup
pub mod Unique
pub mod Record
pub mod Merge
pub mod Columns
pub mod Merged
pub mod Registry
pub mod Hints
pub mod Keys
pub mod Numbers
pub mod Cleaning
pub mod Sources
pub mod Service
