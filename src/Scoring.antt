-- ===== src/Scoring.antt =====
-- Scoring, worker/sentineldrive_worker/scoring.
pub mod Signals
pub mod Factors
pub mod Rules
pub mod Bounds
pub mod Levels
pub mod Rescore
pub mod Explanation
pub mod Service
pub mod Runs
