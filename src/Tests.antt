-- ===== src/Tests.antt =====
-- Runs on concrete inputs, and the theorems at inputs that meet their hypotheses.
mod Samples
mod Texts
mod Scored
mod Normalized
mod Alerted
mod Collected
mod Codec
mod Ingested
mod Served
