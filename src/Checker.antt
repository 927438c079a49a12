-- ===== src/Checker.antt =====
-- The checker: scoring of probe results and the choice of the next check.
pub mod Scoring
pub mod Scheduling
pub mod Breaker
pub mod Worker
pub mod Probe
