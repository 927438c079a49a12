-- ===== src/Checker/Scoring.antt =====
-- checker/scoring.py: what a probe result does to a proxy's record.
mod Defs
pub mod Health
pub mod Available
pub use Defs.{confirms, success_score, smoothed, penalty, failure_score, failure_state}
pub use Defs.{apply_success, apply_failure}
unfoldable pub use Defs.{apply_probe_result}
