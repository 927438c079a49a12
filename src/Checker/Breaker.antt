-- ===== src/Checker/Breaker.antt =====
-- checker/circuit_breaker.py: the circuit breaker of one target, which all workers share.
mod Defs
pub mod Threshold
pub mod HalfOpen
pub use Defs.{CircuitState, closed, open_state, half_open, Circuit, Settings, fresh}
pub use Defs.{Decision, state_of, count_of, opened_of}
unfoldable pub use Defs.{before_probe, record_failure, record_success}
