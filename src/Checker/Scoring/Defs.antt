-- ===== src/Checker/Scoring/Defs.antt =====
-- `apply_probe_result`, branch by branch.
use ip_proxy_pool.Base.{
  ℕ, ◌+◌, ◌-◌, min, max, Bool, ◌||◌, Option, none, some, leb, ltb, ◌==◌, if◌then◌else◌,
}
use ip_proxy_pool.Models.{
  Floats, ProxyRecord, ProbeResult, ProxyState, ProbeCategory, is_available, candidate, available,
  degraded, quarantined, success, proxy_error, system_error, cancelled,
}

-- A success confirms a proxy that is already available, or that succeeds a second time running.
abbrev pub confirms : ProxyState → ℕ → Bool
confirms state successes = is_available state || leb 2 successes

abbrev pub success_score : Bool → ℕ → ℕ
success_score confirmed score = min 100 (max (if confirmed then 80 else 70) score + 5)

-- The penalty of the n-th failure in a row.
abbrev pub penalty : ℕ → ℕ
penalty failures = if leb 3 failures then 35 else if failures == 1 then 15 else 25

abbrev pub failure_score : ℕ → ℕ → ℕ
failure_score score failures = score - penalty failures

abbrev pub failure_state : ProxyState → ℕ → ℕ → ProxyState
failure_state state score failures =
    if leb 3 failures || score == 0 then quarantined else if ltb score 50 then degraded else state

module _ (fl : Floats) where
  open fl use {Float, add, mul, tenths}

  -- The exponential moving average of the latency, 0.7 old and 0.3 new.
  pub smoothed : Option Float → Option Float → Option Float
  smoothed old none = old
  smoothed none (some new) = some new
  smoothed (some old) (some new) = some (add (mul old (tenths 7)) (mul new (tenths 3)))

  pub apply_success : ProxyRecord fl → ProbeResult fl → ℕ → ProxyRecord fl
  apply_success r result now = record r {
    score = success_score confirmed r.score;
    state = if confirmed then available else candidate;
    last_checked_at = some now;
    consecutive_successes = r.consecutive_successes + 1;
    consecutive_failures = 0;
    success_count = r.success_count + 1;
    latency_ewma_ms = smoothed r.latency_ewma_ms result.latency_ms;
    last_status_code = result.status_code;
    last_error_type = none;
    last_error_message = none;
  }
    where
      confirmed : Bool
      confirmed = confirms r.state (r.consecutive_successes + 1)

  pub apply_failure : ProxyRecord fl → ProbeResult fl → ℕ → ProxyRecord fl
  apply_failure r result now = record r {
    score = failure_score r.score failures;
    state = failure_state r.state (failure_score r.score failures) failures;
    last_checked_at = some now;
    consecutive_successes = 0;
    consecutive_failures = failures;
    failure_count = r.failure_count + 1;
    last_status_code = result.status_code;
    last_error_type = result.error_type;
    last_error_message = result.error_message;
  }
    where
      failures : ℕ
      failures = r.consecutive_failures + 1

  apply_category : ProbeCategory → ProxyRecord fl → ProbeResult fl → ℕ → ProxyRecord fl
  apply_category system_error r result now = r
  apply_category cancelled r result now = r
  apply_category success r result now = apply_success r result now
  apply_category proxy_error r result now = apply_failure r result now

  unfoldable pub apply_probe_result : ProxyRecord fl → ProbeResult fl → ℕ → ProxyRecord fl
  unfolding apply_category apply_success apply_failure smoothed
  apply_probe_result r result now = apply_category result.category r result now
