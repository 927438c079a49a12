-- ===== src/Tests/Monitor.antt =====
-- The monitor of a peer cache at concrete ticks.
use ip_proxy_pool.Base.{ℕ, true, false, none, some, List, [], ◌∷◌}
use ip_proxy_pool.Models.{seconds}
use ip_proxy_pool.Peer.Monitor.{
  sync_failure, failure, recovery, transition, condition, recovery_allowed, send_pending,
  tick_locked,
}
use ip_proxy_pool.Peer.Monitor.Fair.{Tick, IsFair, deliveries, alerts-IsFair}

-- A tick at a number of seconds, with so many failed syncs in a row.
abbrev tick : ℕ → (failures last_success : ℕ) → Tick
tick at failures last_success = record {
  epoch = seconds at;
  health = record {
    consecutive_failures = failures;
    last_success_at = seconds last_success;
    heartbeat_at = seconds at;
    api_store_failures = 0;
    evictions = 0;
    count = some 9;
  };
  new_id = λ e. "id";
  sent = λ e. true;
}

-- A failure, its recovery, and a second failure that is held back until 30 minutes are over.
abbrev ticks : List Tick
ticks = tick 5000 3 4000 ∷ tick 5100 0 5090 ∷ tick 5200 3 5090 ∷ tick 6800 4 5090 ∷ []

alerts-IsFair_example :
    IsFair false 0
      ((failure, seconds 5000) ∷ (recovery, seconds 5100) ∷ (failure, seconds 6800) ∷ [])
unfolding deliveries tick_locked transition condition recovery_allowed send_pending
alerts-IsFair_example = alerts-IsFair sync_failure none 0 ticks
