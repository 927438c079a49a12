-- ===== src/Checker/Worker.antt =====
-- `_process_lease` of checker/worker.py: what a worker does with a proxy that it holds.
pub mod Settled
pub mod Sound
pub mod Round
pub mod Counts
use ip_proxy_pool.Base.{
  ℕ, ◌+◌, Bool, true, false, Option, none, some, String, leb, not, if◌then◌else◌,
}
use ip_proxy_pool.Models.{
  Floats, ProxyRecord, ProbeResult, ProbeCategory, success, proxy_error, system_error, cancelled,
  seconds,
}
use ip_proxy_pool.Storage.Server.{Server, Pool, Result, ok, ◌>>=◌}
use ip_proxy_pool.Storage.Lease.{Lease, complete, release, delete_leased}
use ip_proxy_pool.Checker.Scoring.{apply_probe_result}
use ip_proxy_pool.Checker.Scheduling.{next_check_at}

pub record WorkerRun : Type 0 where
  pub claimed : ℕ
  pub completed : ℕ
  pub released : ℕ
  pub lost_leases : ℕ
  pub deleted : ℕ

abbrev pub lose : WorkerRun → WorkerRun
lose run = record run { lost_leases = run.lost_leases + 1 }

abbrev pub count_released : Bool → WorkerRun → WorkerRun
count_released done run = if done then record run { released = run.released + 1 } else lose run

abbrev pub count_deleted : Bool → WorkerRun → WorkerRun
count_deleted done run = if done then record run { deleted = run.deleted + 1 } else lose run

abbrev pub count_completed : Bool → WorkerRun → WorkerRun
count_completed done run = if done then record run { completed = run.completed + 1 } else lose run

-- The worker's part of the settings, the endpoints that `validate_proxy_endpoint` lets pass, and
-- the random choices of a check: the jitter of the next check, and 5 to 15 seconds.
pub record WorkerSettings : Type 0 where
  pub drop_after_failures : ℕ
  pub is_allowed : String → Bool
  pub jitter : ℕ → ℕ → ℕ
  pub release_delay : ℕ

-- `result.category in {SYSTEM_ERROR, CANCELLED}`: the probe says nothing about the proxy.
abbrev pub is_no_verdict : ProbeCategory → Bool
is_no_verdict success = false
is_no_verdict proxy_error = false
is_no_verdict system_error = true
is_no_verdict cancelled = true

module _ (fl : Floats) (sv : Server fl) (max_latency : fl.Float) (settings : WorkerSettings) where
  -- `_release`.
  unfoldable pub give_back : Lease → (now : ℕ) → WorkerRun → Pool fl sv → WorkerRun × Pool fl sv
  give_back lease now run p =
      let (done, q) = release fl sv lease (now + seconds settings.release_delay) p in
      (count_released done run, q)

  unfoldable pub drop : Lease → WorkerRun → Pool fl sv → WorkerRun × Pool fl sv
  drop lease run p = let (done, q) = delete_leased fl sv lease p in (count_deleted done run, q)

  -- The record after a probe, with the time of its next check.
  unfoldable pub updated : ProxyRecord fl → ProbeResult fl → (now : ℕ) → ProxyRecord fl
  updated r result now =
      let scored = apply_probe_result fl r result now in
      record scored { next_check_at = next_check_at fl settings.jitter scored now }

  -- The end, for a result that is about the proxy.
  unfoldable pub settle :
      Lease
      → ProxyRecord fl
      → ProbeResult fl
      → (now : ℕ) → WorkerRun
      → Pool fl sv
      → Result (WorkerRun × Pool fl sv)
  settle lease r result now run p =
      if leb settings.drop_after_failures (apply_probe_result fl r result now).consecutive_failures
      then ok (drop lease run p)
      else complete fl sv max_latency lease (updated r result now) p >>= λ (done, q).
          ok (count_completed done run, q)

  -- `_process_lease`, from the record that `get_record` found and the result of its probe. The
  -- pool is that at the end: other workers go on during the probe.
  unfoldable pub process_lease :
      Lease
      → Option (ProxyRecord fl)
      → ProbeResult fl
      → (now : ℕ) → WorkerRun
      → Pool fl sv
      → Result (WorkerRun × Pool fl sv)
  process_lease lease none result now run p = ok (give_back lease now run p)
  process_lease lease (some r) result now run p =
      if not (settings.is_allowed r.endpoint)
      then ok (drop lease run p)
      else if is_no_verdict result.category
      then ok (give_back lease now run p)
      else settle lease r result now run p
