-- ===== src/Checker/Worker/Sound.antt =====
-- What a worker writes is one step of the pool.
use ip_proxy_pool.Base.{
  ℕ, ◌+◌, ◌≡◌, refl, subst, inl, inr, Option, none, some, String, leb, Bool-cases,
}
use ip_proxy_pool.Models.{Floats, ProxyRecord, ProbeResult, seconds}
use ip_proxy_pool.Storage.Server.{Server, Pool, Result, Result-cases, ok, value_error}
use ip_proxy_pool.Storage.Lease.{Lease, complete}
use ip_proxy_pool.Storage.Steps.{Step, completes, releases, deletes}
use ip_proxy_pool.Storage.Sound.{IsSound}
use ip_proxy_pool.Storage.Reachable.{Keeps, Step-IsSound}
use ip_proxy_pool.Checker.Scoring.{apply_probe_result}
use ip_proxy_pool.Checker.Worker.{
  WorkerRun, WorkerSettings, is_no_verdict, give_back, drop, updated, settle, process_lease,
}

module _ (fl : Floats) (sv : Server fl) (max_latency : fl.Float) (settings : WorkerSettings) where
  open sv use {IsStorable}

  -- A result is a step, if there is one, and one that rests on no earlier read of the record.
  abbrev IsStep : Pool fl sv → Result (WorkerRun × Pool fl sv) → Type 0
  IsStep p value_error = Unit
  IsStep p (ok (run, q)) =
      (st : Step fl sv max_latency p q) × ((k : String) → Keeps fl sv max_latency k p q st)

  give_back-IsStep :
      (lease : Lease) (now : ℕ) (run : WorkerRun) (p : Pool fl sv)
      → IsStep p (ok (give_back fl sv max_latency settings lease now run p))
  unfolding give_back
  give_back-IsStep lease now run p =
      (releases lease (now + seconds settings.release_delay), λ k. tt)

  drop-IsStep :
      (lease : Lease) (run : WorkerRun) (p : Pool fl sv)
      → IsStep p (ok (drop fl sv max_latency settings lease run p))
  unfolding drop
  drop-IsStep lease run p = (deletes lease, λ k. tt)

  settle-IsStep :
      (lease : Lease) (r : ProxyRecord fl) (result : ProbeResult fl) (now : ℕ) (run : WorkerRun)
      (p : Pool fl sv)
      → IsStorable (updated fl sv max_latency settings r result now)
      → IsStep p (settle fl sv max_latency settings lease r result now run p)
  unfolding settle
  settle-IsStep lease r result now run p storable =
      let u = updated fl sv max_latency settings r result now in
      elim (Bool-cases (
        leb settings.drop_after_failures
          (apply_probe_result fl r result now).consecutive_failures)) [
            | inl many ↦ rw many (drop-IsStep lease run p)
            | inr few ↦ elim (Result-cases (complete fl sv max_latency lease u p)) [
              | inl bad ↦ rw (few, bad) tt
              | inr ((done, q), good) ↦
                  rw (few, good) (completes lease u done storable good, λ k. tt)
            ]
          ]

  process_lease-IsStep :
      (lease : Lease) (found : Option (ProxyRecord fl)) (result : ProbeResult fl) (now : ℕ)
      (run : WorkerRun) (p : Pool fl sv)
      → ((r : ProxyRecord fl)
          → found ≡ some r
          → IsStorable (updated fl sv max_latency settings r result now))
      → IsStep p (process_lease fl sv max_latency settings lease found result now run p)
  unfolding process_lease
  process_lease-IsStep lease none result now run p storable = give_back-IsStep lease now run p
  process_lease-IsStep lease (some r) result now run p storable =
      elim (Bool-cases (settings.is_allowed r.endpoint)) [
        | inr barred ↦ rw barred (drop-IsStep lease run p)
        | inl allowed ↦ elim (Bool-cases (is_no_verdict result.category)) [
          | inl nothing ↦ rw (allowed, nothing) (give_back-IsStep lease now run p)
          | inr verdict ↦
              rw (allowed, verdict) (settle-IsStep lease r result now run p (storable r refl))
        ]
      ]

  -- Whatever a worker makes of a lease, held or lost, and whatever the probe found, the pool stays
  -- sound at every endpoint, if the record it may write can be stored.
  pub process_lease-IsSound :
      (lease : Lease) (found : Option (ProxyRecord fl)) (result : ProbeResult fl) (now : ℕ)
      (run run' : WorkerRun) (p q : Pool fl sv) (k : String)
      → ((r : ProxyRecord fl)
          → found ≡ some r
          → IsStorable (updated fl sv max_latency settings r result now))
      → process_lease fl sv max_latency settings lease found result now run p ≡ ok (run', q)
      → IsSound fl sv max_latency k p
      → IsSound fl sv max_latency k q
  process_lease-IsSound lease found result now run run' p q k storable e s =
      let (st, keeps) =
        subst (IsStep p) e (process_lease-IsStep lease found result now run p storable) in
      Step-IsSound fl sv max_latency k st (keeps k) s
