-- ===== src/Checker/Worker/Settled.antt =====
-- Every lease that a worker takes up is settled.
use ip_proxy_pool.Base.{
  ℕ, ◌+◌, ◌≡◌, refl, ◌∙◌, inl, inr, true, false, Option, none, some, leb, arith, eq_iff, eq_refl,
  Bool-cases,
}
use ip_proxy_pool.Models.{Floats, ProxyRecord, ProbeResult}
use ip_proxy_pool.Storage.Server.{Server, Pool, Result, ok}
use ip_proxy_pool.Storage.Lease.{Lease, complete, complete_lease, release, delete_leased, holds}
use ip_proxy_pool.Checker.Scoring.{apply_probe_result}
use ip_proxy_pool.Checker.Worker.{
  WorkerRun, WorkerSettings, lose, is_no_verdict, give_back, drop, count_completed, updated, settle,
  process_lease,
}

module _ (fl : Floats) (sv : Server fl) (max_latency : fl.Float) (settings : WorkerSettings) where
  open sv use {owners, times}

  -- The lease is over, and has been counted once, and not as lost.
  pub record IsSettled (lease : Lease) (run run' : WorkerRun) (q : Pool fl sv) : Type 0 where
    pub no_owner : owners.hget lease.endpoint q.lease_owners ≡ none
    pub not_leased : times.zscore lease.endpoint q.leased ≡ none
    pub once :
        run'.completed + run'.released + run'.deleted
        ≡ run.completed + run.released + run.deleted + 1
    pub not_lost : run'.lost_leases ≡ run.lost_leases

  give_back-IsSettled :
      (lease : Lease) (now : ℕ) (run : WorkerRun) (p : Pool fl sv)
      → holds fl sv lease p ≡ true
      → let (run', q) = give_back fl sv max_latency settings lease now run p in
        IsSettled lease run run' q
  unfolding give_back release
  give_back-IsSettled lease now run p held = record {
    no_owner = ground (
      arith,
      held,
      owners.hget-hdel lease.endpoint lease.endpoint p.lease_owners,
      eq_refl lease.endpoint,
    );
    not_leased = ground (
      arith,
      held,
      times.zscore-zrem lease.endpoint lease.endpoint p.leased,
      eq_refl lease.endpoint,
    );
    once = ground (arith, held);
    not_lost = ground (arith, held);
  }

  drop-IsSettled :
      (lease : Lease) (run : WorkerRun) (p : Pool fl sv)
      → holds fl sv lease p ≡ true
      → let (run', q) = drop fl sv max_latency settings lease run p in IsSettled lease run run' q
  unfolding drop delete_leased
  drop-IsSettled lease run p held = record {
    no_owner = ground (
      arith,
      held,
      owners.hget-hdel lease.endpoint lease.endpoint p.lease_owners,
      eq_refl lease.endpoint,
    );
    not_leased = ground (
      arith,
      held,
      times.zscore-zrem lease.endpoint lease.endpoint p.leased,
      eq_refl lease.endpoint,
    );
    once = ground (arith, held);
    not_lost = ground (arith, held);
  }

  updated-endpoint :
      (r : ProxyRecord fl) (result : ProbeResult fl) (now : ℕ)
      → ((updated fl sv max_latency settings r result now).endpoint ≡ r.endpoint)
        × ((updated fl sv max_latency settings r result now).domain ≡ r.domain)
  unfolding updated apply_probe_result
  updated-endpoint r result now = (ground arith, ground arith)

  -- A lease that the worker holds, with the proxy of the record that it found.
  abbrev pub IsOf : Lease → Option (ProxyRecord fl) → Type 0
  IsOf lease none = Unit
  IsOf lease (some r) = (r.domain ≡ lease.domain) × (r.endpoint ≡ lease.endpoint)

  complete-ok :
      (lease : Lease) (r : ProxyRecord fl) (p : Pool fl sv)
      → r.domain ≡ lease.domain
      → r.endpoint ≡ lease.endpoint
      → complete fl sv max_latency lease r p ≡ ok (complete_lease fl sv max_latency lease r p)
  unfolding complete
  complete-ok lease r p d e =
      ground (arith, d, e, eq_iff r.domain lease.domain, eq_iff r.endpoint lease.endpoint)

  complete-IsSettled :
      (lease : Lease) (r : ProxyRecord fl) (run : WorkerRun) (p : Pool fl sv)
      → holds fl sv lease p ≡ true
      → let (done, q) = complete_lease fl sv max_latency lease r p in
        IsSettled lease run (count_completed done run) q
  unfolding complete_lease
  complete-IsSettled lease r run p held = record {
    no_owner = ground (
      arith,
      held,
      owners.hget-hdel lease.endpoint lease.endpoint p.lease_owners,
      eq_refl lease.endpoint,
    );
    not_leased = ground (
      arith,
      held,
      times.zscore-zrem lease.endpoint lease.endpoint p.leased,
      eq_refl lease.endpoint,
    );
    once = ground (arith, held);
    not_lost = ground (arith, held);
  }

  abbrev Settles : Lease → WorkerRun → Result (WorkerRun × Pool fl sv) → Type 0
  Settles lease run outcome =
      (run' : WorkerRun) × (q : Pool fl sv) × (outcome ≡ ok (run', q)) × IsSettled lease run run' q

  settle-Settles :
      (lease : Lease) (r : ProxyRecord fl) (result : ProbeResult fl) (now : ℕ) (run : WorkerRun)
      (p : Pool fl sv)
      → IsOf lease (some r)
      → holds fl sv lease p ≡ true
      → Settles lease run (settle fl sv max_latency settings lease r result now run p)
  unfolding settle
  settle-Settles lease r result now run p (d, e) held =
      let u = updated fl sv max_latency settings r result now in
      let (same_endpoint, same_domain) = updated-endpoint r result now in
      elim (Bool-cases (
        leb settings.drop_after_failures
          (apply_probe_result fl r result now).consecutive_failures)) [
            | inl many ↦ (_, _, rw many refl, drop-IsSettled lease run p held)
            | inr few ↦ (
              _,
              _,
              rw (few, complete-ok lease u p (same_domain ∙ d) (same_endpoint ∙ e)) refl,
              complete-IsSettled lease u run p held,
            )
          ]

  -- A worker that still holds the lease when the probe is over, and that found no record or the
  -- lease's, never fails, and settles the lease whatever the probe found: the endpoint has neither owner nor lease, and the run counts the
  -- lease exactly once, as completed, released or deleted and not as lost.
  pub held_lease-IsSettled :
      (lease : Lease) (found : Option (ProxyRecord fl)) (result : ProbeResult fl) (now : ℕ)
      (run : WorkerRun) (p : Pool fl sv)
      → IsOf lease found
      → holds fl sv lease p ≡ true
      → (run' : WorkerRun) × (q : Pool fl sv) × (process_lease fl sv max_latency settings lease
            found result now run p
          ≡ ok (run', q))
        × IsSettled lease run run' q
  unfolding process_lease
  held_lease-IsSettled lease none result now run p of_ held =
      (_, _, refl, give_back-IsSettled lease now run p held)
  held_lease-IsSettled lease (some r) result now run p of_ held =
      elim (Bool-cases (settings.is_allowed r.endpoint)) [
        | inr barred ↦ (_, _, rw barred refl, drop-IsSettled lease run p held)
        | inl allowed ↦ elim (Bool-cases (is_no_verdict result.category)) [
          | inl nothing ↦
              (_, _, rw (allowed, nothing) refl, give_back-IsSettled lease now run p held)
          | inr verdict ↦
              let (run', q, e, s) = settle-Settles lease r result now run p of_ held in
              (run', q, rw (allowed, verdict) e, s)
        ]
      ]

  -- A worker that no longer holds the lease changes nothing, and counts it as lost, if the record
  -- that it found is the lease's or is missing.
  pub lost_lease_is_counted :
      (lease : Lease) (found : Option (ProxyRecord fl)) (result : ProbeResult fl) (now : ℕ)
      (run : WorkerRun) (p : Pool fl sv)
      → IsOf lease found
      → holds fl sv lease p ≡ false
      → process_lease fl sv max_latency settings lease found result now run p ≡ ok (lose run, p)
  unfolding process_lease give_back drop settle release delete_leased complete_lease
  lost_lease_is_counted lease none result now run p of_ held = ground (arith, held)
  lost_lease_is_counted lease (some r) result now run p of_ held =
      let u = updated fl sv max_latency settings r result now in
      let same = updated-endpoint r result now in
      let done = complete-ok lease u p (same.1 ∙ of_.0) (same.0 ∙ of_.1) in
      ground (arith, held, done)
