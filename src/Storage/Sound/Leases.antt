-- ===== src/Storage/Sound/Leases.antt =====
-- The lease scripts keep the pool sound.

use ip_proxy_pool.Base.{ℕ, ◌+◌, ◌≡◌, inl, inr, Bool, List, String, eq_iff, Bool-cases, arith, ap}
use ip_proxy_pool.Models.{Floats, ProxyRecord, seconds}
use ip_proxy_pool.Storage.Server.{Server, Pool, ok}
use ip_proxy_pool.Storage.Index.{latency_index_score, priority_due_score}
use ip_proxy_pool.Storage.Lease.{
  Lease, holds, claim_due, complete_lease, complete, release, delete_leased, reclaim_expired,
}
use ip_proxy_pool.Storage.Lease.{priority_share, lease_owner}
use ip_proxy_pool.Storage.Lease.Methods.{claim_due-eq-ok, reclaim_expired-eq-ok, complete-eq-ok}
use ip_proxy_pool.Storage.Lease.Claimed.{
  Claims, claim_priority_due-Claims, Reclaims, reclaim_each-Reclaims,
}
use ip_proxy_pool.Storage.Sound.{IsSound}
use ip_proxy_pool.Storage.Sound.Saves.{zscore-index_latency, zscore-index_time}

module _ (fl : Floats) (sv : Server fl) (max_latency : fl.Float) (k : String) (p : Pool fl sv) where
  open sv use {hashes, owners, times, latencies, IsStorable, decode-encode, encode_record}

  Claims-IsSound :
      (owner : String) (expires_at : ℕ) (claimed : List String) (q : Pool fl sv)
      → Claims fl sv owner expires_at k p (claimed, q)
      → IsSound fl sv max_latency k p
      → IsSound fl sv max_latency k q
  Claims-IsSound owner expires_at claimed q c s = record {
    readable = rw c.records s.readable;
    paired = ground (arith, c.leased, c.owner_of, s.paired);
    kept = ground (arith, c.leased, c.due, c.records, s.kept);
    quality = rw (c.records, c.quality) s.quality;
    latency = rw (c.records, c.available_latency) s.latency;
    priority = rw (c.records, c.priority_due) s.priority;
  }

  Reclaims-IsSound :
      (now : ℕ) (ms : List String) (q : Pool fl sv)
      → Reclaims fl sv now k ms p q
      → IsSound fl sv max_latency k p
      → IsSound fl sv max_latency k q
  Reclaims-IsSound now ms q c s = record {
    readable = rw c.records s.readable;
    paired = ground (arith, c.leased, c.owner_of, s.paired);
    kept = ground (arith, c.leased, c.due, c.records, s.kept);
    quality = rw (c.records, c.quality) s.quality;
    latency = rw (c.records, c.available_latency) s.latency;
    priority = rw (c.records, c.priority_due) s.priority;
  }

  pub claim_due-IsSound :
      (domain worker_id token : String) (limit lease_seconds now : ℕ) (leases : List Lease)
      (q : Pool fl sv)
      → claim_due fl sv domain worker_id token limit lease_seconds now p ≡ ok (leases, q)
      → IsSound fl sv max_latency k p
      → IsSound fl sv max_latency k q
  claim_due-IsSound domain worker_id token limit lease_seconds now leases q e s =
      let (_, _, _, _, done) =
        claim_due-eq-ok fl sv domain worker_id token limit lease_seconds now p leases q e in
      rw done (
        Claims-IsSound _ _ _ _
          (claim_priority_due-Claims fl sv now limit (priority_share limit)
            (now + seconds lease_seconds) (lease_owner worker_id token) k p)
          s)

  pub reclaim_expired-IsSound :
      (now limit : ℕ) (members : List String) (q : Pool fl sv)
      → reclaim_expired fl sv now limit p ≡ ok (members, q)
      → IsSound fl sv max_latency k p
      → IsSound fl sv max_latency k q
  reclaim_expired-IsSound now limit members q e s =
      let (_, done) = reclaim_expired-eq-ok fl sv now limit p members q e in
      rw done (Reclaims-IsSound now members _ (reclaim_each-Reclaims fl sv now k members p) s)

  pub release-IsSound :
      (lease : Lease) (due_at : ℕ)
      → IsSound fl sv max_latency k p
      → IsSound fl sv max_latency k (release fl sv lease due_at p).1
  unfolding release
  release-IsSound lease due_at s = elim (Bool-cases (holds fl sv lease p)) [
    | inr lost ↦ rw lost s
    | inl held ↦
        let e = lease.endpoint in
        rw held (record {
          readable = s.readable;
          paired = ground (
            arith,
            times.zscore-zrem k e p.leased,
            owners.hget-hdel k e p.lease_owners,
            s.paired,
          );
          kept =
              ground
                (arith, times.zscore-zrem k e p.leased, times.zscore-zadd k e due_at p.due, s.kept);
          quality = s.quality;
          latency = s.latency;
          priority =
              ground (arith, times.zscore-zadd k e due_at p.priority_due, eq_iff e k, s.priority);
        })
  ]

  pub delete_leased-IsSound :
      (lease : Lease)
      → IsSound fl sv max_latency k p
      → IsSound fl sv max_latency k (delete_leased fl sv lease p).1
  unfolding delete_leased
  delete_leased-IsSound lease s = elim (Bool-cases (holds fl sv lease p)) [
    | inr lost ↦ rw lost s
    | inl held ↦
        let e = lease.endpoint in
        let rec = hashes.hget-hdel k e p.records in
        rw held (record {
          readable = ground (arith, rec, s.readable);
          paired = ground (
            arith,
            times.zscore-zrem k e p.leased,
            owners.hget-hdel k e p.lease_owners,
            s.paired,
          );
          kept =
              ground
                (arith, rec, times.zscore-zrem k e p.leased, times.zscore-zrem k e p.due, s.kept);
          quality = ground (arith, rec, times.zscore-zrem k e p.quality, s.quality);
          latency = ground (arith, rec, latencies.zscore-zrem k e p.available_latency, s.latency);
          priority = ground (arith, rec, times.zscore-zrem k e p.priority_due, s.priority);
        })
  ]

  complete_lease-IsSound :
      (lease : Lease) (r : ProxyRecord fl)
      → IsStorable r
      → IsSound fl sv max_latency k p
      → IsSound fl sv max_latency k (complete_lease fl sv max_latency lease r p).1
  unfolding complete_lease
  complete_lease-IsSound lease r h s = elim (Bool-cases (holds fl sv lease p)) [
    | inr lost ↦ rw lost s
    | inl held ↦
        let e = lease.endpoint in
        let rec = hashes.hget-hset k e (encode_record r) p.records in
        let back = decode-encode r h in
        rw held (record {
          readable = ground (arith, rec, back, s.readable);
          paired = ground (
            arith,
            times.zscore-zrem k e p.leased,
            owners.hget-hdel k e p.lease_owners,
            s.paired,
          );
          kept = ground (
            arith,
            rec,
            times.zscore-zrem k e p.leased,
            times.zscore-zadd k e r.next_check_at p.due,
            s.kept,
          );
          quality = ground (arith, rec, back, times.zscore-zadd k e r.score p.quality, s.quality);
          latency = ground (
            arith,
            rec,
            back,
            zscore-index_latency fl sv k e (latency_index_score fl r) p.available_latency,
            s.latency,
          );
          priority = ground (
            arith,
            rec,
            back,
            zscore-index_time fl sv k e (priority_due_score fl max_latency r) p.priority_due,
            s.priority,
          );
        })
  ]

  pub complete-IsSound :
      (lease : Lease) (r : ProxyRecord fl) (done : Bool) (q : Pool fl sv)
      → IsStorable r
      → complete fl sv max_latency lease r p ≡ ok (done, q)
      → IsSound fl sv max_latency k p
      → IsSound fl sv max_latency k q
  complete-IsSound lease r done q h e s =
      let (_, _, run) = complete-eq-ok fl sv max_latency lease r p done q e in
      rw (ap (λ (t : Bool × Pool fl sv). t.1) run) (complete_lease-IsSound lease r h s)
