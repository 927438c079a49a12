-- ===== src/Storage/Lease/Methods.antt =====
-- What a method that did not raise has done.
use ip_proxy_pool.Base.{ℕ, ◌+◌, ◌≤◌, ◌≡◌, Bool, List, map, String, eq_iff, arith}
use ip_proxy_pool.Models.{Floats, ProxyRecord, seconds}
use ip_proxy_pool.Storage.Server.{Server, Pool, ok}
use ip_proxy_pool.Storage.Lease.{
  Lease, priority_share, lease_owner, new_lease, claim_priority_due, claim_due, complete_lease,
  complete, reclaim_each, reclaim_expired,
}

module _ (fl : Floats) (sv : Server fl) where
  open sv use {times}

  pub claim_due-eq-ok :
      (domain worker_id token : String) (limit lease_seconds now : ℕ) (p : Pool fl sv)
      (leases : List Lease) (q : Pool fl sv)
      → claim_due fl sv domain worker_id token limit lease_seconds now p ≡ ok (leases, q)
      → let owner = lease_owner worker_id token in
        let expires_at = now + seconds lease_seconds in
        let r = claim_priority_due fl sv now limit (priority_share limit) expires_at owner p in
        (1 ≤ limit)
        × (limit ≤ 1000)
        × (1 ≤ lease_seconds)
        × (leases ≡ map (new_lease domain owner expires_at) r.0)
        × (q ≡ r.1)
  unfolding claim_due
  claim_due-eq-ok domain worker_id token limit lease_seconds now p leases q e = ground arith

  pub reclaim_expired-eq-ok :
      (now limit : ℕ) (p : Pool fl sv) (members : List String) (q : Pool fl sv)
      → reclaim_expired fl sv now limit p ≡ ok (members, q)
      → (members ≡ times.zrange_upto now limit p.leased) × (q ≡ reclaim_each fl sv now members p)
  unfolding reclaim_expired
  reclaim_expired-eq-ok now limit p members q e = ground arith

  pub complete-eq-ok :
      (max_latency : fl.Float) (lease : Lease) (r : ProxyRecord fl) (p : Pool fl sv) (done : Bool)
      (q : Pool fl sv)
      → complete fl sv max_latency lease r p ≡ ok (done, q)
      → (r.domain ≡ lease.domain)
        × (r.endpoint ≡ lease.endpoint)
        × ((done, q) ≡ complete_lease fl sv max_latency lease r p)
  unfolding complete
  complete-eq-ok max_latency lease r p done q e =
      ground (arith, eq_iff r.domain lease.domain, eq_iff r.endpoint lease.endpoint)
