-- ===== src/Storage/Stale.antt =====
-- A lease that was lost, by its expiry or otherwise, is inert.
use ip_proxy_pool.Base.{
  ℕ, ◌+◌, ◌≤◌, ◌<◌, ◌≡◌, ◌≢◌, Bool, true, false, Option, none, some, List, String, eq_iff, elem,
  length, arith, ap, le→leb,
}
use ip_proxy_pool.Models.{Floats, ProxyRecord, seconds}
use ip_proxy_pool.Storage.Server.{Server, Pool, ok}
use ip_proxy_pool.Storage.Save.{save_record, write_candidate}
use ip_proxy_pool.Storage.Lease.{
  Lease, holds, lease_owner, priority_share, claim_due, complete_lease, complete, release,
  delete_leased, reclaim_expired,
}
use ip_proxy_pool.Storage.Evict.{remove_chunk}
use ip_proxy_pool.Storage.Lease.Claimed.{claim_priority_due-Claims, reclaim_each-Reclaims}
use ip_proxy_pool.Storage.Lease.Methods.{claim_due-eq-ok, reclaim_expired-eq-ok, complete-eq-ok}
use ip_proxy_pool.Storage.Steps.{
  Step, saves, upserts, claims, completes, releases, deletes, reclaims, evicts, forgets, ReachBy,
  start, then_step,
}

module _ (fl : Floats) (sv : Server fl) (lease : Lease) where
  open sv use {owners, times}

  -- The server no longer names the lease's owner.
  abbrev pub IsLost : Pool fl sv → Type 0
  IsLost p = holds fl sv lease p ≡ false

  write_candidate-IsLost :
      (max_latency : fl.Float) (existing : Option (ProxyRecord fl)) (r : ProxyRecord fl)
      (p : Pool fl sv)
      → IsLost p
      → IsLost (write_candidate fl sv max_latency existing r p)
  unfolding write_candidate
  write_candidate-IsLost max_latency none r p s = s
  write_candidate-IsLost max_latency (some m) r p s = s

  save_record-IsLost :
      (max_latency : fl.Float) (r : ProxyRecord fl) (p : Pool fl sv)
      → IsLost p
      → IsLost (save_record fl sv max_latency r p)
  unfolding save_record
  save_record-IsLost max_latency r p s = s

  remove_chunk-IsLost :
      (text_before : String → String → Bool) (chunk : List String) (p : Pool fl sv)
      → IsLost p
      → IsLost (remove_chunk fl sv text_before chunk p)
  unfolding remove_chunk
  remove_chunk-IsLost text_before chunk p s = s

  release-IsLost :
      (other : Lease) (due_at : ℕ) (p : Pool fl sv)
      → IsLost p
      → IsLost (release fl sv other due_at p).1
  unfolding release
  release-IsLost other due_at p s =
      ground (arith, owners.hget-hdel lease.endpoint other.endpoint p.lease_owners)

  delete_leased-IsLost :
      (other : Lease) (p : Pool fl sv) → IsLost p → IsLost (delete_leased fl sv other p).1
  unfolding delete_leased
  delete_leased-IsLost other p s =
      ground (arith, owners.hget-hdel lease.endpoint other.endpoint p.lease_owners)

  complete_lease-IsLost :
      (max_latency : fl.Float) (other : Lease) (r : ProxyRecord fl) (p : Pool fl sv)
      → IsLost p
      → IsLost (complete_lease fl sv max_latency other r p).1
  unfolding complete_lease
  complete_lease-IsLost max_latency other r p s =
      ground (arith, owners.hget-hdel lease.endpoint other.endpoint p.lease_owners)

  claim_due-IsLost :
      (domain worker_id token : String) (limit lease_seconds now : ℕ) (leases : List Lease)
      (p q : Pool fl sv)
      → claim_due fl sv domain worker_id token limit lease_seconds now p ≡ ok (leases, q)
      → lease_owner worker_id token ≢ lease.owner
      → IsLost p
      → IsLost q
  claim_due-IsLost domain worker_id token limit lease_seconds now leases p q e new s =
      let (_, _, _, _, done) =
        claim_due-eq-ok fl sv domain worker_id token limit lease_seconds now p leases q e in
      let owner = lease_owner worker_id token in
      let expires_at = now + seconds lease_seconds in
      let c =
        claim_priority_due-Claims fl sv now limit (priority_share limit) expires_at owner
          lease.endpoint p in
      rw done (ground (arith, c.owner_of, eq_iff owner lease.owner))

  reclaim_expired-IsLost :
      (now limit : ℕ) (members : List String) (p q : Pool fl sv)
      → reclaim_expired fl sv now limit p ≡ ok (members, q)
      → IsLost p
      → IsLost q
  reclaim_expired-IsLost now limit members p q e s =
      let (listed, done) = reclaim_expired-eq-ok fl sv now limit p members q e in
      let c = reclaim_each-Reclaims fl sv now lease.endpoint members p in
      rw done (ground (arith, c.owner_of))

  -- A lease that has run out is lost as soon as a reclaim reaches it, which it does if it returns
  -- fewer members than its limit: the server then has no owner for the endpoint, the lease is not
  -- held, and the endpoint is due at once.
  pub expired_lease-IsLost :
      (now limit until : ℕ) (members : List String) (p q : Pool fl sv)
      → times.zscore lease.endpoint p.leased ≡ some until
      → until ≤ now
      → reclaim_expired fl sv now limit p ≡ ok (members, q)
      → length members < limit
      → IsLost q
        × (times.zscore lease.endpoint q.leased ≡ none)
        × (times.zscore lease.endpoint q.due ≡ some now)
  expired_lease-IsLost now limit until members p q old over e room =
      let k = lease.endpoint in
      let (listed, done) = reclaim_expired-eq-ok fl sv now limit p members q e in
      let c = reclaim_each-Reclaims fl sv now k members p in
      let all = times.zrange_upto_complete k until now limit p.leased old (le→leb until now over) in
      let here : elem k members ≡ true = rw listed (all (rw listed at room)) in
      rw done (
        ground (arith, c.owner_of, here),
        ground (arith, c.leased, here),
        ground (arith, c.due, here),
      )

  module _ (max_latency : fl.Float) where
    -- A claim under another owner, or any other write. (Owners are fresh: each ends in a UUID.)
    abbrev pub IsForeign : (p q : Pool fl sv) → Step fl sv max_latency p q → Type 0
    IsForeign p q (claims domain worker_id token limit lease_seconds now leases e) =
        lease_owner worker_id token ≢ lease.owner
    IsForeign p q st = Unit {0}

    Step-IsLost :
        {p q : Pool fl sv} (st : Step fl sv max_latency p q)
        → IsForeign p q st
        → IsLost p
        → IsLost q
    Step-IsLost {p} (saves r h) o s = save_record-IsLost max_latency r p s
    Step-IsLost {p} (upserts existing r h) o s = write_candidate-IsLost max_latency existing r p s
    Step-IsLost {p} (evicts text_before chunk) o s = remove_chunk-IsLost text_before chunk p s
    Step-IsLost {p} (forgets stale) o s = s
    Step-IsLost {p} (claims domain worker_id token limit lease_seconds now leases e) o s =
        claim_due-IsLost domain worker_id token limit lease_seconds now leases p _ e o s
    Step-IsLost {p} (completes other r done h e) o s =
        let (_, _, run) = complete-eq-ok fl sv max_latency other r p done _ e in
        rw (ap (λ (t : Bool × Pool fl sv). t.1) run) (complete_lease-IsLost max_latency other r p s)
    Step-IsLost {p} (releases other due_at) o s = release-IsLost other due_at p s
    Step-IsLost {p} (deletes other) o s = delete_leased-IsLost other p s
    Step-IsLost {p} (reclaims now limit members e) o s =
        reclaim_expired-IsLost now limit members p _ e s

    Reach-IsLost :
        {p q : Pool fl sv} → ReachBy fl sv max_latency IsForeign p q → IsLost p → IsLost q
    Reach-IsLost start s = s
    Reach-IsLost (then_step r st o) s = Step-IsLost st o (Reach-IsLost r s)

    -- Fencing: once a lease is lost, then after any interleaving of writes in which nobody claims
    -- under its owner's name again, its completion, its release and its deletion all report
    -- failure and change nothing, also where another worker has the endpoint by then.
    pub lost_lease_is_inert :
        {p q s : Pool fl sv} (r : ProxyRecord fl) (due_at : ℕ) (done : Bool)
        → ReachBy fl sv max_latency IsForeign p q
        → IsLost p
        → complete fl sv max_latency lease r q ≡ ok (done, s)
        → (done ≡ false)
          × (s ≡ q)
          × (release fl sv lease due_at q ≡ (false, q))
          × (delete_leased fl sv lease q ≡ (false, q))
    unfolding complete_lease release delete_leased
    lost_lease_is_inert {p} {q} {s} r due_at done path lost e =
        let gone = Reach-IsLost path lost in
        let (_, _, run) = complete-eq-ok fl sv max_latency lease r q done s e in
        (ground (arith, gone, run), ground (arith, gone, run), rw gone, rw gone)
