-- ===== src/Storage/Steps.antt =====
-- The writes of the repository to one domain's keys, as steps from pool to pool: each is one script
-- or one transaction of the server, so any interleaving of workers, collectors and clients that make
-- them is a sequence of such steps. What a method has read before its transaction is an argument of
-- the step, since other steps may come in between.
use ip_proxy_pool.Base.{ℕ, ◌≡◌, Bool, Option, List, String}
use ip_proxy_pool.Models.{Floats, ProxyRecord}
use ip_proxy_pool.Storage.Server.{Server, Pool, ok}
use ip_proxy_pool.Storage.Save.{save_record, written, write_candidate}
use ip_proxy_pool.Storage.Lease.{
  Lease, claim_due, complete, release, delete_leased, reclaim_expired,
}
use ip_proxy_pool.Storage.Evict.{remove_chunk}
use ip_proxy_pool.Storage.Select.{forget}

module _ (fl : Floats) (sv : Server fl) (max_latency : fl.Float) where
  open sv use {IsStorable}

  pub data Step (p : Pool fl sv) : Pool fl sv → Type 0 where
    saves : (r : ProxyRecord fl) → IsStorable r → Step p (save_record fl sv max_latency r p)
    -- The transaction of `upsert_candidate`, which had found the record `existing`, or none.
    upserts :
        (existing : Option (ProxyRecord fl)) (r : ProxyRecord fl)
        → IsStorable (written fl existing r)
        → Step p (write_candidate fl sv max_latency existing r p)
    claims :
        (domain worker_id token : String) (limit lease_seconds now : ℕ) (leases : List Lease)
        {q : Pool fl sv}
        → claim_due fl sv domain worker_id token limit lease_seconds now p ≡ ok (leases, q)
        → Step p q
    completes :
        (lease : Lease) (r : ProxyRecord fl) (done : Bool) {q : Pool fl sv}
        → IsStorable r
        → complete fl sv max_latency lease r p ≡ ok (done, q)
        → Step p q
    releases : (lease : Lease) (due_at : ℕ) → Step p (release fl sv lease due_at p).1
    deletes : (lease : Lease) → Step p (delete_leased fl sv lease p).1
    reclaims :
        (now limit : ℕ) (members : List String) {q : Pool fl sv}
        → reclaim_expired fl sv now limit p ≡ ok (members, q)
        → Step p q
    -- One transaction of `enforce_capacity`, for a chunk of its victims.
    evicts :
        (text_before : String → String → Bool) (chunk : List String)
        → Step p (remove_chunk fl sv text_before chunk p)
    -- The ZREM at the end of a selection, of the members that it found stale.
    forgets : (stale : List String) → Step p (forget fl sv stale p)

  -- Steps one after the other, of which each has the property `P`.
  pub data ReachBy (P : (q s : Pool fl sv) → Step q s → Type 0) (p : Pool fl sv)
      : Pool fl sv → Type 0 where
    start : ReachBy P p p
    then_step : {q s : Pool fl sv} → ReachBy P p q → (st : Step q s) → P q s st → ReachBy P p s
