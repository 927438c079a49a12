-- ===== src/Storage/Lease.antt =====
-- The lease scripts of storage/lua.py and the methods that call them.
pub mod Claimed
pub mod Methods
use Prim.Native.String.{◌++◌ as append_text}
use ip_proxy_pool.Base.{
  ℕ, suc, ◌≤◌, arith, ◌+◌, ◌-◌, ◌*◌, ◌/◌, min, max, Bool, true, false, not, ◌&&◌, Option, none,
  some, List, [], ◌∷◌, ◌++◌, map, String, str_eq, leb, ltb, ◌==◌, if◌then◌else◌, length,
}
use ip_proxy_pool.Models.{Floats, ProxyRecord, seconds}
use ip_proxy_pool.Storage.Server.{Server, Pool, Result, ok, ◌>>=◌, ◌>>◌, require}
use ip_proxy_pool.Storage.Index.{latency_index_score, priority_due_score}
use ip_proxy_pool.Storage.Save.{index_latency, index_time}

pub record Lease : Type 0 where
  pub domain : String
  pub endpoint : String
  pub owner : String
  pub expires_at : ℕ

-- The share of a claim that goes to the fast proxies first.
unfoldable pub priority_share : ℕ → ℕ
priority_share limit = if limit == 1 then 1 else min (limit - 1) (max 1 (limit * 4 / 5))

pub priority_share-le : (limit : ℕ) → 1 ≤ limit → priority_share limit ≤ limit
unfolding priority_share
priority_share-le limit h = ground arith

-- `f"{worker_id}:{uuid4().hex}"`.
unfoldable pub lease_owner : (worker_id token : String) → String
lease_owner worker_id token = append_text worker_id (append_text ":" token)

abbrev pub new_lease : (domain owner : String) → (expires_at : ℕ) → String → Lease
new_lease domain owner expires_at endpoint = record {
  domain = domain;
  endpoint = endpoint;
  owner = owner;
  expires_at = expires_at;
}

module _ (fl : Floats) (sv : Server fl) where
  open fl use {Float}
  open sv use {encode_record, hashes, owners, times, latencies}

  -- What a claim does to one member.
  abbrev pub take_lease : (owner : String) → (expires_at : ℕ) → String → Pool fl sv → Pool fl sv
  take_lease owner expires_at m p = record p {
    due = times.zrem m p.due;
    leased = times.zadd m expires_at p.leased;
    lease_owners = owners.hset m owner p.lease_owners;
  }

  -- The loops of CLAIM_PRIORITY_DUE: members that are leased already are passed over.
  unfoldable pub claim_each :
      (owner : String) → (expires_at : ℕ) → List String → Pool fl sv → List String × Pool fl sv
  claim_each owner expires_at [] p = ([], p)
  claim_each owner expires_at (m ∷ ms) p = elim (times.zscore m p.leased) [
    | some _ ↦ claim_each owner expires_at ms p
    | none ↦
        let (claimed, p') = claim_each owner expires_at ms (take_lease owner expires_at m p) in
        (m ∷ claimed, p')
  ]

  -- CLAIM_PRIORITY_DUE.
  unfoldable pub claim_priority_due :
      (now limit priority_limit expires_at : ℕ)
      → (owner : String) → Pool fl sv
      → List String × Pool fl sv
  claim_priority_due now limit priority_limit expires_at owner p =
      let priority = times.zrange_upto now priority_limit p.priority_due in
      let (first, p') = claim_each owner expires_at priority p in
      let general = times.zrange_upto now (limit - length first) p'.due in
      let (second, p'') = claim_each owner expires_at general p' in
      if ltb 0 (limit - length first) then (first ++ second, p'') else (first, p')

  -- `claim_due`; `token` is the fresh `uuid4().hex`.
  unfoldable pub claim_due :
      (domain worker_id token : String)
      → (limit lease_seconds now : ℕ) → Pool fl sv
      → Result (List Lease × Pool fl sv)
  claim_due domain worker_id token limit lease_seconds now p = do
    require (leb 1 limit && leb limit 1000)
    require (not (str_eq worker_id ""))
    require (ltb 0 lease_seconds)
    let owner = lease_owner worker_id token
    let expires_at = now + seconds lease_seconds
    let (members, p') = claim_priority_due now limit (priority_share limit) expires_at owner p
    ok (map (new_lease domain owner expires_at) members, p')

  abbrev owner_is : Option String → String → Bool
  owner_is none owner = false
  owner_is (some o) owner = str_eq o owner

  -- The test with which COMPLETE_LEASE, RELEASE_LEASE and DELETE_LEASE begin.
  abbrev pub holds : Lease → Pool fl sv → Bool
  holds lease p = owner_is (owners.hget lease.endpoint p.lease_owners) lease.owner

  -- COMPLETE_LEASE.
  unfoldable pub complete_lease : Float → Lease → ProxyRecord fl → Pool fl sv → Bool × Pool fl sv
  complete_lease max_latency lease r p =
      if holds lease p
      then (
        true,
        record p {
          records = hashes.hset lease.endpoint (encode_record r) p.records;
          quality = times.zadd lease.endpoint r.score p.quality;
          due = times.zadd lease.endpoint r.next_check_at p.due;
          leased = times.zrem lease.endpoint p.leased;
          lease_owners = owners.hdel lease.endpoint p.lease_owners;
          available_latency =
              index_latency fl sv lease.endpoint (latency_index_score fl r) p.available_latency;
          priority_due =
              index_time fl sv lease.endpoint (priority_due_score fl max_latency r) p.priority_due;
        },
      )
      else (false, p)

  unfoldable pub complete : Float → Lease → ProxyRecord fl → Pool fl sv → Result (Bool × Pool fl sv)
  complete max_latency lease r p = do
    require (str_eq r.domain lease.domain)
    require (str_eq r.endpoint lease.endpoint)
    ok (complete_lease max_latency lease r p)

  abbrev move_if_there : String → ℕ → times.ZSet → times.ZSet
  move_if_there k at z = elim (times.zscore k z) [ none ↦ z | some _ ↦ times.zadd k at z ]

  -- RELEASE_LEASE.
  unfoldable pub release : Lease → (due_at : ℕ) → Pool fl sv → Bool × Pool fl sv
  release lease due_at p =
      if holds lease p
      then (
        true,
        record p {
          due = times.zadd lease.endpoint due_at p.due;
          priority_due = move_if_there lease.endpoint due_at p.priority_due;
          leased = times.zrem lease.endpoint p.leased;
          lease_owners = owners.hdel lease.endpoint p.lease_owners;
        },
      )
      else (false, p)

  -- DELETE_LEASE.
  unfoldable pub delete_leased : Lease → Pool fl sv → Bool × Pool fl sv
  delete_leased lease p =
      if holds lease p
      then (
        true,
        record p {
          records = hashes.hdel lease.endpoint p.records;
          quality = times.zrem lease.endpoint p.quality;
          due = times.zrem lease.endpoint p.due;
          leased = times.zrem lease.endpoint p.leased;
          lease_owners = owners.hdel lease.endpoint p.lease_owners;
          available_latency = latencies.zrem lease.endpoint p.available_latency;
          priority_due = times.zrem lease.endpoint p.priority_due;
        },
      )
      else (false, p)

  abbrev pub take_back : (now : ℕ) → String → Pool fl sv → Pool fl sv
  take_back now m p = record p {
    leased = times.zrem m p.leased;
    due = times.zadd m now p.due;
    lease_owners = owners.hdel m p.lease_owners;
  }

  -- The loop of RECLAIM_EXPIRED.
  unfoldable pub reclaim_each : (now : ℕ) → List String → Pool fl sv → Pool fl sv
  reclaim_each now [] p = p
  reclaim_each now (m ∷ ms) p = reclaim_each now ms (take_back now m p)

  -- `reclaim_expired`.
  unfoldable pub reclaim_expired : (now limit : ℕ) → Pool fl sv → Result (List String × Pool fl sv)
  reclaim_expired now limit p = do
    require (leb 1 limit && leb limit 1000)
    let members = times.zrange_upto now limit p.leased
    ok (members, reclaim_each now members p)
