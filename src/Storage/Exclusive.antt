-- ===== src/Storage/Exclusive.antt =====
-- Leases are exclusive: nobody else takes a live one, and nobody acts on a lost one.
use ip_proxy_pool.Base.{
  ℕ, ◌+◌, ◌≤◌, ◌<◌, ◌≡◌, ◌≢◌, ◌⊎◌, inl, inr, Bool, true, Option, none, some, List, String, eq_iff,
  Bool-cases, length, length-map, All-map, All, arith, refl, ap,
}
use ip_proxy_pool.Models.{Floats, ProxyRecord, seconds}
use ip_proxy_pool.Storage.Server.{Server, Pool, ok}
use ip_proxy_pool.Storage.Save.{save_record, write_candidate}
use ip_proxy_pool.Storage.Lease.{
  Lease, holds, lease_owner, priority_share, priority_share-le, new_lease, claim_priority_due,
  claim_due, complete_lease, release, delete_leased, reclaim_expired,
}
use ip_proxy_pool.Storage.Evict.{remove_chunk}
use ip_proxy_pool.Storage.Lease.Claimed.{
  claim_priority_due-Claims, claim_priority_due-free, length-claim_priority_due-le,
  reclaim_each-Reclaims,
}
use ip_proxy_pool.Storage.Lease.Methods.{claim_due-eq-ok, reclaim_expired-eq-ok, complete-eq-ok}
use ip_proxy_pool.Storage.Steps.{
  Step, saves, upserts, claims, completes, releases, deletes, reclaims, evicts, forgets, ReachBy,
  start, then_step,
}

module _ (fl : Floats) (sv : Server fl) where
  open sv use {owners, times}

  -- The server has the lease as it was granted.
  pub record IsHeld (lease : Lease) (p : Pool fl sv) : Type 0 where
    pub mine : owners.hget lease.endpoint p.lease_owners ≡ some lease.owner
    pub until : times.zscore lease.endpoint p.leased ≡ some lease.expires_at

  -- What a claim promises of one of its leases.
  pub record IsGranted (owner : String) (expires_at : ℕ) (p q : Pool fl sv) (lease : Lease)
      : Type 0 where
    pub free : times.zscore lease.endpoint p.leased ≡ none
    pub held : IsHeld lease q
    pub owned : lease.owner ≡ owner
    pub lasts : lease.expires_at ≡ expires_at
    pub not_due : times.zscore lease.endpoint q.due ≡ none

  abbrev IsOther : Lease → Lease → Type 0
  IsOther lease other = (other.endpoint ≢ lease.endpoint) ⊎ (other.owner ≢ lease.owner)

  finish-mine :
      (lease other : Lease) (p : Pool fl sv)
      → IsOther lease other
      → holds fl sv other p ≡ true
      → IsHeld lease p
      → owners.hget lease.endpoint (owners.hdel other.endpoint p.lease_owners) ≡ some lease.owner
  finish-mine lease other p o h s =
      let same = eq_iff other.endpoint lease.endpoint in
      let by = eq_iff lease.owner other.owner in
      ground
        (arith, same, by, o, h, s, owners.hget-hdel lease.endpoint other.endpoint p.lease_owners)

  finish-until :
      (lease other : Lease) (p : Pool fl sv)
      → IsOther lease other
      → holds fl sv other p ≡ true
      → IsHeld lease p
      → times.zscore lease.endpoint (times.zrem other.endpoint p.leased) ≡ some lease.expires_at
  finish-until lease other p o h s =
      let same = eq_iff other.endpoint lease.endpoint in
      let by = eq_iff lease.owner other.owner in
      ground (arith, same, by, o, h, s, times.zscore-zrem lease.endpoint other.endpoint p.leased)

  release-IsHeld :
      (lease other : Lease) (due_at : ℕ) (p : Pool fl sv)
      → IsOther lease other
      → IsHeld lease p
      → IsHeld lease (release fl sv other due_at p).1
  unfolding release
  release-IsHeld lease other due_at p o s = elim (Bool-cases (holds fl sv other p)) [
    | inr lost ↦ rw lost s
    | inl held ↦ rw held (record {
      mine = finish-mine lease other p o held s;
      until = finish-until lease other p o held s;
    })
  ]

  delete_leased-IsHeld :
      (lease other : Lease) (p : Pool fl sv)
      → IsOther lease other
      → IsHeld lease p
      → IsHeld lease (delete_leased fl sv other p).1
  unfolding delete_leased
  delete_leased-IsHeld lease other p o s = elim (Bool-cases (holds fl sv other p)) [
    | inr lost ↦ rw lost s
    | inl held ↦ rw held (record {
      mine = finish-mine lease other p o held s;
      until = finish-until lease other p o held s;
    })
  ]

  complete_lease-IsHeld :
      (max_latency : fl.Float) (lease other : Lease) (r : ProxyRecord fl) (p : Pool fl sv)
      → IsOther lease other
      → IsHeld lease p
      → IsHeld lease (complete_lease fl sv max_latency other r p).1
  unfolding complete_lease
  complete_lease-IsHeld max_latency lease other r p o s = elim (Bool-cases (holds fl sv other p)) [
    | inr lost ↦ rw lost s
    | inl held ↦ rw held (record {
      mine = finish-mine lease other p o held s;
      until = finish-until lease other p o held s;
    })
  ]

  save_record-IsHeld :
      (max_latency : fl.Float) (lease : Lease) (r : ProxyRecord fl) (p : Pool fl sv)
      → IsHeld lease p
      → IsHeld lease (save_record fl sv max_latency r p)
  unfolding save_record
  save_record-IsHeld max_latency lease r p s = record { mine = s.mine; until = s.until }

  write_candidate-IsHeld :
      (max_latency : fl.Float) (lease : Lease) (existing : Option (ProxyRecord fl))
      (r : ProxyRecord fl) (p : Pool fl sv)
      → IsHeld lease p
      → IsHeld lease (write_candidate fl sv max_latency existing r p)
  unfolding write_candidate
  write_candidate-IsHeld max_latency lease none r p s = record { mine = s.mine; until = s.until }
  write_candidate-IsHeld max_latency lease (some m) r p s = record {
    mine = s.mine;
    until = s.until;
  }

  remove_chunk-IsHeld :
      (text_before : String → String → Bool) (chunk : List String) (lease : Lease) (p : Pool fl sv)
      → IsHeld lease p
      → IsHeld lease (remove_chunk fl sv text_before chunk p)
  unfolding remove_chunk
  remove_chunk-IsHeld text_before chunk lease p s = record { mine = s.mine; until = s.until }

  claim_due-IsHeld :
      (domain worker_id token : String) (limit lease_seconds now : ℕ) (leases : List Lease)
      (lease : Lease) (p q : Pool fl sv)
      → claim_due fl sv domain worker_id token limit lease_seconds now p ≡ ok (leases, q)
      → IsHeld lease p
      → IsHeld lease q
  claim_due-IsHeld domain worker_id token limit lease_seconds now leases lease p q e s =
      let (_, _, _, _, done) =
        claim_due-eq-ok fl sv domain worker_id token limit lease_seconds now p leases q e in
      let owner = lease_owner worker_id token in
      let expires_at = now + seconds lease_seconds in
      let k = lease.endpoint in
      let share = priority_share limit in
      let c = claim_priority_due-Claims fl sv now limit share expires_at owner k p in
      let free = claim_priority_due-free fl sv now limit share expires_at owner k p in
      rw done (record {
        mine = ground (arith, c.owner_of, free, s);
        until = ground (arith, c.leased, free, s);
      })

  reclaim_expired-IsHeld :
      (now limit : ℕ) (members : List String) (lease : Lease) (p q : Pool fl sv)
      → reclaim_expired fl sv now limit p ≡ ok (members, q)
      → now < lease.expires_at
      → IsHeld lease p
      → IsHeld lease q
  reclaim_expired-IsHeld now limit members lease p q e live s =
      let (listed, done) = reclaim_expired-eq-ok fl sv now limit p members q e in
      let k = lease.endpoint in
      let c = reclaim_each-Reclaims fl sv now k members p in
      let old = times.zrange_upto_sound k now limit p.leased in
      rw done (record {
        mine = ground (arith, c.owner_of, old, listed, s);
        until = ground (arith, c.leased, old, listed, s);
      })

  -- A claim grants at most as many leases as it asks for, each of an endpoint that nobody had
  -- leased; afterwards the server has each lease as granted, under the claim's own owner, and its
  -- endpoint is no longer due.
  pub claim_due_grants :
      (domain worker_id token : String) (limit lease_seconds now : ℕ) (leases : List Lease)
      (p q : Pool fl sv)
      → claim_due fl sv domain worker_id token limit lease_seconds now p ≡ ok (leases, q)
      → (length leases ≤ limit)
        × All (IsGranted (lease_owner worker_id token) (now + seconds lease_seconds) p q) leases
  claim_due_grants domain worker_id token limit lease_seconds now leases p q e =
      let owner = lease_owner worker_id token in
      let expires_at = now + seconds lease_seconds in
      let share = priority_share limit in
      let (low, _, _, listed, done) =
        claim_due-eq-ok fl sv domain worker_id token limit lease_seconds now p leases q e in
      let r = claim_priority_due fl sv now limit share expires_at owner p in
      let f = new_lease domain owner expires_at in
      rw (listed, done)
        (
          omega (
            arith,
            length-map f r.0,
            length-claim_priority_due-le fl sv now limit share expires_at owner p
                (priority_share-le limit low),
          ),
          All-map (IsGranted owner expires_at p r.1) f r.0 (λ k h.
              let c = claim_priority_due-Claims fl sv now limit share expires_at owner k p in
              record {
                free = claim_priority_due-free fl sv now limit share expires_at owner k p h;
                held = record { mine = rw h at c.owner_of; until = rw h at c.leased };
                owned = refl;
                lasts = refl;
                not_due = rw h at c.due;
              }),
        )

  module _ (max_latency : fl.Float) (lease : Lease) where
    -- A step that is not the lease's own, and no reclaim once the lease has run out.
    abbrev pub Spares : (p q : Pool fl sv) → Step fl sv max_latency p q → Type 0
    Spares p q (completes other r done h e) = IsOther lease other
    Spares p q (releases other due_at) = IsOther lease other
    Spares p q (deletes other) = IsOther lease other
    Spares p q (reclaims now limit members e) = now < lease.expires_at
    Spares p q st = Unit {0}

    Step-IsHeld :
        {p q : Pool fl sv} (st : Step fl sv max_latency p q)
        → Spares p q st
        → IsHeld lease p
        → IsHeld lease q
    Step-IsHeld {p} (saves r h) o s = save_record-IsHeld max_latency lease r p s
    Step-IsHeld {p} (upserts existing r h) o s =
        write_candidate-IsHeld max_latency lease existing r p s
    Step-IsHeld {p} (evicts text_before chunk) o s = remove_chunk-IsHeld text_before chunk lease p s
    Step-IsHeld {p} (forgets stale) o s = record { mine = s.mine; until = s.until }
    Step-IsHeld {p} (claims domain worker_id token limit lease_seconds now leases e) o s =
        claim_due-IsHeld domain worker_id token limit lease_seconds now leases lease p _ e s
    Step-IsHeld {p} (completes other r done h e) o s =
        let (_, _, run) = complete-eq-ok fl sv max_latency other r p done _ e in
        rw (ap (λ (t : Bool × Pool fl sv). t.1) run)
          (complete_lease-IsHeld max_latency lease other r p o s)
    Step-IsHeld {p} (releases other due_at) o s = release-IsHeld lease other due_at p o s
    Step-IsHeld {p} (deletes other) o s = delete_leased-IsHeld lease other p o s
    Step-IsHeld {p} (reclaims now limit members e) o s =
        reclaim_expired-IsHeld now limit members lease p _ e o s

    -- A live lease is exclusive: after any interleaving of writes in which no reclaim comes after
    -- the lease's end and in which every completion, release and deletion is another owner's or
    -- another endpoint's, the endpoint still has the lease's owner and expiry.
    pub live_lease_is_kept :
        {p q : Pool fl sv} → ReachBy fl sv max_latency Spares p q → IsHeld lease p → IsHeld lease q
    live_lease_is_kept start s = s
    live_lease_is_kept (then_step r st o) s = Step-IsHeld st o (live_lease_is_kept r s)
