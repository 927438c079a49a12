-- ===== src/Tests/Storage.antt =====
-- The repository's theorems at concrete inputs.
use ip_proxy_pool.Base.{
  ◌+◌, ◌≤◌, ◌≡◌, refl, inl, inr, false, none, some, [], ◌∷◌, All, arith, eq_iff,
}
use ip_proxy_pool.Models.{seconds}
use ip_proxy_pool.Storage.Server.{Pool}
use ip_proxy_pool.Storage.Save.{save_record, write_candidate}
use ip_proxy_pool.Storage.Evict.{remove_chunk}
use ip_proxy_pool.Storage.Lease.{
  Lease, lease_owner, priority_share, claim_each, claim_priority_due, reclaim_each, claim_due,
  complete, complete_lease, release, delete_leased, reclaim_expired,
}
use ip_proxy_pool.Storage.Steps.{saves, upserts, releases, evicts, start, then_step}
use ip_proxy_pool.Storage.Sound.{IsSound}
use ip_proxy_pool.Storage.Reachable.{reachable-IsSound}
use ip_proxy_pool.Storage.Exclusive.{IsHeld, live_lease_is_kept, claim_due_grants, IsGranted}
use ip_proxy_pool.Storage.Stale.{IsLost, expired_lease-IsLost, lost_lease_is_inert}
use ip_proxy_pool.Tests.Memory.{whole_ms, server}
use ip_proxy_pool.Tests.Records.{fast, empty, busy, lease}

empty-IsSound : IsSound whole_ms server 1000 "8.8.8.8:80" empty
empty-IsSound = record {
  readable = refl;
  paired = refl;
  kept = inl refl;
  quality = refl;
  latency = refl;
  priority = refl;
}

-- The record is saved and seen again, another one is evicted, and a stale lease is released.
reachable-IsSound_example :
    IsSound whole_ms server 1000 "8.8.8.8:80"
      (release whole_ms server lease 9 (
        remove_chunk whole_ms server
          (λ a b. false)
          ("9.9.9.9:80" ∷ [])
          (write_candidate whole_ms server 1000
            (some fast)
            fast
            (save_record whole_ms server 1000 fast empty)))).1
unfolding save_record
reachable-IsSound_example =
    reachable-IsSound whole_ms server 1000 "8.8.8.8:80"
      (then_step
        (then_step
          (then_step (then_step start (saves fast tt) tt) (upserts (some fast) fast tt)
            (λ same. (fast, refl, refl)))
          (evicts (λ a b. false) ("9.9.9.9:80" ∷ [])) (inl refl))
        (releases lease 9) tt)
      empty-IsSound

-- Another owner's release comes in while the lease is live.
live_lease_is_kept_example :
    IsHeld whole_ms server lease (release whole_ms server (record lease { owner = "b:2" }) 9 busy).1
live_lease_is_kept_example =
    live_lease_is_kept whole_ms server 1000 lease
      (then_step start (releases (record lease { owner = "b:2" }) 9)
        (inr (ground (arith, eq_iff "b:2" "a:1"))))
      (record { mine = refl; until = refl })

abbrev waiting : Pool whole_ms server
waiting = record busy { due = ("8.8.8.8:80", 5) ∷ []; leased = []; lease_owners = [] }

-- `waiting` after a claim by the worker `w` at the time 7.
abbrev claimed : Pool whole_ms server
claimed = record busy {
  leased = ("8.8.8.8:80", 30_000_007) ∷ [];
  lease_owners = ("8.8.8.8:80", "w:t") ∷ [];
}

abbrev granted : Lease
granted = record lease { owner = "w:t"; expires_at = 30_000_007 }

claim_due_grants_example :
    (1 ≤ 2)
    × All
        (IsGranted whole_ms server (lease_owner "w" "t") (7 + seconds 30) waiting claimed)
        (granted ∷ [])
unfolding claim_due claim_priority_due claim_each priority_share lease_owner
claim_due_grants_example =
    claim_due_grants whole_ms server "example.com" "w" "t" 2 30 7 (granted ∷ []) waiting claimed
      refl

-- `busy` after a reclaim at the time 50.
abbrev reclaimed : Pool whole_ms server
reclaimed = record busy { due = ("8.8.8.8:80", 50) ∷ []; leased = []; lease_owners = [] }

expired_lease-IsLost_example :
    IsLost whole_ms server lease reclaimed
    × (server.times.zscore "8.8.8.8:80" reclaimed.leased ≡ none)
    × (server.times.zscore "8.8.8.8:80" reclaimed.due ≡ some 50)
unfolding reclaim_expired reclaim_each
expired_lease-IsLost_example =
    expired_lease-IsLost whole_ms server lease 50 10 40 ("8.8.8.8:80" ∷ []) busy reclaimed refl
      (omega arith) refl (omega arith)

-- The worker `a` completes its lease after it was reclaimed.
lost_lease_is_inert_example :
    (false ≡ false)
    × (reclaimed ≡ reclaimed)
    × (release whole_ms server lease 9 reclaimed ≡ (false, reclaimed))
    × (delete_leased whole_ms server lease reclaimed ≡ (false, reclaimed))
unfolding complete complete_lease
lost_lease_is_inert_example =
    lost_lease_is_inert whole_ms server lease 1000 fast 9 false start refl refl
