-- ===== src/Storage/Reachable.antt =====
-- What holds of one domain's keys after any interleaving of the repository's writes.
use ip_proxy_pool.Base.{
  ◌≡◌, refl, ◌⊎◌, false, none, some, List, [], ◌∷◌, String, elem, if◌then◌else◌, arith,
}
use ip_proxy_pool.Models.{Floats}
use ip_proxy_pool.Storage.Server.{Server, Pool, stored}
use ip_proxy_pool.Storage.Steps.{
  Step, saves, upserts, claims, completes, releases, deletes, reclaims, evicts, forgets, ReachBy,
  start, then_step,
}
use ip_proxy_pool.Storage.Sound.{IsSound, latency_of}
use ip_proxy_pool.Storage.Sound.Saves.{
  save_record-IsSound, new_candidate-IsSound, merged_candidate-IsSound, AgreesOn,
}
use ip_proxy_pool.Storage.Sound.Leases.{
  claim_due-IsSound, complete-IsSound, release-IsSound, delete_leased-IsSound,
  reclaim_expired-IsSound,
}
use ip_proxy_pool.Storage.Evict.Removal.{remove_chunk-Removes}
use ip_proxy_pool.Storage.Select.{forget, zrem_stale}
use ip_proxy_pool.Storage.Capacity.{Removes-IsSound}

module _ (fl : Floats) (sv : Server fl) (max_latency : fl.Float) (k : String) where
  open sv use {times, latencies}

  -- What is asked of the steps that rest on an earlier read, at the endpoint `k`: the record that an
  -- upsert found is still there with its score; what is evicted is not in the priority index; and
  -- what a selection forgets is not one that the latency index should have.
  abbrev pub Keeps : (p q : Pool fl sv) → Step fl sv max_latency p q → Type 0
  Keeps p q (upserts (some existing) r h) = r.endpoint ≡ k → AgreesOn fl sv k existing p
  Keeps p q (evicts text_before chunk) =
      (elem k chunk ≡ false) ⊎ (times.zscore k p.priority_due ≡ none)
  Keeps p q (forgets stale) =
      (elem k stale ≡ false) ⊎ (latency_of fl sv max_latency (stored fl sv k p) ≡ none)
  Keeps p q st = Unit {0}

  zscore-zrem_stale :
      (ks : List String) (z : latencies.ZSet)
      → latencies.zscore k (zrem_stale fl sv ks z)
        ≡ (if elem k ks then none else latencies.zscore k z)
  unfolding zrem_stale
  zscore-zrem_stale [] z = refl
  zscore-zrem_stale (j ∷ ks) z =
      ground (arith, zscore-zrem_stale ks (latencies.zrem j z), latencies.zscore-zrem k j z)

  forget-IsSound :
      (stale : List String) (p : Pool fl sv)
      → (elem k stale ≡ false) ⊎ (latency_of fl sv max_latency (stored fl sv k p) ≡ none)
      → IsSound fl sv max_latency k p
      → IsSound fl sv max_latency k (forget fl sv stale p)
  forget-IsSound stale p o s = record {
    readable = s.readable;
    paired = s.paired;
    kept = s.kept;
    quality = s.quality;
    latency = ground (arith, zscore-zrem_stale stale p.available_latency, o, s.latency);
    priority = s.priority;
  }

  pub Step-IsSound :
      {p q : Pool fl sv} (st : Step fl sv max_latency p q)
      → Keeps p q st
      → IsSound fl sv max_latency k p
      → IsSound fl sv max_latency k q
  Step-IsSound {p} (saves r h) o s = save_record-IsSound fl sv max_latency k r p h s
  Step-IsSound {p} (upserts none r h) o s = new_candidate-IsSound fl sv max_latency k r p h s
  Step-IsSound {p} (upserts (some existing) r h) o s =
      merged_candidate-IsSound fl sv max_latency k existing r p o h s
  Step-IsSound {p} (claims domain worker_id token limit lease_seconds now leases e) o s =
      claim_due-IsSound fl sv max_latency k p domain worker_id token limit lease_seconds now leases
        _ e s
  Step-IsSound {p} (completes lease r done h e) o s =
      complete-IsSound fl sv max_latency k p lease r done _ h e s
  Step-IsSound {p} (releases lease due_at) o s =
      release-IsSound fl sv max_latency k p lease due_at s
  Step-IsSound {p} (deletes lease) o s = delete_leased-IsSound fl sv max_latency k p lease s
  Step-IsSound {p} (reclaims now limit members e) o s =
      reclaim_expired-IsSound fl sv max_latency k p now limit members _ e s
  Step-IsSound {p} (evicts text_before chunk) o s =
      Removes-IsSound fl sv text_before max_latency k chunk p _
        (remove_chunk-Removes fl sv text_before k chunk p) o s
  Step-IsSound {p} (forgets stale) o s = forget-IsSound stale p o s

  -- Whatever the repository's methods write to a domain (records saved or seen again, leases
  -- claimed, completed, released, deleted or reclaimed, records evicted, stale members forgotten),
  -- in whatever order and with whatever stale leases, a pool that is sound at an endpoint stays
  -- sound there: the record can be read, a lease goes with an owner, the endpoint is due or leased,
  -- and the three indexes agree with the record. Three transactions rest on what was read before
  -- them, and of these it is asked, at that endpoint: an upsert that found a record writes while a
  -- record is there with the same score; an eviction takes nothing that is in the priority index;
  -- and a selection forgets nothing that the latency index should have by then.
  pub reachable-IsSound :
      {p q : Pool fl sv}
      → ReachBy fl sv max_latency Keeps p q
      → IsSound fl sv max_latency k p
      → IsSound fl sv max_latency k q
  reachable-IsSound start s = s
  reachable-IsSound (then_step r st o) s = Step-IsSound st o (reachable-IsSound r s)
