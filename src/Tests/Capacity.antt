-- ===== src/Tests/Capacity.antt =====
-- The theorems on a full domain at concrete inputs: two records where there may be one.
use Prim.Native.String.{len}
use ip_proxy_pool.Base.{
  ◌≡◌, refl, inl, inr, Bool, true, none, some, List, [], ◌∷◌, String, All, arith, ltb, length, min,
  count, ◌≤◌, IsIn, take,
}
use ip_proxy_pool.Models.{ProxyRecord}
use ip_proxy_pool.Storage.Server.{Pool, ok, ◌>>=◌}
use ip_proxy_pool.Storage.Sound.{IsSound}
use ip_proxy_pool.Storage.Index.{latency_index_score, priority_due_score}
use ip_proxy_pool.Storage.Evict.{
  Scanned, insert, insert_all, sorted, ranked_before, ranked_entry, rank_batch, scan, remove_chunk,
  remove_chunks, enforce_capacity,
}
use ip_proxy_pool.Storage.Evict.Ranked.{IsStrictOrder}
use ip_proxy_pool.Storage.Evict.Victims.{all_of, unleased, scan-eq-sorted}
use ip_proxy_pool.Storage.Evict.Chosen.{Entry, names, unleased_entries, IsVictimOrStays}
use ip_proxy_pool.Storage.Evict.Removal.{Removes}
use ip_proxy_pool.Storage.Capacity.{
  capacity_is_enforced, enforce_capacity-IsSound, evicted_priority_is_dangling,
}
use ip_proxy_pool.Tests.Memory.{whole_ms, server}
use ip_proxy_pool.Tests.Records.{fast}

-- Shorter texts first.
abbrev shorter : String → String → Bool
shorter a b = ltb (len a) (len b)

shorter-IsStrictOrder : IsStrictOrder shorter
shorter-IsStrictOrder = record {
  asym = λ x y h. ground (arith, h);
  trans = λ x y z h k. ground (arith, h, k);
}

abbrev better : ProxyRecord whole_ms
better = record fast { endpoint = "9.9.9.9:80"; score = 95; latency_ewma_ms = none }

abbrev full : Pool whole_ms server
full = record {
  listed = true;
  records = ("8.8.8.8:80", fast) ∷ ("9.9.9.9:80", better) ∷ [];
  quality = ("8.8.8.8:80", 85) ∷ ("9.9.9.9:80", 95) ∷ [];
  due = ("8.8.8.8:80", 5) ∷ ("9.9.9.9:80", 5) ∷ [];
  leased = [];
  lease_owners = [];
  available_latency = ("8.8.8.8:80", 120) ∷ [];
  priority_due = ("8.8.8.8:80", 5) ∷ [];
}

-- `full` without the record of the lower score.
abbrev trimmed : Pool whole_ms server
trimmed = record {
  listed = true;
  records = ("9.9.9.9:80", better) ∷ [];
  quality = ("9.9.9.9:80", 95) ∷ [];
  due = ("9.9.9.9:80", 5) ∷ [];
  leased = [];
  lease_owners = [];
  available_latency = [];
  priority_due = ("8.8.8.8:80", 5) ∷ [];
}

abbrev replies : List (List (Scanned whole_ms server shorter))
replies =
    (record { endpoint = "8.8.8.8:80"; raw = fast; lease_score = none } ∷ [])
    ∷ []
    ∷ (record { endpoint = "9.9.9.9:80"; raw = better; lease_score = none } ∷ [])
    ∷ []

trims : enforce_capacity whole_ms server shorter 1 2 replies full ≡ ok (1, trimmed)
unfolding enforce_capacity scan rank_batch ranked_entry sorted insert_all insert ranked_before
    remove_chunks remove_chunk
trims = refl

scan-eq-sorted_example : scan whole_ms server shorter 1 [] replies ≡ (
    rank_batch whole_ms server shorter (all_of replies) >>= λ ranked.
    ok (take 1 (sorted (ranked_before shorter) ranked)))
scan-eq-sorted_example = scan-eq-sorted whole_ms server shorter shorter-IsStrictOrder 1 replies

capacity_is_enforced_example :
    (victims : List (Entry whole_ms server shorter)) × (1 ≡ length victims)
    × (1 ≡ min 1 (length (unleased whole_ms server shorter (all_of replies))))
    × ((k : String)
        → count k (names whole_ms server shorter victims)
          ≤ count k (unleased whole_ms server shorter (all_of replies)))
    × All (λ v. IsIn v (unleased_entries whole_ms server shorter (all_of replies))) victims
    × All
        (IsVictimOrStays whole_ms server shorter victims)
        (unleased_entries whole_ms server shorter (all_of replies))
    × ((k : String)
        → Removes whole_ms server shorter k (names whole_ms server shorter victims) full trimmed)
capacity_is_enforced_example =
    capacity_is_enforced whole_ms server shorter shorter-IsStrictOrder 1 2 replies full 1 trimmed
      trims (omega arith)

better-IsSound : IsSound whole_ms server 1000 "9.9.9.9:80" full
unfolding latency_index_score priority_due_score
better-IsSound = record {
  readable = refl;
  paired = refl;
  kept = inr (inl refl);
  quality = refl;
  latency = refl;
  priority = refl;
}

enforce_capacity-IsSound_example : IsSound whole_ms server 1000 "9.9.9.9:80" trimmed
enforce_capacity-IsSound_example =
    enforce_capacity-IsSound whole_ms server shorter shorter-IsStrictOrder 1000 1 2 replies full
      trimmed 1 trims (omega arith) "9.9.9.9:80" (inr refl) better-IsSound

evicted_priority_is_dangling_example :
    (server.times.zscore "8.8.8.8:80" trimmed.priority_due ≡ some 5)
    × ¬ IsSound whole_ms server 1000 "8.8.8.8:80" trimmed
evicted_priority_is_dangling_example =
    evicted_priority_is_dangling whole_ms server shorter shorter-IsStrictOrder 1000 1 2 replies full
      trimmed 1 trims (omega arith) "8.8.8.8:80" 5 refl refl
