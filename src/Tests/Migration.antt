-- ===== src/Tests/Migration.antt =====
-- The rebuild of the indexes at a concrete pool.
use ip_proxy_pool.Base.{
  ◌+◌, ◌≡◌, refl, false, none, some, List, [], ◌∷◌, String, elem, length, arith,
}
use ip_proxy_pool.Models.{ProxyRecord}
use ip_proxy_pool.Storage.Server.{Pool, stored}
use ip_proxy_pool.Storage.Sound.{latency_of, priority_of}
use ip_proxy_pool.Storage.Index.{latency_index_score, priority_due_score}
use ip_proxy_pool.Migration.{RebuildSummary, visit_all, visit_batches, rebuild}
use ip_proxy_pool.Migration.Rebuilt.{all_names, rebuilt_indexes_agree}
use ip_proxy_pool.Tests.Memory.{whole_ms, server, get}
use ip_proxy_pool.Tests.Records.{fast, busy}

-- A pool whose indexes have an endpoint without a record, and not the one that has one.
abbrev dangling : Pool whole_ms server
dangling = record busy {
  available_latency = ("9.9.9.9:80", 7) ∷ [];
  priority_due = ("9.9.9.9:80", 3) ∷ [];
}

abbrev batches : List (List (String × ProxyRecord whole_ms))
batches = [] ∷ (("8.8.8.8:80", fast) ∷ []) ∷ []

all_there :
    (j : String)
    → elem j (all_names whole_ms server 1000 dangling batches) ≡ false
    → get j dangling.records ≡ none
all_there j out = ground (arith, out)

abbrev summary : RebuildSummary
summary = record { scanned = 1; indexed = 1; priority_indexed = 1; ignored = 0; dry_run = false }

rebuilt_indexes_agree_example :
    ((j : String)
      → (get j busy.available_latency
          ≡ latency_of whole_ms server 1000 (stored whole_ms server j dangling))
        × (get j busy.priority_due
            ≡ priority_of whole_ms server 1000 (stored whole_ms server j dangling)))
    × ((busy ≡ busy)
        × ((n : RebuildSummary) → some summary ≡ some n → n.scanned ≡ n.indexed + n.ignored))
unfolding rebuild visit_batches visit_all latency_index_score priority_due_score
rebuilt_indexes_agree_example =
    rebuilt_indexes_agree whole_ms server 1000 dangling length length [] [] (λ j. refl) (λ j. refl)
      "example.com" batches (some summary) busy (tt, ((refl, tt), tt)) all_there refl
