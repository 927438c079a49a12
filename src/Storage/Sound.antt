-- ===== src/Storage/Sound.antt =====
-- The invariant of the pool's keys, at one endpoint, and each step's proof of it.
pub mod Saves
pub mod Leases
use mathlib.Core.Option
use ip_proxy_pool.Base.{ℕ, ◌≡◌, ◌⊎◌, Bool, true, Option, none, some, String, is_some}
use ip_proxy_pool.Models.{Floats, ProxyRecord}
use ip_proxy_pool.Storage.Server.{Server, Pool, stored}
use ip_proxy_pool.Storage.Index.{latency_index_score, priority_due_score}

abbrev pub score_of : {fl : Floats} → Option (ProxyRecord fl) → Option ℕ
score_of none = none
score_of (some r) = some r.score

module _ (fl : Floats) (sv : Server fl) (max_latency : fl.Float) where
  open fl use {Float}
  open sv use {hashes, owners, times, latencies}

  abbrev pub latency_of : Option (ProxyRecord fl) → Option Float
  latency_of none = none
  latency_of (some r) = latency_index_score fl r

  abbrev pub priority_of : Option (ProxyRecord fl) → Option ℕ
  priority_of none = none
  priority_of (some r) = priority_due_score fl max_latency r

  -- At the endpoint `k`: its record can be read back; it is leased exactly when it has an owner; a
  -- record is due or leased, so that it will be checked; the quality and
  -- latency indexes hold what the record says, and the priority index has it exactly when the
  -- record is fast enough.
  pub record IsSound (k : String) (p : Pool fl sv) : Type 0 where
    pub readable : is_some (hashes.hget k p.records) ≡ is_some (stored fl sv k p)
    pub paired : is_some (times.zscore k p.leased) ≡ is_some (owners.hget k p.lease_owners)
    pub kept :
        (hashes.hget k p.records ≡ none)
        ⊎ (is_some (times.zscore k p.due) ≡ true)
        ⊎ (is_some (times.zscore k p.leased) ≡ true)
    pub quality : times.zscore k p.quality ≡ score_of (stored fl sv k p)
    pub latency : latencies.zscore k p.available_latency ≡ latency_of (stored fl sv k p)
    pub priority :
        is_some (times.zscore k p.priority_due) ≡ is_some (priority_of (stored fl sv k p))
