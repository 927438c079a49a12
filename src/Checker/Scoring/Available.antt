-- ===== src/Checker/Scoring/Available.antt =====
-- How a record becomes available: by probes, by being seen, and by being declared verified.
use ip_proxy_pool.Base.{ℕ, ◌≡◌, Option, none, some}
use ip_proxy_pool.Models.{Floats, ProxyRecord, ProbeResult, available, success}
use ip_proxy_pool.Storage.Save.{verified, written}
use ip_proxy_pool.Checker.Scoring.Defs.{apply_probe_result}

module _ (fl : Floats) where
  -- What happens to the record of an endpoint: a probe's result, a source that lists it, and a
  -- record that `upsert_verified` is given.
  pub data Event : Type 0 where
    probed : ProbeResult fl → (now : ℕ) → Event
    seen declared : ProxyRecord fl → Event

  -- The record afterwards. A worker that finds no record writes none.
  abbrev pub after : Event → Option (ProxyRecord fl) → Option (ProxyRecord fl)
  after (probed result now) none = none
  after (probed result now) (some r) = some (apply_probe_result fl r result now)
  after (seen r) old = some (written fl old r)
  after (declared r) old = some (verified fl r)

  abbrev pub IsAvailable : Option (ProxyRecord fl) → Type 0
  IsAvailable none = ⊥
  IsAvailable (some r) = r.state ≡ available

  abbrev pub IsProof : Event → Type 0
  IsProof (probed result now) = result.category ≡ success
  IsProof (seen r) = ⊥
  IsProof (declared r) = Unit
