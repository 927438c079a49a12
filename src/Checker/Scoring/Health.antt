-- ===== src/Checker/Scoring/Health.antt =====
-- The health bookkeeping of `apply_probe_result`, for one result and along a history of results.
use ip_proxy_pool.Base.{
  ℕ, suc, ◌+◌, ◌≤◌, ◌<◌, ◌≡◌, refl, ◌≢◌, ◌⊎◌, ◌↔◌, inl, inr, List, [], ◌∷◌, All, arith,
}
use ip_proxy_pool.Models.{
  Floats, ProxyRecord, ProbeResult, ProbeCategory, available, quarantined, success, proxy_error,
}
use ip_proxy_pool.Checker.Scoring.Defs.{apply_probe_result}

-- The probe worker feeds one record with result after result.
abbrev pub count_failures : List ProbeCategory → ℕ
count_failures [] = 0
count_failures (proxy_error ∷ cs) = suc (count_failures cs)
count_failures (c ∷ cs) = count_failures cs

abbrev pub IsNoSuccess : ProbeCategory → Type 0
IsNoSuccess c = c ≢ success

module _ (fl : Floats) where
  -- What links the fields of a record that probes produce.
  pub record IsHealthy (r : ProxyRecord fl) : Type 0 where
    pub bounded : r.score ≤ 100
    pub streaks : (r.consecutive_successes ≡ 0) ⊎ (r.consecutive_failures ≡ 0)
    pub fit : r.state ≡ available → 50 ≤ r.score

  abbrev pub apply_all : ProxyRecord fl → List (ℕ × ProbeResult fl) → ProxyRecord fl
  apply_all r [] = r
  apply_all r ((now, result) ∷ rest) = apply_all (apply_probe_result fl r result now) rest

  abbrev pub categories : List (ℕ × ProbeResult fl) → List ProbeCategory
  categories [] = []
  categories ((now, result) ∷ rest) = result.category ∷ categories rest

  apply_cases :
      (r : ProxyRecord fl) (result : ProbeResult fl) (now : ℕ) (c : ProbeCategory)
      → result.category ≡ c
      → IsHealthy r
      → IsHealthy (apply_probe_result fl r result now)
  unfolding apply_probe_result
  apply_cases r result now success e h = ground arith
  apply_cases r result now _ e h = ground arith

  -- A history of probe results keeps a record healthy: its score stays within 100, it has a streak
  -- of successes or one of failures and never both, and while it is available its score is at
  -- least 50.
  pub apply_all-IsHealthy :
      (history : List (ℕ × ProbeResult fl)) (r : ProxyRecord fl)
      → IsHealthy r
      → IsHealthy (apply_all r history)
  apply_all-IsHealthy [] r h = h
  apply_all-IsHealthy ((now, result) ∷ rest) r h =
      apply_all-IsHealthy rest _ (apply_cases r result now result.category refl h)

  pub available_needs_two_successes :
      (r : ProxyRecord fl) (result : ProbeResult fl) (now : ℕ)
      → r.state ≢ available
      → (apply_probe_result fl r result now).state ≡ available
      → (result.category ≡ success)
        × (2 ≤ (apply_probe_result fl r result now).consecutive_successes)
        × (80 ≤ (apply_probe_result fl r result now).score)
  unfolding apply_probe_result
  available_needs_two_successes r result now na e = ground arith

  -- A record that was not in quarantine is quarantined by a result exactly when that result is a
  -- proxy error which is at least the third in a row or takes the score to zero.
  pub quarantined_iff :
      (r : ProxyRecord fl) (result : ProbeResult fl) (now : ℕ)
      → r.state ≢ quarantined
      → let r' = apply_probe_result fl r result now in
        (r'.state ≡ quarantined)
        ↔ ((result.category ≡ proxy_error) × ((3 ≤ r'.consecutive_failures) ⊎ (r'.score ≡ 0)))
  unfolding apply_probe_result
  quarantined_iff r result now nq = (λ e. ground arith, λ e. ground arith)

  -- A record below the limit of failures, or already in quarantine.
  abbrev IsTracked : ProxyRecord fl → Type 0
  IsTracked r = (r.consecutive_failures < 3) ⊎ (r.state ≡ quarantined)

  count_step :
      (r : ProxyRecord fl) (result : ProbeResult fl) (now : ℕ) (c : ProbeCategory)
      (cs : List ProbeCategory)
      → result.category ≡ c
      → c ≢ success
      → IsTracked r
      → let r' = apply_probe_result fl r result now in
        (r'.consecutive_failures + count_failures cs
          ≡ r.consecutive_failures + count_failures (c ∷ cs))
        × IsTracked r'
  unfolding apply_probe_result
  count_step r result now success cs e ns t = absurd (ns refl)
  count_step r result now _ cs e ns t = ground arith

  quarantined_of_tracked :
      (history : List (ℕ × ProbeResult fl)) (r : ProxyRecord fl)
      → IsTracked r
      → All IsNoSuccess (categories history)
      → 3 ≤ r.consecutive_failures + count_failures (categories history)
      → (apply_all r history).state ≡ quarantined
  quarantined_of_tracked [] r (inl low) a h = absurd (omega arith)
  quarantined_of_tracked [] r (inr q) a h = q
  quarantined_of_tracked ((now, result) ∷ rest) r t (ns, a) h =
      let s = count_step r result now result.category (categories rest) refl ns t in
      quarantined_of_tracked rest (apply_probe_result fl r result now) s.1 a (omega arith)

  -- Without a success in between, three proxy errors in a row leave a record in quarantine,
  -- however many results that say nothing of the proxy stand between them: for every history with
  -- no success in which the proxy errors, with the fewer than three that the record has, are at
  -- least three.
  pub quarantined_after_failures :
      (history : List (ℕ × ProbeResult fl)) (r : ProxyRecord fl)
      → r.consecutive_failures < 3
      → All IsNoSuccess (categories history)
      → 3 ≤ r.consecutive_failures + count_failures (categories history)
      → (apply_all r history).state ≡ quarantined
  quarantined_after_failures history r low a h = quarantined_of_tracked history r (inl low) a h
