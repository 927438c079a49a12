-- ===== src/Storage/Index.antt =====
-- The scores that a record has in the selection indexes.
use ip_proxy_pool.Base.{
  ◌≡◌, inl, inr, true, false, Option-cases, arith, ℕ, ◌&&◌, Option, none, some, if◌then◌else◌,
}
use ip_proxy_pool.Models.{Floats, ProxyRecord, is_available}

module _ (fl : Floats) where
  open fl use {Float, zero_ms, leb_float, is_finite}

  finite_latency : Option Float → Option Float
  finite_latency none = none
  finite_latency (some v) = if is_finite v && leb_float zero_ms v then some v else none

  unfoldable pub latency_index_score : ProxyRecord fl → Option Float
  unfolding finite_latency
  latency_index_score r = if is_available r.state then finite_latency r.latency_ewma_ms else none

  within : Float → ℕ → Option Float → Option ℕ
  within max_latency at none = none
  within max_latency at (some v) = if leb_float v max_latency then some at else none

  -- The next check of a proxy that is fast enough.
  unfoldable pub priority_due_score : Float → ProxyRecord fl → Option ℕ
  unfolding within
  priority_due_score max_latency r = within max_latency r.next_check_at (latency_index_score r)

  pub latency_index_score-none :
      (r : ProxyRecord fl) → is_available r.state ≡ false → latency_index_score r ≡ none
  unfolding latency_index_score
  latency_index_score-none r h = ground arith

  pub priority_due_score-none :
      (max_latency : Float) (r : ProxyRecord fl)
      → latency_index_score r ≡ none
      → priority_due_score max_latency r ≡ none
  unfolding priority_due_score
  priority_due_score-none max_latency r h = ground arith

  pub latency_index_score-finite :
      (r : ProxyRecord fl) (v : Float) → latency_index_score r ≡ some v → is_finite v ≡ true
  unfolding latency_index_score finite_latency
  latency_index_score-finite r v h = elim (Option-cases r.latency_ewma_ms) [
    | inl nothing ↦ absurd (ground (arith, nothing, h))
    | inr (w, has) ↦ ground (arith, has, h)
  ]
