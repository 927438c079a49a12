-- ===== src/Storage/Select/Reason.antt =====
-- `_selection_skip_reason`.
use ip_proxy_pool.Base.{ℕ, Bool, true, false, not, ◌||◌, Option, none, some, ltb, if◌then◌else◌}
use ip_proxy_pool.Models.{Floats, ProxyRecord}
use ip_proxy_pool.Storage.Index.{latency_index_score}

pub data SkipReason : Type 0 where
  inconsistent score successes freshness : SkipReason

-- A check before the limit, or none at all.
abbrev pub is_old : Option ℕ → Option ℕ → Bool
is_old none checked = false
is_old (some after) none = true
is_old (some after) (some at) = ltb at after

module _ (fl : Floats) where
  open fl use {Float, leb_float, is_close}

  pub record Criteria : Type 0 where
    pub min_score : ℕ
    pub max_latency_ms : Option Float
    pub checked_after : Option ℕ
    pub min_consecutive_successes : ℕ

  abbrev pub is_above : Option Float → Float → Bool
  is_above none v = false
  is_above (some m) v = not (leb_float v m)

  -- The record's own latency does not bear out the index.
  abbrev pub is_inconsistent : Option Float → Float → Option Float → Bool
  is_inconsistent bound indexed none = true
  is_inconsistent bound indexed (some v) = not (is_close v indexed) || is_above bound v

  unfoldable pub skip_reason : ProxyRecord fl → (indexed : Float) → Criteria → Option SkipReason
  skip_reason r indexed c =
      if is_inconsistent c.max_latency_ms indexed (latency_index_score fl r)
      then some inconsistent
      else if ltb r.score c.min_score
      then some score
      else if ltb r.consecutive_successes c.min_consecutive_successes
      then some successes
      else if is_old c.checked_after r.last_checked_at
      then some freshness
      else none
