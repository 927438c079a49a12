-- ===== src/Models.antt =====
-- models.py and checker/errors.py: proxy records and probe results. An endpoint is its canonical
-- text; a time is a number of microseconds since the epoch; a latency is a Python float, whose
-- operations are a parameter.
use ip_proxy_pool.Base.{ℕ, ◌*◌, ◌≡◌, Bool, true, Option, List, String}

-- What the program does with floats: comparisons, the finiteness test, and the moving average.
pub record Floats : Type 1 where
  pub Float : Type 0
  pub zero_ms : Float
  pub leb_float : Float → Float → Bool
  pub is_finite : Float → Bool
  pub add : Float → Float → Float
  pub mul : Float → Float → Float
  pub tenths : ℕ → Float
  pub is_close : Float → Float → Bool
  pub is_close_refl : (x : Float) → is_finite x ≡ true → is_close x x ≡ true

-- `timedelta(seconds=n)`.
abbrev pub seconds : ℕ → ℕ
seconds n = n * 1_000_000

pub data ProxyState : Type 0 where
  candidate available degraded quarantined : ProxyState

abbrev pub is_available : ProxyState → Bool
is_available ProxyState.available = true
is_available s = Bool.false

abbrev pub is_quarantined : ProxyState → Bool
is_quarantined ProxyState.quarantined = true
is_quarantined s = Bool.false

abbrev pub is_candidate : ProxyState → Bool
is_candidate ProxyState.candidate = true
is_candidate s = Bool.false

pub data ProbeCategory : Type 0 where
  success proxy_error system_error cancelled : ProbeCategory

module _ (fl : Floats) where
  open fl use {Float}

  pub record ProxyRecord : Type 0 where
    pub endpoint : String
    pub domain : String
    pub score : ℕ
    pub state : ProxyState
    pub source_names : List String
    pub first_seen_at : ℕ
    pub last_seen_at : ℕ
    pub last_checked_at : Option ℕ
    pub next_check_at : ℕ
    pub consecutive_successes : ℕ
    pub consecutive_failures : ℕ
    pub success_count : ℕ
    pub failure_count : ℕ
    pub latency_ewma_ms : Option Float
    pub last_status_code : Option ℕ
    pub last_error_type : Option String
    pub last_error_message : Option String

  pub record ProbeResult : Type 0 where
    pub category : ProbeCategory
    pub latency_ms : Option Float
    pub status_code : Option ℕ
    pub error_type : Option String
    pub error_message : Option String
