-- ===== src/Peer/Store.antt =====
-- peer_cache/store.py and peer_cache/lua.py: what is cached of one peer's proxies, and the keys of
-- the server that hold it. A time is a number of microseconds; `clock` is the server's own time.
pub mod Sync
pub mod Replace
pub mod Choice
pub mod Failure
pub mod Steps
pub mod Frames
pub mod Fencing
pub mod Chosen
pub mod Counted
pub mod Cooldown
pub mod Blocked
use ip_proxy_pool.Base.{
  ℕ, ◌≤◌, ◌≡◌, Bool, Option, List, String, min, max, leb, ltb, str_eq, ◌&&◌, ◌||◌, ◌+◌,
}
use ip_proxy_pool.Models.{Floats, seconds}
use ip_proxy_pool.Redis.{HashCommands, DeadlineCommands, KeyCommands}
use ip_proxy_pool.Peer.Policy.{SelectionPolicy, effective_peer_policy}
use ip_proxy_pool.Storage.Server.{Result, ok, value_error, ◌>>=◌, ◌>>◌, require}

-- What the suppression key holds of an endpoint that failed.
pub record Failed : Type 0 where
  pub failed_at : ℕ
  pub failed_source_checked_at : ℕ
  pub blocked_until : ℕ

abbrev pub round_failed : (ℕ → ℕ) → Failed → Failed
round_failed rounded f = record {
  failed_at = rounded f.failed_at;
  failed_source_checked_at = rounded f.failed_source_checked_at;
  blocked_until = rounded f.blocked_until;
}

module _ (fl : Floats) where
  open fl use {Float}

  pub record PeerCacheRecord : Type 0 where
    pub endpoint : String
    pub domain : String
    pub score : ℕ
    pub latency_ewma_ms : Float
    pub last_checked_at : ℕ
    pub consecutive_successes : ℕ
    pub source_names : List String
    pub peer_name : String
    pub origin_node : String
    pub synced_at : ℕ
    pub expires_at : ℕ

  -- The JSON of a record with the two epochs that `replace` adds.
  pub record Value : Type 0 where
    pub item : PeerCacheRecord
    pub checked_epoch : ℕ
    pub expires_epoch : ℕ

  pub record SelectionReceipt : Type 0 where
    pub digest : String
    pub principal_fingerprint : String
    pub domain : String
    pub endpoint : String
    pub selection_source : String
    pub peer_name : Option String
    pub source_checked_at : ℕ
    pub snapshot : PeerCacheRecord
    pub issued_at : ℕ
    pub expires_at : ℕ
    pub failure_applied : Bool

  -- The server, and the JSON that it stores. The scripts' cjson writes numbers with 14 digits, so
  -- that a time of ten digits before the point is rounded to a multiple of 100 microseconds.
  pub record PeerServer : Type 1 where
    pub Raw : Type 0
    pub encode_value : Value → Raw
    pub decode_value : Raw → Value
    pub encode_failed : Failed → Raw
    pub decode_failed : Raw → Failed
    pub encode_receipt : SelectionReceipt → Raw
    pub decode_receipt : Raw → SelectionReceipt
    pub rounded : ℕ → ℕ
    pub rounded_float : Float → Float
    pub rounded_near : (t : ℕ) → t ≤ rounded t + 50
    pub decode-encode_failed :
        (f : Failed) → decode_failed (encode_failed f) ≡ round_failed rounded f
    pub hashes : HashCommands Raw
    pub no_fields : hashes.Hash
    pub hget-no_fields : (k : String) → hashes.hget k no_fields ≡ Option.none
    pub deadlines : DeadlineCommands
    pub keys : KeyCommands Raw

-- The lock of a sync: the text `owner:generation`, by its two parts, and when it expires.
pub record Lock : Type 0 where
  pub owner : String
  pub generation : ℕ
  pub deadline : ℕ

-- The hash `state`.
pub record SyncState : Type 0 where
  pub last_attempt_at : Option ℕ
  pub last_success_at : Option ℕ
  pub heartbeat_at : Option ℕ
  pub accepted : ℕ
  pub consecutive_failures : ℕ
  pub last_outcome : Option String
  pub api_store_failures : ℕ

module _ (fl : Floats) (sv : PeerServer fl) where
  open sv use {hashes, deadlines, keys}

  -- `PeerCacheKeys`. A generation that was never counted is 0.
  pub record Cache : Type 0 where
    pub generation : ℕ
    pub lock : Option Lock
    pub records : hashes.Hash
    pub expiry : deadlines.Deadlines
    pub suppression : hashes.Hash
    pub suppression_expiry : deadlines.Deadlines
    pub receipts : keys.Keys
    pub evictions : deadlines.Deadlines
    pub state : SyncState

  -- The fields of `PeerCacheStore`.
  pub record PeerCacheStore : Type 0 where
    pub peer_name : String
    pub domain : String
    pub policy : SelectionPolicy fl
    pub cache_ttl : ℕ
    pub cooldown : ℕ
    pub origin_node : Option String

  -- `__init__`: a policy that the caller configured, or the default of 90, 2000 ms, 600 s and 2.
  unfoldable pub new_store :
      (peer_name domain : String)
      → (configured : SelectionPolicy fl) → (cache_ttl_seconds cooldown_seconds : ℕ)
      → (origin_node : Option String) → Result PeerCacheStore
  new_store peer_name domain configured cache_ttl_seconds cooldown_seconds origin_node = do
    policy ← effective_peer_policy fl configured configured configured
    require (leb 1 cache_ttl_seconds && leb 1 cooldown_seconds)
    ok (record {
      peer_name = peer_name;
      domain = domain;
      policy = policy;
      cache_ttl = min cache_ttl_seconds 180;
      cooldown = max cooldown_seconds 600;
      origin_node = origin_node;
    })

  abbrev pub failure_of : Option sv.Raw → Option Failed
  failure_of Option.none = Option.none
  failure_of (Option.some raw) = Option.some (sv.decode_failed raw)

  -- What is known of a failure of an endpoint.
  abbrev pub suppressed : String → Cache → Option Failed
  suppressed k s = failure_of (hashes.hget k s.suppression)

-- `blocked` in REPLACE and SELECT: in the cooldown, or on evidence that is not newer than the
-- failure.
unfoldable pub is_blocked : (now checked_epoch : ℕ) → Option Failed → Bool
is_blocked now checked_epoch Option.none = Bool.false
is_blocked now checked_epoch (Option.some f) =
    ltb now f.blocked_until
    || leb checked_epoch (max f.failed_source_checked_at (f.failed_at + seconds 5))
