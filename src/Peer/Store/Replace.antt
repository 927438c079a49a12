-- ===== src/Peer/Store/Replace.antt =====
-- `replace` and REPLACE: a snapshot of the peer takes the place of what was cached.
use ip_proxy_pool.Base.{
  ℕ, ◌+◌, ◌-◌, min, Bool, true, false, not, ◌&&◌, ◌||◌, Option, none, some, List, [], ◌∷◌, String,
  map, leb, ltb, ◌==◌, str_eq, elem, length, if◌then◌else◌,
}
use ip_proxy_pool.Models.{Floats, seconds}
use ip_proxy_pool.Storage.Server.{Result, ok, value_error, ◌>>=◌, ◌>>◌, require}
use ip_proxy_pool.Peer.Policy.{SelectionEvidence, accepts}
use ip_proxy_pool.Peer.Store.{
  PeerServer, Cache, PeerCacheStore, PeerCacheRecord, Value, suppressed, is_blocked,
}
use ip_proxy_pool.Peer.Store.Sync.{is_held_by}

pub record ReplaceResult : Type 0 where
  pub accepted : ℕ
  pub filtered : ℕ
  pub suppressed : ℕ
  pub stale_generation : Bool

abbrev pub stale : ReplaceResult
stale = record { accepted = 0; filtered = 0; suppressed = 0; stale_generation = true }

abbrev pub no_values : ReplaceResult
no_values = record { accepted = 0; filtered = 0; suppressed = 0; stale_generation = false }

abbrev are_distinct : List String → Bool
are_distinct [] = true
are_distinct (k ∷ ks) = not (elem k ks) && are_distinct ks

module _ (fl : Floats) (sv : PeerServer fl) where
  open sv use {Raw, hashes, deadlines}

  -- The suppressions that are over are dropped.
  unfoldable pub prune : List String → Cache fl sv → Cache fl sv
  prune [] s = s
  prune (k ∷ ks) s = prune ks (record s {
    suppression = hashes.hdel k s.suppression;
    suppression_expiry = deadlines.zrem k s.suppression_expiry;
  })

  abbrev pub keep : Raw → (v : Value fl) → Cache fl sv → Cache fl sv
  keep raw v s = record s {
    records = hashes.hset v.item.endpoint raw s.records;
    expiry = deadlines.zadd v.item.endpoint v.expires_epoch s.expiry;
  }

  -- One value of the snapshot.
  abbrev pub accept :
      (now : ℕ)
      → (is_formal : String → Bool) → Raw
      → ReplaceResult × Cache fl sv
      → ReplaceResult × Cache fl sv
  accept now is_formal raw (n, s) =
      let v = sv.decode_value raw in
      if leb v.expires_epoch now || is_formal v.item.endpoint
      then (record n { filtered = n.filtered + 1 }, s)
      else if is_blocked now v.checked_epoch (suppressed fl sv v.item.endpoint s)
      then (record n { suppressed = n.suppressed + 1 }, s)
      else (record n { accepted = n.accepted + 1 }, keep raw v s)

  unfoldable pub accept_all :
      (now : ℕ)
      → (is_formal : String → Bool) → List Raw
      → ReplaceResult × Cache fl sv
      → ReplaceResult × Cache fl sv
  accept_all now is_formal [] ns = ns
  accept_all now is_formal (raw ∷ raws) ns =
      accept_all now is_formal raws (accept now is_formal raw ns)

  -- The end of the script: the hash `state` and the lock.
  abbrev pub finish_sync : (now : ℕ) → ReplaceResult × Cache fl sv → ReplaceResult × Cache fl sv
  finish_sync now (n, s) = (
    n,
    record s {
      state = record s.state {
        last_attempt_at = some now;
        last_success_at = some now;
        heartbeat_at = some now;
        accepted = n.accepted;
        consecutive_failures = 0;
        last_outcome = some "success";
      };
      lock = none;
    },
  )

  -- The script starts over with no record.
  abbrev pub emptied : (now : ℕ) → Cache fl sv → Cache fl sv
  emptied now s =
      let s' = prune (deadlines.zrange_until now s.suppression_expiry) s in
      record s' { records = sv.no_fields; expiry = deadlines.no_deadlines }

  -- REPLACE.
  unfoldable pub replace_script :
      (clock generation : ℕ)
      → (owner : String) → (now : ℕ) → (is_formal : String → Bool) → List Raw
      → Cache fl sv
      → ReplaceResult × Cache fl sv
  replace_script clock generation owner now is_formal raws s =
      if not (s.generation == generation && is_held_by clock s.lock owner generation)
      then (stale, s)
      else finish_sync now (accept_all now is_formal raws (no_values, emptied now s))

  abbrev pub evidence : PeerCacheRecord fl → SelectionEvidence fl
  evidence r = record {
    domain = r.domain;
    score = r.score;
    latency_ewma_ms = some r.latency_ewma_ms;
    last_checked_at = some r.last_checked_at;
    consecutive_successes = r.consecutive_successes;
    expires_at = some r.expires_at;
  }

  -- When what is cached of a record expires.
  abbrev pub expires_at : PeerCacheStore fl sv → PeerCacheRecord fl → ℕ
  expires_at st r =
      min (min r.expires_at (r.synced_at + seconds st.cache_ttl))
        (r.last_checked_at + seconds st.policy.max_checked_age_seconds - seconds 5)

  abbrev is_origin : Option String → String → Bool
  is_origin none node = true
  is_origin (some wanted) node = str_eq node wanted

  -- The tests of an item that raise.
  abbrev is_sound : PeerCacheStore fl sv → (now : ℕ) → PeerCacheRecord fl → Bool
  is_sound st now r =
      ((str_eq r.domain st.domain && str_eq r.peer_name st.peer_name)
        && is_origin st.origin_node r.origin_node)
      && leb r.synced_at (now + seconds 5)

  abbrev value_of : PeerCacheStore fl sv → PeerCacheRecord fl → Value fl
  value_of st r = record {
    item = r;
    checked_epoch = r.last_checked_at;
    expires_epoch = expires_at st r;
  }

  abbrev pub add_value :
      PeerCacheStore fl sv → (now : ℕ) → PeerCacheRecord fl → List Raw × ℕ → List Raw × ℕ
  add_value st now r (raws, filtered) =
      if not (accepts fl (evidence r) st.policy now) || leb (expires_at st r) now
      then (raws, filtered + 1)
      else (sv.encode_value (value_of st r) ∷ raws, filtered)

  -- The loop over the snapshot: what is sent to the script, and how many are not.
  unfoldable pub encode_all :
      PeerCacheStore fl sv → (now : ℕ) → List (PeerCacheRecord fl) → Result (List Raw × ℕ)
  encode_all st now [] = ok ([], 0)
  encode_all st now (r ∷ rs) = do
    require (is_sound st now r)
    rest ← encode_all st now rs
    ok (add_value st now r rest)

  abbrev pub add_filtered : ℕ → ReplaceResult × Cache fl sv → ReplaceResult × Cache fl sv
  add_filtered filtered (n, s) = (record n { filtered = filtered + n.filtered }, s)

  unfoldable pub replace :
      PeerCacheStore fl sv
      → List (PeerCacheRecord fl)
      → (generation : Option ℕ) → (lock_owner : String) → (clock now : ℕ)
      → (is_formal : String → Bool) → Cache fl sv
      → Result (ReplaceResult × Cache fl sv)
  replace st snapshot none lock_owner clock now is_formal s = value_error
  replace st snapshot (some generation) lock_owner clock now is_formal s = do
    require (ltb 0 generation && not (str_eq lock_owner ""))
    require (leb (length snapshot) 20)
    require (are_distinct (map (λ r. r.endpoint) snapshot))
    (raws, filtered) ← encode_all st now snapshot
    ok (add_filtered filtered (replace_script clock generation lock_owner now is_formal raws s))
