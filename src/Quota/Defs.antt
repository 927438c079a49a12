-- ===== src/Quota/Defs.antt =====
-- The keys of one domain's quota, the script ACQUIRE over them, and the runs of the server. Times
-- are the milliseconds of the Redis clock.
use ip_proxy_pool.Base.{
  ℕ, ◌+◌, ◌-◌, ◌/◌, ◌≤◌, ◌≡◌, max, Bool, true, false, Option, none, some, List, [], ◌∷◌, String,
  ltb, if◌then◌else◌,
}
use ip_proxy_pool.Redis.{HashCommands, WindowCommands}

-- What a client is told.
pub record QuotaDecision : Type 0 where
  pub granted : Bool
  pub retry_after_ms : ℕ
  pub remaining : ℕ
  pub unavailable : Bool

abbrev is_running : (now : ℕ) → Option ℕ → Bool
is_running now none = false
is_running now (some until) = ltb now until

module _ (wc : WindowCommands) (hc : HashCommands ℕ) where
  open wc use {Window, empty, zadd, zcard, zrem_older, lowest}
  open hc use {hget, hset}

  -- The window with the time at which its key expires, by attempt the time at which its key
  -- expires, and the time of the server's start.
  pub record Quota : Type 0 where
    pub window : Window
    pub window_until : ℕ
    pub attempts : hc.Hash
    pub booted_at : ℕ

  -- What the window's key holds: an expired key is an empty set.
  abbrev pub unexpired : (now : ℕ) → Quota → Window
  unexpired now q = if ltb now q.window_until then q.window else empty

  -- `EXISTS` on the attempt's key.
  unfoldable pub exists : (now : ℕ) → (attempt : String) → Quota → Bool
  exists now attempt q = is_running now (hget attempt q.attempts)

  -- ZREMRANGEBYSCORE of what is a minute old.
  abbrev pub cleaned : (now : ℕ) → Quota → Quota
  cleaned now q = record q { window = zrem_older 60000 now (unexpired now q) }

  abbrev refuse : (now : ℕ) → Option ℕ → Quota → Option (QuotaDecision × Quota)
  refuse now none q = none
  refuse now (some oldest) q = some (
    record {
      granted = false;
      retry_after_ms = max 1 (oldest + 60000 - now);
      remaining = 0;
      unavailable = false;
    },
    q,
  )

  -- ACQUIRE and the decision that `acquire` reads from its reply; `none` is an error of the script.
  unfoldable pub acquire :
      (minimum_uptime now : ℕ) → (attempt : String) → Quota → Option (QuotaDecision × Quota)
  unfolding exists
  acquire minimum_uptime now attempt q =
      let c = cleaned now q in
      let count = zcard c.window in
      let grant : ℕ → QuotaDecision = λ left. record {
        granted = true;
        retry_after_ms = 0;
        remaining = left;
        unavailable = false;
      } in
      if ltb ((now - q.booted_at) / 1000) minimum_uptime
      then some
          (record { granted = false; retry_after_ms = 0; remaining = 0; unavailable = true }, q)
      else if exists now attempt q
      then some (grant (5 - count), c)
      else if ltb count 5
      then some (
        grant (4 - count),
        record c {
          window = zadd attempt now c.window;
          window_until = now + 120000;
          attempts = hset attempt (now + 600000) c.attempts;
        },
      )
      else refuse now (lowest c.window) c

  -- The state of a server that has started at `now` with an empty window, whatever attempts it has
  -- kept.
  abbrev pub restarted : (kept_attempts : hc.Hash) → (now : ℕ) → Quota
  restarted kept_attempts now = record {
    window = empty;
    window_until = 0;
    attempts = kept_attempts;
    booted_at = now;
  }

  -- What clients and the server do, one after the other, to the time: `gs` are the attempts that
  -- were granted anew, with their times, the last first.
  pub data Run (minimum_uptime : ℕ) : (gs : List (String × ℕ)) → Quota → ℕ → Type 0 where
    boots :
        (kept_attempts : hc.Hash) (now : ℕ)
        → Run minimum_uptime [] (restarted kept_attempts now) now
    restarts :
        {gs : List (String × ℕ)} {q : Quota} {t : ℕ} (kept_attempts : hc.Hash) (now : ℕ)
        → Run minimum_uptime gs q t
        → t ≤ now
        → Run minimum_uptime gs (restarted kept_attempts now) now
    grants :
        {gs : List (String × ℕ)} {q q' : Quota} {t : ℕ} (now : ℕ) (attempt : String)
        (d : QuotaDecision)
        → Run minimum_uptime gs q t
        → t ≤ now
        → exists now attempt q ≡ false
        → acquire minimum_uptime now attempt q ≡ some (d, q')
        → d.granted ≡ true
        → Run minimum_uptime ((attempt, now) ∷ gs) q' now
    repeats :
        {gs : List (String × ℕ)} {q q' : Quota} {t : ℕ} (now : ℕ) (attempt : String)
        (d : QuotaDecision)
        → Run minimum_uptime gs q t
        → t ≤ now
        → exists now attempt q ≡ true
        → acquire minimum_uptime now attempt q ≡ some (d, q')
        → Run minimum_uptime gs q' now
    refuses :
        {gs : List (String × ℕ)} {q q' : Quota} {t : ℕ} (now : ℕ) (attempt : String)
        (d : QuotaDecision)
        → Run minimum_uptime gs q t
        → t ≤ now
        → acquire minimum_uptime now attempt q ≡ some (d, q')
        → d.granted ≡ false
        → Run minimum_uptime gs q' now
