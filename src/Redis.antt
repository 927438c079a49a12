-- ===== src/Redis.antt =====
-- The Redis server, which the program calls and does not implement: the commands that its scripts
-- use on hashes and sorted sets, with the documented behaviour of each.
use ip_proxy_pool.Base.{
  ℕ, ◌≤◌, ◌<◌, ◌≡◌, Bool, true, Option, none, some, List, String, str_eq, if◌then◌else◌, length,
  elem, All, is_some, IsDistinct, ◌+◌, ltb,
}

-- A hash: field to value.
pub record HashCommands (V : Type 0) : Type 1 where
  pub Hash : Type 0
  pub hget : String → Hash → Option V
  pub hset : String → V → Hash → Hash
  pub hdel : String → Hash → Hash
  pub hget-hset :
      (j k : String) (v : V) (h : Hash)
      → hget j (hset k v h) ≡ (if str_eq k j then some v else hget j h)
  pub hget-hdel :
      (j k : String) (h : Hash) → hget j (hdel k h) ≡ (if str_eq k j then none else hget j h)

-- A sorted set: member to score. `zrange_upto max n z` is ZRANGEBYSCORE from -inf to `max`, with
-- LIMIT 0 n: members whose score is at most `max`, at most n of them, and all when there are fewer
-- than n.
pub record SetCommands (S : Type 0) (leb_score : S → S → Bool) : Type 1 where
  pub ZSet : Type 0
  pub zscore : String → ZSet → Option S
  pub zadd : String → S → ZSet → ZSet
  pub zrem : String → ZSet → ZSet
  pub zrange_upto : S → ℕ → ZSet → List String
  pub zscore-zadd :
      (j k : String) (s : S) (z : ZSet)
      → zscore j (zadd k s z) ≡ (if str_eq k j then some s else zscore j z)
  pub zscore-zrem :
      (j k : String) (z : ZSet) → zscore j (zrem k z) ≡ (if str_eq k j then none else zscore j z)
  pub zrange_upto_sound :
      (k : String) (limit : S) (n : ℕ) (z : ZSet)
      → elem k (zrange_upto limit n z) ≡ true
      → (s : S) × (zscore k z ≡ some s) × (leb_score s limit ≡ true)
  pub length-zrange_upto-le : (limit : S) (n : ℕ) (z : ZSet) → length (zrange_upto limit n z) ≤ n
  pub zrange_upto_complete :
      (k : String) (s limit : S) (n : ℕ) (z : ZSet)
      → zscore k z ≡ some s
      → leb_score s limit ≡ true
      → length (zrange_upto limit n z) < n
      → elem k (zrange_upto limit n z) ≡ true

-- A sorted set of times by ZADD, ZCARD, ZREMRANGEBYSCORE and ZRANGE 0 0. `zrem_older age now z` is
-- ZREMRANGEBYSCORE from -inf to `now - age`, a score that may be negative.
pub record WindowCommands : Type 1 where
  pub Window : Type 0
  pub empty : Window
  pub zscore : String → Window → Option ℕ
  pub zadd : String → ℕ → Window → Window
  pub zcard : Window → ℕ
  pub zrem_older : (age now : ℕ) → Window → Window
  pub lowest : Window → Option ℕ
  pub zscore-zadd :
      (j k : String) (s : ℕ) (z : Window)
      → zscore j (zadd k s z) ≡ (if str_eq k j then some s else zscore j z)
  pub zrem_older_kept :
      (k : String) (s age now : ℕ) (z : Window)
      → zscore k z ≡ some s
      → now < s + age
      → zscore k (zrem_older age now z) ≡ some s
  pub zcard_members :
      (ks : List String) (z : Window)
      → IsDistinct ks
      → All (λ k. is_some (zscore k z) ≡ true) ks
      → length ks ≤ zcard z
  pub lowest-none : (z : Window) → lowest z ≡ none → zcard z ≡ 0

-- A sorted set of deadlines. `zrange_until max z` is ZRANGEBYSCORE from -inf to `max`,
-- `zrange_after min z` is ZRANGEBYSCORE from `(min` to +inf, and `zrem_before age now z` is
-- ZREMRANGEBYSCORE from -inf to `(now - age`.
pub record DeadlineCommands : Type 1 where
  pub Deadlines : Type 0
  pub no_deadlines : Deadlines
  pub zscore : String → Deadlines → Option ℕ
  pub zadd : String → ℕ → Deadlines → Deadlines
  pub zrem : String → Deadlines → Deadlines
  pub zrange_until : ℕ → Deadlines → List String
  pub zrange_after : ℕ → Deadlines → List String
  pub zrem_before : (age now : ℕ) → Deadlines → Deadlines
  pub zscore-zadd :
      (j k : String) (s : ℕ) (z : Deadlines)
      → zscore j (zadd k s z) ≡ (if str_eq k j then some s else zscore j z)
  pub zscore-zrem :
      (j k : String) (z : Deadlines)
      → zscore j (zrem k z) ≡ (if str_eq k j then none else zscore j z)
  pub zrange_until_sound :
      (k : String) (limit : ℕ) (z : Deadlines)
      → elem k (zrange_until limit z) ≡ true
      → (s : ℕ) × (zscore k z ≡ some s) × (s ≤ limit)

-- Keys that expire: what a key holds at a time of the server's clock, SET with EX or PX, and PTTL.
pub record KeyCommands (V : Type 0) : Type 1 where
  pub Keys : Type 0
  pub get : (clock : ℕ) → String → Keys → Option V
  pub set_px : (clock : ℕ) → String → V → (ttl : ℕ) → Keys → Keys
  pub pttl : (clock : ℕ) → String → Keys → ℕ
  pub get-set_px :
      (at clock : ℕ) (j k : String) (v : V) (ttl : ℕ) (keys : Keys)
      → clock ≤ at
      → get at j (set_px clock k v ttl keys)
        ≡ (if str_eq k j then (if ltb at (clock + ttl) then some v else none) else get at j keys)
