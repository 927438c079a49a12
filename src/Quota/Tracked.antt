-- ===== src/Quota/Tracked.antt =====
-- The grants of the last minute are in the window.
use ip_proxy_pool.Base.{
  ℕ, ◌+◌, ◌≤◌, ◌<◌, ◌≡◌, refl, Bool, true, false, ◌&&◌, some, List, [], ◌∷◌, String, ltb,
  if◌then◌else◌, elem, arith, inl, inr, Bool-cases, eq_iff, str_eq,
}
use ip_proxy_pool.Redis.{HashCommands, WindowCommands}
use ip_proxy_pool.Quota.Defs.{Quota, unexpired, cleaned, exists, restarted}

-- Less than a minute old, and granted after the server's start.
abbrev pub is_live : (now boot : ℕ) → ℕ → Bool
is_live now boot s = ltb now (s + 60000) && ltb boot s

-- The attempts of the live grants.
unfoldable pub live : (now boot : ℕ) → List (String × ℕ) → List String
live now boot [] = []
live now boot ((k, s) ∷ gs) =
    let rest = live now boot gs in if is_live now boot s then k ∷ rest else rest

elem-live-later :
    (k : String) (t now boot : ℕ) (gs : List (String × ℕ))
    → t ≤ now
    → elem k (live t boot gs) ≡ false
    → elem k (live now boot gs) ≡ false
unfolding live
elem-live-later k t now boot [] le e = e
elem-live-later k t now boot ((j, s) ∷ gs) le e =
    ground (arith, le, e, elem-live-later k t now boot gs le)

module _ (wc : WindowCommands) (hc : HashCommands ℕ) where
  open wc use {Window, empty, zscore, zadd, zcard, zrem_older, lowest}
  open hc use {hget, hset}

  -- A live grant of `k` at `s`: the window has it, and neither key expires too early.
  pub record IsIn (q : Quota wc hc) (k : String) (s : ℕ) : Type 0 where
    pub scored : zscore k q.window ≡ some s
    pub lasting : s + 120000 ≤ q.window_until
    pub marked : hget k q.attempts ≡ some (s + 600000)

  abbrev pub Tracked : Quota wc hc → ℕ → List (String × ℕ) → Type 0
  Tracked q t [] = Unit
  Tracked q t ((k, s) ∷ gs) =
      (s ≤ t)
      × (is_live t q.booted_at s ≡ true → IsIn q k s × (elem k (live t q.booted_at gs) ≡ false))
      × Tracked q t gs

  pub Tracked-later :
      (q : Quota wc hc) (t now : ℕ) (gs : List (String × ℕ))
      → t ≤ now
      → Tracked q t gs
      → Tracked q now gs
  Tracked-later q t now [] le h = tt
  Tracked-later q t now ((k, s) ∷ gs) le (past, here_, rest) = (
    omega (arith, le, past),
    λ l.
        let (inside, once) = here_ (ground (arith, le, l)) in
        (inside, elem-live-later k t now q.booted_at gs le once),
    Tracked-later q t now gs le rest,
  )

  -- From one state to the next: what a live grant has in the first, it has in the second.
  abbrev pub Carries : ℕ → Quota wc hc → Quota wc hc → Type 0
  Carries now q q' = (k : String) (s : ℕ) → s ≤ now → now < s + 60000 → IsIn q k s → IsIn q' k s

  pub Tracked-carried :
      (q q' : Quota wc hc) (now : ℕ) (gs : List (String × ℕ))
      → q'.booted_at ≡ q.booted_at
      → Carries now q q'
      → Tracked q now gs
      → Tracked q' now gs
  Tracked-carried q q' now [] same carry h = tt
  Tracked-carried q q' now ((k, s) ∷ gs) same carry (past, here_, rest) = (
    past,
    λ l.
        let (inside, once) = here_ (rw same at l) in
        (carry k s past (ground (arith, l)) inside, rw same once),
    Tracked-carried q q' now gs same carry rest,
  )

  -- After a restart no grant is live.
  pub Tracked-restarted :
      (kept_attempts : hc.Hash) (q : Quota wc hc) (t now : ℕ) (gs : List (String × ℕ))
      → t ≤ now
      → Tracked q t gs
      → Tracked (restarted wc hc kept_attempts now) now gs
  Tracked-restarted kept_attempts q t now [] le h = tt
  Tracked-restarted kept_attempts q t now ((k, s) ∷ gs) le (past, here_, rest) = (
    omega (arith, le, past),
    λ l. absurd (ground (arith, l, le, past)),
    Tracked-restarted kept_attempts q t now gs le rest,
  )

  pub cleaned-Carries : (now : ℕ) (q : Quota wc hc) → Carries now q (cleaned wc hc now q)
  cleaned-Carries now q k s past young i = record {
    scored =
        wc.zrem_older_kept k s 60000 now (unexpired wc hc now q)
          (ground (arith, young, i.lasting, i.scored)) young;
    lasting = i.lasting;
    marked = i.marked;
  }

  -- What a fresh grant makes of the cleaned state.
  abbrev pub added : ℕ → String → Quota wc hc → Quota wc hc
  added now attempt c = record c {
    window = zadd attempt now c.window;
    window_until = now + 120000;
    attempts = hset attempt (now + 600000) c.attempts;
  }

  exists-false :
      (now : ℕ) (attempt k : String) (s : ℕ) (q : Quota wc hc)
      → exists wc hc now attempt q ≡ false
      → now < s + 60000
      → IsIn q k s
      → str_eq attempt k ≡ false
  unfolding exists
  exists-false now attempt k s q free young i =
      ground (arith, free, young, i.marked, eq_iff attempt k)

  pub added-Carries :
      (now : ℕ) (attempt : String) (q : Quota wc hc)
      → exists wc hc now attempt q ≡ false
      → Carries now q (added now attempt q)
  added-Carries now attempt q free k s past young i =
      let other = exists-false now attempt k s q free young i in
      record {
        scored = ground (arith, other, i.scored, wc.zscore-zadd k attempt now q.window);
        lasting = omega (arith, past);
        marked = ground (arith, other, i.marked, hc.hget-hset k attempt (now + 600000) q.attempts);
      }

  pub elem-live-free :
      (now : ℕ) (attempt : String) (q : Quota wc hc) (gs : List (String × ℕ))
      → exists wc hc now attempt q ≡ false
      → Tracked q now gs
      → elem attempt (live now q.booted_at gs) ≡ false
  unfolding live
  elem-live-free now attempt q [] free h = refl
  elem-live-free now attempt q ((k, s) ∷ gs) free (past, here_, rest) =
      let others = elem-live-free now attempt q gs free rest in
      elim (Bool-cases (is_live now q.booted_at s)) [
        | inl l ↦
            let other = exists-false now attempt k s q free (ground (arith, l)) (here_ l).0 in
            ground (arith, l, others, other, eq_iff attempt k, eq_iff k attempt)
        | inr dead ↦ ground (arith, dead, others)
      ]
