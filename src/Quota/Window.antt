-- ===== src/Quota/Window.antt =====
-- The quota holds over every minute.
use ip_proxy_pool.Base.{
  ℕ, ◌+◌, ◌-◌, ◌/◌, ◌≤◌, ◌<◌, ◌≡◌, refl, sym, subst, true, false, ◌&&◌, none, some, List, [], ◌∷◌,
  String, leb, ltb, if◌then◌else◌, arith, inl, inr, Bool-cases, All, is_some, IsDistinct,
  Option-cases, length, ◌⊎◌, eq_refl, ◌≢◌,
}
use ip_proxy_pool.Redis.{HashCommands, WindowCommands}
use ip_proxy_pool.Quota.Defs.{
  QuotaDecision, Quota, cleaned, exists, acquire, Run, boots, restarts, grants, repeats, refuses,
}
use ip_proxy_pool.Quota.Tracked.{
  live, is_live, Tracked, IsIn, added, Tracked-later, Tracked-carried, Tracked-restarted,
  cleaned-Carries, added-Carries, elem-live-free,
}

-- The grants from `at` on, for a minute.
unfoldable pub granted_in : (at : ℕ) → List (String × ℕ) → ℕ
granted_in at [] = 0
granted_in at ((k, s) ∷ gs) =
    let rest = granted_in at gs in if leb at s && ltb s (at + 60000) then 1 + rest else rest

granted_in-live-le :
    (at now boot : ℕ) (gs : List (String × ℕ))
    → at ≤ now
    → now < at + 60000
    → boot + 60000 ≤ now
    → granted_in at gs ≤ length (live now boot gs)
unfolding granted_in live
granted_in-live-le at now boot [] a b c = omega arith
granted_in-live-le at now boot ((k, s) ∷ gs) a b c =
    ground (arith, a, b, c, granted_in-live-le at now boot gs a b c)

module _ (wc : WindowCommands) (hc : HashCommands ℕ) where
  open wc use {zscore, zcard, lowest}

  live-IsDistinct :
      (q : Quota wc hc) (now : ℕ) (gs : List (String × ℕ))
      → Tracked wc hc q now gs
      → IsDistinct (live now q.booted_at gs)
        × All (λ k. is_some (zscore k q.window) ≡ true) (live now q.booted_at gs)
  unfolding live
  live-IsDistinct q now [] h = (tt, tt)
  live-IsDistinct q now ((k, s) ∷ gs) (past, here_, rest) =
      let (distinct, scored) = live-IsDistinct q now gs rest in
      elim (Bool-cases (is_live now q.booted_at s)) [
        | inl l ↦ rw l ((((here_ l).1, distinct), (ground (arith, (here_ l).0.scored), scored)))
        | inr dead ↦ rw dead (distinct, scored)
      ]

  length-live-le :
      (q : Quota wc hc) (now : ℕ) (gs : List (String × ℕ))
      → Tracked wc hc q now gs
      → length (live now q.booted_at gs) ≤ zcard q.window
  length-live-le q now gs h =
      let (distinct, scored) = live-IsDistinct q now gs h in
      wc.zcard_members (live now q.booted_at gs) q.window distinct scored

  acquire-cases :
      (minimum_uptime now : ℕ) (attempt : String) (q q' : Quota wc hc) (d : QuotaDecision)
      → acquire wc hc minimum_uptime now attempt q ≡ some (d, q')
      → ((q' ≡ q) × (d.granted ≡ false))
        ⊎ ((q' ≡ cleaned wc hc now q) × ((exists wc hc now attempt q ≡ true) ⊎ (d.granted ≡ false)))
        ⊎ ((q' ≡ added wc hc now attempt (cleaned wc hc now q))
            × (d.granted ≡ true)
            × (exists wc hc now attempt q ≡ false)
            × (zcard (cleaned wc hc now q).window < 5)
            × (minimum_uptime ≤ (now - q.booted_at) / 1000))
  unfolding acquire
  acquire-cases minimum_uptime now attempt q q' d e =
      elim (Option-cases (lowest (cleaned wc hc now q).window)) [
        | inl nothing ↦ ground (arith, nothing, e)
        | inr (oldest, seen) ↦ ground (arith, seen, e)
      ]

  abbrev IsKept : List (String × ℕ) → Quota wc hc → ℕ → Type 0
  IsKept gs q t = Tracked wc hc q t gs × ((at : ℕ) → granted_in at gs ≤ 5)

  exists-cleaned :
      (now : ℕ) (attempt : String) (q : Quota wc hc)
      → exists wc hc now attempt q ≡ false
      → exists wc hc now attempt (cleaned wc hc now q) ≡ false
  unfolding exists
  exists-cleaned now attempt q e = e

  IsIn-added :
      (now : ℕ) (attempt : String) (c : Quota wc hc)
      → IsIn wc hc (added wc hc now attempt c) attempt now
  IsIn-added now attempt c = record {
    scored = ground (arith, wc.zscore-zadd attempt attempt now c.window, eq_refl attempt);
    lasting = omega arith;
    marked =
        ground (arith, hc.hget-hset attempt attempt (now + 600000) c.attempts, eq_refl attempt);
  }

  Tracked-cleaned :
      (q : Quota wc hc) (t now : ℕ) (gs : List (String × ℕ))
      → t ≤ now
      → Tracked wc hc q t gs
      → Tracked wc hc (cleaned wc hc now q) now gs
  Tracked-cleaned q t now gs le h =
      Tracked-carried wc hc q (cleaned wc hc now q) now gs refl (cleaned-Carries wc hc now q)
        (Tracked-later wc hc q t now gs le h)

  Tracked-added :
      (c : Quota wc hc) (now : ℕ) (attempt : String) (gs : List (String × ℕ))
      → exists wc hc now attempt c ≡ false
      → Tracked wc hc c now gs
      → Tracked wc hc (added wc hc now attempt c) now ((attempt, now) ∷ gs)
  Tracked-added c now attempt gs free h = (
    omega arith,
    λ _. (IsIn-added now attempt c, elem-live-free wc hc now attempt c gs free h),
    Tracked-carried wc hc c (added wc hc now attempt c) now gs refl
        (added-Carries wc hc now attempt c free) h,
  )

  -- One more grant keeps within five in every minute, if there is room in the window.
  granted_in-added :
      (c : Quota wc hc) (now : ℕ) (attempt : String) (gs : List (String × ℕ))
      → Tracked wc hc c now gs
      → zcard c.window < 5
      → c.booted_at + 60000 ≤ now
      → (at : ℕ) → granted_in at gs ≤ 5
      → granted_in at ((attempt, now) ∷ gs) ≤ 5
  unfolding granted_in
  granted_in-added c now attempt gs h room up at before =
      let few : length (live now c.booted_at gs) < 5 =
        omega (arith, length-live-le c now gs h, room) in
      elim (Bool-cases (leb at now && ltb now (at + 60000))) [
        | inl inside ↦
            let counted : granted_in at gs ≤ length (live now c.booted_at gs) =
              granted_in-live-le at now c.booted_at gs (ground (arith, inside))
                (ground (arith, inside)) up in
            rw inside (omega (arith, few, counted))
        | inr outside ↦ rw outside before
      ]

  module _ (minimum_uptime : ℕ) (long : 60 ≤ minimum_uptime) where
    same-IsKept :
        (now t : ℕ) (attempt : String) (gs : List (String × ℕ)) (q q' : Quota wc hc)
        (d : QuotaDecision)
        → t ≤ now
        → acquire wc hc minimum_uptime now attempt q ≡ some (d, q')
        → (exists wc hc now attempt q ≡ true) ⊎ (d.granted ≡ false)
        → IsKept gs q t
        → IsKept gs q' now
    same-IsKept now t attempt gs q q' d le e old (h, five) =
        elim (acquire-cases minimum_uptime now attempt q q' d e) [
          | inl (same, _) ↦ (
            subst (λ p. Tracked wc hc p now gs) (sym same) (Tracked-later wc hc q t now gs le h),
            five,
          )
          | inr (inl (same, _)) ↦ (
            subst (λ p. Tracked wc hc p now gs) (sym same) (Tracked-cleaned q t now gs le h),
            five,
          )
          | inr (inr (_, new, fresh, _, _)) ↦ absurd (ground (arith, old, new, fresh))
        ]

    fresh-IsKept :
        (now t : ℕ) (attempt : String) (gs : List (String × ℕ)) (q q' : Quota wc hc)
        (d : QuotaDecision)
        → t ≤ now
        → exists wc hc now attempt q ≡ false
        → acquire wc hc minimum_uptime now attempt q ≡ some (d, q')
        → d.granted ≡ true
        → IsKept gs q t
        → IsKept ((attempt, now) ∷ gs) q' now
    fresh-IsKept now t attempt gs q q' d le free e new (h, five) =
        elim (acquire-cases minimum_uptime now attempt q q' d e) [
          | inl (_, refused) ↦ absurd (ground (arith, new, refused))
          | inr (inl (_, old)) ↦ absurd (ground (arith, old, new, free))
          | inr (inr (same, _, fresh, room, up)) ↦
              let c = cleaned wc hc now q in
              let kept = Tracked-cleaned q t now gs le h in
              let started : q.booted_at + 60000 ≤ now = omega (arith, up, long) in
              (
                subst (λ p. Tracked wc hc p now ((attempt, now) ∷ gs)) (sym same)
                    (Tracked-added c now attempt gs (exists-cleaned now attempt q free) kept),
                λ at. granted_in-added c now attempt gs kept room started at (five at),
              )
        ]

    Run-IsKept :
        (gs : List (String × ℕ)) (q : Quota wc hc) (t : ℕ)
        → Run wc hc minimum_uptime gs q t
        → IsKept gs q t
    unfolding granted_in
    Run-IsKept _ q _ (boots kept_attempts now) = (tt, λ at. omega arith)
    Run-IsKept gs q _ (restarts {q = q₀} {t} kept_attempts now r le) =
        let (h, five) = Run-IsKept gs q₀ t r in
        (Tracked-restarted wc hc kept_attempts q₀ t now gs le h, five)
    Run-IsKept _ q' _ (grants {gs} {q} {t = t} now attempt d r le free e new) =
        fresh-IsKept now t attempt gs q q' d le free e new (Run-IsKept gs q t r)
    Run-IsKept gs q' _ (repeats {q = q} {t = t} now attempt d r le old e) =
        same-IsKept now t attempt gs q q' d le e (inl old) (Run-IsKept gs q t r)
    Run-IsKept gs q' _ (refuses {q = q} {t = t} now attempt d r le e refused) =
        same-IsKept now t attempt gs q q' d le e (inr refused) (Run-IsKept gs q t r)

    -- If the server must be up for at least 60 seconds, no more than five attempts are granted
    -- anew in any 60 seconds, whatever clients ask for and repeat, and even when the server
    -- restarts in between and loses its window.
    pub at_most_five_a_minute :
        (gs : List (String × ℕ)) (q : Quota wc hc) (t at : ℕ)
        → Run wc hc minimum_uptime gs q t
        → granted_in at gs ≤ 5
    at_most_five_a_minute gs q t at r = (Run-IsKept gs q t r).1 at

  -- The script never fails: where it reads the oldest entry, there is one.
  pub acquire_decides :
      (minimum_uptime now : ℕ) (attempt : String) (q : Quota wc hc)
      → acquire wc hc minimum_uptime now attempt q ≢ none
  unfolding acquire
  acquire_decides minimum_uptime now attempt q =
      let c = cleaned wc hc now q in
      elim (Option-cases (lowest c.window)) [
        | inl nothing ↦ λ e. ground (arith, nothing, wc.lowest-none c.window nothing, e)
        | inr (oldest, seen) ↦ λ e. ground (arith, seen, e)
      ]
