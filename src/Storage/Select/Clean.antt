-- ===== src/Storage/Select/Clean.antt =====
-- Which members the selection takes out of the index.
use ip_proxy_pool.Base.{
  ℕ, ◌≡◌, refl, ap, ◌∙◌, ◌≢◌, inl, inr, min, Bool, false, Option, none, some, List, [], ◌∷◌, arith,
  Option-cases, All, String,
}
use ip_proxy_pool.Models.{Floats, ProxyRecord}
use ip_proxy_pool.Storage.Server.{Server, Pool, stored}
use ip_proxy_pool.Storage.Sound.{IsSound}
use ip_proxy_pool.Storage.Index.{latency_index_score, latency_index_score-finite}
use ip_proxy_pool.Storage.Select.Reason.{
  Criteria, SkipReason, skip_reason, is_above, inconsistent, score, successes, freshness,
}
use ip_proxy_pool.Storage.Select.{
  answer, Replies, Indexed, Tally, ProxySelection, Request, decoded, inspect_record, judge, inspect,
  counted, select_random_proxies, selection, criteria_of, nothing_yet, zrem_stale,
  select_formal_export,
}
use ip_proxy_pool.Storage.Select.Counting.{both_segments-keeps}
use ip_proxy_pool.Storage.Select.Sound.{answer-cases}

module _ (fl : Floats) (sv : Server fl) where
  open sv use {hashes, latencies}

  -- A reply that tells what the pool has: the member's record, its place in the index, and a
  -- latency within the range that was asked for.
  pub record IsEntry (c : Criteria fl) (p : Pool fl sv) (i : Indexed fl sv) : Type 0 where
    pub raw : i.raw ≡ hashes.hget i.member p.records
    pub indexed : latencies.zscore i.member p.available_latency ≡ some i.latency
    pub in_range : is_above fl c.max_latency_ms i.latency ≡ false

  IsConsistent : Criteria fl → Indexed fl sv → Type 0
  IsConsistent c i =
      (r : ProxyRecord fl) × (decoded fl sv i.raw ≡ some r)
      × (skip_reason fl r i.latency c ≢ some inconsistent)

  skip_reason-consistent :
      (r : ProxyRecord fl) (v : fl.Float) (c : Criteria fl)
      → latency_index_score fl r ≡ some v
      → is_above fl c.max_latency_ms v ≡ false
      → skip_reason fl r v c ≢ some inconsistent
  unfolding skip_reason
  skip_reason-consistent r v c has low e =
      let near = fl.is_close_refl v (latency_index_score-finite fl r v has) in
      ground (arith, has, low, near, e)

  IsEntry-IsConsistent :
      (max_latency : fl.Float) (c : Criteria fl) (p : Pool fl sv) (i : Indexed fl sv)
      → IsSound fl sv max_latency i.member p
      → IsEntry c p i
      → IsConsistent c i
  unfolding IsConsistent
  IsEntry-IsConsistent max_latency c p i s h = elim (Option-cases (stored fl sv i.member p)) [
    | inl nothing ↦ absurd (ground (arith, nothing, h.indexed, s.latency))
    | inr (r, there) ↦ (
      r,
      rw h.raw there,
      skip_reason-consistent r i.latency c (ground (arith, there, h.indexed, s.latency)) h.in_range,
    )
  ]

  judge_keeps :
      (m : String) (r : ProxyRecord fl) (reason : Option SkipReason) (t : Tally fl sv)
      → reason ≢ some inconsistent
      → (judge fl sv m r reason t).stale_members ≡ t.stale_members
  judge_keeps m r none t h = refl
  judge_keeps m r (some inconsistent) t h = absurd (h refl)
  judge_keeps m r (some score) t h = refl
  judge_keeps m r (some successes) t h = refl
  judge_keeps m r (some freshness) t h = refl

  inspect_keeps :
      (c : Criteria fl) (batch : List (Indexed fl sv)) (t : Tally fl sv)
      → All (IsConsistent c) batch
      → (inspect fl sv c batch t).stale_members ≡ t.stale_members
  unfolding inspect IsConsistent
  inspect_keeps c [] t h = refl
  inspect_keeps c (i ∷ batch) t ((r, there, kept), rest) =
      inspect_keeps c batch (inspect_record fl sv c i (decoded fl sv i.raw) t) rest
      ∙ rw there (judge_keeps i.member r (skip_reason fl r i.latency c) t kept)

  All-IsConsistent :
      (max_latency : fl.Float) (c : Criteria fl) (p : Pool fl sv) (batch : List (Indexed fl sv))
      → ((k : String) → IsSound fl sv max_latency k p)
      → All (IsEntry c p) batch
      → All (IsConsistent c) batch
  All-IsConsistent max_latency c p [] s h = tt
  All-IsConsistent max_latency c p (i ∷ batch) s (here_, rest) = (
    IsEntry-IsConsistent max_latency c p i (s i.member) here_,
    All-IsConsistent max_latency c p batch s rest,
  )

  -- The cleanup takes no member out of the index of a sound pool: if the pool is sound at every
  -- endpoint, and the server's replies tell what the pool has, the selection leaves it as it is.
  pub sound_pool_is_kept :
      (max_latency : fl.Float) (shuffle : List (ProxyRecord fl) → List (ProxyRecord fl))
      (ready : Bool) (members candidates start now : ℕ) (replies : Replies fl sv)
      (q : Request fl sv) (p p' : Pool fl sv) (s : ProxySelection fl sv)
      → ((k : String) → IsSound fl sv max_latency k p)
      → ((a n : ℕ) → All (IsEntry (criteria_of fl sv now q) p) (replies a n))
      → select_random_proxies fl sv ready members candidates start now replies shuffle q p
        ≡ some (answer (s, p'))
      → p' ≡ p
  unfolding selection zrem_stale
  sound_pool_is_kept max_latency shuffle ready members candidates start now replies q p p' s sound
        true_replies e =
      let c = criteria_of fl sv now q in
      elim (answer-cases fl sv shuffle ready members candidates start now replies q p p' s e) [
        | inl (_, same) ↦ same
        | inr (t, got, made) ↦
            let clean : t.stale_members ≡ [] =
              both_segments-keeps fl sv replies c (min q.count 20) (λ u. u.stale_members ≡ [])
                (λ a n u h.
                  inspect_keeps c (replies a n) (counted fl sv (replies a n) u)
                    (All-IsConsistent max_latency c p (replies a n) sound (true_replies a n))
                  ∙ h)
                start candidates (nothing_yet fl sv) t got refl in
            ground (arith, made, clean)
      ]

  -- A peer export never changes the pool, whatever the server replies and whatever is stale.
  pub formal_export_keeps :
      (shuffle : List (ProxyRecord fl) → List (ProxyRecord fl)) (ready : Bool)
      (members candidates start now : ℕ) (replies : Replies fl sv) (q : Request fl sv)
      (p p' : Pool fl sv) (s : ProxySelection fl sv)
      → select_formal_export fl sv ready members candidates start now replies shuffle q p
        ≡ some (answer (s, p'))
      → p' ≡ p
  unfolding select_formal_export selection
  formal_export_keeps shuffle ready members candidates start now replies q p p' s e =
      let q' : Request fl sv = record q { cleanup_stale = false } in
      elim (answer-cases fl sv shuffle ready members candidates start now replies q' p p' s e) [
        | inl (_, same) ↦ same
        | inr (t, got, made) ↦ ap (λ x. x.1) made
      ]
