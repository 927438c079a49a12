-- ===== src/Peer/Store/Fencing.antt =====
-- Syncs one after the other: a sync that another one has followed changes nothing.
use ip_proxy_pool.Base.{
  ℕ, ◌+◌, ◌≤◌, ◌<◌, ◌≡◌, refl, ap, ◌∙◌, ◌⊎◌, inl, inr, Bool, true, Option, none, some, List, [],
  ◌∷◌, String, arith, Bool-cases,
}
use ip_proxy_pool.Models.{Floats}
use ip_proxy_pool.Storage.Server.{ok}
use ip_proxy_pool.Peer.Store.{PeerServer, Cache, PeerCacheStore, PeerCacheRecord}
use ip_proxy_pool.Peer.Store.Sync.{
  begin_sync, is_there, abort_sync, is_held_by, note_failure, heartbeat, note_api_result,
}
use ip_proxy_pool.Peer.Store.Replace.{
  ReplaceResult, replace, replace_script, emptied, prune, stale, no_values, add_filtered,
}
use ip_proxy_pool.Peer.Store.Steps.{
  Step, begins, aborts, notes, beats, notes_api, replaces, selects, fails, Reach, here, next,
}
use ip_proxy_pool.Peer.Store.Frames.{
  select-OnlyReceipts, accept_all-IsUntouched, replace-cases, replace_script-cases,
  invalidate-cases,
}

module _ (fl : Floats) (sv : PeerServer fl) where
  open sv use {Raw, hashes, deadlines, keys}

  begin_sync-cases :
      (clock : ℕ) (owner : String) (s : Cache fl sv) (o : Option ℕ) (s' : Cache fl sv)
      → begin_sync fl sv clock owner s ≡ ok (o, s')
      → ((o ≡ none) × (s' ≡ s)) ⊎ ((o ≡ some s'.generation) × (s'.generation ≡ s.generation + 1))
  unfolding begin_sync
  begin_sync-cases clock owner s o s' e = elim (Bool-cases (is_there clock s.lock)) [
    | inl taken ↦ inl (ground (arith, taken, e), ground (arith, taken, e))
    | inr free ↦
        let next_ : s'.generation ≡ s.generation + 1 = ground (arith, free, e) in
        inr (ground (arith, free, e, next_), next_)
  ]

  prune-generation :
      (ks : List String) (s : Cache fl sv) → (prune fl sv ks s).generation ≡ s.generation
  unfolding prune
  prune-generation [] s = refl
  prune-generation (k ∷ ks) s = prune-generation ks _

  abort_sync-generation-le :
      (clock generation : ℕ) (owner : String) (s : Cache fl sv)
      → s.generation ≤ (abort_sync fl sv clock generation owner s).generation
  unfolding abort_sync
  abort_sync-generation-le clock generation owner s =
      elim (Bool-cases (is_held_by clock s.lock owner generation)) [
        | inl held ↦ rw held (omega arith)
        | inr other ↦ rw other (omega arith)
      ]

  note_failure-generation-le :
      (outcome : String) (now : ℕ) (s : Cache fl sv)
      → s.generation ≤ (note_failure fl sv outcome now s).generation
  unfolding note_failure
  note_failure-generation-le outcome now s = omega arith

  heartbeat-generation-le :
      (now : ℕ) (s : Cache fl sv) → s.generation ≤ (heartbeat fl sv now s).generation
  unfolding heartbeat
  heartbeat-generation-le now s = omega arith

  note_api_result-generation-le :
      (success : Bool) (s : Cache fl sv)
      → s.generation ≤ (note_api_result fl sv success s).generation
  unfolding note_api_result
  note_api_result-generation-le success s = omega arith

  replace_script-generation :
      (clock generation : ℕ) (owner : String) (now : ℕ) (is_formal : String → Bool)
      (raws : List Raw) (s : Cache fl sv)
      → (replace_script fl sv clock generation owner now is_formal raws s).1.generation
        ≡ s.generation
  replace_script-generation clock generation owner now is_formal raws s =
      let kept = accept_all-IsUntouched fl sv now is_formal raws no_values (emptied fl sv now s) in
      elim (replace_script-cases fl sv clock generation owner now is_formal raws s) [
        | inl unchanged ↦ ap (λ r. r.1.generation) unchanged
        | inr (held, ran) ↦
            ap (λ r. r.1.generation) ran
            ∙ kept.generation
            ∙ prune-generation (deadlines.zrange_until now s.suppression_expiry) s
      ]

  old_generation :
      (st : PeerCacheStore fl sv) (snapshot : List (PeerCacheRecord fl)) (g : ℕ) (owner : String)
      (clock now : ℕ) (is_formal : String → Bool) (s : Cache fl sv) (n : ReplaceResult)
      (s' : Cache fl sv)
      → g < s.generation
      → replace fl sv st snapshot (some g) owner clock now is_formal s ≡ ok (n, s')
      → (n.stale_generation ≡ true) × ((n.accepted ≡ 0) × (s' ≡ s))
  old_generation st snapshot g owner clock now is_formal s n s' h e =
      let (g', raws, filtered, given, encoded, ran) =
        replace-cases fl sv st snapshot (some g) owner clock now is_formal s n s' e in
      elim (replace_script-cases fl sv clock g' owner now is_formal raws s) [
        | inl unchanged ↦
            let all : (n, s') ≡ add_filtered fl sv filtered (stale, s) =
              ran ∙ ap (add_filtered fl sv filtered) unchanged in
            (ap (λ r. r.0.stale_generation) all, (ap (λ r. r.0.accepted) all, ap (λ r. r.1) all))
        | inr ((same, held), ran') ↦ absurd (ground (arith, given, same, h))
      ]

  given_generation :
      (clock : ℕ) (owner : String) (s : Cache fl sv) (g : ℕ) (s' : Cache fl sv)
      → begin_sync fl sv clock owner s ≡ ok (some g, s')
      → (g ≡ s'.generation) × (g ≡ s.generation + 1)
  given_generation clock owner s g s' e = elim (begin_sync-cases clock owner s (some g) s' e) [
    | inl (refused, same) ↦ absurd (ground (arith, refused))
    | inr (given, next_) ↦ (ground (arith, given), ground (arith, given, next_))
  ]

  module _ (st : PeerCacheStore fl sv) (from until : ℕ) where
    Step-generation-le :
        {s s' : Cache fl sv} → Step fl sv st from until s s' → s.generation ≤ s'.generation
    Step-generation-le {s} {s'} (begins clock owner o e) =
        elim (begin_sync-cases clock owner s o s' e) [
          | inl (refused, same) ↦ rw same (omega arith)
          | inr (given, next_) ↦ omega (arith, next_)
        ]
    Step-generation-le {s} (aborts clock generation owner) =
        abort_sync-generation-le clock generation owner s
    Step-generation-le {s} (notes outcome now) = note_failure-generation-le outcome now s
    Step-generation-le {s} (beats now) = heartbeat-generation-le now s
    Step-generation-le {s} (notes_api success) = note_api_result-generation-le success s
    Step-generation-le {s} {s'}
          (replaces snapshot generation owner clock now is_formal n low high e) =
        let (g, raws, filtered, given, encoded, ran) =
          replace-cases fl sv st snapshot generation owner clock now is_formal s n s' e in
        let same : s'.generation ≡ s.generation =
          ap (λ r. r.1.generation) ran
          ∙ replace_script-generation clock g owner now is_formal raws s in
        omega (arith, same)
    Step-generation-le {s} {s'}
          (selects policy tokens exclusions principal is_formal clock now proxies e) =
        let (receipts', same) =
          select-OnlyReceipts fl sv st policy tokens exclusions principal is_formal clock now s
            proxies s' e in
        rw same (omega arith)
    Step-generation-le {s} {s'} (fails r clock now b low high e) =
        let (raw, there, cases) = invalidate-cases fl sv st r clock now s b s' e in
        elim cases [
          | inl (used, same) ↦ rw same (omega arith)
          | inr (fresh, applied) ↦ rw applied (omega arith)
        ]

    Reach-generation-le :
        {s s' : Cache fl sv} → Reach fl sv st from until s s' → s.generation ≤ s'.generation
    Reach-generation-le here = omega arith
    Reach-generation-le (next r step) =
        omega (arith, Reach-generation-le r, Step-generation-le step)

    -- After `begin_sync` gave a generation to one owner and then another to the same or any other
    -- owner, whatever calls of the cache's methods came between and after, a replacement with the
    -- first generation is reported stale, accepts no proxy, and leaves the cache as it is; and the
    -- second generation is the higher one. The replacements and reports in between may be at any
    -- times of a fixed period. (The first lock may have expired or been aborted.)
    pub superseded_sync_changes_nothing :
        (a b : String) (clock clock' g g' : ℕ) (s₁ s₂ s₃ s₄ s₅ s₆ : Cache fl sv)
        → begin_sync fl sv clock a s₁ ≡ ok (some g, s₂)
        → Reach fl sv st from until s₂ s₃
        → begin_sync fl sv clock' b s₃ ≡ ok (some g', s₄)
        → Reach fl sv st from until s₄ s₅
        → (snapshot : List (PeerCacheRecord fl)) (owner : String) (at now : ℕ)
          (is_formal : String → Bool) (n : ReplaceResult)
        → replace fl sv st snapshot (some g) owner at now is_formal s₅ ≡ ok (n, s₆)
        → (g < g') × ((n.stale_generation ≡ true) × ((n.accepted ≡ 0) × (s₆ ≡ s₅)))
    superseded_sync_changes_nothing a b clock clock' g g' s₁ s₂ s₃ s₄ s₅ s₆ first r second r'
          snapshot owner at now is_formal n e =
        let before = given_generation clock a s₁ g s₂ first in
        let after = given_generation clock' b s₃ g' s₄ second in
        let newer : g < g' = omega (arith, before, after.0, after.1, Reach-generation-le r) in
        let moved : g < s₅.generation = omega (arith, newer, after.0, Reach-generation-le r') in
        (newer, old_generation st snapshot g owner at now is_formal s₅ n s₆ moved e)
