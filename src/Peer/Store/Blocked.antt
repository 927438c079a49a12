-- ===== src/Peer/Store/Blocked.antt =====
-- A proxy that a caller reported as failed, along any calls of the cache's methods.
use ip_proxy_pool.Base.{
  ℕ, ◌+◌, ◌≤◌, ◌<◌, ◌≡◌, ◌≢◌, refl, ap, sym, subst, ◌∙◌, inl, inr, Bool, true, false, some, List,
  [], String, str_eq, All, arith, Bool-cases, eq_iff, eq_refl,
}
use ip_proxy_pool.Models.{Floats, seconds}
use ip_proxy_pool.Storage.Server.{ok}
use ip_proxy_pool.Peer.Policy.{SelectionPolicy}
use ip_proxy_pool.Peer.Store.{
  PeerServer, Cache, PeerCacheStore, SelectionReceipt, Failed, round_failed, Value, suppressed,
  failure_of, is_blocked,
}
use ip_proxy_pool.Peer.Store.Choice.{SelectedProxy, PeerRequest, select, request_of}
use ip_proxy_pool.Peer.Store.Failure.{invalidate, apply_failure, retain}
use ip_proxy_pool.Peer.Store.Steps.{
  Step, begins, aborts, notes, beats, notes_api, replaces, selects, fails, Reach, here, next,
}
use ip_proxy_pool.Peer.Store.Frames.{select-OnlyReceipts, invalidate-cases, select-choose}
use ip_proxy_pool.Peer.Store.Chosen.{IsKeyed, IsCandidate, candidate-IsCandidate, choose-All}
use ip_proxy_pool.Peer.Store.Cooldown.{
  IsCooling, IsOut, Keeps-IsOut, IsCooling-same, begin_sync-Keeps, abort_sync-Keeps,
  note_failure-Keeps, heartbeat-Keeps, note_api_result-Keeps, replace-IsOut,
}

module _ (fl : Floats) (sv : PeerServer fl) where
  open sv use {Raw, hashes, deadlines, keys}

  abbrev applied :
      PeerCacheStore fl sv
      → (clock now : ℕ) → (digest : String) → SelectionReceipt fl
      → Cache fl sv
      → Cache fl sv
  applied st clock now digest r s =
      apply_failure fl sv clock now st.cooldown (retain fl sv st)
        (keys.pttl clock digest s.receipts) digest r s

  applied-IsKeyed :
      (st : PeerCacheStore fl sv) (clock now : ℕ) (digest : String) (r : SelectionReceipt fl)
      (s : Cache fl sv)
      → IsKeyed fl sv s
      → IsKeyed fl sv (applied st clock now digest r s)
  applied-IsKeyed st clock now digest r s keyed j raw there =
      keyed j raw (ground (arith, there, hashes.hget-hdel j r.endpoint s.records))

  -- The endpoint of the receipt cools down from now on.
  applied-IsCooling :
      (st : PeerCacheStore fl sv) (clock now : ℕ) (digest : String) (r : SelectionReceipt fl)
      (s : Cache fl sv) (until : ℕ)
      → until + 50 ≤ now + seconds st.cooldown
      → IsCooling fl sv r.endpoint until (applied st clock now digest r s)
  applied-IsCooling st clock now digest r s until soon =
      let failure : Failed = record {
        failed_at = now;
        failed_source_checked_at = r.source_checked_at;
        blocked_until = now + seconds st.cooldown;
      } in
      let raw = sv.encode_failed failure in
      let k = r.endpoint in
      let put : hashes.hget k (hashes.hset k raw s.suppression) ≡ some raw =
        ground (arith, hashes.hget-hset k k raw s.suppression, eq_refl k) in
      let deadline = now + seconds (retain fl sv st) in
      record {
        failed = round_failed sv.rounded failure;
        found = ap (failure_of fl sv) put ∙ ap some (sv.decode-encode_failed failure);
        late = omega (arith, soon, sv.rounded_near (now + seconds st.cooldown));
        deadline = deadline;
        kept = ground (arith, deadlines.zscore-zadd k k deadline s.suppression_expiry, eq_refl k);
        later = omega (arith, soon);
      }

  -- Another endpoint's failure does not end a cooldown, and one more of its own does not shorten it.
  applied-IsOut :
      (st : PeerCacheStore fl sv) (clock now : ℕ) (digest : String) (r : SelectionReceipt fl)
      (s : Cache fl sv) (k : String) (until : ℕ)
      → until + 50 ≤ now + seconds st.cooldown
      → IsOut fl sv k until s
      → IsOut fl sv k until (applied st clock now digest r s)
  applied-IsOut st clock now digest r s k until soon (c, keyed) = (
    elim (Bool-cases (str_eq r.endpoint k)) [
      | inl same ↦
          let named : r.endpoint ≡ k = ground (arith, same, eq_iff r.endpoint k) in
          rw (← named) (applied-IsCooling st clock now digest r s until soon)
      | inr other ↦
          let raw = sv.encode_failed (record {
            failed_at = now;
            failed_source_checked_at = r.source_checked_at;
            blocked_until = now + seconds st.cooldown;
          }) in
          let still : hashes.hget k (hashes.hset r.endpoint raw s.suppression)
              ≡ hashes.hget k s.suppression =
            ground (arith, other, hashes.hget-hset k r.endpoint raw s.suppression) in
          record {
            failed = c.failed;
            found = ap (failure_of fl sv) still ∙ c.found;
            late = c.late;
            deadline = c.deadline;
            kept = ground (
              arith,
              other,
              c.kept,
              deadlines.zscore-zadd k r.endpoint (now + seconds (retain fl sv st))
                  s.suppression_expiry,
            );
            later = c.later;
          }
    ],
    applied-IsKeyed st clock now digest r s keyed,
  )

  module _ (st : PeerCacheStore fl sv) (from until : ℕ) where
    Step-IsOut :
        {s s' : Cache fl sv} (k : String)
        → until + 50 ≤ from + seconds st.cooldown
        → Step fl sv st from until s s'
        → IsOut fl sv k until s
        → IsOut fl sv k until s'
    Step-IsOut {s} {s'} k soon (begins clock owner o e) c =
        Keeps-IsOut fl sv k until (begin_sync-Keeps fl sv clock owner s o s' e) c
    Step-IsOut {s} k soon (aborts clock generation owner) c =
        Keeps-IsOut fl sv k until (abort_sync-Keeps fl sv clock generation owner s) c
    Step-IsOut {s} k soon (notes outcome now) c =
        Keeps-IsOut fl sv k until (note_failure-Keeps fl sv outcome now s) c
    Step-IsOut {s} k soon (beats now) c = Keeps-IsOut fl sv k until (heartbeat-Keeps fl sv now s) c
    Step-IsOut {s} k soon (notes_api success) c =
        Keeps-IsOut fl sv k until (note_api_result-Keeps fl sv success s) c
    Step-IsOut {s} {s'} k soon (replaces snapshot g owner clock now is_formal n low high e) c =
        replace-IsOut fl sv st snapshot g owner clock now is_formal s n s' k until e high c
    Step-IsOut {s} {s'} k soon
          (selects policy tokens exclusions principal is_formal clock now proxies e) c =
        let (receipts', same) =
          select-OnlyReceipts fl sv st policy tokens exclusions principal is_formal clock now s
            proxies s' e in
        rw same (IsCooling-same fl sv k until refl refl c.0, c.1)
    Step-IsOut {s} {s'} k soon (fails r clock now b low high e) c =
        let (raw, there, cases) = invalidate-cases fl sv st r clock now s b s' e in
        elim cases [
          | inl (used, same) ↦ rw same c
          | inr (fresh, done) ↦ rw done (
              applied-IsOut st clock now r.digest (sv.decode_receipt raw) s k until
                (omega (arith, soon, low)) c)
        ]

    Reach-IsOut :
        {s s' : Cache fl sv} (k : String)
        → until + 50 ≤ from + seconds st.cooldown
        → Reach fl sv st from until s s'
        → IsOut fl sv k until s
        → IsOut fl sv k until s'
    Reach-IsOut k soon here c = c
    Reach-IsOut k soon (next r step) c = Step-IsOut k soon step (Reach-IsOut k soon r c)

  candidate-ne :
      (q : PeerRequest fl) (is_formal : String → Bool) (now : ℕ) (s : Cache fl sv) (j k : String)
      (v : Value fl) (until : ℕ)
      → now < until
      → IsOut fl sv k until s
      → IsCandidate fl sv q is_formal now s j v
      → v.item.endpoint ≢ k
  unfolding is_blocked
  candidate-ne q is_formal now s j k v until before (c, keyed) i e =
      let name : v.item.endpoint ≡ j =
        ap (λ w. w.item.endpoint) (sym i.decoding) ∙ keyed j i.raw i.stored in
      let same : j ≡ k = sym name ∙ e in
      let found : suppressed fl sv j s ≡ some c.failed =
        ap (λ x. suppressed fl sv x s) same ∙ c.found in
      let free : is_blocked now v.checked_epoch (some c.failed) ≡ false = rw found at i.unblocked in
      absurd (ground (arith, free, before, c.late))

  -- What is chosen while an endpoint cools down is another one.
  select-ne :
      (st : PeerCacheStore fl sv) (policy : SelectionPolicy fl) (tokens : List (String × String))
      (exclusions : List String) (principal : String) (is_formal : String → Bool) (clock now : ℕ)
      (s : Cache fl sv) (proxies : List (SelectedProxy fl)) (s' : Cache fl sv) (k : String)
      (until : ℕ)
      → now < until
      → IsOut fl sv k until s
      → select fl sv st policy tokens exclusions principal is_formal clock now s ≡ ok (proxies, s')
      → All (λ x. x.endpoint ≢ k) proxies
  select-ne st policy tokens exclusions principal is_formal clock now s proxies s' k until before
        (c, keyed) e =
      let (effective, valid, chosen) =
        select-choose fl sv st policy tokens exclusions principal is_formal clock now s
          (proxies, s') e in
      let q = request_of fl sv st effective exclusions principal in
      subst (λ r. All (λ x. x.endpoint ≢ k) r.0) chosen
        (choose-All fl sv q is_formal (λ x. x.endpoint ≢ k) clock now
          (deadlines.zrange_after now s.expiry) tokens [] s
          (λ j token v found.
            candidate-ne q is_formal now s j k v until before (c, keyed)
              (candidate-IsCandidate fl sv q is_formal now j s v found))
          tt)

  -- When a report of a failure is accepted at a time `now` for a receipt that is stored, in a cache
  -- in which every record is stored under its own endpoint, then no selection before `until` returns
  -- that receipt's endpoint, for any caller and policy, where `until` is at most the end of the
  -- store's cooldown less 50 microseconds, by which cjson may round it: whatever syncs, replacements,
  -- selections and reports come in between, provided that the replacements and the reports among
  -- them are made at times from `now` on and before `until`.
  pub failed_proxy_cools_down :
      (st : PeerCacheStore fl sv) (r : SelectionReceipt fl) (clock now until : ℕ)
      (s s₁ s₂ s₃ : Cache fl sv) (raw : Raw)
      → IsKeyed fl sv s
      → keys.get clock r.digest s.receipts ≡ some raw
      → invalidate fl sv st r clock now s ≡ ok (true, s₁)
      → until + 50 ≤ now + seconds st.cooldown
      → Reach fl sv st now until s₁ s₂
      → (policy : SelectionPolicy fl) (tokens : List (String × String)) (exclusions : List String)
        (principal : String) (is_formal : String → Bool) (clock' at : ℕ)
        (proxies : List (SelectedProxy fl))
      → at < until
      → select fl sv st policy tokens exclusions principal is_formal clock' at s₂ ≡ ok (proxies, s₃)
      → All (λ x. x.endpoint ≢ (sv.decode_receipt raw).endpoint) proxies
  failed_proxy_cools_down st r clock now until s s₁ s₂ s₃ raw keyed there e old run policy tokens
        exclusions principal is_formal clock' at proxies before e' =
      let (raw', there', cases) = invalidate-cases fl sv st r clock now s true s₁ e in
      let same : raw' ≡ raw = ground (arith, there, there') in
      let k = (sv.decode_receipt raw').endpoint in
      let out : IsOut fl sv k until s₁ = elim cases [
        | inl (used, unchanged) ↦ absurd (ground (arith, used))
        | inr (fresh, done) ↦ rw done (
          applied-IsCooling st clock now r.digest (sv.decode_receipt raw') s until old,
          applied-IsKeyed st clock now r.digest (sv.decode_receipt raw') s keyed,
        )
      ] in
      rw (← same) (
        select-ne st policy tokens exclusions principal is_formal clock' at s₂ proxies s₃ k until
          before (Reach-IsOut st now until k old run out) e')
