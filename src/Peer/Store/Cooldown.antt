-- ===== src/Peer/Store/Cooldown.antt =====
-- A proxy that a caller reported as failed is not returned before its cooldown is over.
use ip_proxy_pool.Base.{
  ℕ, ◌≤◌, ◌<◌, ◌≡◌, refl, ap, sym, ◌∙◌, inl, inr, Bool, false, Option, some, List, [], ◌∷◌, String,
  str_eq, elem, arith, Bool-cases, eq_iff,
}
use ip_proxy_pool.Models.{Floats}
use ip_proxy_pool.Storage.Server.{ok}
use ip_proxy_pool.Peer.Store.{
  PeerServer, Cache, PeerCacheStore, PeerCacheRecord, Failed, suppressed, failure_of,
}
use ip_proxy_pool.Peer.Store.Sync.{
  begin_sync, is_there, abort_sync, is_held_by, note_failure, heartbeat, note_api_result,
}
use ip_proxy_pool.Peer.Store.Replace.{
  ReplaceResult, replace, accept, accept_all, emptied, finish_sync, prune, no_values, keep,
}
use ip_proxy_pool.Peer.Store.Frames.{
  accept_all-IsUntouched, accept-cases, replace-cases, replace_script-cases,
}
use ip_proxy_pool.Peer.Store.Chosen.{IsKeyed}

module _ (fl : Floats) (sv : PeerServer fl) where
  open sv use {Raw, hashes, deadlines, keys}

  -- The endpoint is blocked, and its suppression is kept, until then.
  pub record IsCooling (k : String) (until : ℕ) (s : Cache fl sv) : Type 0 where
    pub failed : Failed
    pub found : suppressed fl sv k s ≡ some failed
    pub late : until ≤ failed.blocked_until
    pub deadline : ℕ
    pub kept : deadlines.zscore k s.suppression_expiry ≡ some deadline
    pub later : until ≤ deadline

  -- A step that leaves the records and the suppressions as they were.
  pub record Keeps (s s' : Cache fl sv) : Type 0 where
    pub suppression : s'.suppression ≡ s.suppression
    pub suppression_expiry : s'.suppression_expiry ≡ s.suppression_expiry
    pub records : s'.records ≡ s.records

  pub begin_sync-Keeps :
      (clock : ℕ) (owner : String) (s : Cache fl sv) (o : Option ℕ) (s' : Cache fl sv)
      → begin_sync fl sv clock owner s ≡ ok (o, s')
      → Keeps s s'
  unfolding begin_sync
  begin_sync-Keeps clock owner s o s' e = elim (Bool-cases (is_there clock s.lock)) [
    | inl taken ↦ record {
      suppression = ground (arith, taken, e);
      suppression_expiry = ground (arith, taken, e);
      records = ground (arith, taken, e);
    }
    | inr free ↦ record {
      suppression = ground (arith, free, e);
      suppression_expiry = ground (arith, free, e);
      records = ground (arith, free, e);
    }
  ]

  pub abort_sync-Keeps :
      (clock generation : ℕ) (owner : String) (s : Cache fl sv)
      → Keeps s (abort_sync fl sv clock generation owner s)
  unfolding abort_sync
  abort_sync-Keeps clock generation owner s =
      elim (Bool-cases (is_held_by clock s.lock owner generation)) [
        | inl held ↦
            rw held (record { suppression = refl; suppression_expiry = refl; records = refl })
        | inr other ↦
            rw other (record { suppression = refl; suppression_expiry = refl; records = refl })
      ]

  pub note_failure-Keeps :
      (outcome : String) (now : ℕ) (s : Cache fl sv) → Keeps s (note_failure fl sv outcome now s)
  unfolding note_failure
  note_failure-Keeps outcome now s = record {
    suppression = refl;
    suppression_expiry = refl;
    records = refl;
  }

  pub heartbeat-Keeps : (now : ℕ) (s : Cache fl sv) → Keeps s (heartbeat fl sv now s)
  unfolding heartbeat
  heartbeat-Keeps now s = record { suppression = refl; suppression_expiry = refl; records = refl }

  pub note_api_result-Keeps :
      (success : Bool) (s : Cache fl sv) → Keeps s (note_api_result fl sv success s)
  unfolding note_api_result
  note_api_result-Keeps success s = record {
    suppression = refl;
    suppression_expiry = refl;
    records = refl;
  }

  -- What holds of an endpoint while it cools down.
  abbrev pub IsOut : (k : String) → (until : ℕ) → Cache fl sv → Type 0
  IsOut k until s = IsCooling k until s × IsKeyed fl sv s

  pub IsCooling-same :
      {s s' : Cache fl sv} (k : String) (until : ℕ)
      → s'.suppression ≡ s.suppression
      → s'.suppression_expiry ≡ s.suppression_expiry
      → IsCooling k until s
      → IsCooling k until s'
  IsCooling-same k until a b c = record {
    failed = c.failed;
    found = rw a c.found;
    late = c.late;
    deadline = c.deadline;
    kept = rw b c.kept;
    later = c.later;
  }

  pub Keeps-IsOut :
      {s s' : Cache fl sv} (k : String) (until : ℕ)
      → Keeps s s'
      → IsOut k until s
      → IsOut k until s'
  Keeps-IsOut k until same (c, keyed) = (
    IsCooling-same k until same.suppression same.suppression_expiry c,
    λ j raw there. keyed j raw (ap (hashes.hget j) (sym same.records) ∙ there),
  )

  prune-IsOut :
      (ks : List String) (s : Cache fl sv) (k : String) (until : ℕ)
      → elem k ks ≡ false
      → IsCooling k until s
      → IsCooling k until (prune fl sv ks s)
  unfolding prune
  prune-IsOut [] s k until other c = c
  prune-IsOut (j ∷ ks) s k until other c =
      let still : hashes.hget k (hashes.hdel j s.suppression) ≡ hashes.hget k s.suppression =
        ground (arith, hashes.hget-hdel k j s.suppression, other, eq_iff k j, eq_iff j k) in
      prune-IsOut ks _ k until (ground (arith, other)) (record {
        failed = c.failed;
        found = ap (failure_of fl sv) still ∙ c.found;
        late = c.late;
        deadline = c.deadline;
        kept = ground (
          arith,
          c.kept,
          deadlines.zscore-zrem k j s.suppression_expiry,
          other,
          eq_iff k j,
          eq_iff j k,
        );
        later = c.later;
      })

  prune-records : (ks : List String) (s : Cache fl sv) → (prune fl sv ks s).records ≡ s.records
  unfolding prune
  prune-records [] s = refl
  prune-records (k ∷ ks) s = prune-records ks _

  -- A suppression that is kept past `until` is not dropped before.
  emptied-IsCooling :
      (now : ℕ) (k : String) (until : ℕ) (s : Cache fl sv)
      → now < until
      → IsCooling k until s
      → IsCooling k until (emptied fl sv now s)
  emptied-IsCooling now k until s before c =
      let over_ = deadlines.zrange_until now s.suppression_expiry in
      let other : elem k over_ ≡ false = elim (Bool-cases (elem k over_)) [
        | inr out ↦ out
        | inl in_ ↦
            let (deadline, found, past) =
              deadlines.zrange_until_sound k now s.suppression_expiry in_ in
            let same : deadline ≡ c.deadline = ground (arith, found, c.kept) in
            absurd (omega (arith, same, past, before, c.later))
      ] in
      let c' = prune-IsOut over_ s k until other c in IsCooling-same k until refl refl c'

  keep-IsKeyed :
      (raw : Raw) (s : Cache fl sv)
      → IsKeyed fl sv s
      → IsKeyed fl sv (keep fl sv raw (sv.decode_value raw) s)
  keep-IsKeyed raw s keyed j raw' there =
      let k = (sv.decode_value raw).item.endpoint in
      elim (Bool-cases (str_eq k j)) [
        | inl same ↦
            let got : raw' ≡ raw =
              ground (arith, same, there, hashes.hget-hset j k raw s.records) in
            rw got (ground (arith, same, eq_iff k j))
        | inr other ↦
            keyed j raw' (ground (arith, other, there, hashes.hget-hset j k raw s.records))
      ]

  accept_all-IsKeyed :
      (now : ℕ) (is_formal : String → Bool) (raws : List Raw) (n : ReplaceResult) (s : Cache fl sv)
      → IsKeyed fl sv s
      → IsKeyed fl sv (accept_all fl sv now is_formal raws (n, s)).1
  unfolding accept_all
  accept_all-IsKeyed now is_formal [] n s keyed = keyed
  accept_all-IsKeyed now is_formal (raw ∷ raws) n s keyed =
      let step = accept fl sv now is_formal raw (n, s) in
      let keyed' : IsKeyed fl sv step.1 = elim (accept-cases fl sv now is_formal raw n s) [
        | inl same ↦ rw same keyed
        | inr (kept, why) ↦ rw kept (keep-IsKeyed raw s keyed)
      ] in
      accept_all-IsKeyed now is_formal raws step.0 step.1 keyed'

  pub replace-IsOut :
      (st : PeerCacheStore fl sv) (snapshot : List (PeerCacheRecord fl)) (g : Option ℕ)
      (owner : String) (clock now : ℕ) (is_formal : String → Bool) (s : Cache fl sv)
      (n : ReplaceResult) (s' : Cache fl sv) (k : String) (until : ℕ)
      → replace fl sv st snapshot g owner clock now is_formal s ≡ ok (n, s')
      → now < until
      → IsOut k until s
      → IsOut k until s'
  replace-IsOut st snapshot g owner clock now is_formal s n s' k until e before (c, keyed) =
      let (g', raws, filtered, given, encoded, ran) =
        replace-cases fl sv st snapshot g owner clock now is_formal s n s' e in
      elim (replace_script-cases fl sv clock g' owner now is_formal raws s) [
        | inl unchanged ↦
            let same : s' ≡ s = ap (λ r. r.1) ran ∙ ap (λ r. r.1) unchanged in rw same (c, keyed)
        | inr (held, ran') ↦
            let s₁ = emptied fl sv now s in
            let r = accept_all fl sv now is_formal raws (no_values, s₁) in
            let same : s' ≡ (finish_sync fl sv now r).1 = ap (λ r. r.1) ran ∙ ap (λ r. r.1) ran' in
            let kept = accept_all-IsUntouched fl sv now is_formal raws no_values s₁ in
            let c' : IsCooling k until r.1 =
              IsCooling-same k until kept.suppression kept.suppression_expiry
                (emptied-IsCooling now k until s before c) in
            let keyed' =
              accept_all-IsKeyed now is_formal raws no_values s₁
                (λ j raw there. absurd (ground (arith, there, sv.hget-no_fields j))) in
            rw same (IsCooling-same k until refl refl c', keyed')
      ]
