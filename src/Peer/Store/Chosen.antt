-- ===== src/Peer/Store/Chosen.antt =====
-- What a selection from the cache returns.
use ip_proxy_pool.Base.{
  ℕ, ◌+◌, ◌≤◌, ◌<◌, ◌≡◌, refl, ap, sym, subst, ◌∙◌, inl, inr, Bool, true, false, ◌||◌, some, List,
  [], ◌∷◌, ◌++◌, String, elem, length, length-append, All, All-append, arith, Bool-cases,
  Option-cases, eq_iff,
}
use ip_proxy_pool.Models.{Floats, seconds}
use ip_proxy_pool.Storage.Server.{ok}
use ip_proxy_pool.Peer.Policy.{SelectionPolicy, effective_peer_policy, strictest}
use ip_proxy_pool.Peer.Store.{PeerServer, Cache, PeerCacheStore, Value, suppressed, is_blocked}
use ip_proxy_pool.Peer.Store.Choice.{
  SelectedProxy, PeerRequest, select, choose, candidate, request_of, select_script, is_usable,
  is_eligible, decode_selected, usable_until,
}
use ip_proxy_pool.Peer.Store.Frames.{select-choose, select-domain}

module _ (fl : Floats) (sv : PeerServer fl) where
  open sv use {Raw, hashes, deadlines, keys}

  -- Every record is stored under its own endpoint.
  abbrev pub IsKeyed : Cache fl sv → Type 0
  IsKeyed s =
      (k : String) (raw : Raw)
      → hashes.hget k s.records ≡ some raw
      → (sv.decode_value raw).item.endpoint ≡ k

  module _ (q : PeerRequest fl) (is_formal : String → Bool) where
    -- What is known of a member that is chosen.
    pub record IsCandidate (now : ℕ) (s : Cache fl sv) (k : String) (v : Value fl) : Type 0 where
      pub admitted : elem k q.exclusions ≡ false
      pub informal : is_formal k ≡ false
      pub raw : Raw
      pub stored : hashes.hget k s.records ≡ some raw
      pub decoding : sv.decode_value raw ≡ v
      pub eligible : is_eligible fl q now v ≡ true
      pub unblocked : is_blocked now v.checked_epoch (suppressed fl sv k s) ≡ false
      pub usable : now < usable_until fl q now v

    pub candidate-IsCandidate :
        (now : ℕ) (k : String) (s : Cache fl sv) (v : Value fl)
        → candidate fl sv q is_formal now k s ≡ some v
        → IsCandidate now s k v
    unfolding candidate
    candidate-IsCandidate now k s v e = elim (Bool-cases (elem k q.exclusions || is_formal k)) [
      | inl out ↦ absurd (ground (arith, out, e))
      | inr in_ ↦ elim (Option-cases (hashes.hget k s.records)) [
        | inl gone ↦ absurd (ground (arith, in_, gone, e))
        | inr (raw, there) ↦
            let value = sv.decode_value raw in
            elim (Bool-cases (is_usable fl sv q is_formal now (suppressed fl sv k s) value)) [
              | inr bad ↦ absurd (ground (arith, in_, there, bad, e))
              | inl good ↦
                  let same : value ≡ v = ground (arith, in_, there, good, e) in
                  rw (← same) (record {
                    admitted = ground (arith, in_);
                    informal = ground (arith, in_);
                    raw = raw;
                    stored = there;
                    decoding = refl;
                    eligible = ground (arith, good);
                    unblocked = ground (arith, good);
                    usable = ground (arith, good);
                  })
            ]
      ]
    ]

    -- To prove something of every proxy that is chosen, prove it of the candidates.
    pub choose-All :
        (P : SelectedProxy fl → Type 0) (clock now : ℕ) (members : List String)
        (tokens : List (String × String)) (selected : List (SelectedProxy fl)) (s : Cache fl sv)
        → ((k token : String) (v : Value fl)
            → candidate fl sv q is_formal now k s ≡ some v
            → P (decode_selected fl sv token (usable_until fl q now v) v))
        → All P selected
        → All P (choose fl sv q is_formal clock now members tokens selected s).0
    unfolding choose candidate
    choose-All P clock now members [] selected s h all = all
    choose-All P clock now [] (t ∷ tokens) selected s h all = all
    choose-All P clock now (k ∷ members) ((token, digest) ∷ tokens) selected s h all =
        let skipped = choose-All P clock now members ((token, digest) ∷ tokens) selected s h all in
        elim (Option-cases (candidate fl sv q is_formal now k s)) [
          | inl none' ↦ rw (choose, none') skipped
          | inr (v, found) ↦ elim (Option-cases (keys.get clock digest s.receipts)) [
            | inl free ↦
                rw (choose, found, free)
                  (choose-All P clock now members tokens _ _ h
                    (All-append P selected _ all (h k token v found, tt)))
            | inr (raw, used) ↦ rw (choose, found, used) skipped
          ]
        ]

    pub length-choose-le :
        (clock now : ℕ) (members : List String) (tokens : List (String × String))
        (selected : List (SelectedProxy fl)) (s : Cache fl sv)
        → length (choose fl sv q is_formal clock now members tokens selected s).0
          ≤ length selected + length tokens
    unfolding choose
    length-choose-le clock now members [] selected s = omega arith
    length-choose-le clock now [] (t ∷ tokens) selected s = omega arith
    length-choose-le clock now (k ∷ members) ((token, digest) ∷ tokens) selected s =
        let skipped = length-choose-le clock now members ((token, digest) ∷ tokens) selected s in
        elim (Option-cases (candidate fl sv q is_formal now k s)) [
          | inl none' ↦ rw (choose, none') skipped
          | inr (v, found) ↦ elim (Option-cases (keys.get clock digest s.receipts)) [
            | inl free ↦
                let item = decode_selected fl sv token (usable_until fl q now v) v in
                rw (choose, found, free)
                  (omega (
                    arith,
                    length-choose-le clock now members tokens (selected ++ (item ∷ [])) _,
                    length-append selected (item ∷ []),
                  ))
            | inr (raw, used) ↦ rw (choose, found, used) skipped
          ]
        ]

  -- What a caller is promised of a proxy, which is what the cache has under its endpoint, as it is
  -- written for the caller: the policy `p`, freshness, that no formal record and no failure speaks against it, and until
  -- when it may be used.
  pub record IsUsableProxy (p : SelectionPolicy fl) (exclusions : List String)
      (is_formal : String → Bool) (now : ℕ) (s : Cache fl sv) (x : SelectedProxy fl) : Type 0 where
    pub raw : Raw
    pub value : Value fl
    pub token : String
    pub until : ℕ
    pub cached : hashes.hget x.endpoint s.records ≡ some raw
    pub decoding : sv.decode_value raw ≡ value
    pub shown : x ≡ decode_selected fl sv token until value
    pub of_domain : x.domain ≡ p.domain
    pub good : p.min_score ≤ x.score
    pub fast : fl.leb_float value.item.latency_ewma_ms p.max_latency_ms ≡ true
    pub proven : p.min_consecutive_successes ≤ x.consecutive_successes
    pub not_ahead : value.checked_epoch ≤ now + seconds 5
    pub fresh : now < value.checked_epoch + seconds p.max_checked_age_seconds
    pub not_excluded : elem x.endpoint exclusions ≡ false
    pub informal : is_formal x.endpoint ≡ false
    pub unblocked : is_blocked now value.checked_epoch (suppressed fl sv x.endpoint s) ≡ false
    pub still : now < until
    pub briefly : until ≤ now + seconds 600
    pub expires : until ≤ value.expires_epoch
    pub ends : until + seconds 5 ≤ value.checked_epoch + seconds p.max_checked_age_seconds

  is_eligible-bounds :
      (q : PeerRequest fl) (now : ℕ) (v : Value fl)
      → is_eligible fl q now v ≡ true
      → (v.item.domain ≡ q.domain)
        × (q.policy.min_score ≤ v.item.score)
        × (fl.leb_float v.item.latency_ewma_ms q.policy.max_latency_ms ≡ true)
        × (q.policy.min_consecutive_successes ≤ v.item.consecutive_successes)
        × (v.checked_epoch ≤ now + seconds 5)
        × (now < v.checked_epoch + seconds q.policy.max_checked_age_seconds)
  unfolding is_eligible
  is_eligible-bounds q now v h = (
    ground (arith, h, eq_iff v.item.domain q.domain),
    ground (arith, h),
    ground (arith, h),
    ground (arith, h),
    ground (arith, h),
    ground (arith, h),
  )

  candidate-IsUsableProxy :
      (q : PeerRequest fl) (is_formal : String → Bool) (now : ℕ) (s : Cache fl sv)
      (k token : String) (v : Value fl)
      → q.policy.domain ≡ q.domain
      → IsKeyed s
      → IsCandidate q is_formal now s k v
      → IsUsableProxy q.policy q.exclusions is_formal now s
          (decode_selected fl sv token (usable_until fl q now v) v)
  candidate-IsUsableProxy q is_formal now s k token v same keyed c =
      let name : v.item.endpoint ≡ k =
        ap (λ w. w.item.endpoint) (sym c.decoding) ∙ keyed k c.raw c.stored in
      let (of_domain, good, fast, proven, not_ahead, fresh) =
        is_eligible-bounds q now v c.eligible in
      let usable = c.usable in
      record {
        raw = c.raw;
        value = v;
        token = token;
        until = usable_until fl q now v;
        cached = rw name c.stored;
        decoding = c.decoding;
        shown = refl;
        of_domain = of_domain ∙ sym same;
        good = good;
        fast = fast;
        proven = proven;
        not_ahead = not_ahead;
        fresh = fresh;
        not_excluded = rw name c.admitted;
        informal = rw name c.informal;
        unblocked = rw name c.unblocked;
        still = usable;
        briefly = omega arith;
        expires = omega arith;
        ends = omega (arith, usable);
      }

  effective_peer_policy-strictest :
      (request service cache effective : SelectionPolicy fl)
      → effective_peer_policy fl request service cache ≡ ok effective
      → effective ≡ strictest fl request service cache
  unfolding effective_peer_policy
  effective_peer_policy-strictest request service cache effective e = ground (arith, e)

  -- A selection that returns, from a cache in which every record is stored under its own endpoint,
  -- returns at most as many proxies as were asked for. Each is the value that the cache has under
  -- its endpoint, is of the cache's domain, meets the strictest of the caller's policy, the cache's
  -- and the fixed bounds, was checked no more than 5 seconds in the future, is not excluded, is no
  -- formal record's, has no failure that blocks it, and may be used from now on for at most 600
  -- seconds, no longer than the cache keeps the value, and until 5 seconds before its check is too
  -- old. The times and the latency are those of the cached value, which the caller is shown in
  -- cjson's rounding.
  pub selection_is_usable :
      (st : PeerCacheStore fl sv) (policy : SelectionPolicy fl) (tokens : List (String × String))
      (exclusions : List String) (principal : String) (is_formal : String → Bool) (clock now : ℕ)
      (s : Cache fl sv) (proxies : List (SelectedProxy fl)) (s' : Cache fl sv)
      → IsKeyed s
      → select fl sv st policy tokens exclusions principal is_formal clock now s ≡ ok (proxies, s')
      → (length proxies ≤ length tokens)
        × All
            (λ x.
              (x.domain ≡ st.domain)
              × IsUsableProxy
                  (strictest fl policy st.policy st.policy)
                  exclusions
                  is_formal
                  now
                  s
                  x)
            proxies
  selection_is_usable st policy tokens exclusions principal is_formal clock now s proxies s' keyed
        e =
      let (effective, valid, chosen) =
        select-choose fl sv st policy tokens exclusions principal is_formal clock now s
          (proxies, s') e in
      let q = request_of fl sv st (strictest fl policy st.policy st.policy) exclusions principal in
      let members = deadlines.zrange_after now s.expiry in
      let same : select_script fl sv q is_formal clock now tokens s ≡ (proxies, s') =
        rw (effective_peer_policy-strictest policy st.policy st.policy effective valid) at chosen in
      let here_ : policy.domain ≡ st.domain =
        select-domain fl sv st policy tokens exclusions principal is_formal clock now s
          (proxies, s') e in
      let P : SelectedProxy fl → Type 0 =
        λ x. (x.domain ≡ st.domain) × IsUsableProxy q.policy exclusions is_formal now s x in
      subst (λ r. (length r.0 ≤ length tokens) × All P r.0) same
        (
          omega (arith, length-choose-le q is_formal clock now members tokens [] s),
          choose-All q is_formal P clock now members tokens [] s
              (λ k token v found.
                let u =
                  candidate-IsUsableProxy q is_formal now s k token v here_ keyed
                    (candidate-IsCandidate q is_formal now k s v found) in
                (u.of_domain ∙ here_, u))
              tt,
        )
