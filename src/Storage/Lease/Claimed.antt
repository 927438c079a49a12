-- ===== src/Storage/Lease/Claimed.antt =====
-- What the loops of the claim and reclaim scripts leave under each key.
use ip_proxy_pool.Base.{
  ℕ, ◌-◌, ◌++◌, ltb, elem-append, length-append, Bool-cases, ◌≡◌, refl, ◌∙◌, ◌≤◌, true, none, some,
  List, [], ◌∷◌, String, eq_iff, if◌then◌else◌, length, elem, arith, Option-cases, inl, inr,
}
use ip_proxy_pool.Models.{Floats}
use ip_proxy_pool.Storage.Server.{Server, Pool}
use ip_proxy_pool.Storage.Lease.{
  take_lease, claim_each, claim_priority_due, reclaim_each, take_back,
}

module _ (fl : Floats) (sv : Server fl) where
  open sv use {owners, times}

  -- A claim changes exactly what it says of the members that it returns.
  pub record Claims (owner : String) (expires_at : ℕ) (k : String) (p : Pool fl sv)
      (result : List String × Pool fl sv) : Type 0 where
    pub leased :
        times.zscore k result.1.leased
        ≡ (if elem k result.0 then some expires_at else times.zscore k p.leased)
    pub owner_of :
        owners.hget k result.1.lease_owners
        ≡ (if elem k result.0 then some owner else owners.hget k p.lease_owners)
    pub due : times.zscore k result.1.due ≡ (if elem k result.0 then none else times.zscore k p.due)
    pub records : result.1.records ≡ p.records
    pub quality : result.1.quality ≡ p.quality
    pub available_latency : result.1.available_latency ≡ p.available_latency
    pub priority_due : result.1.priority_due ≡ p.priority_due
    pub listed : result.1.listed ≡ p.listed

  pub claim_each-Claims :
      (owner : String) (expires_at : ℕ) (k : String) (ms : List String) (p : Pool fl sv)
      → Claims owner expires_at k p (claim_each fl sv owner expires_at ms p)
  unfolding claim_each
  claim_each-Claims owner expires_at k [] p = record {
    leased = refl;
    owner_of = refl;
    due = refl;
    records = refl;
    quality = refl;
    available_latency = refl;
    priority_due = refl;
    listed = refl;
  }
  claim_each-Claims owner expires_at k (m ∷ ms) p = elim (Option-cases (times.zscore m p.leased)) [
    | inr (s, busy) ↦ rw (busy, claim_each) (claim_each-Claims owner expires_at k ms p)
    | inl free ↦
        let ih = claim_each-Claims owner expires_at k ms (take_lease fl sv owner expires_at m p) in
        rw (free, claim_each)
          (record {
            leased = ground (arith, ih, times.zscore-zadd k m expires_at p.leased);
            owner_of = ground (arith, ih, owners.hget-hset k m owner p.lease_owners);
            due = ground (arith, ih, times.zscore-zrem k m p.due);
            records = ih.records;
            quality = ih.quality;
            available_latency = ih.available_latency;
            priority_due = ih.priority_due;
            listed = ih.listed;
          })
  ]

  Claims-trans :
      (owner : String) (expires_at : ℕ) (k : String) (p p' p'' : Pool fl sv) (xs ys : List String)
      → Claims owner expires_at k p (xs, p')
      → Claims owner expires_at k p' (ys, p'')
      → Claims owner expires_at k p (xs ++ ys, p'')
  Claims-trans owner expires_at k p p' p'' xs ys a b =
      let e = elem-append k xs ys in
      record {
        leased = ground (arith, e, a, b);
        owner_of = ground (arith, e, a, b);
        due = ground (arith, e, a, b);
        records = b.records ∙ a.records;
        quality = b.quality ∙ a.quality;
        available_latency = b.available_latency ∙ a.available_latency;
        priority_due = b.priority_due ∙ a.priority_due;
        listed = b.listed ∙ a.listed;
      }

  pub claim_priority_due-Claims :
      (now limit share expires_at : ℕ) (owner k : String) (p : Pool fl sv)
      → Claims owner expires_at k p (claim_priority_due fl sv now limit share expires_at owner p)
  unfolding claim_priority_due
  claim_priority_due-Claims now limit share expires_at owner k p =
      let priority = times.zrange_upto now share p.priority_due in
      let (first, p') = claim_each fl sv owner expires_at priority p in
      let general = times.zrange_upto now (limit - length first) p'.due in
      let (second, p'') = claim_each fl sv owner expires_at general p' in
      let a = claim_each-Claims owner expires_at k priority p in
      let b = claim_each-Claims owner expires_at k general p' in
      elim (Bool-cases (ltb 0 (limit - length first))) [
        | inl more ↦ rw more (Claims-trans owner expires_at k p p' p'' first second a b)
        | inr full ↦ rw full a
      ]

  -- Only free members of the list are claimed, and no more than it has.
  pub claim_each-free :
      (owner : String) (expires_at : ℕ) (k : String) (ms : List String) (p : Pool fl sv)
      → elem k (claim_each fl sv owner expires_at ms p).0 ≡ true
      → (times.zscore k p.leased ≡ none) × (elem k ms ≡ true)
  unfolding claim_each
  claim_each-free owner expires_at k [] p e = cc
  claim_each-free owner expires_at k (m ∷ ms) p e = elim (Option-cases (times.zscore m p.leased)) [
    | inr (s, busy) ↦
        let h = claim_each-free owner expires_at k ms p (rw (busy, claim_each) at e) in
        (h.0, ground arith)
    | inl free ↦
        let ih = claim_each-free owner expires_at k ms (take_lease fl sv owner expires_at m p) in
        let l = times.zscore-zadd k m expires_at p.leased in
        let q = eq_iff m k in (ground (arith, ih, l, q), ground (arith, ih, l, q))
  ]

  pub length-claim_each-le :
      (owner : String) (expires_at : ℕ) (ms : List String) (p : Pool fl sv)
      → length (claim_each fl sv owner expires_at ms p).0 ≤ length ms
  unfolding claim_each
  length-claim_each-le owner expires_at [] p = omega arith
  length-claim_each-le owner expires_at (m ∷ ms) p = ground (
    arith,
    length-claim_each-le owner expires_at ms p,
    length-claim_each-le owner expires_at ms (take_lease fl sv owner expires_at m p),
  )

  -- Nothing is claimed that somebody holds.
  pub claim_priority_due-free :
      (now limit share expires_at : ℕ) (owner k : String) (p : Pool fl sv)
      → elem k (claim_priority_due fl sv now limit share expires_at owner p).0 ≡ true
      → times.zscore k p.leased ≡ none
  unfolding claim_priority_due
  claim_priority_due-free now limit share expires_at owner k p e =
      let priority = times.zrange_upto now share p.priority_due in
      let r = claim_each fl sv owner expires_at priority p in
      let general = times.zrange_upto now (limit - length r.0) r.1.due in
      let c = claim_each-Claims owner expires_at k priority p in
      let a = claim_each-free owner expires_at k priority p in
      let b = claim_each-free owner expires_at k general r.1 in
      let both = elem-append k r.0 (claim_each fl sv owner expires_at general r.1).0 in
      ground (arith, a, b, both, c.leased)

  -- No more is claimed than was asked for.
  pub length-claim_priority_due-le :
      (now limit share expires_at : ℕ) (owner : String) (p : Pool fl sv)
      → share ≤ limit
      → length (claim_priority_due fl sv now limit share expires_at owner p).0 ≤ limit
  unfolding claim_priority_due
  length-claim_priority_due-le now limit share expires_at owner p h =
      let priority = times.zrange_upto now share p.priority_due in
      let r = claim_each fl sv owner expires_at priority p in
      let general = times.zrange_upto now (limit - length r.0) r.1.due in
      let second = (claim_each fl sv owner expires_at general r.1).0 in
      ground (
        arith,
        length-append r.0 second,
        length-claim_each-le owner expires_at priority p,
        length-claim_each-le owner expires_at general r.1,
        times.length-zrange_upto-le now share p.priority_due,
        times.length-zrange_upto-le now (limit - length r.0) r.1.due,
      )

  -- A reclaim moves exactly the listed members back.
  pub record Reclaims (now : ℕ) (k : String) (ms : List String) (p p' : Pool fl sv) : Type 0 where
    pub leased : times.zscore k p'.leased ≡ (if elem k ms then none else times.zscore k p.leased)
    pub owner_of :
        owners.hget k p'.lease_owners ≡ (if elem k ms then none else owners.hget k p.lease_owners)
    pub due : times.zscore k p'.due ≡ (if elem k ms then some now else times.zscore k p.due)
    pub records : p'.records ≡ p.records
    pub quality : p'.quality ≡ p.quality
    pub available_latency : p'.available_latency ≡ p.available_latency
    pub priority_due : p'.priority_due ≡ p.priority_due
    pub listed : p'.listed ≡ p.listed

  pub reclaim_each-Reclaims :
      (now : ℕ) (k : String) (ms : List String) (p : Pool fl sv)
      → Reclaims now k ms p (reclaim_each fl sv now ms p)
  unfolding reclaim_each
  reclaim_each-Reclaims now k [] p = record {
    leased = refl;
    owner_of = refl;
    due = refl;
    records = refl;
    quality = refl;
    available_latency = refl;
    priority_due = refl;
    listed = refl;
  }
  reclaim_each-Reclaims now k (m ∷ ms) p =
      let ih = reclaim_each-Reclaims now k ms (take_back fl sv now m p) in
      record {
        leased = ground (arith, ih, times.zscore-zrem k m p.leased);
        owner_of = ground (arith, ih, owners.hget-hdel k m p.lease_owners);
        due = ground (arith, ih, times.zscore-zadd k m now p.due);
        records = ih.records;
        quality = ih.quality;
        available_latency = ih.available_latency;
        priority_due = ih.priority_due;
        listed = ih.listed;
      }
