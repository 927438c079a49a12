-- ===== src/Storage/Capacity.antt =====
-- What `enforce_capacity` does to the pool, its one gap included.
use ip_proxy_pool.Base.{
  ℕ, ◌-◌, ◌<◌, ◌≡◌, refl, sym, subst, ◌⊎◌, inl, inr, Bool, false, none, some, List, [], ◌∷◌, ◌≢◌,
  map, String, min, length, elem, take, count, ◌≤◌, ◌∙◌, ap, IsIn, All, arith,
}
use ip_proxy_pool.Models.{Floats}
use ip_proxy_pool.Storage.Server.{Server, Pool, Result-cases, ok}
use ip_proxy_pool.Storage.Sound.{IsSound}
use ip_proxy_pool.Storage.Evict.{
  Ranking, ranked_before, sorted, rank_batch, Scanned, scan, chunk_count, remove_chunks,
  enforce_capacity,
}
use ip_proxy_pool.Storage.Evict.Ranked.{IsStrictOrder}
use ip_proxy_pool.Storage.Evict.Victims.{
  all_of, unleased, length-scan, scan-eq-sorted, ranked_before-IsStrictOrder,
}
use ip_proxy_pool.Storage.Evict.Chosen.{
  Entry, names, worst_of, worst_of-names, worst_of-scanned, worst_of-order, count-worst_of-le,
  rank_batch-entries, unleased_entries, IsVictimOrStays,
}
use ip_proxy_pool.Storage.Evict.Removal.{Removes, remove_all-Removes}

module _ (fl : Floats) (sv : Server fl) (text_before : String → String → Bool) where
  open sv use {hashes, times}

  abbrev endpoints : List Ranking → List String
  endpoints = map (λ (c : Ranking). c.endpoint)

  capacity-eq-ok :
      (maximum total : ℕ) (batches : List (List (Scanned fl sv text_before))) (p : Pool fl sv)
      (n : ℕ) (q : Pool fl sv)
      → enforce_capacity fl sv text_before maximum total batches p ≡ ok (n, q)
      → maximum < total
      → (victims : List Ranking) × (scan fl sv text_before (total - maximum) [] batches
          ≡ ok victims)
        × (n ≡ length (endpoints victims))
        × (q
            ≡ remove_chunks fl sv text_before
                (chunk_count (length (endpoints victims)))
                (endpoints victims)
                p)
  unfolding enforce_capacity
  capacity-eq-ok maximum total batches p n q e over =
      elim (Result-cases (scan fl sv text_before (total - maximum) [] batches)) [
        | inl bad ↦ absurd (ground (arith, bad, e))
        | inr (victims, good) ↦ (victims, good, ground (arith, good, e), ground (arith, good, e))
      ]

  -- What the scan of a full domain chooses.
  chosen-worst_of :
      (order : IsStrictOrder text_before) (excess : ℕ)
      (batches : List (List (Scanned fl sv text_before))) (victims : List Ranking)
      → scan fl sv text_before excess [] batches ≡ ok victims
      → (endpoints victims
          ≡ names fl sv text_before (worst_of fl sv text_before excess (all_of batches)))
        × (unleased fl sv text_before (all_of batches)
            ≡ names fl sv text_before (unleased_entries fl sv text_before (all_of batches)))
  chosen-worst_of order excess batches victims e =
      let all = all_of batches in
      let same = scan-eq-sorted fl sv text_before order excess batches in
      elim (Result-cases (rank_batch fl sv text_before all)) [
        | inl bad ↦ absurd (ground (arith, same, bad, e))
        | inr (ranked, good) ↦
            let chosen : take excess (sorted (ranked_before text_before) ranked) ≡ victims =
              ground (arith, same, good, e) in
            (
              ap endpoints (sym chosen) ∙ worst_of-names fl sv text_before excess all ranked good,
              (rank_batch-entries fl sv text_before all ranked good).1,
            )
      ]

  length-endpoints : (victims : List Ranking) → length (endpoints victims) ≡ length victims
  length-endpoints [] = refl
  length-endpoints (c ∷ cs) = omega (arith, length-endpoints cs)

  length-names :
      (es : List (Entry fl sv text_before)) → length (names fl sv text_before es) ≡ length es
  length-names [] = refl
  length-names (e ∷ es) = omega (arith, length-names es)

  -- Over its limit a domain gives up as many records as it has too many, or all that are not leased
  -- where these are fewer, and the count is returned; it counts an endpoint that the scan replied
  -- twice no more than twice. Each victim had no lease when it was scanned, with that record, and
  -- whatever else was scanned without a lease does not have to go before any of them: quarantined
  -- records go before others, then lower scores, then a longer time since the last check, or since
  -- the last sight of what is not in quarantine. The victims' records and their entries in the
  -- quality, due and latency indexes are gone, and nothing else has changed: no other endpoint's
  -- keys, no lease, and not the priority index.
  pub capacity_is_enforced :
      (order : IsStrictOrder text_before) (maximum total : ℕ)
      (batches : List (List (Scanned fl sv text_before))) (p : Pool fl sv) (n : ℕ) (q : Pool fl sv)
      → enforce_capacity fl sv text_before maximum total batches p ≡ ok (n, q)
      → maximum < total
      → (victims : List (Entry fl sv text_before)) × (n ≡ length victims)
        × (n ≡ min (total - maximum) (length (unleased fl sv text_before (all_of batches))))
        × ((k : String)
            → count k (names fl sv text_before victims)
              ≤ count k (unleased fl sv text_before (all_of batches)))
        × All (λ v. IsIn v (unleased_entries fl sv text_before (all_of batches))) victims
        × All
            (IsVictimOrStays fl sv text_before victims)
            (unleased_entries fl sv text_before (all_of batches))
        × ((k : String) → Removes fl sv text_before k (names fl sv text_before victims) p q)
  capacity_is_enforced order maximum total batches p n q e over =
      let (victims, chosen, count_, removed) = capacity-eq-ok maximum total batches p n q e over in
      let excess = total - maximum in
      let all = all_of batches in
      let v = length-scan fl sv text_before order excess batches victims chosen in
      let (same, whole) = chosen-worst_of order excess batches victims chosen in
      let ranked_order = ranked_before-IsStrictOrder text_before order in
      let worst = worst_of fl sv text_before excess all in
      (
        worst,
        omega (arith, ap length same, length-names worst),
        omega (arith, length-endpoints victims),
        λ k.
            subst (λ t. count k (names fl sv text_before worst) ≤ count k t) (sym whole)
              (count-worst_of-le fl sv text_before k excess all),
        worst_of-scanned fl sv text_before excess all ranked_order,
        worst_of-order fl sv text_before excess all ranked_order,
        λ k.
            subst (λ ks. Removes fl sv text_before k ks p q) same
              (subst (Removes fl sv text_before k (endpoints victims) p) (sym removed)
                (remove_all-Removes fl sv text_before k (endpoints victims) p)),
      )

  pub Removes-IsSound :
      (max_latency : fl.Float) (k : String) (victims : List String) (p q : Pool fl sv)
      → Removes fl sv text_before k victims p q
      → (elem k victims ≡ false) ⊎ (times.zscore k p.priority_due ≡ none)
      → IsSound fl sv max_latency k p
      → IsSound fl sv max_latency k q
  Removes-IsSound max_latency k victims p q r o s = record {
    readable = ground (arith, r.records, s.readable);
    paired = rw (r.leased, r.lease_owners) s.paired;
    kept = ground (arith, r.records, r.due, r.leased, s.kept);
    quality = ground (arith, r.records, r.quality, s.quality);
    latency = ground (arith, r.records, r.available_latency, s.latency);
    priority = ground (arith, r.records, r.priority_due, o, s.priority);
  }

  module _ (order : IsStrictOrder text_before) (max_latency : fl.Float) (maximum total : ℕ)
      (batches : List (List (Scanned fl sv text_before))) (p q : Pool fl sv) (n : ℕ)
      (ran : enforce_capacity fl sv text_before maximum total batches p ≡ ok (n, q))
      (over : maximum < total) (k : String) where
    -- Enforcing the capacity keeps an endpoint sound if its record stays or if it is not in the
    -- priority index.
    pub enforce_capacity-IsSound :
        (hashes.hget k q.records ≢ none) ⊎ (times.zscore k p.priority_due ≡ none)
        → IsSound fl sv max_latency k p
        → IsSound fl sv max_latency k q
    enforce_capacity-IsSound o s =
        let (victims, _, _, _, _, _, removes) =
          capacity_is_enforced order maximum total batches p n q ran over in
        let r = removes k in
        Removes-IsSound max_latency k (names fl sv text_before victims) p q r
          (ground (arith, o, r.records)) s

    -- Enforcing the capacity leaves the priority index alone: an endpoint that was in it and whose
    -- record is evicted stays there at its old time, with no record behind it, and the pool is not
    -- sound at it.
    pub evicted_priority_is_dangling :
        (at : ℕ)
        → times.zscore k p.priority_due ≡ some at
        → hashes.hget k q.records ≡ none
        → (times.zscore k q.priority_due ≡ some at) × ¬ IsSound fl sv max_latency k q
    evicted_priority_is_dangling at listed gone =
        let (victims, _, _, _, _, _, removes) =
          capacity_is_enforced order maximum total batches p n q ran over in
        let still : times.zscore k q.priority_due ≡ some at = rw (removes k).priority_due listed in
        (still, λ s. ground (arith, gone, still, s.priority))
