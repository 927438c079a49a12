-- ===== src/Migration/Rebuilt.antt =====
-- The indexes after a rebuild.
use ip_proxy_pool.Base.{
  ℕ, ◌+◌, ◌≡◌, refl, ap, sym, ◌∙◌, inl, Bool, true, false, ◌||◌, Option, none, some, List, [], ◌∷◌,
  ◌++◌, String, str_eq, elem, elem-append, All, if◌then◌else◌, arith,
}
use ip_proxy_pool.Models.{Floats, ProxyRecord}
use ip_proxy_pool.Storage.Server.{Server, Pool, ok, stored}
use ip_proxy_pool.Storage.Sound.{latency_of, priority_of}
use ip_proxy_pool.Migration.{
  RebuildSummary, Rebuild, one_if_some, latency_of_record, priority_of_record, visit, visit_all,
  visit_batches, nothing_visited, replace_selection_indexes, summary_of, rebuild,
}
use ip_proxy_pool.Migration.Scores.{IsPartial, zscore-add_score, add_score-IsPartial}

only_one {ℓ} :
    {A : Type ℓ} (b : Bool) (x y : A) → (if b then x else y) ≡ (if b || false then x else y)
only_one true x y = refl
only_one false x y = refl

one_more :
    {A : Type 0} (o : Option A) (scanned indexed ignored : ℕ)
    → scanned ≡ indexed + ignored
    → scanned + 1 ≡ indexed + one_if_some o + (ignored + (elim o [ none ↦ 1 | some v ↦ 0 ]))
one_more none scanned indexed ignored e = omega (arith, e)
one_more (some v) scanned indexed ignored e = omega (arith, e)

module _ (fl : Floats) (sv : Server fl) (max_latency : fl.Float) (p : Pool fl sv) where
  open sv use {Raw, decode_record, hashes, times, latencies}

  abbrev latency_at : String → Option fl.Float
  latency_at k = latency_of fl sv max_latency (stored fl sv k p)

  abbrev priority_at : String → Option ℕ
  priority_at k = priority_of fl sv max_latency (stored fl sv k p)

  -- An entry of a reply that tells what the pool has.
  abbrev pub IsStored : String × Raw → Type 0
  IsStored (k, raw) = hashes.hget k p.records ≡ some raw

  -- What is so far in the temporary sets.
  record IsBegun (b : Rebuild fl sv max_latency) : Type 0 where
    latency : IsPartial latencies latency_at b.temporary
    priority : IsPartial times priority_at b.priority_temporary
    counts : b.scanned ≡ b.indexed + b.ignored

  -- What visiting some members has done.
  record IsVisited (keys : List String) (b b' : Rebuild fl sv max_latency) : Type 0 where
    begun : IsBegun b'
    latency :
        (j : String)
        → latencies.zscore j b'.temporary
          ≡ (if elem j keys then latency_at j else latencies.zscore j b.temporary)
    priority :
        (j : String)
        → times.zscore j b'.priority_temporary
          ≡ (if elem j keys then priority_at j else times.zscore j b.priority_temporary)

  decode_record-stored :
      (k : String) (raw : Raw) → IsStored (k, raw) → decode_record raw ≡ stored fl sv k p
  decode_record-stored k raw there = rw there refl

  same_latency :
      (o : Option (ProxyRecord fl))
      → latency_of_record fl sv max_latency o ≡ latency_of fl sv max_latency o
  same_latency none = refl
  same_latency (some r) = refl

  same_priority :
      (o : Option (ProxyRecord fl))
      → priority_of_record fl sv max_latency o ≡ priority_of fl sv max_latency o
  same_priority none = refl
  same_priority (some r) = refl

  visit-IsVisited :
      (k : String) (raw : Raw) (b : Rebuild fl sv max_latency)
      → IsStored (k, raw)
      → IsBegun b
      → IsVisited (k ∷ []) b (visit fl sv max_latency false k raw b)
  visit-IsVisited k raw b there begun =
      let latency : latency_of_record fl sv max_latency (decode_record raw) ≡ latency_at k =
        ap (latency_of_record fl sv max_latency) (decode_record-stored k raw there)
        ∙ same_latency (stored fl sv k p) in
      let priority : priority_of_record fl sv max_latency (decode_record raw) ≡ priority_at k =
        ap (priority_of_record fl sv max_latency) (decode_record-stored k raw there)
        ∙ same_priority (stored fl sv k p) in
      rw (latency, priority)
        (record {
          begun = record {
            latency = add_score-IsPartial latencies latency_at k b.temporary begun.latency;
            priority = add_score-IsPartial times priority_at k b.priority_temporary begun.priority;
            counts = one_more (latency_at k) b.scanned b.indexed b.ignored begun.counts;
          };
          latency = λ j.
              zscore-add_score latencies latency_at j k b.temporary begun.latency
              ∙ only_one (str_eq k j) (latency_at j) (latencies.zscore j b.temporary);
          priority = λ j.
              zscore-add_score times priority_at j k b.priority_temporary begun.priority
              ∙ only_one (str_eq k j) (priority_at j) (times.zscore j b.priority_temporary);
        })

  nothing-IsVisited : (b : Rebuild fl sv max_latency) → IsBegun b → IsVisited [] b b
  nothing-IsVisited b begun = record { begun = begun; latency = λ j. refl; priority = λ j. refl }

  both-IsVisited :
      (ks ks' : List String) (b b' b'' : Rebuild fl sv max_latency)
      → IsVisited ks b b'
      → IsVisited ks' b' b''
      → IsVisited (ks ++ ks') b b''
  both-IsVisited ks ks' b b' b'' v v' = record {
    begun = v'.begun;
    latency = λ j. ground (arith, v.latency j, v'.latency j, elem-append j ks ks');
    priority = λ j. ground (arith, v.priority j, v'.priority j, elem-append j ks ks');
  }

  abbrev pub names : List (String × Raw) → List String
  names [] = []
  names ((k, raw) ∷ entries) = k ∷ names entries

  abbrev pub all_names : List (List (String × Raw)) → List String
  all_names [] = []
  all_names (batch ∷ batches) = names batch ++ all_names batches

  visit_all-IsVisited :
      (entries : List (String × Raw)) (b : Rebuild fl sv max_latency)
      → All IsStored entries
      → IsBegun b
      → IsVisited (names entries) b (visit_all fl sv max_latency false entries b)
  unfolding visit_all
  visit_all-IsVisited [] b all begun = nothing-IsVisited b begun
  visit_all-IsVisited ((k, raw) ∷ entries) b (there, all) begun =
      let v = visit-IsVisited k raw b there begun in
      both-IsVisited (k ∷ []) (names entries) b _ _ v (visit_all-IsVisited entries _ all v.begun)

  visit_batches-IsVisited :
      (batches : List (List (String × Raw))) (b : Rebuild fl sv max_latency)
      → All (All IsStored) batches
      → IsBegun b
      → IsVisited (all_names batches) b (visit_batches fl sv max_latency false batches b)
  unfolding visit_batches
  visit_batches-IsVisited [] b all begun = nothing-IsVisited b begun
  visit_batches-IsVisited (batch ∷ batches) b (here_, all) begun =
      let v = visit_all-IsVisited batch b here_ begun in
      both-IsVisited (names batch) (all_names batches) b _ _ v
        (visit_batches-IsVisited batches _ all v.begun)

  not_stored : (j : String) → hashes.hget j p.records ≡ none → stored fl sv j p ≡ none
  not_stored j gone = rw gone refl

  visited_or_gone :
      {S : Type 0} (seen : Bool) (x y : Option S)
      → y ≡ none
      → (seen ≡ false → x ≡ none)
      → (if seen then x else y) ≡ x
  visited_or_gone true x y gone h = refl
  visited_or_gone false x y gone h = gone ∙ sym (h refl)

  rebuild-cases :
      (zcard : latencies.ZSet → ℕ) (zcard_times : times.ZSet → ℕ) (no_latencies : latencies.ZSet)
      (no_times : times.ZSet) (domain : String) (batches : List (List (String × Raw)))
      (o : Option RebuildSummary) (p' : Pool fl sv)
      → rebuild fl sv max_latency zcard zcard_times no_latencies no_times domain false batches p
        ≡ ok (o, p')
      → let b =
          visit_batches fl sv max_latency false batches
            (nothing_visited fl sv max_latency no_latencies no_times) in
        (p' ≡ replace_selection_indexes fl sv max_latency b p)
        × ((n : RebuildSummary) → o ≡ some n → n ≡ summary_of fl sv max_latency false b)
  unfolding rebuild
  rebuild-cases zcard zcard_times no_latencies no_times domain batches o p' e =
      (ground (arith, e), λ n some'. ground (arith, e, some'))

  -- When the replies of HSCAN have every record of the pool, and tell what the pool has, a rebuild
  -- that is not a dry run replaces the two indexes so that they agree with the records at every
  -- endpoint, whatever they held before, and also when it ends in the RuntimeError of a wrong count;
  -- the other keys stay as they are; and a summary accounts for every text that was scanned. The
  -- empty sorted sets are assumed to be empty.
  pub rebuilt_indexes_agree :
      (zcard : latencies.ZSet → ℕ) (zcard_times : times.ZSet → ℕ) (no_latencies : latencies.ZSet)
      (no_times : times.ZSet)
      → ((j : String) → latencies.zscore j no_latencies ≡ none)
      → ((j : String) → times.zscore j no_times ≡ none)
      → (domain : String) (batches : List (List (String × Raw))) (o : Option RebuildSummary)
        (p' : Pool fl sv)
      → All (All IsStored) batches
      → ((j : String) → elem j (all_names batches) ≡ false → hashes.hget j p.records ≡ none)
      → rebuild fl sv max_latency zcard zcard_times no_latencies no_times domain false batches p
        ≡ ok (o, p')
      → ((j : String)
          → (latencies.zscore j p'.available_latency ≡ latency_at j)
            × (times.zscore j p'.priority_due ≡ priority_at j))
        × ((p' ≡ record p {
          available_latency = p'.available_latency;
          priority_due = p'.priority_due;
        })
            × ((n : RebuildSummary) → o ≡ some n → n.scanned ≡ n.indexed + n.ignored))
  unfolding rebuild
  rebuilt_indexes_agree zcard zcard_times no_latencies no_times empty empty' domain batches o p' all
        complete e =
      let b₀ : Rebuild fl sv max_latency =
        nothing_visited fl sv max_latency no_latencies no_times in
      let b = visit_batches fl sv max_latency false batches b₀ in
      let v = visit_batches-IsVisited batches b₀ all (record {
        latency = λ j. inl (empty j);
        priority = λ j. inl (empty' j);
        counts = omega arith;
      }) in
      let (replaced, told) =
        rebuild-cases zcard zcard_times no_latencies no_times domain batches o p' e in
      (
        λ j. (
          ap (λ r. latencies.zscore j r.available_latency) replaced
              ∙ v.latency j
              ∙ visited_or_gone (elem j (all_names batches)) (latency_at j)
                  (latencies.zscore j no_latencies) (empty j)
                  (λ out. ap (latency_of fl sv max_latency) (not_stored j (complete j out))),
          ap (λ r. times.zscore j r.priority_due) replaced
              ∙ v.priority j
              ∙ visited_or_gone (elem j (all_names batches)) (priority_at j)
                  (times.zscore j no_times) (empty' j)
                  (λ out. ap (priority_of fl sv max_latency) (not_stored j (complete j out))),
        ),
        (rw replaced refl, λ n some'. rw (told n some') v.begun.counts),
      )
