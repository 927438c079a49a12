-- ===== src/Storage/Evict/Victims.antt =====
-- Which records the scan of `enforce_capacity` chooses.
use mathlib.Core.List.{append-nil, append_assoc}
use ip_proxy_pool.Base.{
  length-take, ℕ, zero, suc, ◌≡◌, refl, sym, ap, ◌∙◌, Bool, true, false, inl, inr, List, [], ◌∷◌,
  ◌++◌, String, take, length, min, none, some, arith, Option-cases,
}
use ip_proxy_pool.Models.{Floats}
use ip_proxy_pool.Storage.Server.{Server, Result, Result-cases, ok, value_error, ◌>>=◌}
use ip_proxy_pool.Storage.Evict.{
  Ranking, insert_all, sorted, ranked_before, ranked_entry, Scanned, rank_batch, scan,
}
use ip_proxy_pool.Storage.Evict.Ranked.{IsStrictOrder, take-sorted-append, length-insert_all}

ranked_before_asym :
    (text_before : String → String → Bool)
    → IsStrictOrder text_before
    → (a b : Ranking) → ranked_before text_before a b ≡ true
    → ranked_before text_before b a ≡ false
unfolding ranked_before
ranked_before_asym text_before o a b h = ground (arith, o.asym a.endpoint b.endpoint)

ranked_before_trans :
    (text_before : String → String → Bool)
    → IsStrictOrder text_before
    → (a b c : Ranking) → ranked_before text_before a b ≡ true
    → ranked_before text_before b c ≡ true
    → ranked_before text_before a c ≡ true
unfolding ranked_before
ranked_before_trans text_before o a b c h k =
    ground (arith, o.trans a.endpoint b.endpoint c.endpoint)

pub ranked_before-IsStrictOrder :
    (text_before : String → String → Bool)
    → IsStrictOrder text_before
    → IsStrictOrder (ranked_before text_before)
ranked_before-IsStrictOrder text_before o = record {
  asym = ranked_before_asym text_before o;
  trans = ranked_before_trans text_before o;
}

-- The batches as one list.
abbrev pub all_of {ℓ} : {A : Type ℓ} → List (List A) → List A
all_of [] = []
all_of (xs ∷ xss) = xs ++ all_of xss

module _ (fl : Floats) (sv : Server fl) (text_before : String → String → Bool) where
  -- The endpoints of the scanned records that were not leased.
  abbrev pub unleased : List (Scanned fl sv text_before) → List String
  unleased [] = []
  unleased (s ∷ ss) = elim s.lease_score [ none ↦ s.endpoint ∷ unleased ss | some _ ↦ unleased ss ]

  rank_batch-append :
      (xs ys : List (Scanned fl sv text_before))
      → rank_batch fl sv text_before (xs ++ ys) ≡ (
          rank_batch fl sv text_before xs >>= λ first.
          rank_batch fl sv text_before ys >>= λ second. ok (first ++ second))
  unfolding rank_batch
  rank_batch-append [] ys = elim (Result-cases (rank_batch fl sv text_before ys)) [
    | inl bad ↦ rw bad
    | inr (rs, good) ↦ rw good
  ]
  rank_batch-append (x ∷ xs) ys =
      let rest = rank_batch fl sv text_before xs in
      let others = rank_batch fl sv text_before ys in
      elim (Option-cases x.lease_score) [
        | inr (t, leased) ↦ rw (leased, rank_batch) (rank_batch-append xs ys)
        | inl free ↦
            rw (free, rank_batch, rank_batch-append xs ys)
              (ground (arith, Result-cases rest, Result-cases others))
      ]

  abbrev worst : ℕ → List Ranking → List Ranking
  worst excess rankings = take excess (sorted (ranked_before text_before) rankings)

  scan_from :
      (order : IsStrictOrder text_before) (excess : ℕ) (seen : List Ranking)
      (batches : List (List (Scanned fl sv text_before)))
      → scan fl sv text_before excess (worst excess seen) batches ≡ (
          rank_batch fl sv text_before (all_of batches) >>= λ ranked.
          ok (worst excess (seen ++ ranked)))
  unfolding scan
  scan_from order excess seen [] = unfold rank_batch in rw (append-nil seen)
  scan_from order excess seen ([] ∷ batches) = scan_from order excess seen batches
  scan_from order excess seen ((s ∷ ss) ∷ batches) =
      elim (Result-cases (rank_batch fl sv text_before (s ∷ ss))) [
        | inl bad ↦ rw (rank_batch-append (s ∷ ss) (all_of batches), bad)
        | inr (a, good) ↦
            rw (rank_batch-append (s ∷ ss) (all_of batches), good)
              (ap (λ t. scan fl sv text_before excess t batches)
                  (take-sorted-append (ranked_before text_before)
                    (ranked_before-IsStrictOrder text_before order) excess seen a)
                ∙ scan_from order excess (seen ++ a) batches
                ∙ join a (rank_batch fl sv text_before (all_of batches)))
      ]
    where
      join :
          (a : List Ranking) (r : Result (List Ranking))
          → (r >>= λ ranked. ok (worst excess ((seen ++ a) ++ ranked)))
            ≡ ((r >>= λ second. ok (a ++ second)) >>= λ ranked. ok (worst excess (seen ++ ranked)))
      join a value_error = refl
      join a (ok rs) = ap (λ t. ok (worst excess t)) (append_assoc seen a rs)

  worst-nil : (excess : ℕ) → worst excess [] ≡ []
  unfolding sorted insert_all
  worst-nil zero = refl
  worst-nil (suc n) = refl

  -- Bounded memory loses nothing: with a strict order of the texts, the scan, which keeps only
  -- `excess` candidates from batch to batch, ends with the first `excess` of all rankings sorted
  -- at once, and raises exactly if ranking the records of all batches does.
  pub scan-eq-sorted :
      (order : IsStrictOrder text_before) (excess : ℕ)
      (batches : List (List (Scanned fl sv text_before)))
      → scan fl sv text_before excess [] batches ≡ (
          rank_batch fl sv text_before (all_of batches) >>= λ ranked.
          ok (take excess (sorted (ranked_before text_before) ranked)))
  scan-eq-sorted order excess batches =
      ap (λ t. scan fl sv text_before excess t batches) (sym (worst-nil excess))
      ∙ scan_from order excess [] batches

  length-unleased :
      (ss : List (Scanned fl sv text_before)) (rs : List Ranking)
      → rank_batch fl sv text_before ss ≡ ok rs
      → length rs ≡ length (unleased ss)
  unfolding rank_batch ranked_entry
  length-unleased [] rs e = ground arith
  length-unleased (s ∷ ss) rs e = elim (Result-cases (rank_batch fl sv text_before ss)) [
    | inl bad ↦ absurd (ground (arith, bad, e))
    | inr (rest, good) ↦ ground (arith, good, e, length-unleased ss rest good)
  ]

  length-worst : (n : ℕ) (rs : List Ranking) → length (worst n rs) ≡ min n (length rs)
  unfolding sorted
  length-worst n rs = omega (
    arith,
    length-take n (insert_all (ranked_before text_before) [] rs),
    length-insert_all (ranked_before text_before) rs [],
  )

  -- How many victims a scan finds: `excess` many, or all that are not leased where these are fewer.
  pub length-scan :
      (order : IsStrictOrder text_before) (excess : ℕ)
      (batches : List (List (Scanned fl sv text_before))) (victims : List Ranking)
      → scan fl sv text_before excess [] batches ≡ ok victims
      → length victims ≡ min excess (length (unleased (all_of batches)))
  length-scan order excess batches victims e =
      let all = all_of batches in
      let same = scan-eq-sorted order excess batches in
      elim (Result-cases (rank_batch fl sv text_before all)) [
        | inl bad ↦ absurd (ground (arith, same, bad, e))
        | inr (ranked, good) ↦
            let chosen : worst excess ranked ≡ victims = ground (arith, same, good, e) in
            rw (← chosen)
              (omega (arith, length-worst excess ranked, length-unleased all ranked good))
      ]
