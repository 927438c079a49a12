-- ===== src/Storage/Evict/Chosen.antt =====
-- Which records are the victims, by what the records say.
use ip_proxy_pool.Base.{
  ℕ, zero, suc, ◌≤◌, ◌<◌, ◌≡◌, ◌≢◌, refl, sym, ap, ◌∙◌, ◌⊎◌, inl, inr, Bool, true, false, Option,
  none, some, List, [], ◌∷◌, map, String, take, All, IsIn, count, Bool-cases, Option-cases, arith,
}
use ip_proxy_pool.Models.{Floats, ProxyRecord, quarantined}
use ip_proxy_pool.Storage.Server.{Server, Result-cases, ok}
use ip_proxy_pool.Storage.Evict.{
  Ranking, insert, insert_all, sorted, ranked_before, ranking, ranked_entry, or_else, Scanned,
  rank_batch,
}
use ip_proxy_pool.Storage.Evict.Ranked.{IsStrictOrder, insert_all-All}
use ip_proxy_pool.Storage.Evict.Least.{
  IsChosenOrNotBefore, sorted-IsChosenOrNotBefore, count-take-sorted-le,
}
use ip_proxy_pool.Storage.Evict.Victims.{unleased}

module _ (fl : Floats) (sv : Server fl) (text_before : String → String → Bool) where
  -- An endpoint and its record.
  abbrev pub Entry : Type 0
  Entry = String × ProxyRecord fl

  -- The last check, or the first sight of a record that was never checked.
  abbrev pub checked_or_seen : ProxyRecord fl → ℕ
  checked_or_seen r = or_else r.last_checked_at r.first_seen_at

  -- What has to go first: quarantined records before others; among quarantined ones, and among the
  -- others, lower scores; and with the same score, of the quarantined those whose last check, and of
  -- the others those whose last sight is longer ago.
  abbrev pub GoesBefore : ProxyRecord fl → ProxyRecord fl → Type 0
  GoesBefore a b =
      ((a.state ≡ quarantined) × (b.state ≢ quarantined))
      ⊎ ((a.state ≡ quarantined)
          × (b.state ≡ quarantined)
          × ((a.score < b.score) ⊎ ((a.score ≡ b.score) × (checked_or_seen a < checked_or_seen b))))
      ⊎ ((a.state ≢ quarantined)
          × (b.state ≢ quarantined)
          × ((a.score < b.score) ⊎ ((a.score ≡ b.score) × (a.last_seen_at < b.last_seen_at))))

  pub rank_of : Entry → Ranking
  unfolding ranking
  rank_of (endpoint, r) = ranking fl sv text_before endpoint r

  abbrev before : Entry → Entry → Bool
  before a b = ranked_before text_before (rank_of a) (rank_of b)

  GoesBefore-before : (a b : Entry) → GoesBefore a.1 b.1 → before a b ≡ true
  unfolding rank_of ranking ranked_before
  GoesBefore-before (k, a) (j, b) h = ground (arith, h)

  abbrev with_entry : String → Option (ProxyRecord fl) → List Entry → List Entry
  with_entry k none es = es
  with_entry k (some r) es = (k, r) ∷ es

  -- The endpoints with the records of what was scanned and not leased.
  abbrev pub unleased_entries : List (Scanned fl sv text_before) → List Entry
  unleased_entries [] = []
  unleased_entries (s ∷ ss) = elim s.lease_score [
    | none ↦ with_entry s.endpoint (sv.decode_record s.raw) (unleased_entries ss)
    | some _ ↦ unleased_entries ss
  ]

  pub rank_batch-entries :
      (ss : List (Scanned fl sv text_before)) (rs : List Ranking)
      → rank_batch fl sv text_before ss ≡ ok rs
      → (rs ≡ map rank_of (unleased_entries ss))
        × (unleased fl sv text_before ss ≡ map (λ (e : Entry). e.0) (unleased_entries ss))
  unfolding rank_batch ranked_entry rank_of
  rank_batch-entries [] rs e = (ground (arith, e), refl)
  rank_batch-entries (s ∷ ss) rs e = elim (Option-cases s.lease_score) [
    | inr (t, leased) ↦ rw leased (rank_batch-entries ss rs (rw (leased, rank_batch) at e))
    | inl free ↦ elim (Option-cases (sv.decode_record s.raw)) [
      | inl bad ↦ absurd (ground (arith, free, bad, e))
      | inr (r, there) ↦ elim (Result-cases (rank_batch fl sv text_before ss)) [
        | inl bad ↦ absurd (ground (arith, free, there, bad, e))
        | inr (rest, good) ↦
            let (ranks, names) = rank_batch-entries ss rest good in
            let made : rank_of (s.endpoint, r) ∷ rest ≡ rs = ground (arith, free, there, good, e) in
            rw (free, there)
              (
                sym made ∙ ap (λ t. rank_of (s.endpoint, r) ∷ t) ranks,
                ap (λ t. s.endpoint ∷ t) names,
              )
      ]
    ]
  ]

  before-IsStrictOrder : IsStrictOrder (ranked_before text_before) → IsStrictOrder before
  before-IsStrictOrder o = record {
    asym = λ x y. o.asym (rank_of x) (rank_of y);
    trans = λ x y z. o.trans (rank_of x) (rank_of y) (rank_of z);
  }

  insert-map :
      (x : Entry) (ys : List Entry)
      → insert (ranked_before text_before) (rank_of x) (map rank_of ys)
        ≡ map rank_of (insert before x ys)
  unfolding insert
  insert-map x [] = refl
  insert-map x (y ∷ ys) = elim (Bool-cases (before x y)) [
    | inl lower ↦ rw lower refl
    | inr upper ↦ rw upper (ap (λ t. rank_of y ∷ t) (insert-map x ys))
  ]

  insert_all-map :
      (xs ys : List Entry)
      → insert_all (ranked_before text_before) (map rank_of ys) (map rank_of xs)
        ≡ map rank_of (insert_all before ys xs)
  unfolding insert_all
  insert_all-map [] ys = refl
  insert_all-map (x ∷ xs) ys =
      ap (λ t. insert_all (ranked_before text_before) t (map rank_of xs)) (insert-map x ys)
      ∙ insert_all-map xs (insert before x ys)

  take-map : (n : ℕ) (xs : List Entry) → take n (map rank_of xs) ≡ map rank_of (take n xs)
  take-map zero xs = refl
  take-map (suc n) [] = refl
  take-map (suc n) (x ∷ xs) = ap (λ t. rank_of x ∷ t) (take-map n xs)

  pub worst_of : (excess : ℕ) → List (Scanned fl sv text_before) → List Entry
  worst_of excess ss = take excess (sorted before (unleased_entries ss))

  abbrev pub names : List Entry → List String
  names = map (λ (e : Entry). e.0)

  names-rank_of : (es : List Entry) → map (λ (c : Ranking). c.endpoint) (map rank_of es) ≡ names es
  unfolding rank_of
  names-rank_of [] = refl
  names-rank_of (e ∷ es) = ap (λ t. e.0 ∷ t) (names-rank_of es)

  -- The endpoints of the rankings that the scan ends with.
  pub worst_of-names :
      (excess : ℕ) (ss : List (Scanned fl sv text_before)) (rs : List Ranking)
      → rank_batch fl sv text_before ss ≡ ok rs
      → map (λ (c : Ranking). c.endpoint) (take excess (sorted (ranked_before text_before) rs))
        ≡ names (worst_of excess ss)
  unfolding worst_of sorted
  worst_of-names excess ss rs e =
      let es = unleased_entries ss in
      ap
        (λ t.
          map (λ (c : Ranking). c.endpoint)
            (take excess (insert_all (ranked_before text_before) [] t)))
        (rank_batch-entries ss rs e).0
      ∙ ap (λ t. map (λ (c : Ranking). c.endpoint) (take excess t)) (insert_all-map es [])
      ∙ ap (map (λ (c : Ranking). c.endpoint)) (take-map excess (insert_all before [] es))
      ∙ names-rank_of (take excess (insert_all before [] es))

  take-IsIn-All : (n : ℕ) (P : Entry → Type 0) (xs : List Entry) → All P xs → All P (take n xs)
  take-IsIn-All zero P xs h = tt
  take-IsIn-All (suc n) P [] h = tt
  take-IsIn-All (suc n) P (x ∷ xs) h = (h.0, take-IsIn-All n P xs h.1)

  All-IsIn_more :
      (x : Entry) (all es : List Entry) → All (λ e. IsIn e all) es → All (λ e. IsIn e (x ∷ all)) es
  All-IsIn_more x all [] h = tt
  All-IsIn_more x all (e ∷ es) h = (inr h.0, All-IsIn_more x all es h.1)

  All-IsIn_self : (es : List Entry) → All (λ e. IsIn e es) es
  All-IsIn_self [] = tt
  All-IsIn_self (e ∷ es) = (inl refl, All-IsIn_more e es es (All-IsIn_self es))

  pub worst_of-scanned :
      (excess : ℕ) (ss : List (Scanned fl sv text_before))
      → IsStrictOrder (ranked_before text_before)
      → All (λ e. IsIn e (unleased_entries ss)) (worst_of excess ss)
  unfolding worst_of sorted
  worst_of-scanned excess ss order =
      let es = unleased_entries ss in
      take-IsIn-All excess (λ e. IsIn e es) (insert_all before [] es)
        (insert_all-All before (before-IsStrictOrder order) (λ e. IsIn e es) es []
          (All-IsIn_self es) tt)

  -- A victim, or nothing that has to go before any victim.
  abbrev pub IsVictimOrStays : List Entry → Entry → Type 0
  IsVictimOrStays victims e = IsIn e victims ⊎ All (λ v. ¬ GoesBefore e.1 v.1) victims

  not_before-All :
      (e : Entry) (vs : List Entry)
      → All (λ v. before e v ≡ false) vs
      → All (λ v. ¬ GoesBefore e.1 v.1) vs
  not_before-All e [] h = tt
  not_before-All e (v ∷ vs) h = (
    λ (g : GoesBefore e.1 v.1).
        let yes_before = GoesBefore-before e v g in ground (arith, h.0, yes_before),
    not_before-All e vs h.1,
  )

  to_records :
      (vs es : List Entry) → All (IsChosenOrNotBefore before vs) es → All (IsVictimOrStays vs) es
  to_records vs [] h = tt
  to_records vs (e ∷ es) h = (
    elim h.0 [ inl in_ ↦ inl in_ | inr stays ↦ inr (not_before-All e vs stays) ],
    to_records vs es h.1,
  )

  pub worst_of-order :
      (excess : ℕ) (ss : List (Scanned fl sv text_before))
      → IsStrictOrder (ranked_before text_before)
      → All (IsVictimOrStays (worst_of excess ss)) (unleased_entries ss)
  unfolding worst_of
  worst_of-order excess ss order =
      let es = unleased_entries ss in
      to_records (take excess (sorted before es)) es
        (sorted-IsChosenOrNotBefore before (before-IsStrictOrder order) excess es)

  pub count-worst_of-le :
      (k : String) (excess : ℕ) (ss : List (Scanned fl sv text_before))
      → count k (names (worst_of excess ss)) ≤ count k (names (unleased_entries ss))
  unfolding worst_of
  count-worst_of-le k excess ss =
      count-take-sorted-le before (λ (e : Entry). e.0) k excess (unleased_entries ss)
