-- ===== src/Storage/Evict.antt =====
-- `enforce_capacity` of storage/repository.py: which records a domain over its limit gives up, and
-- their removal.
pub mod Ranked
pub mod Victims
pub mod Removal
pub mod Least
pub mod Chosen
use Prim.Native.Nat.{compare, Ordering}
use ip_proxy_pool.Base.{
  ℕ, zero, suc, ◌+◌, ◌-◌, ◌/◌, Bool, true, false, Option, none, some, List, [], ◌∷◌, ◌++◌, map,
  String, str_eq, leb, ltb, if◌then◌else◌, length, take, drop,
}
use ip_proxy_pool.Models.{Floats, ProxyRecord, is_quarantined}
use ip_proxy_pool.Storage.Server.{Server, Pool, Result, ok, value_error, ◌>>=◌, ◌>>◌, require}

-- The tuple by which records are ranked, with the endpoint last.
pub record Ranking : Type 0 where
  pub state_rank : ℕ
  pub score : ℕ
  pub age : ℕ
  pub endpoint : String

-- Python's `sorted`: the entries are put in their places one after the other, an entry behind those
-- that it is not before.
module _ {ℓ} {A : Type ℓ} (before : A → A → Bool) where
  unfoldable pub insert : A → List A → List A
  insert x [] = x ∷ []
  insert x (y ∷ ys) = let rest = insert x ys in if before x y then x ∷ y ∷ ys else y ∷ rest

  unfoldable pub insert_all : List A → List A → List A
  insert_all ys [] = ys
  insert_all ys (x ∷ xs) = insert_all (insert x ys) xs

  unfoldable pub sorted : List A → List A
  sorted xs = insert_all [] xs

-- The order of the tuples, given that of the texts.
unfoldable pub ranked_before : (String → String → Bool) → Ranking → Ranking → Bool
ranked_before text_before a b = elim (compare a.state_rank b.state_rank) [
  | Ordering.lt ↦ true
  | Ordering.gt ↦ false
  | Ordering.eq ↦ elim (compare a.score b.score) [
    | Ordering.lt ↦ true
    | Ordering.gt ↦ false
    | Ordering.eq ↦ elim (compare a.age b.age) [
      | Ordering.lt ↦ true
      | Ordering.gt ↦ false
      | Ordering.eq ↦ text_before a.endpoint b.endpoint
    ]
  ]
]

abbrev pub or_else : Option ℕ → ℕ → ℕ
or_else none t = t
or_else (some s) t = s

-- `len(range(0, n, 500))`.
abbrev pub chunk_count : ℕ → ℕ
chunk_count n = (n + 499) / 500

module _ (fl : Floats) (sv : Server fl) (text_before : String → String → Bool) where
  open sv use {Raw, decode_record, hashes, times, latencies}

  -- Records in quarantine go first, by their last check; the others go by when they were last seen.
  pub ranking : String → ProxyRecord fl → Ranking
  ranking endpoint r = record {
    state_rank = if is_quarantined r.state then 0 else 1;
    score = r.score;
    age =
        if is_quarantined r.state
        then or_else r.last_checked_at r.first_seen_at
        else r.last_seen_at;
    endpoint = endpoint;
  }

  -- What HSCAN and the pipeline of ZSCORE reply for one field.
  pub record Scanned : Type 0 where
    pub endpoint : String
    pub raw : Raw
    pub lease_score : Option ℕ

  unfoldable pub ranked_entry : Scanned → Option (ProxyRecord fl) → Result Ranking
  unfolding ranking
  ranked_entry s none = value_error
  ranked_entry s (some r) = ok (ranking s.endpoint r)

  -- The rankings of the entries of a reply that are not leased.
  unfoldable pub rank_batch : List Scanned → Result (List Ranking)
  unfolding ranked_entry
  rank_batch [] = ok []
  rank_batch (s ∷ batch) =
      let rest = rank_batch batch in
      elim s.lease_score [
        | some _ ↦ rest
        | none ↦ ranked_entry s (decode_record s.raw) >>= λ r. rest >>= λ rs. ok (r ∷ rs)
      ]

  -- The scan keeps the `excess` worst of what it has seen.
  unfoldable pub scan : (excess : ℕ) → List Ranking → List (List Scanned) → Result (List Ranking)
  scan excess candidates [] = ok candidates
  scan excess candidates ([] ∷ batches) = scan excess candidates batches
  scan excess candidates ((s ∷ ss) ∷ batches) = rank_batch (s ∷ ss) >>= λ ranked.
      scan excess (take excess (sorted (ranked_before text_before) (candidates ++ ranked))) batches

  abbrev pub hdel_all : List String → hashes.Hash → hashes.Hash
  hdel_all [] h = h
  hdel_all (k ∷ ks) h = hdel_all ks (hashes.hdel k h)

  abbrev pub zrem_all : List String → times.ZSet → times.ZSet
  zrem_all [] z = z
  zrem_all (k ∷ ks) z = zrem_all ks (times.zrem k z)

  abbrev pub zrem_latencies : List String → latencies.ZSet → latencies.ZSet
  zrem_latencies [] z = z
  zrem_latencies (k ∷ ks) z = zrem_latencies ks (latencies.zrem k z)

  -- The transaction that removes a chunk.
  unfoldable pub remove_chunk : List String → Pool fl sv → Pool fl sv
  remove_chunk chunk p = record p {
    records = hdel_all chunk p.records;
    quality = zrem_all chunk p.quality;
    due = zrem_all chunk p.due;
    available_latency = zrem_latencies chunk p.available_latency;
  }

  -- So many rounds of the loop over the chunks.
  unfoldable pub remove_chunks : ℕ → List String → Pool fl sv → Pool fl sv
  remove_chunks zero endpoints p = p
  remove_chunks (suc n) endpoints p =
      remove_chunks n (drop 500 endpoints) (remove_chunk (take 500 endpoints) p)

  -- `total` is HLEN's reply, and `batches` those of the scan.
  unfoldable pub enforce_capacity :
      (maximum total : ℕ) → (batches : List (List Scanned)) → Pool fl sv → Result (ℕ × Pool fl sv)
  enforce_capacity maximum total batches p = do
    require (leb 1 maximum)
    let removal = scan (total - maximum) [] batches >>= λ candidates.
        let endpoints = map (λ (c : Ranking). c.endpoint) candidates in
        ok (length endpoints, remove_chunks (chunk_count (length endpoints)) endpoints p)
    if leb total maximum then ok (0, p) else removal
