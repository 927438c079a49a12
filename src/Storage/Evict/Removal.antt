-- ===== src/Storage/Evict/Removal.antt =====
-- What the removal of the victims leaves under each key.
use ip_proxy_pool.Base.{
  ℕ, zero, suc, ◌+◌, ◌*◌, ◌≤◌, ◌≡◌, refl, ap, subst, ◌∙◌, Bool, none, List, [], ◌∷◌, ◌++◌, String,
  if◌then◌else◌, length, take, drop, elem, elem-append, arith,
}
use ip_proxy_pool.Models.{Floats}
use ip_proxy_pool.Storage.Server.{Server, Pool}
use ip_proxy_pool.Storage.Evict.{
  hdel_all, zrem_all, zrem_latencies, remove_chunk, remove_chunks, chunk_count,
}

take-append-drop {ℓ} : {A : Type ℓ} (n : ℕ) (xs : List A) → take n xs ++ drop n xs ≡ xs
take-append-drop zero xs = refl
take-append-drop (suc n) [] = refl
take-append-drop (suc n) (x ∷ xs) = ap (λ t. x ∷ t) (take-append-drop n xs)

length-drop {ℓ} : {A : Type ℓ} (n m : ℕ) (xs : List A) → length xs ≤ n + m → length (drop n xs) ≤ m
length-drop zero m xs h = omega arith
length-drop (suc n) m [] h = omega arith
length-drop (suc n) m (x ∷ xs) h = length-drop n m xs (omega arith)

module _ (fl : Floats) (sv : Server fl) (text_before : String → String → Bool) (k : String) where
  open sv use {hashes, owners, times, latencies}

  hget-hdel_all :
      (ks : List String) (h : hashes.Hash)
      → hashes.hget k (hdel_all fl sv text_before ks h)
        ≡ (if elem k ks then none else hashes.hget k h)
  hget-hdel_all [] h = refl
  hget-hdel_all (j ∷ ks) h =
      ground (arith, hget-hdel_all ks (hashes.hdel j h), hashes.hget-hdel k j h)

  zscore-zrem_all :
      (ks : List String) (z : times.ZSet)
      → times.zscore k (zrem_all fl sv text_before ks z)
        ≡ (if elem k ks then none else times.zscore k z)
  zscore-zrem_all [] z = refl
  zscore-zrem_all (j ∷ ks) z =
      ground (arith, zscore-zrem_all ks (times.zrem j z), times.zscore-zrem k j z)

  zscore-zrem_latencies :
      (ks : List String) (z : latencies.ZSet)
      → latencies.zscore k (zrem_latencies fl sv text_before ks z)
        ≡ (if elem k ks then none else latencies.zscore k z)
  zscore-zrem_latencies [] z = refl
  zscore-zrem_latencies (j ∷ ks) z =
      ground (arith, zscore-zrem_latencies ks (latencies.zrem j z), latencies.zscore-zrem k j z)

  pub record Removes (ks : List String) (p q : Pool fl sv) : Type 0 where
    pub records : hashes.hget k q.records ≡ (if elem k ks then none else hashes.hget k p.records)
    pub quality : times.zscore k q.quality ≡ (if elem k ks then none else times.zscore k p.quality)
    pub due : times.zscore k q.due ≡ (if elem k ks then none else times.zscore k p.due)
    pub available_latency :
        latencies.zscore k q.available_latency
        ≡ (if elem k ks then none else latencies.zscore k p.available_latency)
    pub leased : q.leased ≡ p.leased
    pub lease_owners : q.lease_owners ≡ p.lease_owners
    pub priority_due : q.priority_due ≡ p.priority_due
    pub listed : q.listed ≡ p.listed

  pub remove_chunk-Removes :
      (ks : List String) (p : Pool fl sv) → Removes ks p (remove_chunk fl sv text_before ks p)
  unfolding remove_chunk
  remove_chunk-Removes ks p = record {
    records = hget-hdel_all ks p.records;
    quality = zscore-zrem_all ks p.quality;
    due = zscore-zrem_all ks p.due;
    available_latency = zscore-zrem_latencies ks p.available_latency;
    leased = refl;
    lease_owners = refl;
    priority_due = refl;
    listed = refl;
  }

  Removes-trans :
      (xs ys : List String) (p q s : Pool fl sv)
      → Removes xs p q
      → Removes ys q s
      → Removes (xs ++ ys) p s
  Removes-trans xs ys p q s a b =
      let e = elem-append k xs ys in
      record {
        records = ground (arith, e, a, b);
        quality = ground (arith, e, a, b);
        due = ground (arith, e, a, b);
        available_latency = ground (arith, e, a, b);
        leased = b.leased ∙ a.leased;
        lease_owners = b.lease_owners ∙ a.lease_owners;
        priority_due = b.priority_due ∙ a.priority_due;
        listed = b.listed ∙ a.listed;
      }

  remove_chunks-Removes :
      (n : ℕ) (ks : List String) (p : Pool fl sv)
      → length ks ≤ n * 500
      → Removes ks p (remove_chunks fl sv text_before n ks p)
  unfolding remove_chunks
  remove_chunks-Removes zero [] p h = record {
    records = refl;
    quality = refl;
    due = refl;
    available_latency = refl;
    leased = refl;
    lease_owners = refl;
    priority_due = refl;
    listed = refl;
  }
  remove_chunks-Removes zero (j ∷ ks) p h = absurd (omega arith)
  remove_chunks-Removes (suc n) ks p h =
      let q = remove_chunk fl sv text_before (take 500 ks) p in
      subst (λ t. Removes t p (remove_chunks fl sv text_before n (drop 500 ks) q))
        (take-append-drop 500 ks)
        (Removes-trans (take 500 ks) (drop 500 ks) p q _ (remove_chunk-Removes (take 500 ks) p)
          (remove_chunks-Removes n (drop 500 ks) q (length-drop 500 (n * 500) ks (omega arith))))

  -- The loop over the chunks reaches every victim.
  pub remove_all-Removes :
      (ks : List String) (p : Pool fl sv)
      → Removes ks p (remove_chunks fl sv text_before (chunk_count (length ks)) ks p)
  remove_all-Removes ks p = remove_chunks-Removes (chunk_count (length ks)) ks p (omega arith)
