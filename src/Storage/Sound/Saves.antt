-- ===== src/Storage/Sound/Saves.antt =====
-- The writes of whole records keep the pool sound.
use ip_proxy_pool.Base.{
  ℕ, ◌≡◌, inl, inr, Option, none, some, String, str_eq, eq_iff, if◌then◌else◌, Bool-cases, true,
  arith, refl,
}
use ip_proxy_pool.Models.{Floats, ProxyRecord}
use ip_proxy_pool.Storage.Server.{Server, Pool, stored}
use ip_proxy_pool.Storage.Index.{
  latency_index_score, priority_due_score, latency_index_score-none, priority_due_score-none,
}
use ip_proxy_pool.Storage.Save.{
  save_record, index_latency, index_time, as_candidate, merged, write_candidate,
}
use ip_proxy_pool.Storage.Sound.{IsSound}

module _ (fl : Floats) (sv : Server fl) where
  open fl use {Float}
  open sv use {hashes, owners, times, latencies, IsStorable, decode-encode, encode_record}

  pub zscore-index_latency :
      (j k : String) (s : Option Float) (z : latencies.ZSet)
      → latencies.zscore j (index_latency fl sv k s z)
        ≡ (if str_eq k j then s else latencies.zscore j z)
  zscore-index_latency j k none z = latencies.zscore-zrem j k z
  zscore-index_latency j k (some v) z = latencies.zscore-zadd j k v z

  pub zscore-index_time :
      (j k : String) (s : Option ℕ) (z : times.ZSet)
      → times.zscore j (index_time fl sv k s z) ≡ (if str_eq k j then s else times.zscore j z)
  zscore-index_time j k none z = times.zscore-zrem j k z
  zscore-index_time j k (some v) z = times.zscore-zadd j k v z

  pub save_record-IsSound :
      (max_latency : Float) (k : String) (r : ProxyRecord fl) (p : Pool fl sv)
      → IsStorable r
      → IsSound fl sv max_latency k p
      → IsSound fl sv max_latency k (save_record fl sv max_latency r p)
  unfolding save_record
  save_record-IsSound max_latency k r p h s =
      let e = r.endpoint in
      let rec = hashes.hget-hset k e (encode_record r) p.records in
      let back = decode-encode r h in
      record {
        readable = ground (arith, rec, back, s.readable);
        paired = s.paired;
        kept = ground (arith, rec, times.zscore-zadd k e r.next_check_at p.due, s.kept);
        quality = ground (arith, rec, back, times.zscore-zadd k e r.score p.quality, s.quality);
        latency = ground (
          arith,
          rec,
          back,
          zscore-index_latency k e (latency_index_score fl r) p.available_latency,
          s.latency,
        );
        priority = ground (
          arith,
          rec,
          back,
          zscore-index_time k e (priority_due_score fl max_latency r) p.priority_due,
          s.priority,
        );
      }

  pub new_candidate-IsSound :
      (max_latency : Float) (k : String) (r : ProxyRecord fl) (p : Pool fl sv)
      → IsStorable (as_candidate fl r)
      → IsSound fl sv max_latency k p
      → IsSound fl sv max_latency k (write_candidate fl sv max_latency none r p)
  unfolding write_candidate
  new_candidate-IsSound max_latency k r p h s =
      let e = r.endpoint in
      let rec = hashes.hget-hset k e (encode_record (as_candidate fl r)) p.records in
      let back = decode-encode (as_candidate fl r) h in
      let slow = latency_index_score-none fl (as_candidate fl r) (unfold as_candidate in refl) in
      let late = priority_due_score-none fl max_latency (as_candidate fl r) slow in
      record {
        readable = ground (arith, rec, back, s.readable);
        paired = s.paired;
        kept = ground (arith, rec, times.zscore-zadd k e r.next_check_at p.due, s.kept);
        quality =
            unfold as_candidate in
            ground (arith, rec, back, times.zscore-zadd k e r.score p.quality, s.quality);
        latency =
            ground
              (arith, rec, back, slow, latencies.zscore-zrem k e p.available_latency, s.latency);
        priority =
            ground (arith, rec, back, late, times.zscore-zrem k e p.priority_due, s.priority);
      }

  -- The record under `k` is there with the score of the record that was read.
  abbrev pub AgreesOn : String → ProxyRecord fl → Pool fl sv → Type 0
  AgreesOn k existing p =
      (now_there : ProxyRecord fl) × (stored fl sv k p ≡ some now_there)
      × (now_there.score ≡ existing.score)

  pub merged_candidate-IsSound :
      (max_latency : Float) (k : String) (existing r : ProxyRecord fl) (p : Pool fl sv)
      → (r.endpoint ≡ k → AgreesOn k existing p)
      → IsStorable (merged fl existing r)
      → IsSound fl sv max_latency k p
      → IsSound fl sv max_latency k (write_candidate fl sv max_latency (some existing) r p)
  unfolding write_candidate
  merged_candidate-IsSound max_latency k existing r p agrees h s =
      let e = r.endpoint in
      let m = merged fl existing r in
      let rec = hashes.hget-hset k e (encode_record m) p.records in
      let back = decode-encode m h in
      let known : (str_eq e k ≡ true → AgreesOn k existing p) =
        λ (same : str_eq e k ≡ true). agrees (ground (arith, same, eq_iff e k)) in
      record {
        readable = ground (arith, rec, back, s.readable);
        paired = s.paired;
        kept = elim (Bool-cases (str_eq e k)) [
          | inr other ↦ ground (arith, rec, other, s.kept)
          | inl same ↦
              let (y, found, scored) = known same in ground (arith, rec, same, found, s.kept)
        ];
        quality = elim (Bool-cases (str_eq e k)) [
          | inr other ↦ ground (arith, rec, back, other, s.quality)
          | inl same ↦
              let (y, found, scored) = known same in
              ground (arith, rec, back, same, found, scored, s.quality)
        ];
        latency = ground (
          arith,
          rec,
          back,
          zscore-index_latency k e (latency_index_score fl m) p.available_latency,
          s.latency,
        );
        priority = ground (
          arith,
          rec,
          back,
          zscore-index_time k e (priority_due_score fl max_latency m) p.priority_due,
          s.priority,
        );
      }
