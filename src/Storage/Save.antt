-- ===== src/Storage/Save.antt =====
-- The writes of whole records: `upsert_candidate`, `upsert_verified` and `save_record`.
use ip_proxy_pool.Base.{
  ℕ, min, max, true, Option, none, some, List, [], ◌∷◌, String, elem, if◌then◌else◌,
}
use ip_proxy_pool.Models.{Floats, ProxyRecord, candidate, available}
use ip_proxy_pool.Storage.Server.{Server, Pool, Result, ok, ◌>>=◌, get_record}
use ip_proxy_pool.Storage.Index.{latency_index_score, priority_due_score}

-- The union of two sets of names, without repetition.
pub union : List String → List String → List String
union [] ys = ys
union (x ∷ xs) ys = let rest = union xs ys in if elem x rest then rest else x ∷ rest

module _ (fl : Floats) where
  -- `upsert_verified`: the update of the record.
  unfoldable pub verified : ProxyRecord fl → ProxyRecord fl
  verified r = record r {
    state = available;
    score = max 80 r.score;
    consecutive_successes = max 2 r.consecutive_successes;
  }

  -- `upsert_candidate`: the record of an endpoint that is new.
  unfoldable pub as_candidate : ProxyRecord fl → ProxyRecord fl
  as_candidate r = record r { state = candidate }

  -- What an endpoint that is seen again adds to its record.
  unfoldable pub merged : ProxyRecord fl → ProxyRecord fl → ProxyRecord fl
  merged existing r = record existing {
    source_names = union existing.source_names r.source_names;
    first_seen_at = min existing.first_seen_at r.first_seen_at;
    last_seen_at = max existing.last_seen_at r.last_seen_at;
  }

  -- What `upsert_candidate` writes, given the record that it found.
  abbrev pub written : Option (ProxyRecord fl) → ProxyRecord fl → ProxyRecord fl
  written none r = as_candidate r
  written (some existing) r = merged existing r

module _ (fl : Floats) (sv : Server fl) where
  open fl use {Float}
  open sv use {encode_record, hashes, times, latencies}

  -- ZADD with the score, or ZREM where there is none.
  abbrev pub index_latency : String → Option Float → latencies.ZSet → latencies.ZSet
  index_latency k none z = latencies.zrem k z
  index_latency k (some v) z = latencies.zadd k v z

  abbrev pub index_time : String → Option ℕ → times.ZSet → times.ZSet
  index_time k none z = times.zrem k z
  index_time k (some t) z = times.zadd k t z

  -- The transaction of `save_record`.
  unfoldable pub save_record : Float → ProxyRecord fl → Pool fl sv → Pool fl sv
  save_record max_latency r p = record p {
    listed = true;
    records = hashes.hset r.endpoint (encode_record r) p.records;
    quality = times.zadd r.endpoint r.score p.quality;
    due = times.zadd r.endpoint r.next_check_at p.due;
    available_latency = index_latency r.endpoint (latency_index_score fl r) p.available_latency;
    priority_due = index_time r.endpoint (priority_due_score fl max_latency r) p.priority_due;
  }

  unfoldable pub upsert_verified : Float → ProxyRecord fl → Pool fl sv → Pool fl sv
  unfolding save_record verified
  upsert_verified max_latency r p = save_record max_latency (verified fl r) p

  -- The transaction of `upsert_candidate`, with what `get_record` found before it.
  unfoldable pub write_candidate :
      Float → Option (ProxyRecord fl) → ProxyRecord fl → Pool fl sv → Pool fl sv
  unfolding as_candidate merged
  write_candidate max_latency none r p = record p {
    listed = true;
    records = hashes.hset r.endpoint (encode_record (as_candidate fl r)) p.records;
    quality = times.zadd r.endpoint r.score p.quality;
    due = times.zadd r.endpoint r.next_check_at p.due;
    available_latency = latencies.zrem r.endpoint p.available_latency;
    priority_due = times.zrem r.endpoint p.priority_due;
  }
  write_candidate max_latency (some existing) r p =
      let m = merged fl existing r in
      record p {
        listed = true;
        records = hashes.hset r.endpoint (encode_record m) p.records;
        available_latency = index_latency r.endpoint (latency_index_score fl m) p.available_latency;
        priority_due = index_time r.endpoint (priority_due_score fl max_latency m) p.priority_due;
      }

  unfoldable pub upsert_candidate : Float → ProxyRecord fl → Pool fl sv → Result (Pool fl sv)
  unfolding write_candidate
  upsert_candidate max_latency r p = do
    existing ← get_record fl sv r.endpoint p
    ok (write_candidate max_latency existing r p)
