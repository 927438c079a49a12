-- ===== src/Migration.antt =====
-- migration.py: the rebuild of a domain's latency and priority indexes from its records, with the
-- script REPLACE_SELECTION_INDEXES of storage/lua.py.
pub mod Scores
pub mod Rebuilt
use ip_proxy_pool.Base.{
  ℕ, ◌+◌, Bool, true, false, not, ◌&&◌, Option, none, some, List, [], ◌∷◌, String, leb, ◌==◌,
  str_eq, if◌then◌else◌,
}
use ip_proxy_pool.Models.{Floats, ProxyRecord}
use ip_proxy_pool.Redis.{SetCommands}
use ip_proxy_pool.Storage.Server.{Server, Pool, Result, ok, value_error, ◌>>◌, require}
use ip_proxy_pool.Storage.Index.{latency_index_score, priority_due_score}

pub record RebuildSummary : Type 0 where
  pub scanned : ℕ
  pub indexed : ℕ
  pub priority_indexed : ℕ
  pub ignored : ℕ
  pub dry_run : Bool

abbrev pub one_if_some {ℓ} : {A : Type ℓ} → Option A → ℕ
one_if_some none = 0
one_if_some (some a) = 1

module _ {S : Type 0} {leb_score : S → S → Bool} (sets : SetCommands S leb_score) where
  -- ZADD of a member that is eligible, unless this is a dry run.
  abbrev pub add_score : (dry_run : Bool) → String → Option S → sets.ZSet → sets.ZSet
  add_score dry_run k none z = z
  add_score dry_run k (some s) z = if dry_run then z else sets.zadd k s z

module _ (fl : Floats) (sv : Server fl) (max_latency : fl.Float) where
  open sv use {Raw, decode_record, latencies, times}

  -- The variables of the loop, and the two temporary keys.
  pub record Rebuild : Type 0 where
    pub scanned : ℕ
    pub indexed : ℕ
    pub priority_indexed : ℕ
    pub ignored : ℕ
    pub temporary : latencies.ZSet
    pub priority_temporary : times.ZSet

  abbrev pub latency_of_record : Option (ProxyRecord fl) → Option fl.Float
  latency_of_record none = none
  latency_of_record (some r) = latency_index_score fl r

  abbrev pub priority_of_record : Option (ProxyRecord fl) → Option ℕ
  priority_of_record none = none
  priority_of_record (some r) = priority_due_score fl max_latency r

  -- One record: a text that is no record, and a record without a latency, are ignored.
  abbrev pub visit : (dry_run : Bool) → String → Raw → Rebuild → Rebuild
  visit dry_run k raw b =
      let latency = latency_of_record (decode_record raw) in
      let priority = priority_of_record (decode_record raw) in
      record {
        scanned = b.scanned + 1;
        indexed = b.indexed + one_if_some latency;
        priority_indexed = b.priority_indexed + one_if_some priority;
        ignored = b.ignored + (elim latency [ none ↦ 1 | some v ↦ 0 ]);
        temporary = add_score latencies dry_run k latency b.temporary;
        priority_temporary = add_score times dry_run k priority b.priority_temporary;
      }

  unfoldable pub visit_all : (dry_run : Bool) → List (String × Raw) → Rebuild → Rebuild
  visit_all dry_run [] b = b
  visit_all dry_run ((k, raw) ∷ entries) b = visit_all dry_run entries (visit dry_run k raw b)

  -- The loop, given the replies of HSCAN until its cursor is 0 again.
  unfoldable pub visit_batches : (dry_run : Bool) → List (List (String × Raw)) → Rebuild → Rebuild
  visit_batches dry_run [] b = b
  visit_batches dry_run (batch ∷ batches) b =
      visit_batches dry_run batches (visit_all dry_run batch b)

  -- The temporary keys, which are not there yet.
  abbrev pub nothing_visited : latencies.ZSet → times.ZSet → Rebuild
  nothing_visited no_latencies no_times = record {
    scanned = 0;
    indexed = 0;
    priority_indexed = 0;
    ignored = 0;
    temporary = no_latencies;
    priority_temporary = no_times;
  }

  -- REPLACE_SELECTION_INDEXES: a temporary key that is not there leaves an empty index.
  abbrev pub replace_selection_indexes : Rebuild → Pool fl sv → Pool fl sv
  replace_selection_indexes b p = record p {
    available_latency = b.temporary;
    priority_due = b.priority_temporary;
  }

  abbrev pub summary_of : (dry_run : Bool) → Rebuild → RebuildSummary
  summary_of dry_run b = record {
    scanned = b.scanned;
    indexed = b.indexed;
    priority_indexed = b.priority_indexed;
    ignored = b.ignored;
    dry_run = dry_run;
  }

  -- `rebuild`, with ZCARD and the empty sorted sets as arguments: `none` for the summary is the
  -- RuntimeError of a wrong count, which comes after the indexes are replaced.
  unfoldable pub rebuild :
      (zcard : latencies.ZSet → ℕ)
      → (zcard_times : times.ZSet → ℕ) → latencies.ZSet
      → times.ZSet
      → (domain : String) → (dry_run : Bool) → List (List (String × Raw))
      → Pool fl sv
      → Result (Option RebuildSummary × Pool fl sv)
  rebuild zcard zcard_times no_latencies no_times domain dry_run batches p =
      let b = visit_batches dry_run batches (nothing_visited no_latencies no_times) in
      let counts =
        (zcard b.temporary == b.indexed)
        && (zcard_times b.priority_temporary == b.priority_indexed) in
      require (not (str_eq domain ""))
      >> (if dry_run
          then ok (some (summary_of dry_run b), p)
          else ok
              (if counts then some (summary_of dry_run b) else none, replace_selection_indexes b p))
