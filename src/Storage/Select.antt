-- ===== src/Storage/Select.antt =====
-- The choice of proxies for a client, in storage/repository.py: `_selection_skip_reason`,
-- `select_random_proxies` and `selection_counts`.
pub mod Reason
pub mod Counting
pub mod Verdicts
pub mod Judged
pub mod Total
pub mod Sound
pub mod Clean
use ip_proxy_pool.Base.{
  ℕ, zero, suc, ◌+◌, ◌-◌, min, Bool, true, false, not, ◌&&◌, ◌||◌, Option, none, some, List, [],
  ◌∷◌, ◌++◌, String, leb, ltb, ◌==◌, if◌then◌else◌, length, take, is_some,
}
use ip_proxy_pool.Models.{Floats, ProxyRecord, seconds}
use ip_proxy_pool.Storage.Server.{Server, Pool}
use ip_proxy_pool.Storage.Select.Reason.{
  Criteria, SkipReason, inconsistent, score, successes, freshness, skip_reason,
}

-- A method of selection: ValueError, LatencyIndexNotReadyError, or an answer.
pub data Answer {ℓ} (A : Type ℓ) : Type ℓ where
  invalid not_ready : Answer A
  answer : A → Answer A

abbrev age_limit : (now : ℕ) → Option ℕ → Option ℕ
age_limit now none = none
age_limit now (some age) = some (now - seconds age)

abbrev is_zero : Option ℕ → Bool
is_zero none = false
is_zero (some n) = n == 0

module _ (fl : Floats) (sv : Server fl) where
  open fl use {Float, zero_ms, leb_float}
  open sv use {Raw, decode_record, latencies}

  -- What ZRANGEBYSCORE and HMGET reply for one member.
  pub record Indexed : Type 0 where
    pub member : String
    pub latency : Float
    pub raw : Option Raw

  -- The variables of the loop.
  pub record Tally : Type 0 where
    pub selected : List (ProxyRecord fl)
    pub stale_members : List String
    pub inspected : ℕ
    pub skipped_score : ℕ
    pub skipped_freshness : ℕ
    pub skipped_successes : ℕ
    pub skipped_inconsistent : ℕ

  abbrev pub decoded : Option Raw → Option (ProxyRecord fl)
  decoded none = none
  decoded (some raw) = decode_record raw

  abbrev pub drop_stale : String → Tally → Tally
  drop_stale m t = record t {
    stale_members = t.stale_members ++ (m ∷ []);
    skipped_inconsistent = t.skipped_inconsistent + 1;
  }

  abbrev pub skip : String → SkipReason → Tally → Tally
  skip m inconsistent t = drop_stale m t
  skip m score t = record t { skipped_score = t.skipped_score + 1 }
  skip m successes t = record t { skipped_successes = t.skipped_successes + 1 }
  skip m freshness t = record t { skipped_freshness = t.skipped_freshness + 1 }

  abbrev pub judge : String → ProxyRecord fl → Option SkipReason → Tally → Tally
  judge m r none t = record t { selected = t.selected ++ (r ∷ []) }
  judge m r (some reason) t = skip m reason t

  abbrev pub inspect_record : Criteria fl → Indexed → Option (ProxyRecord fl) → Tally → Tally
  inspect_record c i none t = drop_stale i.member t
  inspect_record c i (some r) t = judge i.member r (skip_reason fl r i.latency c) t

  -- The loop over one batch.
  unfoldable pub inspect : Criteria fl → List Indexed → Tally → Tally
  inspect c [] t = t
  inspect c (i ∷ batch) t = inspect c batch (inspect_record c i (decoded i.raw) t)

  abbrev pub counted : List Indexed → Tally → Tally
  counted batch t = record t { inspected = t.inspected + length batch }

  -- The replies of ZRANGEBYSCORE and HMGET at an offset, for a number of members.
  abbrev pub Replies : Type 0
  Replies = (start num : ℕ) → List Indexed

  module _ (replies : Replies) (c : Criteria fl) (requested : ℕ) where
    abbrev pub is_enough : Tally → Bool
    is_enough t = leb requested (length t.selected)

    -- The loop over one segment, on fuel; `none` when the fuel is out.
    unfoldable pub segment : (fuel start size consumed : ℕ) → Tally → Option Tally
    segment zero start size consumed t = none
    segment (suc fuel) start size consumed t =
        let batch = replies (start + consumed) (min 200 (size - consumed)) in
        let t' = inspect c batch (counted batch t) in
        let rest = segment fuel start size (consumed + length batch) t' in
        if not (ltb consumed size) || length batch == 0
        then some t
        else if is_enough t'
        then some t'
        else rest

    abbrev pub second_segment : (start : ℕ) → Option Tally → Option Tally
    second_segment start none = none
    second_segment start (some t) =
        let rest = segment (suc start) 0 start 0 t in if is_enough t then some t else rest

    -- From a random start to the end, and then from the beginning to the start.
    unfoldable pub both_segments : (start candidates : ℕ) → Tally → Option Tally
    both_segments start candidates t =
        second_segment start (segment (suc (candidates - start)) start (candidates - start) 0 t)

  -- ProxySelection.
  pub record ProxySelection : Type 0 where
    pub records : List (ProxyRecord fl)
    pub index_members : ℕ
    pub indexed_candidates : ℕ
    pub inspected : ℕ
    pub skipped_score : ℕ
    pub skipped_freshness : ℕ
    pub skipped_successes : ℕ
    pub skipped_inconsistent : ℕ

  abbrev pub nothing_yet : Tally
  nothing_yet = record {
    selected = [];
    stale_members = [];
    inspected = 0;
    skipped_score = 0;
    skipped_freshness = 0;
    skipped_successes = 0;
    skipped_inconsistent = 0;
  }

  -- What a client asks for.
  pub record Request : Type 0 where
    pub min_score : ℕ
    pub count : ℕ
    pub max_latency_ms : Option Float
    pub max_checked_age_seconds : Option ℕ
    pub min_consecutive_successes : ℕ
    pub cleanup_stale : Bool

  abbrev is_below_zero : Option Float → Bool
  is_below_zero none = false
  is_below_zero (some v) = not (leb_float zero_ms v)

  abbrev is_invalid : Request → Bool
  is_invalid q =
      (q.count == 0 || ltb 100 q.min_score)
      || (is_below_zero q.max_latency_ms
          || (is_zero q.max_checked_age_seconds || q.min_consecutive_successes == 0))

  abbrev pub criteria_of : (now : ℕ) → Request → Criteria fl
  criteria_of now q = record {
    min_score = q.min_score;
    max_latency_ms = q.max_latency_ms;
    checked_after = age_limit now q.max_checked_age_seconds;
    min_consecutive_successes = q.min_consecutive_successes;
  }

  -- ZREM of all of them.
  unfoldable pub zrem_stale : List String → latencies.ZSet → latencies.ZSet
  zrem_stale [] z = z
  zrem_stale (m ∷ ms) z = zrem_stale ms (latencies.zrem m z)

  abbrev pub forget : List String → Pool fl sv → Pool fl sv
  forget stale p = record p { available_latency = zrem_stale stale p.available_latency }

  -- The end, given the loop's tally.
  unfoldable pub selection :
      (shuffle : List (ProxyRecord fl) → List (ProxyRecord fl))
      → (members candidates : ℕ) → Request
      → Pool fl sv
      → Tally
      → ProxySelection × Pool fl sv
  selection shuffle members candidates q p t = (
    record {
      records = take (min q.count 20) (shuffle t.selected);
      index_members = members;
      indexed_candidates = candidates;
      inspected = t.inspected;
      skipped_score = t.skipped_score;
      skipped_freshness = t.skipped_freshness;
      skipped_successes = t.skipped_successes;
      skipped_inconsistent = t.skipped_inconsistent;
    },
    if q.cleanup_stale then forget t.stale_members p else p,
  )

  abbrev pub no_selection : (members : ℕ) → ProxySelection
  no_selection members = record {
    records = [];
    index_members = members;
    indexed_candidates = 0;
    inspected = 0;
    skipped_score = 0;
    skipped_freshness = 0;
    skipped_successes = 0;
    skipped_inconsistent = 0;
  }

  -- `select_random_proxies`: `members` and `candidates` are the replies of ZCARD and ZCOUNT, `start`
  -- is the random start, and `p` the pool when the stale members are removed. `none` means that
  -- the fuel of the loop is out.
  unfoldable pub select_random_proxies :
      (ready : Bool)
      → (members candidates start now : ℕ) → Replies
      → (shuffle : List (ProxyRecord fl) → List (ProxyRecord fl)) → Request
      → Pool fl sv
      → Option (Answer (ProxySelection × Pool fl sv))
  select_random_proxies ready members candidates start now replies shuffle q p =
      let c = criteria_of now q in
      if is_invalid q
      then some invalid
      else if not ready
      then some not_ready
      else if candidates == 0
      then some (answer (no_selection members, p))
      else elim (both_segments replies c (min q.count 20) start candidates nothing_yet) [
        | none ↦ none
        | some t ↦ some (answer (selection shuffle members candidates q p t))
      ]

  -- `select_formal_export`.
  unfoldable pub select_formal_export :
      (ready : Bool)
      → (members candidates start now : ℕ) → Replies
      → (shuffle : List (ProxyRecord fl) → List (ProxyRecord fl)) → Request
      → Pool fl sv
      → Option (Answer (ProxySelection × Pool fl sv))
  unfolding select_random_proxies
  select_formal_export ready members candidates start now replies shuffle q p =
      select_random_proxies ready members candidates start now replies shuffle
        (record q { cleanup_stale = false }) p
