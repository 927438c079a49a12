-- ===== src/Tests/PeerCache.antt =====
-- The theorems on a peer's cache at concrete inputs.
use ip_proxy_pool.Base.{
  ℕ, ◌+◌, ◌≤◌, ◌<◌, ◌≡◌, ◌≢◌, refl, inl, inr, true, false, none, some, List, [], ◌∷◌, String,
  str_eq, eq_iff, map, All, IsDistinct, arith, Bool-cases,
}
use ip_proxy_pool.Models.{seconds}
use ip_proxy_pool.Storage.Server.{ok}
use ip_proxy_pool.Peer.Policy.{
  SelectionPolicy, strictest, effective_peer_policy, is_valid, min_float,
}
use ip_proxy_pool.Peer.Store.{Cache, PeerCacheStore, Value, is_blocked}
use ip_proxy_pool.Peer.Store.Sync.{begin_sync, is_held_by}
use ip_proxy_pool.Peer.Store.Replace.{replace, replace_script, encode_all, stale}
use ip_proxy_pool.Peer.Store.Choice.{
  SelectedProxy, select, choose, candidate, is_eligible, count_selectable,
}
use ip_proxy_pool.Peer.Store.Failure.{invalidate}
use ip_proxy_pool.Peer.Store.Steps.{here}
use ip_proxy_pool.Peer.Store.Fencing.{superseded_sync_changes_nothing}
use ip_proxy_pool.Peer.Store.Chosen.{selection_is_usable, IsUsableProxy, IsKeyed}
use ip_proxy_pool.Peer.Store.Counted.{AreFree, count_is_how_many_select}
use ip_proxy_pool.Peer.Store.Blocked.{failed_proxy_cools_down}
use ip_proxy_pool.Tests.Memory.{whole_ms}
use ip_proxy_pool.Tests.PeerMemory.{
  Raw, a_value, a_failed, a_receipt, value, second, receipt, server,
}

abbrev policy : SelectionPolicy whole_ms
policy = record {
  domain = "d";
  min_score = 90;
  max_latency_ms = 2000;
  max_checked_age_seconds = 600;
  min_consecutive_successes = 2;
}

abbrev store : PeerCacheStore whole_ms server
store = record {
  peer_name = "p";
  domain = "d";
  policy = policy;
  cache_ttl = 180;
  cooldown = 600;
  origin_node = some "o";
}

-- Two proxies, and a receipt for the first.
abbrev cached : Cache whole_ms server
cached = record {
  generation = 0;
  lock = none;
  records = ("8.8.8.8:80", a_value value) ∷ ("9.9.9.9:80", a_value second) ∷ [];
  expiry = ("8.8.8.8:80", seconds 1180) ∷ ("9.9.9.9:80", seconds 1180) ∷ [];
  suppression = [];
  suppression_expiry = [];
  receipts = ("h", (a_receipt receipt, seconds 1600)) ∷ [];
  evictions = [];
  state = record {
    last_attempt_at = none;
    last_success_at = none;
    heartbeat_at = none;
    accepted = 0;
    consecutive_failures = 0;
    last_outcome = none;
    api_store_failures = 0;
  };
}

cached-IsKeyed : IsKeyed whole_ms server cached
cached-IsKeyed k raw there = elim (Bool-cases (str_eq "8.8.8.8:80" k)) [
  | inl first ↦
      let same : raw ≡ a_value value = ground (arith, first, there) in
      rw same (ground (arith, first, eq_iff "8.8.8.8:80" k))
  | inr other ↦ elim (Bool-cases (str_eq "9.9.9.9:80" k)) [
    | inl next_ ↦
        let same : raw ≡ a_value second = ground (arith, other, next_, there) in
        rw same (ground (arith, next_, eq_iff "9.9.9.9:80" k))
    | inr neither ↦ absurd (ground (arith, other, neither, there))
  ]
]

-- What a selection returns of a value.
abbrev chosen : (token : String) → (until : ℕ) → String → SelectedProxy whole_ms
chosen token until endpoint = record {
  endpoint = endpoint;
  domain = "d";
  score = 95;
  latency_ewma_ms = 100;
  last_checked_at = seconds 1000;
  consecutive_successes = 3;
  source_names = [];
  selection_source = "peer";
  peer_name = "p";
  selection_token = token;
  usable_until = until;
}

abbrev issued_receipt : String → (now : ℕ) → String → Value whole_ms → String × (Raw × ℕ)
issued_receipt digest now endpoint v = (
  digest,
  (
    a_receipt (record receipt {
      digest = digest;
      endpoint = endpoint;
      issued_at = now;
      expires_at = now + seconds 600;
      snapshot = v.item;
    }),
    now + seconds 600,
  ),
)

abbrev after_first : Cache whole_ms server
after_first = record cached {
  receipts = issued_receipt "h1" (seconds 1010) "8.8.8.8:80" value ∷ cached.receipts;
}

selection_is_usable_example :
    (1 ≤ 1)
    × All
        (λ x.
          (x.domain ≡ "d")
          × IsUsableProxy whole_ms server
              (strictest whole_ms policy policy policy)
              []
              (λ k. false)
              (seconds 1010)
              cached
              x)
        (chosen "t" (seconds 1180) "8.8.8.8:80" ∷ [])
unfolding select choose candidate is_eligible is_blocked effective_peer_policy is_valid min_float
selection_is_usable_example =
    selection_is_usable whole_ms server store policy (("t", "h1") ∷ []) [] "me" (λ k. false)
      (seconds 1010) (seconds 1010) cached (chosen "t" (seconds 1180) "8.8.8.8:80" ∷ []) after_first
      cached-IsKeyed refl

abbrev twenty : List (String × String)
twenty =
    ("t01", "d01")
    ∷ ("t02", "d02")
    ∷ ("t03", "d03")
    ∷ ("t04", "d04")
    ∷ ("t05", "d05")
    ∷ ("t06", "d06")
    ∷ ("t07", "d07")
    ∷ ("t08", "d08")
    ∷ ("t09", "d09")
    ∷ ("t10", "d10")
    ∷ ("t11", "d11")
    ∷ ("t12", "d12")
    ∷ ("t13", "d13")
    ∷ ("t14", "d14")
    ∷ ("t15", "d15")
    ∷ ("t16", "d16")
    ∷ ("t17", "d17")
    ∷ ("t18", "d18")
    ∷ ("t19", "d19")
    ∷ ("t20", "d20")
    ∷ []

twenty_free : AreFree whole_ms server (seconds 1010) (map (λ t. t.1) twenty) cached.receipts
twenty_free = (
  refl,
  (
    refl,
    (
      refl,
      (
        refl,
        (
          refl,
          (
            refl,
            (
              refl,
              (
                refl,
                (
                  refl,
                  (
                    refl,
                    (
                      refl,
                      (refl, (refl, (refl, (refl, (refl, (refl, (refl, (refl, (refl, tt))))))))),
                    ),
                  ),
                ),
              ),
            ),
          ),
        ),
      ),
    ),
  ),
)

twenty-IsDistinct : IsDistinct (map (λ t. t.1) twenty)
twenty-IsDistinct = (
  refl,
  (
    refl,
    (
      refl,
      (
        refl,
        (
          refl,
          (
            refl,
            (
              refl,
              (
                refl,
                (
                  refl,
                  (
                    refl,
                    (
                      refl,
                      (refl, (refl, (refl, (refl, (refl, (refl, (refl, (refl, (refl, tt))))))))),
                    ),
                  ),
                ),
              ),
            ),
          ),
        ),
      ),
    ),
  ),
)

abbrev after_both : Cache whole_ms server
after_both = record cached {
  receipts =
      issued_receipt "d02" (seconds 1010) "9.9.9.9:80" second
      ∷ issued_receipt "d01" (seconds 1010) "8.8.8.8:80" value
      ∷ cached.receipts;
}

count_is_how_many_select_example :
    (count_selectable whole_ms server store policy (λ k. false) (seconds 1010) cached ≡ ok 2)
    × (count_selectable whole_ms server store policy (λ k. false) (seconds 1010) after_both ≡ ok 2)
unfolding select choose candidate is_eligible is_blocked effective_peer_policy is_valid min_float
count_is_how_many_select_example =
    count_is_how_many_select whole_ms server store policy twenty "me" (λ k. false) (seconds 1010)
      (seconds 1010) cached after_both
      (chosen "t01" (seconds 1180) "8.8.8.8:80" ∷ chosen "t02" (seconds 1180) "9.9.9.9:80" ∷ [])
      refl twenty_free twenty-IsDistinct refl

-- The cache after the failure of the first proxy was reported, and after a selection.
abbrev failed : Cache whole_ms server
failed = record cached {
  records = ("9.9.9.9:80", a_value second) ∷ [];
  expiry = ("9.9.9.9:80", seconds 1180) ∷ [];
  suppression =
      (
        "8.8.8.8:80",
        a_failed (record {
          failed_at = seconds 1010;
          failed_source_checked_at = seconds 1000;
          blocked_until = seconds 1610;
        }),
      )
      ∷ [];
  suppression_expiry = ("8.8.8.8:80", seconds 2215) ∷ [];
  receipts = ("h", (a_receipt (record receipt { failure_applied = true }), seconds 1600)) ∷ [];
  evictions = ("h", seconds 1010) ∷ [];
}

abbrev selected_again : Cache whole_ms server
selected_again = record failed {
  receipts = issued_receipt "h1" (seconds 1020) "9.9.9.9:80" second ∷ failed.receipts;
}

failed_proxy_cools_down_example :
    All (λ x. x.endpoint ≢ "8.8.8.8:80") (chosen "t" (seconds 1180) "9.9.9.9:80" ∷ [])
unfolding invalidate select choose candidate is_eligible is_blocked effective_peer_policy is_valid
    min_float
failed_proxy_cools_down_example =
    failed_proxy_cools_down whole_ms server store receipt (seconds 1010) (seconds 1010)
      (seconds 1600) cached failed failed selected_again (a_receipt receipt) cached-IsKeyed refl
      refl (omega arith) here policy (("t", "h1") ∷ []) [] "me" (λ k. false) (seconds 1020)
      (seconds 1020) (chosen "t" (seconds 1180) "9.9.9.9:80" ∷ []) (omega arith) refl

abbrev first_sync : Cache whole_ms server
first_sync = record cached {
  generation = 1;
  lock = some (record { owner = "a"; generation = 1; deadline = seconds 1010 });
}

abbrev second_sync : Cache whole_ms server
second_sync = record cached {
  generation = 2;
  lock = some (record { owner = "b"; generation = 2; deadline = seconds 1030 });
}

superseded_sync_changes_nothing_example :
    (1 < 2) × ((true ≡ true) × ((◌≡◌ {A = ℕ} 0 0) × (second_sync ≡ second_sync)))
unfolding begin_sync replace replace_script encode_all is_held_by
superseded_sync_changes_nothing_example =
    superseded_sync_changes_nothing whole_ms server store 0 1 "a" "b" (seconds 1000) (seconds 1020)
      1 2 cached first_sync first_sync second_sync second_sync second_sync refl here refl here []
      "a" (seconds 1021) (seconds 1021) (λ k. false) stale refl
