-- ===== src/Peer/Store/Choice.antt =====
-- `select`, `count` and SELECT: cached proxies for a caller, with a receipt for each.
use ip_proxy_pool.Base.{
  ℕ, zero, suc, ◌+◌, ◌-◌, min, Bool, true, false, not, ◌&&◌, ◌||◌, Option, none, some, List, [],
  ◌∷◌, ◌++◌, String, leb, ltb, str_eq, elem, length, if◌then◌else◌,
}
use ip_proxy_pool.Models.{Floats, seconds}
use ip_proxy_pool.Storage.Server.{Result, ok, ◌>>=◌, ◌>>◌, require}
use ip_proxy_pool.Peer.Policy.{SelectionPolicy, effective_peer_policy}
use ip_proxy_pool.Peer.Store.{
  PeerServer, Failed, Cache, PeerCacheStore, Value, SelectionReceipt, suppressed, is_blocked,
}

module _ (fl : Floats) where
  open fl use {Float, leb_float}

  pub record SelectedProxy : Type 0 where
    pub endpoint : String
    pub domain : String
    pub score : ℕ
    pub latency_ewma_ms : Float
    pub last_checked_at : ℕ
    pub consecutive_successes : ℕ
    pub source_names : List String
    pub selection_source : String
    pub peer_name : String
    pub selection_token : String
    pub usable_until : ℕ

  -- What a selection asks for: the policy, the exclusions, the caller and the cache's domain.
  pub record PeerRequest : Type 0 where
    pub policy : SelectionPolicy fl
    pub exclusions : List String
    pub principal_fingerprint : String
    pub domain : String

  -- The tests of a value.
  unfoldable pub is_eligible : PeerRequest → (now : ℕ) → Value fl → Bool
  is_eligible q now v =
      ((str_eq v.item.domain q.domain && leb q.policy.min_score v.item.score)
        && (leb_float v.item.latency_ewma_ms q.policy.max_latency_ms
            && leb q.policy.min_consecutive_successes v.item.consecutive_successes))
      && ((leb v.checked_epoch (now + seconds 5)
            && ltb now (v.checked_epoch + seconds q.policy.max_checked_age_seconds))
          && ltb now v.expires_epoch)

  abbrev pub usable_until : PeerRequest → (now : ℕ) → Value fl → ℕ
  usable_until q now v =
      min (min (now + seconds 600) v.expires_epoch)
        (v.checked_epoch + seconds q.policy.max_checked_age_seconds - seconds 5)

module _ (fl : Floats) (sv : PeerServer fl) where
  -- `_decode_selected` of what the script writes.
  abbrev pub decode_selected : (token : String) → (until : ℕ) → Value fl → SelectedProxy fl
  decode_selected token until v = record {
    endpoint = v.item.endpoint;
    domain = v.item.domain;
    score = v.item.score;
    latency_ewma_ms = sv.rounded_float v.item.latency_ewma_ms;
    last_checked_at = sv.rounded v.checked_epoch;
    consecutive_successes = v.item.consecutive_successes;
    source_names = v.item.source_names;
    selection_source = "peer";
    peer_name = v.item.peer_name;
    selection_token = token;
    usable_until = sv.rounded until;
  }

module _ (fl : Floats) (sv : PeerServer fl) (q : PeerRequest fl) (is_formal : String → Bool) where
  open sv use {Raw, hashes, deadlines, keys}

  abbrev pub decoded : Option Raw → Option (Value fl)
  decoded none = none
  decoded (some raw) = some (sv.decode_value raw)

  abbrev pub is_usable : (now : ℕ) → Option Failed → Value fl → Bool
  is_usable now f v =
      is_eligible fl q now v
      && (not (is_blocked now v.checked_epoch f) && ltb now (usable_until fl q now v))

  abbrev only : Bool → Value fl → Option (Value fl)
  only wanted v = if wanted then some v else none

  abbrev pub judged : (now : ℕ) → Option Failed → Option (Value fl) → Option (Value fl)
  judged now f none = none
  judged now f (some v) = only (is_usable now f v) v

  -- The value of a member that passes every test, if it has one.
  unfoldable pub candidate : (now : ℕ) → String → Cache fl sv → Option (Value fl)
  candidate now k s =
      if elem k q.exclusions || is_formal k
      then none
      else judged now (suppressed fl sv k s) (decoded (hashes.hget k s.records))

  abbrev pub receipt_for : (digest : String) → (now : ℕ) → String → Value fl → SelectionReceipt fl
  receipt_for digest now k v = record {
    digest = digest;
    principal_fingerprint = q.principal_fingerprint;
    domain = v.item.domain;
    endpoint = k;
    selection_source = "peer";
    peer_name = some v.item.peer_name;
    source_checked_at = v.checked_epoch;
    snapshot = v.item;
    issued_at = now;
    expires_at = now + seconds 600;
    failure_applied = false;
  }

  abbrev is_free : Option Raw → Bool
  is_free none = true
  is_free (some raw) = false

  -- SET with NX of a receipt under its digest.
  abbrev pub issued :
      (clock now : ℕ) → (digest : String) → String → Value fl → Cache fl sv → Cache fl sv
  issued clock now digest k v s = record s {
    receipts =
        keys.set_px clock digest (sv.encode_receipt (receipt_for digest now k v)) (seconds 600)
          s.receipts;
  }

  -- The loop over the members, with the tokens that are left, each with its digest: there are as
  -- many as proxies to select, and the loop breaks when the last is used.
  unfoldable pub choose :
      (clock now : ℕ)
      → (members : List String) → (tokens : List (String × String)) → List (SelectedProxy fl)
      → Cache fl sv
      → List (SelectedProxy fl) × Cache fl sv
  choose clock now members [] selected s = (selected, s)
  choose clock now [] ((token, digest) ∷ tokens) selected s = (selected, s)
  choose clock now (k ∷ members) ((token, digest) ∷ tokens) selected s = elim (candidate now k s) [
    | none ↦ choose clock now members ((token, digest) ∷ tokens) selected s
    | some v ↦
        let item = decode_selected fl sv token (usable_until fl q now v) v in
        let skipped = choose clock now members ((token, digest) ∷ tokens) selected s in
        let rest =
          choose clock now members tokens (selected ++ (item ∷ []))
            (issued clock now digest k v s) in
        if is_free (keys.get clock digest s.receipts) then rest else skipped
  ]

  -- The same loop in the mode `count`, for at most `limit` members.
  unfoldable pub count_members : (now : ℕ) → List String → (limit : ℕ) → Cache fl sv → ℕ
  count_members now members zero s = 0
  count_members now [] (suc limit) s = 0
  count_members now (k ∷ members) (suc limit) s = elim (candidate now k s) [
    | none ↦ count_members now members (suc limit) s
    | some v ↦ suc (count_members now members limit s)
  ]

module _ (fl : Floats) (sv : PeerServer fl) where
  open sv use {Raw, deadlines}

  abbrev pub request_of :
      PeerCacheStore fl sv → SelectionPolicy fl → List String → String → PeerRequest fl
  request_of st policy exclusions principal_fingerprint = record {
    policy = policy;
    exclusions = exclusions;
    principal_fingerprint = principal_fingerprint;
    domain = st.domain;
  }

  -- SELECT over the members that do not expire before now.
  abbrev pub select_script :
      PeerRequest fl
      → (is_formal : String → Bool) → (clock now : ℕ) → List (String × String)
      → Cache fl sv
      → List (SelectedProxy fl) × Cache fl sv
  select_script q is_formal clock now tokens s =
      choose fl sv q is_formal clock now (deadlines.zrange_after now s.expiry) tokens [] s

  -- `select`: `tokens` are the random tokens, whose number is the count, each with its digest.
  unfoldable pub select :
      PeerCacheStore fl sv
      → SelectionPolicy fl
      → (tokens : List (String × String)) → (exclusions : List String)
      → (principal_fingerprint : String) → (is_formal : String → Bool) → (clock now : ℕ)
      → Cache fl sv
      → Result (List (SelectedProxy fl) × Cache fl sv)
  select st policy tokens exclusions principal_fingerprint is_formal clock now s = do
    require (str_eq policy.domain st.domain && (leb 1 (length tokens) && leb (length tokens) 20))
    effective ← effective_peer_policy fl policy st.policy st.policy
    ok (
        select_script (request_of st effective exclusions principal_fingerprint) is_formal clock now
          tokens s)

  unfoldable pub count_selectable :
      PeerCacheStore fl sv
      → SelectionPolicy fl
      → (is_formal : String → Bool) → (now : ℕ) → Cache fl sv
      → Result ℕ
  count_selectable st policy is_formal now s = do
    require (str_eq policy.domain st.domain)
    effective ← effective_peer_policy fl policy st.policy st.policy
    ok (
        count_members fl sv (request_of st effective [] "") is_formal now
          (deadlines.zrange_after now s.expiry) 20 s)
