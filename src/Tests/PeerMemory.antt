-- ===== src/Tests/PeerMemory.antt =====
-- A peer's cache in memory: the documented behaviour of the commands that it uses can be met.
use ip_proxy_pool.Base.{
  ℕ, ◌+◌, ◌≤◌, ◌≡◌, refl, inl, inr, true, false, Option, none, some, List, [], ◌∷◌, String, str_eq,
  if◌then◌else◌, leb, ltb, elem, length, arith, Bool-cases,
}
use ip_proxy_pool.Models.{seconds}
use ip_proxy_pool.Redis.{DeadlineCommands, KeyCommands}
use ip_proxy_pool.Peer.Store.{PeerServer, PeerCacheRecord, SelectionReceipt, Value, Failed}
use ip_proxy_pool.Tests.Memory.{
  whole_ms, memory, get, put, drop_key, get-put, get-drop_key, range, range_sound,
}

abbrev keys_above : (lo : ℕ) → List (String × ℕ) → List String
keys_above lo [] = []
keys_above lo ((k, s) ∷ z) = let rest = keys_above lo z in if ltb lo s then k ∷ rest else rest

abbrev keep_from : (age now : ℕ) → List (String × ℕ) → List (String × ℕ)
keep_from age now [] = []
keep_from age now ((k, s) ∷ z) =
    let rest = keep_from age now z in if leb now (s + age) then (k, s) ∷ rest else rest

pub until_sound :
    (k : String) (limit : ℕ) (z : List (String × ℕ))
    → elem k (range leb limit (length z) z) ≡ true
    → (s : ℕ) × (get k z ≡ some s) × (s ≤ limit)
until_sound k limit z e =
    let (s, found, low) = range_sound leb k limit (length z) z e in (s, found, ground (arith, low))

abbrev pub deadlines : DeadlineCommands
deadlines = record {
  Deadlines = List (String × ℕ);
  no_deadlines = [];
  zscore = get;
  zadd = put;
  zrem = drop_key;
  zrange_until = λ limit z. range leb limit (length z) z;
  zrange_after = keys_above;
  zrem_before = keep_from;
  zscore-zadd = get-put;
  zscore-zrem = get-drop_key;
  zrange_until_sound = until_sound;
}

module _ {V : Type 0} where
  abbrev alive : (at : ℕ) → Option (V × ℕ) → Option V
  alive at none = none
  alive at (some (v, deadline)) = if ltb at deadline then some v else none

  abbrev left : (clock : ℕ) → Option (V × ℕ) → ℕ
  left clock none = 0
  left clock (some (v, deadline)) = Prim.Native.Nat.◌-◌ deadline clock

  pub alive-put :
      (at clock : ℕ) (j k : String) (v : V) (ttl : ℕ) (m : List (String × (V × ℕ)))
      → clock ≤ at
      → alive at (get j (put k (v, clock + ttl) m)) ≡ (
          if str_eq k j
          then (if ltb at (clock + ttl) then some v else none)
          else alive at (get j m))
  alive-put at clock j k v ttl m h = elim (Bool-cases (str_eq k j)) [
    | inl same ↦ rw (get-put j k (v, clock + ttl) m, same) refl
    | inr other ↦ rw (get-put j k (v, clock + ttl) m, other) refl
  ]

  abbrev pub keys : KeyCommands V
  keys = record {
    Keys = List (String × (V × ℕ));
    get = λ at k m. alive at (get k m);
    set_px = λ clock k v ttl m. put k (v, clock + ttl) m;
    pttl = λ clock k m. left clock (get k m);
    get-set_px = alive-put;
  }

pub data Raw : Type 0 where
  a_value : Value whole_ms → Raw
  a_failed : Failed → Raw
  a_receipt : SelectionReceipt whole_ms → Raw

abbrev pub proxy : PeerCacheRecord whole_ms
proxy = record {
  endpoint = "8.8.8.8:80";
  domain = "d";
  score = 95;
  latency_ewma_ms = 100;
  last_checked_at = seconds 1000;
  consecutive_successes = 3;
  source_names = [];
  peer_name = "p";
  origin_node = "o";
  synced_at = seconds 1000;
  expires_at = seconds 1180;
}

abbrev pub value : Value whole_ms
value = record { item = proxy; checked_epoch = seconds 1000; expires_epoch = seconds 1180 }

abbrev pub second : Value whole_ms
second = record value { item = record proxy { endpoint = "9.9.9.9:80" } }

abbrev pub receipt : SelectionReceipt whole_ms
receipt = record {
  digest = "h";
  principal_fingerprint = "me";
  domain = "d";
  endpoint = "8.8.8.8:80";
  selection_source = "peer";
  peer_name = some "p";
  source_checked_at = seconds 1000;
  snapshot = proxy;
  issued_at = seconds 1000;
  expires_at = seconds 1600;
  failure_applied = false;
}

abbrev no_failure : Failed
no_failure = record { failed_at = 0; failed_source_checked_at = 0; blocked_until = 0 }

abbrev decode_value : Raw → Value whole_ms
decode_value (a_value v) = v
decode_value (a_failed f) = value
decode_value (a_receipt r) = value

abbrev decode_failed : Raw → Failed
decode_failed (a_value v) = no_failure
decode_failed (a_failed f) = f
decode_failed (a_receipt r) = no_failure

abbrev decode_receipt : Raw → SelectionReceipt whole_ms
decode_receipt (a_value v) = receipt
decode_receipt (a_failed f) = receipt
decode_receipt (a_receipt r) = r

abbrev pub server : PeerServer whole_ms
server = record {
  Raw = Raw;
  encode_value = a_value;
  decode_value = decode_value;
  encode_failed = a_failed;
  decode_failed = decode_failed;
  rounded = λ t. t;
  rounded_float = λ x. x;
  rounded_near = λ t. omega arith;
  decode-encode_failed = λ f. refl;
  encode_receipt = a_receipt;
  decode_receipt = decode_receipt;
  hashes = memory;
  no_fields = [];
  hget-no_fields = λ k. refl;
  deadlines = deadlines;
  keys = keys;
}
