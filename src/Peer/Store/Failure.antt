-- ===== src/Peer/Store/Failure.antt =====
-- `invalidate` and INVALIDATE: a failure that a caller reports of a proxy selected from the cache.
use ip_proxy_pool.Base.{
  ℕ, ◌+◌, max, Bool, true, false, ◌&&◌, Option, none, some, String, leb, str_eq, if◌then◌else◌,
}
use ip_proxy_pool.Models.{Floats, seconds}
use ip_proxy_pool.Storage.Server.{Result, ok, value_error, ◌>>◌, require}
use ip_proxy_pool.Peer.Store.{PeerServer, Cache, PeerCacheStore, SelectionReceipt, Failed}

module _ (fl : Floats) (sv : PeerServer fl) where
  open sv use {Raw, hashes, deadlines, keys}

  -- What the script writes for a receipt that has not been used for a failure.
  abbrev pub apply_failure :
      (clock now cooldown retain ttl : ℕ)
      → (digest : String) → SelectionReceipt fl
      → Cache fl sv
      → Cache fl sv
  apply_failure clock now cooldown retain ttl digest r s =
      let failure : Failed = record {
        failed_at = now;
        failed_source_checked_at = r.source_checked_at;
        blocked_until = now + seconds cooldown;
      } in
      record s {
        receipts =
            keys.set_px clock digest (sv.encode_receipt (record r { failure_applied = true })) ttl
              s.receipts;
        suppression = hashes.hset r.endpoint (sv.encode_failed failure) s.suppression;
        suppression_expiry = deadlines.zadd r.endpoint (now + seconds retain) s.suppression_expiry;
        evictions =
            deadlines.zrem_before (seconds 600) now (deadlines.zadd r.digest now s.evictions);
        records = hashes.hdel r.endpoint s.records;
        expiry = deadlines.zrem r.endpoint s.expiry;
      }

  abbrev failed_once :
      (clock now cooldown retain ttl : ℕ)
      → (digest : String) → SelectionReceipt fl
      → Cache fl sv
      → Result (Bool × Cache fl sv)
  failed_once clock now cooldown retain ttl digest r s =
      if r.failure_applied
      then ok (false, s)
      else if leb ttl 0
      then value_error
      else ok (true, apply_failure clock now cooldown retain ttl digest r s)

  -- INVALIDATE: -1 of the script is the ValueError of the method.
  abbrev pub invalidate_script :
      (clock now cooldown retain : ℕ)
      → (digest : String) → Option Raw
      → Cache fl sv
      → Result (Bool × Cache fl sv)
  invalidate_script clock now cooldown retain digest none s = value_error
  invalidate_script clock now cooldown retain digest (some raw) s =
      failed_once clock now cooldown retain (keys.pttl clock digest s.receipts) digest
        (sv.decode_receipt raw) s

  abbrev pub is_from : PeerCacheStore fl sv → SelectionReceipt fl → Option String → Bool
  is_from st r none = false
  is_from st r (some name) = str_eq r.selection_source "peer" && str_eq name st.peer_name

  -- How long a suppression is kept.
  abbrev pub retain : PeerCacheStore fl sv → ℕ
  retain st = max st.cooldown st.policy.max_checked_age_seconds + 605

  unfoldable pub invalidate :
      PeerCacheStore fl sv
      → SelectionReceipt fl
      → (clock now : ℕ) → Cache fl sv
      → Result (Bool × Cache fl sv)
  invalidate st r clock now s = do
    require (is_from st r r.peer_name)
    require (str_eq r.domain st.domain)
    invalidate_script clock now st.cooldown (retain st) r.digest
        (keys.get clock r.digest s.receipts) s
