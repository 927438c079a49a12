-- ===== src/Peer/Receipts.antt =====
-- peer_cache/receipts.py: the receipts of selections, bound to the caller and to what was selected.
pub mod Once
use ip_proxy_pool.Base.{
  ℕ, ◌+◌, ◌≤◌, ◌≡◌, Bool, true, false, not, ◌&&◌, ◌||◌, Option, none, some, List, [], ◌∷◌, String,
  leb, ltb, str_eq, if◌then◌else◌,
}
use ip_proxy_pool.Models.{Floats, seconds}
use ip_proxy_pool.Redis.{KeyCommands}
use ip_proxy_pool.Storage.Server.{Result, ok, value_error, ◌>>◌, require}
use ip_proxy_pool.Peer.Store.{PeerCacheRecord, SelectionReceipt}
use Prim.Native.String.{count}

module _ (fl : Floats) where
  -- The keys of the receipts by digest; `dump` and `load` are pydantic's JSON, and `encode` is what
  -- the script's cjson makes of a decoded receipt, which keeps the two fields that it looks at.
  pub record ReceiptServer : Type 1 where
    pub Raw : Type 0
    pub dump : SelectionReceipt fl → Raw
    pub load : Raw → SelectionReceipt fl
    pub encode : SelectionReceipt fl → Raw
    pub digest_of : String → String
    pub keys : KeyCommands Raw
    pub failure_applied-encode :
        (r : SelectionReceipt fl) → (load (encode r)).failure_applied ≡ r.failure_applied
    pub selection_source-encode :
        (r : SelectionReceipt fl) → (load (encode r)).selection_source ≡ r.selection_source

  -- What `issue` is asked to bind.
  pub record Binding : Type 0 where
    pub snapshot : PeerCacheRecord fl
    pub principal_fingerprint : String
    pub selection_source : String
    pub peer_name : Option String

pub data Resolution {ℓ} (A : Type ℓ) : Type ℓ where
  resolved : A → Resolution A
  invalid_receipt binding_error : Resolution A

module _ (fl : Floats) (sv : ReceiptServer fl) where
  open sv use {Raw, dump, load, encode, digest_of, keys}

  abbrev pub new_receipt : Binding fl → (digest : String) → (now : ℕ) → SelectionReceipt fl
  new_receipt b digest now = record {
    digest = digest;
    principal_fingerprint = b.principal_fingerprint;
    domain = b.snapshot.domain;
    endpoint = b.snapshot.endpoint;
    selection_source = b.selection_source;
    peer_name = b.peer_name;
    source_checked_at = b.snapshot.last_checked_at;
    snapshot = b.snapshot;
    issued_at = now;
    expires_at = now + seconds 600;
    failure_applied = false;
  }

  -- The loop of `issue` over the tokens that it draws, three at most: `none` is the RuntimeError.
  unfoldable pub issue_with :
      (clock now : ℕ) → Binding fl → (tokens : List String) → keys.Keys → Option String × keys.Keys
  issue_with clock now b [] ks = (none, ks)
  issue_with clock now b (token ∷ tokens) ks =
      let digest = digest_of token in
      elim (keys.get clock digest ks) [
        | none ↦ (
          some token,
          keys.set_px clock digest (dump (new_receipt b digest now)) (seconds 600) ks,
        )
        | some raw ↦ issue_with clock now b tokens ks
      ]

  abbrev is_bound : SelectionReceipt fl → (principal domain endpoint : String) → Bool
  is_bound r principal domain endpoint =
      str_eq r.principal_fingerprint principal
      && (str_eq r.domain domain && str_eq r.endpoint endpoint)

  abbrev checked :
      (principal domain endpoint : String)
      → (now : ℕ) → Option Raw
      → Resolution (SelectionReceipt fl)
  checked principal domain endpoint now none = invalid_receipt
  checked principal domain endpoint now (some raw) =
      if leb (load raw).expires_at now
      then invalid_receipt
      else if is_bound (load raw) principal domain endpoint
      then resolved (load raw)
      else binding_error

  unfoldable pub resolve_token :
      (token principal domain endpoint : String)
      → (clock now : ℕ) → keys.Keys
      → Resolution (SelectionReceipt fl)
  resolve_token token principal domain endpoint clock now ks =
      if str_eq token "" || ltb 256 (count token)
      then invalid_receipt
      else checked principal domain endpoint now (keys.get clock (digest_of token) ks)

  -- The script, for the receipt that is stored: its -1 and -2 are InvalidReceipt, a ValueError.
  abbrev claim_script :
      (clock ttl : ℕ) → (digest : String) → Option Raw → keys.Keys → Result (Bool × keys.Keys)
  claim_script clock ttl digest none ks = value_error
  claim_script clock ttl digest (some raw) ks =
      if not (str_eq (load raw).selection_source "formal")
      then value_error
      else if (load raw).failure_applied
      then ok (false, ks)
      else if leb ttl 0
      then value_error
      else ok (
        true,
        keys.set_px clock digest (encode (record (load raw) { failure_applied = true })) ttl ks,
      )

  unfoldable pub claim_formal_failure :
      SelectionReceipt fl → (clock : ℕ) → keys.Keys → Result (Bool × keys.Keys)
  claim_formal_failure r clock ks =
      require (str_eq r.selection_source "formal")
      >> claim_script clock (keys.pttl clock r.digest ks) r.digest (keys.get clock r.digest ks) ks
