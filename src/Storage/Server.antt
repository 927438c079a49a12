-- ===== src/Storage/Server.antt =====
-- The server that holds one domain's keys, the codec of its records, and the pool that they make.
use ip_proxy_pool.Base.{ℕ, ◌≡◌, ◌⊎◌, inl, inr, refl, Bool, Option, none, some, String, leb}
use ip_proxy_pool.Models.{Floats, ProxyRecord}
use ip_proxy_pool.Redis.{HashCommands, SetCommands}

-- `encode_record` and `decode_record` are calls of pydantic: `none` is its ValueError, and the
-- storable records are those that survive the round trip.
pub record Server (fl : Floats) : Type 1 where
  pub Raw : Type 0
  pub encode_record : ProxyRecord fl → Raw
  pub decode_record : Raw → Option (ProxyRecord fl)
  pub IsStorable : ProxyRecord fl → Type 0
  pub decode-encode : (r : ProxyRecord fl) → IsStorable r → decode_record (encode_record r) ≡ some r
  pub hashes : HashCommands Raw
  pub owners : HashCommands String
  pub times : SetCommands ℕ leb
  pub latencies : SetCommands fl.Float fl.leb_float

-- A method returns, or raises ValueError.
pub data Result {ℓ} (A : Type ℓ) : Type ℓ where
  ok : A → Result A
  value_error : Result A

pub Result-cases {ℓ} : {A : Type ℓ} (r : Result A) → (r ≡ value_error) ⊎ ((a : A) × (r ≡ ok a))
Result-cases value_error = inl refl
Result-cases (ok a) = inr (a, refl)

infixl 5 ◌>>=◌
abbrev pub ◌>>=◌ {ℓ κ} : {A : Type ℓ} {B : Type κ} → Result A → (A → Result B) → Result B
ok a >>= f = f a
value_error >>= f = value_error

infixl 5 ◌>>◌
abbrev pub ◌>>◌ {ℓ} : {B : Type ℓ} → Result (Unit {0}) → Result B → Result B
m >> k = m >>= λ _. k

-- `if not condition: raise ValueError(...)`.
abbrev pub require : Bool → Result (Unit {0})
require Bool.true = ok tt
require Bool.false = value_error

module _ (fl : Floats) (sv : Server fl) where
  open sv use {Raw, decode_record, hashes, owners, times, latencies}

  -- `PoolKeys`, and whether the set of domains has this one.
  pub record Pool : Type 0 where
    pub listed : Bool
    pub records : hashes.Hash
    pub quality : times.ZSet
    pub due : times.ZSet
    pub leased : times.ZSet
    pub lease_owners : owners.Hash
    pub available_latency : latencies.ZSet
    pub priority_due : times.ZSet

  abbrev decoded : Option Raw → Option (ProxyRecord fl)
  decoded none = none
  decoded (some raw) = decode_record raw

  -- The record that is stored under an endpoint, if there is one that can be read.
  abbrev pub stored : String → Pool → Option (ProxyRecord fl)
  stored k p = decoded (hashes.hget k p.records)

  abbrev read_raw : Option Raw → Result (Option (ProxyRecord fl))
  read_raw none = ok none
  read_raw (some raw) = elim (decode_record raw) [ none ↦ value_error | some r ↦ ok (some r) ]

  abbrev pub get_record : String → Pool → Result (Option (ProxyRecord fl))
  get_record k p = read_raw (hashes.hget k p.records)
