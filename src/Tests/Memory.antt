-- ===== src/Tests/Memory.antt =====
-- A server in memory, over association lists: the documented behaviour of the commands can be met.
use ip_proxy_pool.Base.{
  ℕ, zero, suc, ◌+◌, ◌*◌, ◌≤◌, ◌<◌, ◌≡◌, refl, Bool, true, false, Option, none, some, List, [], ◌∷◌,
  String, str_eq, eq_iff, if◌then◌else◌, leb, ◌==◌, length, take, elem, arith, Bool-cases, inl, inr,
}
use ip_proxy_pool.Models.{Floats, ProxyRecord}
use ip_proxy_pool.Redis.{HashCommands, SetCommands}
use ip_proxy_pool.Storage.Server.{Server}

module _ {V : Type 0} where
  abbrev pub get : String → List (String × V) → Option V
  get j [] = none
  get j ((k, v) ∷ m) = if str_eq k j then some v else get j m

  abbrev pub drop_key : String → List (String × V) → List (String × V)
  drop_key k [] = []
  drop_key k ((i, v) ∷ m) = let rest = drop_key k m in if str_eq k i then rest else (i, v) ∷ rest

  abbrev pub put : String → V → List (String × V) → List (String × V)
  put k v m = (k, v) ∷ drop_key k m

  pub get-drop_key :
      (j k : String) (m : List (String × V))
      → get j (drop_key k m) ≡ (if str_eq k j then none else get j m)
  get-drop_key j k [] = ground arith
  get-drop_key j k ((i, v) ∷ m) =
      ground (arith, get-drop_key j k m, eq_iff k i, eq_iff i j, eq_iff k j)

  pub get-put :
      (j k : String) (v : V) (m : List (String × V))
      → get j (put k v m) ≡ (if str_eq k j then some v else get j m)
  get-put j k v m = ground (arith, get-drop_key j k m)

  abbrev pub memory : HashCommands V
  memory = record {
    Hash = List (String × V);
    hget = get;
    hset = put;
    hdel = drop_key;
    hget-hset = get-put;
    hget-hdel = get-drop_key;
  }

  module _ (leb_score : V → V → Bool) where
    abbrev is_upto : V → Option V → Bool
    is_upto limit none = false
    is_upto limit (some s) = leb_score s limit

    -- The keys in `m` whose score in `z` is low enough.
    abbrev upto : V → List (String × V) → List (String × V) → List String
    upto limit z [] = []
    upto limit z ((k, v) ∷ m) =
        let rest = upto limit z m in if is_upto limit (get k z) then k ∷ rest else rest

    pick :
        (k i : String) (limit : V) (z : List (String × V)) (o : Option V)
        → str_eq i k ≡ true
        → get i z ≡ o
        → is_upto limit o ≡ true
        → (s : V) × (get k z ≡ some s) × (leb_score s limit ≡ true)
    pick k i limit z none same e h = cc
    pick k i limit z (some s) same e h = (s, ground (arith, same, e, eq_iff i k), h)

    elem-upto :
        (k : String) (limit : V) (z m : List (String × V))
        → elem k (upto limit z m) ≡ true
        → (s : V) × (get k z ≡ some s) × (leb_score s limit ≡ true)
    elem-upto k limit z [] e = cc
    elem-upto k limit z ((i, v) ∷ m) e = elim (Bool-cases (is_upto limit (get i z))) [
      | inr over ↦ elem-upto k limit z m (rw over at e)
      | inl low ↦ elim (Bool-cases (str_eq i k)) [
        | inl same ↦ pick k i limit z (get i z) same refl low
        | inr other ↦ elem-upto k limit z m (ground (arith, low, other, e))
      ]
    ]

    upto_complete :
        (k : String) (s v : V) (limit : V) (z m : List (String × V))
        → get k m ≡ some v
        → get k z ≡ some s
        → leb_score s limit ≡ true
        → elem k (upto limit z m) ≡ true
    upto_complete k s v limit z [] e f l = cc
    upto_complete k s v limit z ((i, w) ∷ m) e f l =
        ground (arith, upto_complete k s v limit z m, eq_iff i k)

elem-take : (k : String) (n : ℕ) (xs : List String) → elem k (take n xs) ≡ true → elem k xs ≡ true
elem-take k zero xs e = cc
elem-take k (suc n) [] e = cc
elem-take k (suc n) (x ∷ xs) e = ground (arith, elem-take k n xs)

length-take-le : (n : ℕ) (xs : List String) → length (take n xs) ≤ n
length-take-le zero xs = omega arith
length-take-le (suc n) [] = omega arith
length-take-le (suc n) (x ∷ xs) = omega (arith, length-take-le n xs)

take_all : (n : ℕ) (xs : List String) → length (take n xs) < n → take n xs ≡ xs
take_all zero xs h = absurd (omega arith)
take_all (suc n) [] h = refl
take_all (suc n) (x ∷ xs) h = cc (take_all n xs (omega arith))

module _ {S : Type 0} (leb_score : S → S → Bool) where
  abbrev pub range : S → ℕ → List (String × S) → List String
  range limit n z = take n (upto leb_score limit z z)

  pub range_sound :
      (k : String) (limit : S) (n : ℕ) (z : List (String × S))
      → elem k (range limit n z) ≡ true
      → (s : S) × (get k z ≡ some s) × (leb_score s limit ≡ true)
  range_sound k limit n z e = elem-upto leb_score k limit z z (elem-take k n _ e)

  pub length-range-le : (limit : S) (n : ℕ) (z : List (String × S)) → length (range limit n z) ≤ n
  length-range-le limit n z = length-take-le n _

  pub range_complete :
      (k : String) (s limit : S) (n : ℕ) (z : List (String × S))
      → get k z ≡ some s
      → leb_score s limit ≡ true
      → length (range limit n z) < n
      → elem k (range limit n z) ≡ true
  range_complete k s limit n z e l h =
      rw (take_all n (upto leb_score limit z z) h) (upto_complete leb_score k s s limit z z e e l)

  abbrev pub sorted_memory : SetCommands S leb_score
  sorted_memory = record {
    ZSet = List (String × S);
    zscore = get;
    zadd = put;
    zrem = drop_key;
    zrange_upto = range;
    zscore-zadd = get-put;
    zscore-zrem = get-drop_key;
    zrange_upto_sound = range_sound;
    length-zrange_upto-le = length-range-le;
    zrange_upto_complete = range_complete;
  }

-- Latencies as whole milliseconds.
pub same_ms : (x : ℕ) → ◌≡◌ {A = Bool} true true → (x == x) ≡ true
same_ms x h = ground arith

abbrev pub whole_ms : Floats
whole_ms = record {
  Float = ℕ;
  zero_ms = 0;
  leb_float = leb;
  is_finite = λ x. true;
  add = λ x y. x + y;
  mul = λ x y. x * y;
  tenths = λ n. n;
  is_close = λ x y. x == y;
  is_close_refl = same_ms;
}

abbrev pub server : Server whole_ms
server = record {
  Raw = ProxyRecord whole_ms;
  encode_record = λ r. r;
  decode_record = some;
  IsStorable = λ r. Unit {0};
  decode-encode = λ r h. refl;
  hashes = memory;
  owners = memory;
  times = sorted_memory leb;
  latencies = sorted_memory leb;
}
