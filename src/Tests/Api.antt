-- ===== src/Tests/Api.antt =====
-- The cursors at a concrete input: a codec whose bytes are numbers.
use ip_proxy_pool.Base.{
  ℕ, ◌+◌, ◌-◌, ◌*◌, ◌≤◌, ◌≡◌, refl, ap, true, false, Option, none, some, List, [], ◌∷◌, ◌++◌, ◌==◌,
  length, take, drop, All, arith,
}
use ip_proxy_pool.Storage.Server.{ok}
use ip_proxy_pool.Api.Cursors.{
  Text, IsBase64, Codec, CursorData, Json, payload_field, dot, equals_sign, same_text, encode,
  decode, encode_base64, decode_base64, rstrip, split, read_fields, is_expected,
}
use ip_proxy_pool.Api.Cursors.Roundtrip.{decode-encode, decoded_cursor-IsSigned, IsSigned}

-- Four characters for a number, none of which is `=` or a dot.
abbrev b64encode : List ℕ → Text
b64encode [] = []
b64encode (n ∷ ns) = (n + 100) ∷ 100 ∷ 100 ∷ 100 ∷ b64encode ns

abbrev more : ℕ → Option (List ℕ) → Option (List ℕ)
more n none = none
more n (some ns) = some ((n - 100) ∷ ns)

abbrev b64decode : Text → Option (List ℕ)
b64decode [] = some []
b64decode (a ∷ []) = none
b64decode (a ∷ b ∷ []) = none
b64decode (a ∷ b ∷ c ∷ []) = none
b64decode (a ∷ b ∷ c ∷ d ∷ t) = more a (b64decode t)

b64decode-b64encode : (ns : List ℕ) → b64decode (b64encode ns) ≡ some ns
b64decode-b64encode [] = refl
b64decode-b64encode (n ∷ ns) =
    let back : n + 100 - 100 ≡ n = omega arith in rw (b64decode-b64encode ns, back) refl

b64encode-plain :
    (ns : List ℕ) → All (λ c. ((c == equals_sign) ≡ false) × ((c == dot) ≡ false)) (b64encode ns)
b64encode-plain [] = tt
b64encode-plain (n ∷ ns) = (
  (ground arith, ground arith),
  ((refl, refl), ((refl, refl), ((refl, refl), b64encode-plain ns))),
)

length-b64encode : (ns : List ℕ) → length (b64encode ns) ≡ 4 * length ns
length-b64encode [] = omega arith
length-b64encode (n ∷ ns) = omega (arith, length-b64encode ns)

append_nil : (t : Text) → t ≡ t ++ []
append_nil [] = refl
append_nil (c ∷ t) = ap (λ r. c ∷ r) (append_nil t)

b64encode-IsBase64 : (ns : List ℕ) → IsBase64 (b64encode ns)
b64encode-IsBase64 ns = record {
  core = b64encode ns;
  padding = 0;
  whole = append_nil (b64encode ns);
  few = omega arith;
  plain = b64encode-plain ns;
  aligned = omega (arith, length-b64encode ns);
}

abbrev dumps : CursorData → List ℕ
dumps d = d.offset ∷ length d.domain ∷ d.domain ++ d.filters_hash

abbrev loads : List ℕ → Option Json
loads [] = none
loads (o ∷ []) = none
loads (o ∷ n ∷ t) =
    some (
      Json.dict (payload_field (record { domain = take n t; offset = o; filters_hash = drop n t })))

take-append : (xs ys : List ℕ) → take (length xs) (xs ++ ys) ≡ xs
take-append [] ys = refl
take-append (x ∷ xs) ys = ap (λ t. x ∷ t) (take-append xs ys)

drop-append : (xs ys : List ℕ) → drop (length xs) (xs ++ ys) ≡ ys
drop-append [] ys = refl
drop-append (x ∷ xs) ys = drop-append xs ys

loads-dumps : (d : CursorData) → loads (dumps d) ≡ some (Json.dict (payload_field d))
loads-dumps d = rw (take-append d.domain d.filters_hash, drop-append d.domain d.filters_hash) refl

abbrev total : List ℕ → ℕ
total [] = 7
total (n ∷ ns) = n + total ns

same_text_refl : (t : Text) → same_text t t ≡ true
same_text_refl [] = refl
same_text_refl (c ∷ t) = ground (arith, same_text_refl t)

-- The signature is a sum.
abbrev codec : Codec
codec = record {
  Bytes = List ℕ;
  b64encode = b64encode;
  b64decode = b64decode;
  dumps = dumps;
  loads = loads;
  sign = λ b. total b ∷ [];
  compare_digest = same_text;
  b64decode-b64encode = b64decode-b64encode;
  b64encode-IsBase64 = b64encode-IsBase64;
  loads-dumps = loads-dumps;
  compare_digest_refl = same_text_refl;
}

abbrev query : CursorData
query = record { domain = 1 ∷ 2 ∷ []; offset = 50; filters_hash = 3 ∷ [] }

abbrev cursor : Text
cursor = b64encode (50 ∷ 2 ∷ 1 ∷ 2 ∷ 3 ∷ []) ++ dot ∷ b64encode (65 ∷ [])

decode-encode_example : decode codec cursor (some (1 ∷ 2 ∷ [])) none ≡ ok query
unfolding encode encode_base64 rstrip
decode-encode_example = decode-encode codec query cursor (some (1 ∷ 2 ∷ [])) none refl refl refl

decoded_cursor-IsSigned_example :
    IsSigned codec cursor query
    × ((50 ≤ 10000)
        × ((is_expected (some (1 ∷ 2 ∷ [])) (1 ∷ 2 ∷ []) ≡ true)
            × (is_expected none (3 ∷ []) ≡ true)))
unfolding decode split decode_base64 read_fields
decoded_cursor-IsSigned_example =
    decoded_cursor-IsSigned codec cursor (some (1 ∷ 2 ∷ [])) none query refl
