-- ===== src/Api/Cursors.antt =====
-- api/cursors.py: the signed cursors of the paged queries. A cursor is a text, here by its code
-- points; bytes, base64, JSON and HMAC are the standard library's, by their documented laws.
pub mod Padding
pub mod Roundtrip
use ip_proxy_pool.Base.{
  ℕ, suc, ◌+◌, ◌-◌, ◌%◌, ◌≤◌, ◌≡◌, Bool, true, false, not, ◌&&◌, ◌||◌, Option, none, some, List, [],
  ◌∷◌, ◌++◌, String, leb, ◌==◌, str_eq, length, All, if◌then◌else◌,
}
use ip_proxy_pool.Storage.Server.{Result, ok, value_error, ◌>>=◌, ◌>>◌, require}

abbrev pub Text : Type 0
Text = List ℕ

abbrev pub equals_sign : ℕ
equals_sign = 61

abbrev pub dot : ℕ
dot = 46

abbrev pub pads : ℕ → Text
pads ℕ.zero = []
pads (suc n) = equals_sign ∷ pads n

-- `rstrip("=")`.
abbrev pub keep_left : ℕ → Text → Text
keep_left c [] = if c == equals_sign then [] else c ∷ []
keep_left c (x ∷ xs) = c ∷ x ∷ xs

unfoldable pub rstrip : Text → Text
rstrip [] = []
rstrip (c ∷ cs) = keep_left c (rstrip cs)

-- `split(".", maxsplit=1)` into two: `none` without a dot.
abbrev cons_left : ℕ → Option (Text × Text) → Option (Text × Text)
cons_left c none = none
cons_left c (some (l, r)) = some (c ∷ l, r)

unfoldable pub split : Text → Option (Text × Text)
split [] = none
split (c ∷ cs) = let rest = split cs in if c == dot then some ([], cs) else cons_left c rest

-- A value of the decoded JSON, as far as the code looks at it: a float is equal to 1 or not, and
-- `True` is.
pub data Field : Type 0 where
  text : Text → Field
  int : ℕ → Field
  negative : ℕ → Field
  boolean : Bool → Field
  float : (is_one : Bool) → Field
  other : Field

pub data Json : Type 0 where
  dict : (get : String → Option Field) → Json
  not_dict : Json

pub record CursorData : Type 0 where
  pub domain : Text
  pub offset : ℕ
  pub filters_hash : Text

-- The dictionary that is signed.
abbrev pub payload_field : CursorData → String → Option Field
payload_field d k =
    if str_eq k "v"
    then some (Field.int 1)
    else if str_eq k "d"
    then some (Field.text d.domain)
    else if str_eq k "o"
    then some (Field.int d.offset)
    else if str_eq k "f"
    then some (Field.text d.filters_hash)
    else none

-- The text that base64 gives is of other characters than `=` and `.`, followed by at most two `=`,
-- and its length is a multiple of four.
pub record IsBase64 (t : Text) : Type 0 where
  pub core : Text
  pub padding : ℕ
  pub whole : t ≡ core ++ pads padding
  pub few : padding ≤ 2
  pub plain : All (λ c. ((c == equals_sign) ≡ false) × ((c == dot) ≡ false)) core
  pub aligned : length t % 4 ≡ 0

-- The calls of the standard library, with the codec's secret in `sign`.
pub record Codec : Type 1 where
  pub Bytes : Type 0
  pub b64encode : Bytes → Text
  pub b64decode : Text → Option Bytes
  pub dumps : CursorData → Bytes
  pub loads : Bytes → Option Json
  pub sign : Bytes → Bytes
  pub compare_digest : Bytes → Bytes → Bool
  pub b64decode-b64encode : (b : Bytes) → b64decode (b64encode b) ≡ some b
  pub b64encode-IsBase64 : (b : Bytes) → IsBase64 (b64encode b)
  pub loads-dumps : (d : CursorData) → loads (dumps d) ≡ some (Json.dict (payload_field d))
  pub compare_digest_refl : (b : Bytes) → compare_digest b b ≡ true

-- `value.get("v") != 1`, negated.
abbrev is_one : Option Field → Bool
is_one (some (Field.int n)) = n == 1
is_one (some (Field.boolean b)) = b
is_one (some (Field.float b)) = b
is_one (some (Field.text s)) = false
is_one (some (Field.negative n)) = false
is_one (some Field.other) = false
is_one none = false

abbrev pub text_of : Option Field → Result Text
text_of (some (Field.text s)) = ok s
text_of (some (Field.int n)) = value_error
text_of (some (Field.negative n)) = value_error
text_of (some (Field.boolean b)) = value_error
text_of (some (Field.float b)) = value_error
text_of (some Field.other) = value_error
text_of none = value_error

abbrev pub offset_of : Option Field → Result ℕ
offset_of (some (Field.int n)) = if leb n 10000 then ok n else value_error
offset_of (some (Field.text s)) = value_error
offset_of (some (Field.negative n)) = value_error
offset_of (some (Field.boolean b)) = value_error
offset_of (some (Field.float b)) = value_error
offset_of (some Field.other) = value_error
offset_of none = value_error

unfoldable pub read_fields : Json → Result CursorData
read_fields Json.not_dict = value_error
read_fields (Json.dict get) = do
  require (is_one (get "v"))
  domain ← text_of (get "d")
  offset ← offset_of (get "o")
  filters_hash ← text_of (get "f")
  ok (record { domain = domain; offset = offset; filters_hash = filters_hash })

abbrev pub same_text : Text → Text → Bool
same_text [] [] = true
same_text [] (d ∷ ds) = false
same_text (c ∷ cs) [] = false
same_text (c ∷ cs) (d ∷ ds) = c == d && same_text cs ds

abbrev pub is_expected : Option Text → Text → Bool
is_expected none s = true
is_expected (some wanted) s = same_text s wanted

abbrev attempt {ℓ} : {A : Type ℓ} → Option A → Result A
attempt none = value_error
attempt (some a) = ok a

module _ (codec : Codec) where
  open codec use {Bytes, b64encode, b64decode, dumps, loads, sign, compare_digest}

  unfoldable pub encode_base64 : Bytes → Text
  encode_base64 b = rstrip (b64encode b)

  unfoldable pub decode_base64 : Text → Option Bytes
  decode_base64 t = b64decode (t ++ pads ((4 - length t % 4) % 4))

  unfoldable pub encode : CursorData → Result Text
  encode d = do
    require (not (same_text d.domain []) && not (same_text d.filters_hash []))
    require (leb d.offset 10000)
    ok (encode_base64 (dumps d) ++ dot ∷ encode_base64 (sign (dumps d)))

  -- `InvalidCursor` is the ValueError.
  unfoldable pub decode :
      Text → (expected_domain expected_filters_hash : Option Text) → Result CursorData
  decode cursor expected_domain expected_filters_hash = do
    (payload_part, signature_part) ← attempt (split cursor)
    payload ← attempt (decode_base64 payload_part)
    signature ← attempt (decode_base64 signature_part)
    require (compare_digest signature (sign payload))
    raw ← attempt (loads payload)
    d ← read_fields raw
    require (is_expected expected_domain d.domain)
    require (is_expected expected_filters_hash d.filters_hash)
    ok d
