-- ===== src/Api/Cursors/Padding.antt =====
-- The padding that a cursor leaves out of base64, and the dot between its parts.

use ip_proxy_pool.Base.{
  ℕ, zero, suc, ◌+◌, ◌-◌, ◌%◌, ◌≤◌, ◌≡◌, refl, ap, sym, ◌∙◌, false, some, [], ◌∷◌, ◌++◌, ◌==◌,
  length, length-append, All, arith,
}
use ip_proxy_pool.Api.Cursors.{
  Text, equals_sign, dot, pads, rstrip, split, Codec, encode_base64, decode_base64,
}

abbrev pub IsPlain : Text → Type 0
IsPlain = All (λ c. ((c == equals_sign) ≡ false) × ((c == dot) ≡ false))

length-pads : (n : ℕ) → length (pads n) ≡ n
length-pads zero = refl
length-pads (suc n) = ap suc (length-pads n)

rstrip-pads : (n : ℕ) → rstrip (pads n) ≡ []
unfolding rstrip
rstrip-pads zero = refl
rstrip-pads (suc n) = rw (rstrip-pads n) refl

rstrip-append : (core : Text) (n : ℕ) → IsPlain core → rstrip (core ++ pads n) ≡ core
unfolding rstrip
rstrip-append [] n plain = rstrip-pads n
rstrip-append (c ∷ []) n (p, rest) = rw (rstrip-append [] n tt, p.0) refl
rstrip-append (c ∷ d ∷ core) n (p, rest) = rw (rstrip-append (d ∷ core) n rest) refl

-- The first dot is the one that the encoder puts after the plain text.
pub split-append :
    (core rest : Text) → IsPlain core → split (core ++ dot ∷ rest) ≡ some (core, rest)
unfolding split
split-append [] rest plain = refl
split-append (c ∷ core) rest (p, plain) = rw (p.1, split-append core rest plain) refl

padding_back : (l padding : ℕ) → padding ≤ 2 → (l + padding) % 4 ≡ 0 → (4 - l % 4) % 4 ≡ padding
padding_back l padding few aligned = omega (arith, few, aligned)

module _ (codec : Codec) where
  pub encode_base64-core :
      (b : codec.Bytes) → encode_base64 codec b ≡ (codec.b64encode-IsBase64 b).core
  unfolding encode_base64
  encode_base64-core b =
      let i = codec.b64encode-IsBase64 b in
      ap rstrip i.whole ∙ rstrip-append i.core i.padding i.plain

  pub encode_base64-IsPlain : (b : codec.Bytes) → IsPlain (encode_base64 codec b)
  encode_base64-IsPlain b = rw (encode_base64-core b) (codec.b64encode-IsBase64 b).plain

  -- What the codec writes of bytes is read back.
  pub decode-encode_base64 :
      (b : codec.Bytes) → decode_base64 codec (encode_base64 codec b) ≡ some b
  unfolding decode_base64
  decode-encode_base64 b =
      let i = codec.b64encode-IsBase64 b in
      let total : length (codec.b64encode b) ≡ length i.core + i.padding =
        ap length i.whole
        ∙ length-append i.core (pads i.padding)
        ∙ ap (λ n. length i.core + n) (length-pads i.padding) in
      let back : (4 - length i.core % 4) % 4 ≡ i.padding =
        padding_back (length i.core) i.padding i.few (ap (λ n. n % 4) (sym total) ∙ i.aligned) in
      let whole : i.core ++ pads ((4 - length i.core % 4) % 4) ≡ codec.b64encode b =
        ap (λ n. i.core ++ pads n) back ∙ sym i.whole in
      ap (decode_base64 codec) (encode_base64-core b)
      ∙ ap codec.b64decode whole
      ∙ codec.b64decode-b64encode b
