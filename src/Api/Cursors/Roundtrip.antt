-- ===== src/Api/Cursors/Roundtrip.antt =====
-- What a cursor that is read back says.
use ip_proxy_pool.Base.{
  ℕ, ◌≤◌, ◌≡◌, refl, ap, ◌∙◌, inl, inr, true, Option, none, some, ◌∷◌, ◌++◌, arith, Bool-cases,
  Option-cases,
}
use ip_proxy_pool.Storage.Server.{Result-cases, ok}
use ip_proxy_pool.Api.Cursors.{
  Text, dot, split, Codec, CursorData, Json, Field, text_of, offset_of, read_fields, payload_field,
  encode_base64, decode_base64, encode, decode, is_expected,
}
use ip_proxy_pool.Api.Cursors.Padding.{encode_base64-IsPlain, decode-encode_base64, split-append}

read_fields-payload_field :
    (d : CursorData) → d.offset ≤ 10000 → read_fields (Json.dict (payload_field d)) ≡ ok d
unfolding read_fields
read_fields-payload_field d h = ground (arith, h)

offset_of-le : (o : Option Field) (n : ℕ) → offset_of o ≡ ok n → n ≤ 10000
offset_of-le (some (Field.int m)) n e = ground (arith, e)
offset_of-le (some (Field.text s)) n e = absurd (ground (arith, e))
offset_of-le (some (Field.negative m)) n e = absurd (ground (arith, e))
offset_of-le (some (Field.boolean b)) n e = absurd (ground (arith, e))
offset_of-le (some (Field.float b)) n e = absurd (ground (arith, e))
offset_of-le (some Field.other) n e = absurd (ground (arith, e))
offset_of-le none n e = absurd (ground (arith, e))

module _ (codec : Codec) where
  open codec use {Bytes, dumps, sign}

  encode-ok :
      (d : CursorData) (c : Text)
      → encode codec d ≡ ok c
      → (c ≡ encode_base64 codec (dumps d) ++ dot ∷ encode_base64 codec (sign (dumps d)))
        × (d.offset ≤ 10000)
  unfolding encode
  encode-ok d c e = (ground (arith, e), ground (arith, e))

  -- A cursor that was encoded is decoded to what was encoded, by a query whose domain and filters
  -- are those of the cursor or that does not say which it expects.
  pub decode-encode :
      (d : CursorData) (c : Text) (expected_domain expected_filters_hash : Option Text)
      → encode codec d ≡ ok c
      → is_expected expected_domain d.domain ≡ true
      → is_expected expected_filters_hash d.filters_hash ≡ true
      → decode codec c expected_domain expected_filters_hash ≡ ok d
  unfolding decode
  decode-encode d c expected_domain expected_filters_hash e h h' =
      let (text, low) = encode-ok d c e in
      let payload = encode_base64 codec (dumps d) in
      let signature = encode_base64 codec (sign (dumps d)) in
      let parts : split c ≡ some (payload, signature) =
        ap split text ∙ split-append payload signature (encode_base64-IsPlain codec (dumps d)) in
      rw
        (
          parts,
          decode-encode_base64 codec (dumps d),
          decode-encode_base64 codec (sign (dumps d)),
          codec.compare_digest_refl (sign (dumps d)),
          codec.loads-dumps d,
          read_fields-payload_field d low,
          h,
          h',
        )
        refl

  -- What a cursor that is accepted shows: its parts, and that the second is the signature of the
  -- first.
  pub record IsSigned (c : Text) (d : CursorData) : Type 0 where
    pub left : Text
    pub right : Text
    pub parts : split c ≡ some (left, right)
    pub payload : Bytes
    pub signature : Bytes
    pub read_left : decode_base64 codec left ≡ some payload
    pub read_right : decode_base64 codec right ≡ some signature
    pub signed : codec.compare_digest signature (sign payload) ≡ true
    pub json : Json
    pub loaded : codec.loads payload ≡ some json
    pub fields : read_fields json ≡ ok d

  read_fields-le : (j : Json) (d : CursorData) → read_fields j ≡ ok d → d.offset ≤ 10000
  unfolding read_fields
  read_fields-le Json.not_dict d e = ground (arith, e)
  read_fields-le (Json.dict get) d e = elim (Result-cases (text_of (get "d"))) [
    | inl bad ↦ absurd (ground (arith, bad, e))
    | inr (domain, named) ↦ elim (Result-cases (offset_of (get "o"))) [
      | inl bad ↦ absurd (ground (arith, named, bad, e))
      | inr (n, found) ↦ elim (Result-cases (text_of (get "f"))) [
        | inl bad ↦ absurd (ground (arith, named, found, bad, e))
        | inr (filters, last) ↦
            let same : d.offset ≡ n = ground (arith, named, found, last, e) in
            omega (arith, same, offset_of-le (get "o") n found)
      ]
    ]
  ]

  -- A cursor that is accepted carries the codec's own signature of its payload, its offset is at
  -- most 10,000, and its domain and filters are those that the query expects: one that was altered,
  -- or that was made for another query, is accepted only if its signature is right for it.
  pub decoded_cursor-IsSigned :
      (c : Text) (expected_domain expected_filters_hash : Option Text) (d : CursorData)
      → decode codec c expected_domain expected_filters_hash ≡ ok d
      → IsSigned c d
        × ((d.offset ≤ 10000)
            × ((is_expected expected_domain d.domain ≡ true)
                × (is_expected expected_filters_hash d.filters_hash ≡ true)))
  unfolding decode
  decoded_cursor-IsSigned c expected_domain expected_filters_hash d e =
      elim (Option-cases (split c)) [
        | inl bad ↦ absurd (ground (arith, bad, e))
        | inr ((l, r), parts) ↦ elim (Option-cases (decode_base64 codec l)) [
          | inl bad ↦ absurd (ground (arith, parts, bad, e))
          | inr (payload, left) ↦ elim (Option-cases (decode_base64 codec r)) [
            | inl bad ↦ absurd (ground (arith, parts, left, bad, e))
            | inr (signature, right) ↦
                elim (Bool-cases (codec.compare_digest signature (sign payload))) [
                  | inr bad ↦ absurd (ground (arith, parts, left, right, bad, e))
                  | inl signed ↦ elim (Option-cases (codec.loads payload)) [
                    | inl bad ↦ absurd (ground (arith, parts, left, right, signed, bad, e))
                    | inr (json, loaded) ↦ elim (Result-cases (read_fields json)) [
                      | inl bad ↦
                          absurd (ground (arith, parts, left, right, signed, loaded, bad, e))
                      | inr (d', fields) ↦
                          let same : d' ≡ d =
                            ground (arith, parts, left, right, signed, loaded, fields, e) in
                          let read : read_fields json ≡ ok d = fields ∙ ap ok same in
                          (
                            record {
                              left = l;
                              right = r;
                              parts = parts;
                              payload = payload;
                              signature = signature;
                              read_left = left;
                              read_right = right;
                              signed = signed;
                              json = json;
                              loaded = loaded;
                              fields = read;
                            },
                            (
                              read_fields-le json d read,
                              (
                                ground (arith, parts, left, right, signed, loaded, read, e),
                                ground (arith, parts, left, right, signed, loaded, read, e),
                              ),
                            ),
                          )
                    ]
                  ]
                ]
          ]
        ]
      ]
