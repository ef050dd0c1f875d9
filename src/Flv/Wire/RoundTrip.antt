-- ===== src/Flv/Wire/RoundTrip.antt =====
-- What is written as FLV is read back.
use obs_live_delay_plugin.Flv.Tag.{wire_size, max_flv_payload_size, flv_tag_header_size, type_code}
use obs_live_delay_plugin.Base.{
  refl, ◌≡◌, List, ℕ, take, drop, length, ◌≤◌, ok, arith, ◌<◌, length-append, ◌++◌, ◌+◌, ◌^◌, ◌∷◌,
  some, ap, append_assoc, ◌∙◌, Bool-cases, ltb, inl, inr, [],
}
use obs_live_delay_plugin.Flv.Wire.{
  read_trailer, tag_bytes, parse_tag, serialize_flv_tag, FlvTag, be32,
}

take-append_length : (xs ys : List ℕ) → take (length xs) (xs ++ ys) ≡ xs
take-append_length [] ys = refl
take-append_length (x ∷ xs) ys = ap (◌∷◌ x) (take-append_length xs ys)

drop-append_length : (xs ys : List ℕ) → drop (length xs) (xs ++ ys) ≡ ys
drop-append_length [] ys = refl
drop-append_length (x ∷ xs) ys = drop-append_length xs ys

-- A tag that fits the 24-bit size field has the length that it declares.
pub length-tag_bytes : (tag : FlvTag) → length (tag_bytes tag) ≡ wire_size tag
unfolding tag_bytes
length-tag_bytes tag =
    omega (arith, length-append tag.payload (be32 (flv_tag_header_size + length tag.payload)))

read_trailer-be32 :
    (code time : ℕ) (payload rest : List ℕ)
    → length payload ≤ max_flv_payload_size
    → read_trailer code time payload (be32 (11 + length payload) ++ rest)
      ≡ some (record { code = code; timestamp_ms = time; payload = payload; rest = rest })
unfolding read_trailer
read_trailer-be32 code time payload rest h = ground arith

read_body :
    (code time size : ℕ) (payload rest : List ℕ)
    → size ≡ length payload
    → length payload ≤ max_flv_payload_size
    → read_trailer code time
        (take size ((payload ++ be32 (11 + length payload)) ++ rest))
        (drop size ((payload ++ be32 (11 + length payload)) ++ rest))
      ≡ some (record { code = code; timestamp_ms = time; payload = payload; rest = rest })
read_body code time size payload rest e h =
    let trailer = be32 (11 + length payload) ++ rest in
    rw
      (
        e,
        append_assoc payload (be32 (11 + length payload)) rest,
        take-append_length payload trailer,
        drop-append_length payload trailer,
      )
      (read_trailer-be32 code time payload rest h)

parse_tag-tag_bytes :
    (tag : FlvTag) (rest : List ℕ)
    → length tag.payload ≤ max_flv_payload_size
    → tag.timestamp_ms < 2 ^ 32
    → parse_tag (tag_bytes tag ++ rest)
      ≡ some (record {
        code = type_code tag.type;
        timestamp_ms = tag.timestamp_ms;
        payload = tag.payload;
        rest = rest;
      })
unfolding parse_tag tag_bytes
parse_tag-tag_bytes tag rest h t =
    read_body (type_code tag.type) _ _ tag.payload rest (omega arith) h
    ∙ ap
        (λ (time : ℕ). some (record {
          code = type_code tag.type;
          timestamp_ms = time;
          payload = tag.payload;
          rest = rest;
        }))
        (omega arith)

-- Whatever follows it, a tag that `serialize_flv_tag` accepts is read back with its type, its
-- 32-bit timestamp and its payload, and the reader stands behind it.
pub parse_tag-serialize_flv_tag :
    (tag : FlvTag) (rest bytes : List ℕ)
    → serialize_flv_tag tag ≡ ok bytes
    → tag.timestamp_ms < 2 ^ 32
    → (parse_tag (bytes ++ rest)
        ≡ some (record {
          code = type_code tag.type;
          timestamp_ms = tag.timestamp_ms;
          payload = tag.payload;
          rest = rest;
        }))
      × (length bytes ≡ wire_size tag)
unfolding serialize_flv_tag
parse_tag-serialize_flv_tag tag rest bytes e h =
    elim (Bool-cases (ltb max_flv_payload_size (length tag.payload))) [
      | inl big ↦ absurd (ground arith)
      | inr small ↦
          let same : bytes ≡ tag_bytes tag = ground arith in
          rw same (parse_tag-tag_bytes tag rest (ground arith) h, length-tag_bytes tag)
    ]
