-- ===== src/Flv/Wire.antt =====
-- src/flv-muxer.cpp: FLV bytes. `parse_tag` reads a tag back by the FLV file format.
pub mod RoundTrip
use obs_live_delay_plugin.Flv.Tag.{FlvTag, type_code, flv_tag_header_size, max_flv_payload_size}
use obs_live_delay_plugin.Base.{
  zero, suc, none, some, true, false, [], ◌∷◌, ok, err, ℕ, List, ◌/◌, Option, ◌^◌, length, Result,
  if◌then◌else◌, ◌*◌, ◌%◌, ◌++◌, ltb, ◌+◌, ◌==◌, take, drop,
}

-- `append_be24` and `append_be32`.
abbrev pub be24 : ℕ → List ℕ
be24 value = (value / 2 ^ 16 % 256) ∷ (value / 2 ^ 8 % 256) ∷ (value % 256) ∷ []

abbrev pub be32 : ℕ → List ℕ
be32 value =
    (value / 2 ^ 24 % 256) ∷ (value / 2 ^ 16 % 256) ∷ (value / 2 ^ 8 % 256) ∷ (value % 256) ∷ []

unfoldable pub make_flv_header : List ℕ
make_flv_header =
    b'F' ∷ b'L' ∷ b'V' ∷ 0x01 ∷ 0x05 ∷ 0x00 ∷ 0x00 ∷ 0x00 ∷ 0x09 ∷ 0x00 ∷ 0x00 ∷ 0x00 ∷ 0x00 ∷ []

unfoldable pub tag_bytes : FlvTag → List ℕ
tag_bytes tag =
    type_code tag.type
    ∷ (be24 (length tag.payload)
        ++ (be24 (tag.timestamp_ms % 2 ^ 24)
            ++ ((tag.timestamp_ms / 2 ^ 24)
                ∷ (be24 0 ++ (tag.payload ++ be32 (flv_tag_header_size + length tag.payload))))))

-- `serialize_flv_tag`; the failure is its `std::length_error`.
unfoldable pub serialize_flv_tag : FlvTag → Result (List ℕ)
serialize_flv_tag tag =
    if ltb max_flv_payload_size (length tag.payload)
    then err "FLV tag payload exceeds the 24-bit size field"
    else ok (tag_bytes tag)

-- A reader of FLV: the type code, the timestamp, the payload and what follows the tag.
pub record Parsed : Type 0 where
  pub code : ℕ
  pub timestamp_ms : ℕ
  pub payload : List ℕ
  pub rest : List ℕ

-- The size of the tag stands once more behind it.
unfoldable pub read_trailer : ℕ → ℕ → List ℕ → List ℕ → Option Parsed
read_trailer code time payload (a ∷ b ∷ c ∷ d ∷ rest) =
    if a * 2 ^ 24 + b * 2 ^ 16 + c * 2 ^ 8 + d == 11 + length payload
    then some (record { code = code; timestamp_ms = time; payload = payload; rest = rest })
    else none
read_trailer code time payload _ = none

unfoldable pub parse_tag : List ℕ → Option Parsed
unfolding read_trailer
parse_tag (code ∷ s2 ∷ s1 ∷ s0 ∷ t2 ∷ t1 ∷ t0 ∷ t3 ∷ i2 ∷ i1 ∷ i0 ∷ body) =
    let size = s2 * 2 ^ 16 + s1 * 2 ^ 8 + s0 in
    read_trailer code (t3 * 2 ^ 24 + t2 * 2 ^ 16 + t1 * 2 ^ 8 + t0) (take size body)
      (drop size body)
parse_tag _ = none
