-- ===== src/Flv/Tests.antt =====
-- The FLV parts on small inputs.
use obs_live_delay_plugin.Flv.Wire.RoundTrip.{parse_tag-serialize_flv_tag}
use obs_live_delay_plugin.Packet.{EncodedPacket, PacketKind}
use obs_live_delay_plugin.Flv.Muxer.Monotone.{Playable, mux_all, mux_all-Playable}
use obs_live_delay_plugin.Flv.Muxer.{FlvMuxer, new_muxer, new_timeline}
use obs_live_delay_plugin.Flv.Wire.{serialize_flv_tag, parse_tag, tag_bytes}
use obs_live_delay_plugin.Base.{List, ℕ, ◌∷◌, ◌++◌, ◌≡◌, [], ok, false, refl, some, length, arith}
use obs_live_delay_plugin.Flv.Tag.{FlvTag, FlvCodecHeaders, FlvTagType, type_code, wire_size}
use obs_live_delay_plugin.Base.Int.{pos}

abbrev sound_tag : FlvTag
sound_tag = record {
  type = FlvTagType.audio;
  timestamp_ms = 16_777_217;
  payload = 0xaf ∷ 1 ∷ 33 ∷ [];
  keyframe = false;
  epoch = 1;
  audio_drain = false;
  delivery_ticket = 0;
}

abbrev sound_bytes : List ℕ
sound_bytes = 8 ∷ 0 ∷ 0 ∷ 3 ∷ 0 ∷ 0 ∷ 1 ∷ 1 ∷ 0 ∷ 0 ∷ 0 ∷ 0xaf ∷ 1 ∷ 33 ∷ 0 ∷ 0 ∷ 0 ∷ 14 ∷ []

sound_tag_bytes : serialize_flv_tag sound_tag ≡ ok sound_bytes
unfolding serialize_flv_tag tag_bytes
sound_tag_bytes = refl

parse_tag-serialize_flv_tag_example :
    (parse_tag (sound_bytes ++ (7 ∷ []))
      ≡ some (record {
        code = type_code sound_tag.type;
        timestamp_ms = sound_tag.timestamp_ms;
        payload = sound_tag.payload;
        rest = 7 ∷ [];
      }))
    × (length sound_bytes ≡ wire_size sound_tag)
parse_tag-serialize_flv_tag_example =
    parse_tag-serialize_flv_tag sound_tag (7 ∷ []) sound_bytes sound_tag_bytes (omega arith)

abbrev two_headers : FlvCodecHeaders
two_headers = record { avc_decoder_configuration = 1 ∷ []; aac_audio_specific_config = 18 ∷ [] }

abbrev fresh_muxer : FlvMuxer
fresh_muxer = record { headers = two_headers; timeline = new_timeline }

fresh_muxer_made : new_muxer two_headers ≡ ok fresh_muxer
unfolding new_muxer
fresh_muxer_made = refl

abbrev sound_at : ℕ → EncodedPacket
sound_at t = record {
  kind = PacketKind.audio;
  payload = 33 ∷ [];
  pts_us = pos t;
  dts_us = pos t;
  keyframe = false;
  audio_drain = false;
}

abbrev two_batches : List (List EncodedPacket)
two_batches =
    (sound_at 5000 ∷ sound_at 9000 ∷ []) ∷ (sound_at 4000 ∷ []) ∷ (sound_at 12_000 ∷ []) ∷ []

mux_all-Playable_example : Playable 0 (mux_all fresh_muxer two_batches)
mux_all-Playable_example = mux_all-Playable two_headers fresh_muxer two_batches fresh_muxer_made
