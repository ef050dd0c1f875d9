-- ===== src/Flv/Tag.antt =====
-- src/flv-muxer.hpp and src/flv-muxer.cpp: tags, codec headers and sequence headers.
use obs_live_delay_plugin.Base.{ℕ, ◌+◌, Bool, true, false, List, [], ◌∷◌, length, ◌==◌}

pub data FlvTagType : Type 0 where
  audio video script_data : FlvTagType

-- The underlying `std::uint8_t`.
abbrev pub type_code : FlvTagType → ℕ
type_code FlvTagType.audio = 8
type_code FlvTagType.video = 9
type_code FlvTagType.script_data = 18

abbrev pub is_video_tag : FlvTagType → Bool
is_video_tag FlvTagType.video = true
is_video_tag _ = false

abbrev pub is_audio_tag : FlvTagType → Bool
is_audio_tag FlvTagType.audio = true
is_audio_tag _ = false

-- `epoch`, `audio_drain` and `delivery_ticket` are queue identity, never written to FLV.
pub record FlvTag : Type 0 where
  pub type : FlvTagType
  pub timestamp_ms : ℕ
  pub payload : List ℕ
  pub keyframe : Bool
  pub epoch : ℕ
  pub audio_drain : Bool
  pub delivery_ticket : ℕ

pub record FlvCodecHeaders : Type 0 where
  pub avc_decoder_configuration : List ℕ
  pub aac_audio_specific_config : List ℕ

abbrev pub flv_tag_header_size : ℕ
flv_tag_header_size = 11

abbrev pub previous_tag_size : ℕ
previous_tag_size = 4

abbrev pub max_flv_payload_size : ℕ
max_flv_payload_size = 0x00ff_ffff

abbrev pub wire_size : FlvTag → ℕ
wire_size tag = flv_tag_header_size + length tag.payload + previous_tag_size

-- `payload.size() > 1 && payload[1] == 0`, by which the queues know a codec header.
abbrev pub second_is_zero : List ℕ → Bool
second_is_zero (a ∷ b ∷ rest) = b == 0
second_is_zero _ = false

abbrev pub is_codec_header : FlvTag → Bool
is_codec_header tag = second_is_zero tag.payload

unfoldable pub make_sequence_header : FlvTagType → List ℕ → FlvTag
make_sequence_header type configuration = record {
  type = type;
  timestamp_ms = 0;
  payload = elim type [
    | FlvTagType.video ↦ 0x17 ∷ 0x00 ∷ 0x00 ∷ 0x00 ∷ 0x00 ∷ configuration
    | _ ↦ 0xaf ∷ 0x00 ∷ configuration
  ];
  keyframe = is_video_tag type;
  epoch = 0;
  audio_drain = false;
  delivery_ticket = 0;
}

-- `FlvMuxer::sequence_headers`.
unfoldable pub sequence_headers : FlvCodecHeaders → List FlvTag
unfolding make_sequence_header
sequence_headers headers =
    make_sequence_header FlvTagType.audio headers.aac_audio_specific_config
    ∷ make_sequence_header FlvTagType.video headers.avc_decoder_configuration
    ∷ []
