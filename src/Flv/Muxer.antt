-- ===== src/Flv/Muxer.antt =====
-- src/flv-muxer.cpp: `FlvMuxer`, which turns encoded packets into FLV tags on one timeline.
pub mod Monotone
use obs_live_delay_plugin.Flv.Avc.{validate_avc_packet}
use obs_live_delay_plugin.Flv.Wire.{be24}
use obs_live_delay_plugin.Diagnostic.{diagnostic_error, DiagnosticCode}
use obs_live_delay_plugin.Packet.{PacketKind, EncodedPacket, is_video, is_keyframe}
use obs_live_delay_plugin.Base.Int.{ℤ, pos, negsuc, ◌-ℤ◌, sub_ℕ, ltb_ℤ, pos_part}
use obs_live_delay_plugin.Flv.Tag.{FlvCodecHeaders, FlvTag, max_flv_payload_size, FlvTagType}
use obs_live_delay_plugin.Base.{
  ◌>>=◌, ◌>>◌, zero, suc, none, some, true, false, [], ◌∷◌, ok, err, Option, String, List, Result,
  Bool, ℕ, if◌then◌else◌, refuse_if, is_empty, ◌/◌, ◌%◌, ◌-◌, ltb, ◌&&◌, ◌||◌, ◌^◌, ◌++◌, length,
}

pub record Timeline : Type 0 where
  pub has_base_timestamp : Bool
  pub base_dts_us : ℤ
  pub last_dts_us : ℤ

pub record FlvMuxer : Type 0 where
  pub headers : FlvCodecHeaders
  pub timeline : Timeline

abbrev pub new_timeline : Timeline
new_timeline = record { has_base_timestamp = false; base_dts_us = pos 0; last_dts_us = pos 0 }

abbrev pub headers_missing : FlvCodecHeaders → Bool
headers_missing h = is_empty h.avc_decoder_configuration || is_empty h.aac_audio_specific_config

-- The constructor; its failures are `std::invalid_argument`.
unfoldable pub new_muxer : FlvCodecHeaders → Result FlvMuxer
new_muxer headers = do
  refuse_if (is_empty headers.avc_decoder_configuration) "H.264 AVC decoder configuration is empty"
  refuse_if (is_empty headers.aac_audio_specific_config) "AAC AudioSpecificConfig is empty"
  ok (record { headers = headers; timeline = new_timeline })

-- Division by 1000 that rounds towards zero, as C++ does.
abbrev pub to_ms : ℤ → ℤ
to_ms (pos n) = pos (n / 1000)
to_ms (negsuc n) = sub_ℕ 0 (suc n / 1000)

-- `static_cast<std::uint32_t>(t) & 0x00ffffff`.
abbrev pub low_24_bits : ℤ → ℕ
low_24_bits (pos n) = n % 2 ^ 24
low_24_bits (negsuc n) = 2 ^ 24 - 1 - n % 2 ^ 24

abbrev pub min_composition_time : ℤ
min_composition_time = negsuc (0x0080_0000 - 1)

abbrev pub max_composition_time : ℤ
max_composition_time = pos 0x007f_ffff

abbrev pub framing_size : PacketKind → ℕ
framing_size PacketKind.video = 5
framing_size PacketKind.audio = 2

abbrev pub avc_result : Option String → Result (Unit {0})
avc_result none = ok tt
avc_result (some message) = err message

-- `packet.kind == PacketKind::Video && !validate_avc_packet(...)`.
unfoldable pub check_framing : EncodedPacket → Result (Unit {0})
check_framing p = if is_video p.kind then avc_result (validate_avc_packet p.payload) else ok tt

abbrev pub mux_error : String → String
mux_error message = diagnostic_error DiagnosticCode.output_mux_failed message

-- The base of the timeline is the first packet's decoding time.
abbrev pub base_for : Timeline → EncodedPacket → ℤ
base_for t p = if t.has_base_timestamp then t.base_dts_us else p.dts_us

unfoldable pub check_size : EncodedPacket → Result (Unit {0})
check_size p =
    refuse_if (ltb (max_flv_payload_size - framing_size p.kind) (length p.payload))
      (mux_error "Encoded packet is too large for a single FLV tag")

-- The two checks of the decoding time, and the tag's timestamp.
unfoldable pub relative_ms : Timeline → EncodedPacket → Result ℕ
relative_ms t p =
    if t.has_base_timestamp && ltb_ℤ p.dts_us t.last_dts_us
    then err (mux_error "FLV input DTS moved backwards")
    else (let relative = p.dts_us -ℤ base_for t p in
        if ltb_ℤ relative (pos 0) || ltb (2 ^ 32 - 1) (pos_part relative / 1000)
        then err (mux_error "FLV timestamp is outside the 32-bit millisecond range")
        else ok (pos_part relative / 1000))

abbrev pub audio_payload : EncodedPacket → List ℕ
audio_payload p = 0xaf ∷ 0x01 ∷ p.payload

abbrev pub video_payload : EncodedPacket → ℤ → List ℕ
video_payload p composition =
    (if p.keyframe then 0x17 else 0x27) ∷ 0x01 ∷ (be24 (low_24_bits composition) ++ p.payload)

-- The body of the tag, after the check of a video packet's composition time.
unfoldable pub tag_payload : EncodedPacket → Result (List ℕ)
tag_payload p =
    let composition = to_ms (p.pts_us -ℤ p.dts_us) in
    if is_video p.kind
    then (if ltb_ℤ composition min_composition_time || ltb_ℤ max_composition_time composition
        then err (mux_error "H.264 composition time is outside the signed 24-bit FLV range")
        else ok (video_payload p composition))
    else ok (audio_payload p)

abbrev pub make_tag : EncodedPacket → ℕ → List ℕ → FlvTag
make_tag p time payload = record {
  type = if is_video p.kind then FlvTagType.video else FlvTagType.audio;
  timestamp_ms = time;
  payload = payload;
  keyframe = is_keyframe p;
  epoch = 0;
  audio_drain = p.audio_drain;
  delivery_ticket = 0;
}

-- One round of the loop of `mux`.
unfoldable pub mux_packet : Timeline → EncodedPacket → Result (Timeline × FlvTag)
mux_packet t p = do
  refuse_if (is_empty p.payload) (mux_error "An encoded packet has an empty payload")
  check_framing p
  check_size p
  time ← relative_ms t p
  payload ← tag_payload p
  ok (
    record { has_base_timestamp = true; base_dts_us = base_for t p; last_dts_us = p.dts_us },
    make_tag p time payload,
  )

unfoldable pub mux_loop : Timeline → List EncodedPacket → Result (Timeline × List FlvTag)
mux_loop t [] = ok (t, [])
mux_loop t (p ∷ ps) = do
  (t', tag) ← mux_packet t p
  (t'', tags) ← mux_loop t' ps
  ok (t'', tag ∷ tags)

-- What `mux` leaves in the muxer, in `tags` and in `error`: a failure changes neither of the first.
abbrev pub commit : FlvMuxer → Result (Timeline × List FlvTag) → FlvMuxer × Result (List FlvTag)
commit m (ok (t, made)) = (record m { timeline = t }, ok made)
commit m (err message) = (m, err message)

-- `mux`, whose result is the new contents of `tags`. An empty batch gives no tags.
unfoldable pub mux : FlvMuxer → List EncodedPacket → FlvMuxer × Result (List FlvTag)
mux m packets = commit m (mux_loop m.timeline packets)

unfoldable pub reset_timeline : FlvMuxer → FlvMuxer
reset_timeline m = record m { timeline = new_timeline }

unfoldable pub set_headers : FlvMuxer → FlvCodecHeaders → Result FlvMuxer
set_headers m headers =
    if headers_missing headers
    then err "Feed codec headers are empty"
    else ok (record m { headers = headers })
