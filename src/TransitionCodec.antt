-- ===== src/TransitionCodec.antt =====
-- src/transition-codec.hpp: the packets and codec configurations that a transition between two
-- feeds admits. A configuration is read as bits, and each part of an AVC sequence parameter set is
-- one definition, in the order in which the source reads them.
pub mod Bits
pub mod Video
pub mod Golomb
pub mod Durations
pub mod Aac
pub mod Admission
mod Tests
use obs_live_delay_plugin.Flv.Tag.{FlvCodecHeaders}
use obs_live_delay_plugin.Base.Int.{ℤ, leb_ℤ, pos, ltb_ℤ, ◌-ℤ◌, eq_ℤ}
use obs_live_delay_plugin.Base.{
  ℕ, Bool, String, Result, List, refuse_if, if◌then◌else◌, err, ◌&&◌, ◌^◌, ◌||◌, ◌==◌, ok, not, ◌-◌,
  length, ◌*◌, ◌+◌, ◌/◌,
}
use obs_live_delay_plugin.TransitionCodec.Bits.{
  ◌>>=◌, ◌>>◌, TransitionBits, Reading, get, refuse_codec, when, pure, unsupported_transition_codec,
}
use obs_live_delay_plugin.Packet.{EncodedPacket, PacketKind, is_audio}

abbrev pub transition_max_composition_us : ℕ
transition_max_composition_us = 250000

unfoldable pub transition_composition_supported : PacketKind → ℤ → Bool
transition_composition_supported kind composition =
    leb_ℤ (pos 0) composition
    && (leb_ℤ composition (pos transition_max_composition_us)
        && (not (is_audio kind) || eq_ℤ composition (pos 0)))

-- `std::numeric_limits<std::int64_t>::max() - 1000000`.
abbrev pub last_admitted_us : ℤ
last_admitted_us = pos (2 ^ 63 - 1 - 1000000)

-- Whether `validate_transition_packet_timing` throws.
unfoldable pub is_timing_refused : EncodedPacket → Bool
is_timing_refused p =
    ltb_ℤ p.dts_us (pos 0)
    || (ltb_ℤ p.pts_us p.dts_us
        || (ltb_ℤ last_admitted_us p.dts_us
            || (ltb_ℤ last_admitted_us p.pts_us
                || not (transition_composition_supported p.kind (p.pts_us -ℤ p.dts_us)))))

abbrev pub timing_message : String
timing_message =
    "TRANSITION_TIMING_UNSUPPORTED: source presentation clock is outside the admitted codec timeline"

unfoldable pub validate_transition_packet_timing : EncodedPacket → Result (Unit {0})
validate_transition_packet_timing p = refuse_if (is_timing_refused p) timing_message

-- The sync extension of five bytes that says that SBR is absent.
abbrev pub sbr_absent : Reading (Unit {0})
sbr_absent = do
  sync ← get 11
  refuse_codec (not (sync == 0x2b7))
  object ← get 5
  refuse_codec (not (object == 5))
  present ← get 1
  refuse_codec (not (present == 0))
  rest ← get 7
  refuse_codec (not (rest == 0))

abbrev pub sample_rate : ℕ → ℕ
sample_rate rate = if rate == 3 then 48000 else 44100

-- The reads of `transition_aac_duration` in a configuration of `size` bytes.
unfoldable pub aac_duration : ℕ → Reading ℕ
aac_duration size = do
  object ← get 5
  refuse_codec (not (object == 2))
  rate ← get 4
  channels ← get 4
  refuse_codec (not (rate == 3) && not (rate == 4))
  refuse_codec (not (channels == 1) && not (channels == 2))
  flags ← get 3
  refuse_codec (not (flags == 0))
  when (size == 5) sbr_absent
  pure ((1024 * 1000000 + sample_rate rate - 1) / sample_rate rate)

-- What a reading gives, without the reader behind it.
abbrev pub value_of {ℓ} : {A : Type ℓ} → Result (A × TransitionBits) → Result A
value_of (err message) = err message
value_of (ok read) = ok (read.0)

abbrev pub bits_of : List ℕ → TransitionBits
bits_of bytes = record { bytes = bytes; position = 0 }

unfoldable pub transition_aac_duration : FlvCodecHeaders → Result ℕ
transition_aac_duration headers =
    let c = headers.aac_audio_specific_config in
    if not (length c == 2) && not (length c == 5)
    then unsupported_transition_codec
    else value_of (aac_duration (length c) (bits_of c))
