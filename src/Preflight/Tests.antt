-- ===== src/Preflight/Tests.antt =====
-- A test of two platforms with a rendition at 60 frames a second, counted in thousandths.
use obs_live_delay_plugin.Multistream.Validation.{enabled_of}
use obs_live_delay_plugin.Preflight.Compatibility.{TakesAt, can_start_iff}
use obs_live_delay_plugin.Base.{◌∷◌, [], ℕ, ◌≡◌, Bool, true, ltb, ◌↔◌, Every}
use obs_live_delay_plugin.Preflight.{
  StreamRendition, can_start, evaluate_multistream_preflight, DestinationPlatform,
  MultistreamConfiguration, MultistreamDestination,
}

abbrev above_60 : ℕ → Bool
above_60 rate = ltb 60_000 rate

abbrev rendition : ℕ → StreamRendition ℕ
rendition interval = record {
  video_codec = b'h' ∷ 50 ∷ 54 ∷ 52 ∷ [];
  audio_codec = b'a' ∷ b'a' ∷ b'c' ∷ [];
  rate_control = b'C' ∷ b'B' ∷ b'R' ∷ [];
  width = 1920;
  height = 1080;
  frames_per_second = 60_000;
  video_bitrate_kbps = 6000;
  audio_bitrate_kbps = 160;
  keyframe_interval_seconds = interval;
}

abbrev on : DestinationPlatform → MultistreamDestination
on platform = record {
  id = [];
  name = [];
  target = record { server_url = []; stream_key = []; username = []; password = [] };
  platform = platform;
  enabled = true;
}

abbrev both : MultistreamConfiguration
both = record {
  version = 2;
  secondary_destinations = on DestinationPlatform.kick ∷ on DestinationPlatform.you_tube ∷ [];
}

-- YouTube advises against the interval of three seconds, and Kick does not take it.
can_start_iff_example :
    (can_start (evaluate_multistream_preflight above_60 both (rendition 3)) ≡ true)
    ↔ Every (TakesAt above_60 (rendition 3)) (enabled_of both.secondary_destinations)
can_start_iff_example = can_start_iff above_60 both (rendition 3)
