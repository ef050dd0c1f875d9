-- ===== src/HoldingFeed/Tests.antt =====
-- A feed that gets ready and releases its first packets.
use obs_live_delay_plugin.HoldingFeed.Drain.{run-new_feed-IsValid}
use obs_live_delay_plugin.Base.{some, [], ◌∷◌, true, false, ℕ, List, ◌≡◌}
use obs_live_delay_plugin.Base.Int.{pos}
use obs_live_delay_plugin.HoldingFeed.{Call, run, HoldingFeed, EncodedPacket, new_feed, PacketKind}
use obs_live_delay_plugin.HoldingFeed.Bounds.{IsValid}

abbrev key_frame : ℕ → EncodedPacket
key_frame t = record {
  kind = PacketKind.video;
  payload = 0 ∷ 0 ∷ 0 ∷ 1 ∷ 101 ∷ [];
  pts_us = pos t;
  dts_us = pos t;
  keyframe = true;
  audio_drain = false;
}

abbrev aac_frame : ℕ → EncodedPacket
aac_frame t = record (key_frame t) { kind = PacketKind.audio; payload = 33 ∷ []; keyframe = false }

abbrev calls : List Call
calls =
    Call.begins 0
    ∷ Call.gets_headers 1
        (record { avc_decoder_configuration = 1 ∷ []; aac_audio_specific_config = 18 ∷ [] })
    ∷ Call.ingests 2 (key_frame 10)
    ∷ Call.ingests 3 (aac_frame 12)
    ∷ Call.takes
    ∷ []

run-new_feed-IsValid_example : (g : HoldingFeed) × (run new_feed calls ≡ some g) × IsValid g
run-new_feed-IsValid_example = run-new_feed-IsValid calls
