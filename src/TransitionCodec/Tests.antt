-- ===== src/TransitionCodec/Tests.antt =====
-- Tests of the codec admission, on headers of src/tests/transition-nvenc-admission-tests.cpp and
-- src/tests/transition-test-headers.hpp.
use obs_live_delay_plugin.Base.{◌∷◌, [], ◌≡◌, ◌++◌, ok, arith, refl, ◌↔◌}
use obs_live_delay_plugin.TransitionCodec.Golomb.{Stands, number, golomb, ue-golomb}
use obs_live_delay_plugin.TransitionCodec.Bits.{
  TransitionBits, get, ue, get_loop, count_zeros, skip,
}
use obs_live_delay_plugin.TransitionCodec.Aac.{IsLowComplexity}
use obs_live_delay_plugin.TransitionCodec.Admission.{transition_aac_duration_iff}
use obs_live_delay_plugin.TransitionCodec.Durations.{
  IsFrameDuration, transition_video_duration-IsFrameDuration,
}
use obs_live_delay_plugin.TransitionCodec.{transition_aac_duration, aac_duration}
use obs_live_delay_plugin.TransitionCodec.Video.{
  transition_video_duration, unescape_loop, video_duration, read_timing, skip_schedules, skip_hrd,
  read_restriction,
}
use obs_live_delay_plugin.Flv.Tag.{FlvCodecHeaders}

abbrev captured : FlvCodecHeaders
captured = record {
  avc_decoder_configuration =
      1 ∷ 100 ∷ 0 ∷ 13 ∷ 255 ∷ 225 ∷ 0 ∷ 35 ∷ 103 ∷ 100 ∷ 0 ∷ 13 ∷ 172 ∷ 44 ∷ 165 ∷ 5 ∷ 6 ∷ 126
      ∷ 124 ∷ 5 ∷ 168 ∷ 8 ∷ 8 ∷ 10 ∷ 0 ∷ 0 ∷ 7 ∷ 208 ∷ 0 ∷ 1 ∷ 212 ∷ 193 ∷ 192 ∷ 0 ∷ 11 ∷ 184 ∷ 0
      ∷ 23 ∷ 112 ∷ 221 ∷ 229 ∷ 193 ∷ 64 ∷ 1 ∷ 0 ∷ 4 ∷ 104 ∷ 235 ∷ 143 ∷ 44 ∷ [];
  aac_audio_specific_config = 0x11 ∷ 0x90 ∷ [];
}

abbrev programme : FlvCodecHeaders
programme = record {
  avc_decoder_configuration =
      1 ∷ 100 ∷ 0 ∷ 10 ∷ 255 ∷ 225 ∷ 0 ∷ 24 ∷ 103 ∷ 100 ∷ 0 ∷ 10 ∷ 172 ∷ 217 ∷ 68 ∷ 38 ∷ 192 ∷ 68
      ∷ 0 ∷ 0 ∷ 3 ∷ 0 ∷ 4 ∷ 0 ∷ 0 ∷ 3 ∷ 0 ∷ 240 ∷ 60 ∷ 72 ∷ 150 ∷ 88 ∷ 1 ∷ 0 ∷ 6 ∷ 104 ∷ 235 ∷ 227
      ∷ 203 ∷ 34 ∷ 192 ∷ 253 ∷ 248 ∷ 248 ∷ 0 ∷ [];
  aac_audio_specific_config = 17 ∷ 144 ∷ [];
}

captured_video : transition_video_duration captured ≡ ok 33334
unfolding transition_video_duration unescape_loop video_duration get get_loop ue count_zeros
    read_timing skip_schedules skip_hrd read_restriction
captured_video = refl

programme_video : transition_video_duration programme ≡ ok 33334
unfolding transition_video_duration unescape_loop video_duration get get_loop ue count_zeros
    read_timing skip_schedules skip_hrd read_restriction
programme_video = refl

programme_audio : transition_aac_duration programme ≡ ok 21334
unfolding transition_aac_duration aac_duration get get_loop
programme_audio = refl

transition_video_duration-IsFrameDuration_example : IsFrameDuration 33334
transition_video_duration-IsFrameDuration_example =
    transition_video_duration-IsFrameDuration captured 33334 captured_video

transition_aac_duration_iff_example :
    (transition_aac_duration programme ≡ ok 21334) ↔ IsLowComplexity (17 ∷ 144 ∷ []) 21334
transition_aac_duration_iff_example =
    transition_aac_duration_iff programme 21334 (omega arith, (omega arith, tt))

-- The code of 23, 000011000, behind two bits of a stream.
abbrev coded : TransitionBits
coded = record { bytes = 0xC3 ∷ 0x08 ∷ []; position = 2 }

coded-Stands : Stands coded (golomb (1 ∷ 0 ∷ 0 ∷ 0 ∷ []) ++ (0 ∷ 1 ∷ []))
unfolding Stands
coded-Stands = (
  refl,
  (refl, (refl, (refl, (refl, (refl, (refl, (refl, (refl, (refl, (refl, omega arith)))))))))),
)

ue-golomb_example : ue coded ≡ ok (23, skip coded 9)
unfolding number
ue-golomb_example = ue-golomb coded (1 ∷ 0 ∷ 0 ∷ 0 ∷ []) (0 ∷ 1 ∷ []) (omega arith) coded-Stands
