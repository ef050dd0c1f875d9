-- ===== src/Controller/State.antt =====
-- src/delay-controller.hpp and src/delay-controller.cpp: the state of `DelayController`, and the
-- calls that only read it. The mutex serialises the calls, so each is a function of the state.
use obs_live_delay_plugin.Base.{
  ℕ, ◌*◌, Bool, true, false, not, ◌&&◌, ◌||◌, Option, none, some, List, [], ◌∷◌, String, last_from,
  if◌then◌else◌,
}
use obs_live_delay_plugin.Base.Int.{ℤ, pos, ◌-ℤ◌, leb_ℤ, min_ℤ, max_ℤ}
use obs_live_delay_plugin.Packet.{EncodedPacket, DelayState, is_keyframe, is_audio, is_error}

-- The default limits are ten minutes and 1 GiB.
pub record BufferLimits : Type 0 where
  pub max_delay : ℤ
  pub max_bytes : ℕ

abbrev pub default_limits : BufferLimits
default_limits = record { max_delay = pos 600_000_000; max_bytes = 1024 * 1024 * 1024 }

pub record DelayController : Type 0 where
  pub limits : BufferLimits
  pub armed : Bool
  pub passthrough : Bool
  pub rewind_mode : Bool
  pub playback_delay : Option ℤ
  pub video_watermark : Option ℤ
  pub audio_watermark : Option ℤ
  pub buffered : List EncodedPacket
  pub ready : List EncodedPacket
  pub buffered_bytes : ℕ
  pub state : DelayState
  pub target_delay : ℤ
  pub error : String
  pub last_input_dts_us : Option ℤ
  pub timestamp_offset_us : Option ℤ
  pub rebase_next_timestamp : Bool
  pub waiting_for_live_keyframe : Bool
  pub pending_trim : Bool
  pub live_keyframe_dts_us : ℤ

abbrev pub new_controller : BufferLimits → DelayController
new_controller limits = record {
  limits = limits;
  armed = false;
  passthrough = false;
  rewind_mode = false;
  playback_delay = none;
  video_watermark = none;
  audio_watermark = none;
  buffered = [];
  ready = [];
  buffered_bytes = 0;
  state = DelayState.live;
  target_delay = pos 0;
  error = "";
  last_input_dts_us = none;
  timestamp_offset_us = none;
  rebase_next_timestamp = false;
  waiting_for_live_keyframe = true;
  pending_trim = false;
  live_keyframe_dts_us = pos 0;
}

-- `duration_locked`: how much programme the history spans.
unfoldable pub duration : List EncodedPacket → ℤ
duration [] = pos 0
duration (p ∷ []) = pos 0
duration (p ∷ q ∷ ps) = max_ℤ (pos 0) ((last_from q ps).dts_us -ℤ p.dts_us)

-- `buffered_.back().dts_us - buffered_.front().dts_us`, read only where the history has a packet.
unfoldable pub history_age : List EncodedPacket → ℤ
history_age [] = pos 0
history_age (p ∷ ps) = (last_from p ps).dts_us -ℤ p.dts_us

-- `std::min(*video_watermark_, *audio_watermark_)`, where both are set.
abbrev pub watermark : DelayController → Option ℤ
watermark c = elim c.video_watermark [
  | none ↦ none
  | some v ↦ elim c.audio_watermark [ none ↦ none | some a ↦ some (min_ℤ v a) ]
]

-- `std::any_of` over packets.
unfoldable pub any_packet : (EncodedPacket → Bool) → List EncodedPacket → Bool
any_packet test [] = false
any_packet test (p ∷ ps) = test p || any_packet test ps

abbrev pub audio_within : ℤ → ℤ → EncodedPacket → Bool
audio_within start mark p = is_audio p.kind && leb_ℤ start p.dts_us && leb_ℤ p.dts_us mark

-- The history that a replay starts from: it opens on a keyframe, spans the target up to the
-- watermark, and has audio within that span.
unfoldable pub covers : ℤ → ℤ → List EncodedPacket → Bool
unfolding any_packet
covers target mark [] = false
covers target mark (p ∷ ps) =
    is_keyframe p
    && leb_ℤ target (mark -ℤ p.dts_us)
    && any_packet (audio_within p.dts_us mark) (p ∷ ps)

-- `prebuffer_ready_locked`.
unfoldable pub prebuffer_ready : DelayController → Bool
unfolding covers
prebuffer_ready c =
    c.armed
    && not (is_error c.state)
    && elim (watermark c) [ none ↦ false | some mark ↦ covers c.target_delay mark c.buffered ]

pub record ControllerStatus : Type 0 where
  pub state : DelayState
  pub current_delay : ℤ
  pub target_delay : ℤ
  pub buffered_bytes : ℕ
  pub error : String

unfoldable pub status : DelayController → ControllerStatus
unfolding duration
status c = record {
  state = c.state;
  current_delay = duration c.buffered;
  target_delay = c.target_delay;
  buffered_bytes = c.buffered_bytes;
  error = c.error;
}

-- `set_error_locked`: an armed controller also gives up its history and what was ready.
unfoldable pub set_error : DelayController → String → DelayController
set_error c message =
    if c.armed
    then record c {
      buffered = [];
      ready = [];
      buffered_bytes = 0;
      video_watermark = none;
      audio_watermark = none;
      state = DelayState.error;
      error = message;
    }
    else record c { state = DelayState.error; error = message }

-- `reset_timestamp_tracking_locked`.
abbrev pub reset_timestamp_tracking : DelayController → DelayController
reset_timestamp_tracking c = record c {
  pending_trim = false;
  last_input_dts_us = none;
  timestamp_offset_us = none;
  rebase_next_timestamp = false;
}
