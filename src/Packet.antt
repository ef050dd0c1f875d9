-- ===== src/Packet.antt =====
-- src/delay-controller.hpp: encoded packets and the states of the delay controller.
use obs_live_delay_plugin.Base.{
  ℕ, ◌+◌, ◌≡◌, Bool, true, false, ◌&&◌, List, [], ◌∷◌, ◌++◌, arith, length,
}
use obs_live_delay_plugin.Base.Int.{ℤ}

pub data PacketKind : Type 0 where
  video audio : PacketKind

pub data DelayState : Type 0 where
  live building_delay delayed returning_live error : DelayState

-- The payload is the list of its bytes, and a timestamp counts microseconds.
pub record EncodedPacket : Type 0 where
  pub kind : PacketKind
  pub payload : List ℕ
  pub pts_us : ℤ
  pub dts_us : ℤ
  pub keyframe : Bool
  pub audio_drain : Bool

abbrev pub is_video : PacketKind → Bool
is_video PacketKind.video = true
is_video PacketKind.audio = false

abbrev pub is_audio : PacketKind → Bool
is_audio PacketKind.video = false
is_audio PacketKind.audio = true

-- `packet.kind == PacketKind::Video && packet.keyframe`.
abbrev pub is_keyframe : EncodedPacket → Bool
is_keyframe p = is_video p.kind && p.keyframe

abbrev pub is_error : DelayState → Bool
is_error DelayState.error = true
is_error _ = false

abbrev pub is_live : DelayState → Bool
is_live DelayState.live = true
is_live _ = false

abbrev pub is_building : DelayState → Bool
is_building DelayState.building_delay = true
is_building _ = false

abbrev pub is_delayed : DelayState → Bool
is_delayed DelayState.delayed = true
is_delayed _ = false

-- What the payloads of a queue weigh together.
abbrev pub total_bytes : List EncodedPacket → ℕ
total_bytes [] = 0
total_bytes (p ∷ ps) = length p.payload + total_bytes ps

pub total_bytes-append :
    (ps qs : List EncodedPacket) → total_bytes (ps ++ qs) ≡ total_bytes ps + total_bytes qs
total_bytes-append [] qs = omega arith
total_bytes-append (p ∷ ps) qs = omega (arith, total_bytes-append ps qs)
