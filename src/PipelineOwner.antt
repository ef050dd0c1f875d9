-- ===== src/PipelineOwner.antt =====
-- src/pipeline-owner.hpp and src/pipeline-owner.cpp: the owner of a capture session. Each function
-- is what one call does under the owner's mutexes. `now` is the steady clock in microseconds, and
-- an exception that leaves a call is the failure of its result.
pub mod Queues
pub mod Merge
pub mod Interleave
pub mod Bounds
pub mod Floor
pub mod Late
pub mod Calls
pub mod Failures
pub mod Fence
mod Tests
use obs_live_delay_plugin.TransitionCodec.{is_timing_refused, timing_message}
use obs_live_delay_plugin.Flv.Tag.{FlvCodecHeaders}
use obs_live_delay_plugin.Packet.{EncodedPacket, is_video}
use obs_live_delay_plugin.Base.Int.{ℤ, pos, ltb_ℤ, ◌-ℤ◌}
use obs_live_delay_plugin.Controller.State.{DelayController}
use obs_live_delay_plugin.Base.{
  Bool, ℕ, Result, String, Option, true, not, if◌then◌else◌, List, ok, ◌||◌, ◌++◌, some, false,
  ◌&&◌, ◌*◌, is_empty_text, ◌==◌, ◌∷◌, none, err, [], add_size, length, ltb, leb,
}
use obs_live_delay_plugin.PipelineOwner.Queues.{
  Capture, clear_capture, admit_packet, Admission, refused, taken, stale, byte_limit, count_limit,
}
use obs_live_delay_plugin.Transition.{TransitionAction, TransitionRequest}
use obs_live_delay_plugin.Dispatcher.{
  ReleasedPacketDispatcher, ReleasedPacketConsumer, ConsumerFailure, reserve_epoch,
  dispatch_discontinuity,
}

pub data BroadcastPhase : Type 0 where
  stopped arming filling ready connecting broadcasting stopping failed : BroadcastPhase

pub record PipelineStatus : Type 0 where
  pub ready : Bool
  pub holding_ready : Bool
  pub stopped : Bool
  pub error : String
  pub transition_pending : Bool
  pub phase : BroadcastPhase

-- What a call that takes an error string answers: it accepts, it returns false with a message, or
-- an exception leaves it.
pub data Answer : Type 0 where
  accepted : Answer
  denied threw : String → Answer

abbrev pub is_waiting : BroadcastPhase → Bool
is_waiting BroadcastPhase.ready = true
is_waiting BroadcastPhase.filling = true
is_waiting _ = false

abbrev pub is_ready : BroadcastPhase → Bool
is_ready BroadcastPhase.ready = true
is_ready _ = false

abbrev pub is_broadcasting : BroadcastPhase → Bool
is_broadcasting BroadcastPhase.broadcasting = true
is_broadcasting _ = false

abbrev pub is_connecting : BroadcastPhase → Bool
is_connecting BroadcastPhase.connecting = true
is_connecting _ = false

unfoldable pub broadcast_on_air : PipelineStatus → Bool
broadcast_on_air s = not s.stopped && (is_connecting s.phase || is_broadcasting s.phase)

pub record PipelineOwner {ℓ} (C : Type ℓ) : Type ℓ where
  pub controller : DelayController
  pub dispatcher : ReleasedPacketDispatcher C
  pub epoch : ℕ
  pub prebuffer_target : ℤ
  pub broadcast_requested : Bool
  pub last_video : ℤ
  pub last_audio : ℤ
  pub last_key : ℤ
  pub failure_error : String
  pub headers : Option FlvCodecHeaders
  pub requests : List TransitionRequest
  pub capture : Capture
  pub stopping : Bool
  pub capture_epoch : ℕ
  pub status : PipelineStatus
  pub worker_started : Bool

abbrev pub seconds : ℕ → ℤ
seconds n = pos (n * 1_000_000)

-- `now - last > std::chrono::seconds(n)`.
abbrev pub is_older : ℤ → ℤ → ℕ → Bool
is_older now last n = ltb_ℤ (seconds n) (now -ℤ last)

-- `last_video_`, `last_audio_` and `last_key_` once a packet is admitted.
abbrev pub note_arrival {ℓ} : {C : Type ℓ} → PipelineOwner C → ℤ → EncodedPacket → PipelineOwner C
note_arrival o now p =
    if is_video p.kind
    then record o { last_video = now; last_key = if p.keyframe then now else o.last_key }
    else record o { last_audio = now }

module _ {ℓ} {C : Type ℓ} (ops : ReleasedPacketConsumer C) where
  -- Every consumer is told of an epoch that was granted.
  abbrev pub notify_of :
      String
      → ReleasedPacketDispatcher C × Result ℕ
      → ReleasedPacketDispatcher C × Result (ℕ × List ConsumerFailure)
  notify_of reason (d, err message) = (d, err message)
  notify_of reason (d, ok next) =
      let (notified, failures) =
        dispatch_discontinuity ops d (record { epoch = next; reason = reason }) in
      (notified, ok (next, failures))

  -- A publication cutoff: an epoch is reserved and every consumer is told of it.
  unfoldable pub cut_off :
      ReleasedPacketDispatcher C
      → ℕ
      → String
      → ReleasedPacketDispatcher C × Result (ℕ × List ConsumerFailure)
  cut_off d epoch reason = notify_of reason (reserve_epoch d epoch)

  -- The exception that leaves a call, if one does.
  abbrev pub thrown_by : Result (ℕ × List ConsumerFailure) → Option String
  thrown_by (err message) = some message
  thrown_by (ok _) = none

  unfoldable pub failure : PipelineOwner C → String → PipelineOwner C × Option String
  failure o error =
      let (cut, result) = cut_off o.dispatcher o.epoch "Capture failure publication cutoff" in
      if is_empty_text o.failure_error
      then (record o { failure_error = error; dispatcher = cut }, thrown_by result)
      else (o, none)

  -- `failure(message); return false;`.
  abbrev pub refuse_with : PipelineOwner C × Option String → PipelineOwner C × Result Bool
  refuse_with (o, none) = (o, ok false)
  refuse_with (o, some message) = (o, err message)

  abbrev pub refuse_packet : PipelineOwner C → String → PipelineOwner C × Result Bool
  refuse_packet o message = refuse_with (failure o message)

  -- The guards that both queues share: a stop, an old token, a failure.
  abbrev pub is_shut : PipelineOwner C → ℕ → Bool
  is_shut o token =
      o.stopping || (not (token == o.capture_epoch) || not (is_empty_text o.failure_error))

  abbrev pub push_packet : Capture → EncodedPacket → Capture
  push_packet c p = record c {
    packets = c.packets ++ (p ∷ []);
    packet_bytes = add_size c.packet_bytes (length p.payload);
  }

  -- `enqueue` with a token.
  unfoldable pub enqueue : PipelineOwner C → ℤ → EncodedPacket → ℕ → PipelineOwner C × Result Bool
  enqueue o now p token =
      if is_shut o token
      then (o, ok false)
      else if is_timing_refused p
      then refuse_packet o timing_message
      else if ltb byte_limit (add_size o.capture.packet_bytes (length p.payload))
          || leb count_limit (length o.capture.packets)
      then refuse_packet o "PROGRAMME_INGRESS_OVERFLOW: owner compressed queue reached capacity"
      else (record (note_arrival o now p) { capture = push_packet o.capture p }, ok true)

  abbrev pub after_admit :
      PipelineOwner C → ℤ → EncodedPacket → Admission → PipelineOwner C × Result Bool
  after_admit o now p stale = (o, ok true)
  after_admit o now p (refused c message) = refuse_packet (record o { capture = c }) message
  after_admit o now p (taken c) = (record (note_arrival o now p) { capture = c }, ok true)

  unfoldable pub enqueue_uninterleaved :
      PipelineOwner C → ℤ → EncodedPacket → ℕ → PipelineOwner C × Result Bool
  enqueue_uninterleaved o now p token =
      if is_shut o token
      then (o, ok false)
      else if is_timing_refused p
      then refuse_packet o timing_message
      else after_admit o now p (admit_packet o.capture p)
