-- ===== src/PipelineOwner/Tests.antt =====
-- Tests of the pipeline owner on concrete captures.
use obs_live_delay_plugin.Controller.State.{new_controller, default_limits}
use obs_live_delay_plugin.PipelineOwner.Merge.{merge}
use obs_live_delay_plugin.PipelineOwner.Failures.{
  IsFrozen, Reports, owner_run, OwnerCall, owner_run-IsFrozen,
}
use obs_live_delay_plugin.PipelineOwner.Bounds.{IsBounded, capture_states, capture_states-IsBounded}
use obs_live_delay_plugin.PipelineOwner.Interleave.Runs.{sequence, capture_run-merge}
use obs_live_delay_plugin.Packet.{PacketKind, EncodedPacket}
use obs_live_delay_plugin.PipelineOwner.{
  PipelineOwner, BroadcastPhase, pos, ReleasedPacketConsumer, TransitionRequest, TransitionAction,
  clear_capture,
}
use obs_live_delay_plugin.PipelineOwner.Queues.{
  Capture, new_capture, admit_ordered, take_packet, merge_ingress, merge_loop,
}
use obs_live_delay_plugin.PipelineOwner.Interleave.{
  CaptureCall, arrivals, capture_run, swap_packets,
}
use obs_live_delay_plugin.Base.Int.{pos, ◌-ℤ◌}
use obs_live_delay_plugin.PipelineOwner.Queues.{
  admit_packet, admit_ordered, take_packet, merge_ingress, merge_loop,
}
use obs_live_delay_plugin.Base.{
  ◌∷◌, [], none, some, List, ℕ, true, ◌*◌, false, length, ◌≡◌, String, refl, ◌++◌, arith, ◌+◌,
}
use obs_live_delay_plugin.PipelineOwner.Queues.{clear_capture}
use obs_live_delay_plugin.PipelineOwner.Calls.{status}

abbrev frame : PacketKind → ℕ → EncodedPacket
frame k dts = record {
  kind = k;
  payload = 1 ∷ 2 ∷ [];
  pts_us = pos dts;
  dts_us = pos dts;
  keyframe = true;
  audio_drain = false;
}

abbrev early_video : List CaptureCall
early_video =
    CaptureCall.arrives (frame PacketKind.video 0)
    ∷ CaptureCall.arrives (frame PacketKind.video 40)
    ∷ CaptureCall.arrives (frame PacketKind.audio 0)
    ∷ CaptureCall.arrives (frame PacketKind.audio 20)
    ∷ CaptureCall.swapped
    ∷ CaptureCall.arrives (frame PacketKind.audio 41)
    ∷ []

abbrev early_audio : List CaptureCall
early_audio =
    CaptureCall.arrives (frame PacketKind.audio 0)
    ∷ CaptureCall.arrives (frame PacketKind.audio 20)
    ∷ CaptureCall.arrives (frame PacketKind.audio 41)
    ∷ CaptureCall.arrives (frame PacketKind.video 0)
    ∷ CaptureCall.arrives (frame PacketKind.video 40)
    ∷ []

abbrev first_frames : List EncodedPacket
first_frames = frame PacketKind.video 0 ∷ frame PacketKind.audio 0 ∷ []

abbrev last_frames : List EncodedPacket
last_frames = frame PacketKind.audio 20 ∷ []

abbrev waiting : List EncodedPacket → Capture
waiting packets = record {
  packets = packets;
  video_ingress = frame PacketKind.video 40 ∷ [];
  audio_ingress = frame PacketKind.audio 41 ∷ [];
  video_input = some (pos 40);
  audio_input = some (pos 41);
  capture_floor = none;
  ingress_bytes = 4;
  packet_bytes = 2 * length packets;
}

early_video_run : capture_run new_capture [] early_video ≡ some (waiting last_frames, first_frames)
unfolding capture_run admit_packet admit_ordered take_packet merge_ingress merge_loop swap_packets
    ◌-ℤ◌
early_video_run = refl

early_audio_run :
    capture_run new_capture [] early_audio ≡ some (waiting (first_frames ++ last_frames), [])
unfolding capture_run admit_packet admit_ordered take_packet merge_ingress merge_loop swap_packets
    ◌-ℤ◌
early_audio_run = refl

capture_run-merge_example :
    sequence (waiting last_frames, first_frames)
    ≡ merge (arrivals PacketKind.video early_video) (arrivals PacketKind.audio early_video)
capture_run-merge_example =
    capture_run-merge early_video (waiting last_frames, first_frames) early_video_run

abbrev empty_is_bounded : IsBounded new_capture
empty_is_bounded = record {
  exact_ingress = refl;
  exact_packets = refl;
  bytes_fit = omega arith;
  count_fits = omega arith;
}

capture_states-IsBounded_example : IsBounded (capture_states new_capture early_video)
capture_states-IsBounded_example = capture_states-IsBounded early_video new_capture empty_is_bounded

-- A consumer that counts the cutoffs that it is told of.
abbrev counter : ReleasedPacketConsumer ℕ
counter = record {
  consume = λ c batch. (c, none);
  discontinuity = λ c event. (c + 1, none);
  stop = λ c. c;
  delivered = λ c epoch ticket. true;
}

abbrev owner : String → PipelineOwner ℕ
owner error = record {
  controller = new_controller default_limits;
  dispatcher = record { consumers = (1, 0) ∷ []; next_consumer_id = 2; publication_epoch = 7 };
  epoch = 5;
  prebuffer_target = pos 0;
  broadcast_requested = true;
  last_video = pos 0;
  last_audio = pos 0;
  last_key = pos 0;
  failure_error = error;
  headers = none;
  requests = [];
  capture = waiting last_frames;
  stopping = false;
  capture_epoch = 1;
  status = record {
    ready = true;
    holding_ready = true;
    stopped = false;
    error = "";
    transition_pending = false;
    phase = BroadcastPhase.broadcasting;
  };
  worker_started = true;
}

abbrev dump : TransitionRequest
dump = record { action = TransitionAction.emergency_dump; target = pos 0; epoch = 0 }

abbrev dumped : PipelineOwner ℕ
dumped = record (owner "") {
  dispatcher = record { consumers = (1, 1) ∷ []; next_consumer_id = 2; publication_epoch = 8 };
  requests = record dump { epoch = 8 } ∷ [];
  capture = record new_capture { capture_floor = some (pos 41) };
  capture_epoch = 2;
  status = record (owner "").status { transition_pending = true };
}

abbrev stalled : PipelineOwner ℕ
stalled = owner "PROGRAMME_INGRESS_STALLED"

abbrev calls_after : List OwnerCall
calls_after =
    OwnerCall.captures (pos 9) (frame PacketKind.video 80) 1
    ∷ OwnerCall.asks dump
    ∷ OwnerCall.stops
    ∷ []

owner_run-IsFrozen_example :
    IsFrozen stalled (owner_run counter stalled calls_after)
    × Reports "PROGRAMME_INGRESS_STALLED"
        (status counter (owner_run counter stalled calls_after) (pos 10))
owner_run-IsFrozen_example = owner_run-IsFrozen counter calls_after stalled (pos 10) refl
