-- ===== src/NetworkConsumer/Tests.antt =====
-- A consumer in epoch 4 that is told of epoch 5.
use obs_live_delay_plugin.Flv.Muxer.{new_timeline}
use obs_live_delay_plugin.NetworkConsumer.Fence.{discontinuity_fences}
use obs_live_delay_plugin.SenderQueue.{default_queue_limits}
use obs_live_delay_plugin.Base.{some, none, [], ◌∷◌, false, inl, ◌≡◌, arith, refl}
use obs_live_delay_plugin.NetworkConsumer.{
  consume, discontinuity, RtmpSender, NetworkPacketConsumer, PacketDiscontinuity,
  ReleasedPacketBatch,
}
use obs_live_delay_plugin.RtmpSender.{SenderState}
use obs_live_delay_plugin.Packet.{EncodedPacket, PacketKind}
use obs_live_delay_plugin.Base.Int.{pos}

abbrev idle_sender : RtmpSender
idle_sender = record {
  queue = record { limits = default_queue_limits; tags = []; bytes = 0; closed = false };
  sequence_headers = [];
  epoch = 4;
  acknowledged_epoch = 4;
  published_epoch = 4;
  delivered_epoch = 4;
  delivery_ticket = 5;
  enqueued_ticket = 5;
  carried_ticket = 0;
  drop_video_until_keyframe = false;
  dropped_video_tags = 0;
  writing = false;
  transition_cancelled_transport = false;
  resume_after_transition = false;
  header_revision = 1;
  primed_revision = 1;
  state = SenderState.running;
  error = "";
  stop_requested = false;
  sent_bytes = 100;
}

abbrev consumer : NetworkPacketConsumer
consumer = record {
  muxer = some (record {
    headers = record { avc_decoder_configuration = 1 ∷ []; aac_audio_specific_config = 18 ∷ [] };
    timeline = new_timeline;
  });
  sender = idle_sender;
  epoch = 4;
  needs_headers = false;
}

abbrev change : PacketDiscontinuity
change = record { epoch = 5; reason = "TRANSITION" }

abbrev one_packet : EncodedPacket
one_packet = record {
  kind = PacketKind.audio;
  payload = 33 ∷ [];
  pts_us = pos 1000;
  dts_us = pos 1000;
  keyframe = false;
  audio_drain = false;
}

abbrev plain_batch : ReleasedPacketBatch
plain_batch = record { epoch = 5; packets = one_packet ∷ []; headers = none; delivery_ticket = 9 }

discontinuity_fences_example :
    (consume (discontinuity consumer change) plain_batch).0 ≡ discontinuity consumer change
discontinuity_fences_example =
    discontinuity_fences consumer change plain_batch (omega arith) (inl refl)
