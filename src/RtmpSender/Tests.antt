-- ===== src/RtmpSender/Tests.antt =====
-- A running sender with two tags in its queue.
use obs_live_delay_plugin.RtmpSender.Fence.{invalidate_epoch_fences}
use obs_live_delay_plugin.SenderQueue.Tickets.{max_ticket}
use obs_live_delay_plugin.RtmpSender.Congestion.{held_ticket, enqueue_epoch-held_ticket}
use obs_live_delay_plugin.SenderQueue.{drop_video, try_push}
use obs_live_delay_plugin.RtmpSender.{
  RtmpSender, enqueue_epoch, invalidate_epoch, SenderState, enqueue_admitted, admit, begin_send,
  highest_ticket, acknowledge_tag, stamp, enqueue_running, thin_incoming_video, shed_queued_video,
  thin_loop, thin_step, push_or_shed,
}
use obs_live_delay_plugin.SenderQueue.{
  BoundedSenderQueue, default_queue_limits, drop_loop, drop_step, push_sized, added_bytes,
}
use obs_live_delay_plugin.Flv.Tag.{FlvTagType, FlvTag}
use obs_live_delay_plugin.Base.{
  some, none, [], ◌∷◌, true, false, ok, List, ℕ, ◌≡◌, max, refl, arith,
}

abbrev tag_at : FlvTagType → ℕ → ℕ → FlvTag
tag_at type time ticket = record {
  type = type;
  timestamp_ms = time;
  payload = 0x27 ∷ 1 ∷ [];
  keyframe = false;
  epoch = 4;
  audio_drain = false;
  delivery_ticket = ticket;
}

abbrev queued : BoundedSenderQueue
queued = record {
  limits = default_queue_limits;
  tags = tag_at FlvTagType.audio 0 6 ∷ tag_at FlvTagType.video 10 7 ∷ [];
  bytes = 34;
  closed = false;
}

abbrev busy : RtmpSender
busy = record {
  queue = queued;
  sequence_headers = [];
  epoch = 4;
  acknowledged_epoch = 4;
  published_epoch = 4;
  delivered_epoch = 4;
  delivery_ticket = 5;
  enqueued_ticket = 7;
  carried_ticket = 0;
  drop_video_until_keyframe = false;
  dropped_video_tags = 0;
  writing = true;
  transition_cancelled_transport = false;
  resume_after_transition = false;
  header_revision = 1;
  primed_revision = 1;
  state = SenderState.running;
  error = "";
  stop_requested = false;
  sent_bytes = 100;
}

-- Late enough to shed the queued video.
abbrev late : List FlvTag
late = tag_at FlvTagType.video 5000 8 ∷ tag_at FlvTagType.audio 5010 0 ∷ []

late_accepted : (enqueue_epoch busy late busy.epoch []).1 ≡ ok tt
unfolding enqueue_epoch enqueue_admitted admit highest_ticket stamp enqueue_running
    thin_incoming_video shed_queued_video drop_video drop_loop drop_step thin_loop thin_step
    push_or_shed try_push push_sized added_bytes
late_accepted = refl

enqueue_epoch-held_ticket_example :
    held_ticket (enqueue_epoch busy late busy.epoch []).0 ≡ max (held_ticket busy) (max_ticket late)
enqueue_epoch-held_ticket_example = enqueue_epoch-held_ticket busy late [] refl late_accepted

invalidate_epoch_fences_example :
    ((((invalidate_epoch busy 5).0).queue).tags ≡ [])
    × (((invalidate_epoch busy 5).0).carried_ticket ≡ 0)
    × (begin_send (invalidate_epoch busy 5).0 (some 4) ≡ none)
    × (acknowledge_tag (invalidate_epoch busy 5).0 (tag_at FlvTagType.audio 0 6)
        ≡ (invalidate_epoch busy 5).0)
    × (enqueue_epoch (invalidate_epoch busy 5).0 late 4 [] ≡ ((invalidate_epoch busy 5).0, ok tt))
invalidate_epoch_fences_example =
    invalidate_epoch_fences busy 5 (tag_at FlvTagType.audio 0 6) late [] (omega arith) (omega arith)
