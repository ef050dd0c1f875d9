-- ===== src/SenderQueue/Tests.antt =====
-- The sender queue on small inputs.
use obs_live_delay_plugin.Base.{◌≡◌, false, ok, arith, map, refl, length, ◌+◌, max}
use obs_live_delay_plugin.SenderQueue.Fifo.{delivered, Keeping, call_of, accepted, run_fifo}
use obs_live_delay_plugin.SenderQueue.Tickets.{
  media_of, CarriedUpTo, rest_of, drop_video_tickets, max_ticket, drop_video_keeps,
}
use obs_live_delay_plugin.SenderQueue.Reachable.{run-new_queue-IsValid}
use obs_live_delay_plugin.Flv.Tag.{FlvTagType}
use obs_live_delay_plugin.SenderQueue.{
  Call, run, step, SenderQueueLimits, FlvTag, BoundedSenderQueue, new_queue, try_push, ◌∷◌, List, ℕ,
  [], drop_video, push_sized, ◌++◌, added_bytes,
}
use obs_live_delay_plugin.SenderQueue.Capacity.{IsValid, Pushed, try_push_all_or_nothing}

abbrev tag_of : FlvTagType → ℕ → ℕ → FlvTag
tag_of type body ticket = record {
  type = type;
  timestamp_ms = 0;
  payload = 0x27 ∷ body ∷ [];
  keyframe = false;
  epoch = 1;
  audio_drain = false;
  delivery_ticket = ticket;
}

abbrev three_tags : SenderQueueLimits
three_tags = record { max_tags = 3; max_bytes = 60 }

-- A codec header, a video frame that ends a batch, and audio.
abbrev header : FlvTag
header = tag_of FlvTagType.video 0 0

abbrev frame : FlvTag
frame = tag_of FlvTagType.video 1 5

abbrev sound : FlvTag
sound = tag_of FlvTagType.audio 1 0

abbrev start : BoundedSenderQueue
start = record { limits = three_tags; tags = []; bytes = 0; closed = false }

start_made : new_queue three_tags ≡ ok start
unfolding new_queue
start_made = refl

abbrev waiting : BoundedSenderQueue
waiting = run start (Call.push (header ∷ frame ∷ sound ∷ []) ∷ [])

waiting-IsValid : IsValid waiting
waiting-IsValid =
    (run-new_queue-IsValid three_tags start (Call.push (header ∷ frame ∷ sound ∷ []) ∷ [])
      (omega arith) start_made).0

try_push_all_or_nothing_example : Pushed waiting (sound ∷ []) (try_push waiting (sound ∷ []))
try_push_all_or_nothing_example = try_push_all_or_nothing waiting (sound ∷ []) waiting-IsValid

drop_video_keeps_example :
    (media_of ((drop_video waiting).0).tags ≡ rest_of waiting.tags)
    × (length ((drop_video waiting).0).tags + ((drop_video waiting).1).0 ≡ length waiting.tags)
    × (max (max_ticket ((drop_video waiting).0).tags) ((drop_video waiting).1).1
        ≡ max_ticket waiting.tags)
drop_video_keeps_example = drop_video_keeps waiting

waiting_tags : waiting.tags ≡ (header ∷ frame ∷ []) ++ (sound ∷ [])
unfolding run step try_push push_sized added_bytes
waiting_tags = refl

drop_video_tickets_example : CarriedUpTo (header ∷ frame ∷ []) sound ((drop_video waiting).0).tags
drop_video_tickets_example =
    drop_video_tickets waiting (header ∷ frame ∷ []) sound [] waiting_tags refl

run-new_queue-IsValid_example :
    IsValid (run start (Call.push (frame ∷ sound ∷ []) ∷ Call.drop ∷ Call.pop ∷ []))
    × ((run start (Call.push (frame ∷ sound ∷ []) ∷ Call.drop ∷ Call.pop ∷ [])).limits ≡ three_tags)
run-new_queue-IsValid_example =
    run-new_queue-IsValid three_tags start
      (Call.push (frame ∷ sound ∷ []) ∷ Call.drop ∷ Call.pop ∷ []) (omega arith) start_made

abbrev traffic : List Keeping
traffic = Keeping.push (header ∷ frame ∷ []) ∷ Keeping.pop ∷ Keeping.push (sound ∷ []) ∷ []

run_fifo_example :
    delivered start traffic ++ (run start (map call_of traffic)).tags
    ≡ start.tags ++ accepted start traffic
run_fifo_example = run_fifo start traffic
