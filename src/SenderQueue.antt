-- ===== src/SenderQueue.antt =====
-- src/bounded-sender-queue.hpp and src/bounded-sender-queue.cpp: the queue between the packet
-- consumers and a sender's thread. Each function is what one call does under the queue's mutex.
pub mod Capacity
pub mod Fifo
pub mod Reachable
pub mod Tickets
mod Tests
use obs_live_delay_plugin.Flv.Tag.{FlvTag, is_video_tag, is_codec_header, wire_size}
use obs_live_delay_plugin.Base.{
  ◌>>◌, ◌>>=◌, ℕ, ◌*◌, List, Result, [], Option, Bool, some, ◌||◌, false, if◌then◌else◌, ◌∷◌, none,
  ltb, length, ◌&&◌, max, not, sub_size, true, ◌^◌, ◌-◌, ◌++◌, is_empty, ◌+◌, min, add_size,
  refuse_if, ◌==◌, ok,
}

pub record SenderQueueLimits : Type 0 where
  pub max_tags : ℕ
  pub max_bytes : ℕ

abbrev pub default_queue_limits : SenderQueueLimits
default_queue_limits = record { max_tags = 2048; max_bytes = 32 * 1024 * 1024 }

pub record BoundedSenderQueue : Type 0 where
  pub limits : SenderQueueLimits
  pub tags : List FlvTag
  pub bytes : ℕ
  pub closed : Bool

-- The constructor; its failure is `std::invalid_argument`.
unfoldable pub new_queue : SenderQueueLimits → Result BoundedSenderQueue
new_queue limits = do
  refuse_if ((limits.max_tags == 0) || (limits.max_bytes == 0))
      "Sender queue limits must be non-zero"
  ok (record { limits = limits; tags = []; bytes = 0; closed = false })

-- The size of a batch, and none where it does not fit `std::size_t`.
unfoldable pub added_bytes : ℕ → List FlvTag → Option ℕ
added_bytes added [] = some added
added_bytes added (tag ∷ tags) =
    if ltb (2 ^ 64 - 1 - added) (wire_size tag)
    then none
    else added_bytes (added + wire_size tag) tags

-- The test that refuses a batch of `count` tags and `added` bytes.
abbrev pub has_no_room : BoundedSenderQueue → ℕ → ℕ → Bool
has_no_room q count added =
    q.closed
    || ltb (q.limits.max_tags - min q.limits.max_tags (length q.tags)) count
    || ltb (q.limits.max_bytes - min q.limits.max_bytes q.bytes) added

-- `try_push` once the size is known. The batch that a refusal leaves with the caller is its own.
unfoldable pub push_sized : BoundedSenderQueue → List FlvTag → Option ℕ → BoundedSenderQueue × Bool
push_sized q tags none = (q, false)
push_sized q tags (some added) =
    if has_no_room q (length tags) added
    then (q, false)
    else (record q { tags = q.tags ++ tags; bytes = add_size q.bytes added }, true)

unfoldable pub try_push : BoundedSenderQueue → List FlvTag → BoundedSenderQueue × Bool
try_push q tags = push_sized q tags (added_bytes 0 tags)

-- The variables of the loop of `drop_video`.
pub record Dropping : Type 0 where
  pub kept : List FlvTag
  pub carried_ticket : ℕ
  pub left_bytes : ℕ
  pub dropped : ℕ

-- Media video, which `drop_video` removes; a codec header stays.
abbrev pub is_media_video : FlvTag → Bool
is_media_video tag = is_video_tag tag.type && not (is_codec_header tag)

-- A tag that is removed, and one that takes over the ticket carried to it.
abbrev pub drop_tag : Dropping → FlvTag → Dropping
drop_tag d tag = record d {
  carried_ticket = max d.carried_ticket tag.delivery_ticket;
  left_bytes = sub_size d.left_bytes (wire_size tag);
  dropped = d.dropped + 1;
}

abbrev pub with_carried : Dropping → FlvTag → FlvTag
with_carried d tag = record tag { delivery_ticket = max tag.delivery_ticket d.carried_ticket }

abbrev pub keep_tag : Dropping → FlvTag → Dropping
keep_tag d tag = record d { kept = d.kept ++ (with_carried d tag ∷ []); carried_ticket = 0 }

unfoldable pub drop_step : Dropping → FlvTag → Dropping
drop_step d tag = if is_media_video tag then drop_tag d tag else keep_tag d tag

unfoldable pub drop_loop : Dropping → List FlvTag → Dropping
drop_loop d [] = d
drop_loop d (tag ∷ tags) = drop_loop (drop_step d tag) tags

abbrev pub drop_start : BoundedSenderQueue → Dropping
drop_start q = record { kept = []; carried_ticket = 0; left_bytes = q.bytes; dropped = 0 }

-- The queue, the number of tags removed, and the ticket that no kept tag could carry.
unfoldable pub drop_video : BoundedSenderQueue → BoundedSenderQueue × (ℕ × ℕ)
drop_video q =
    let d = drop_loop (drop_start q) q.tags in
    (record q { tags = d.kept; bytes = d.left_bytes }, (d.dropped, d.carried_ticket))

abbrev pub front_timestamp_ms : BoundedSenderQueue → Option ℕ
front_timestamp_ms q = elim q.tags [ [] ↦ none | tag ∷ tags ↦ some tag.timestamp_ms ]

-- What ends the wait of `wait_pop`.
abbrev pub can_pop : BoundedSenderQueue → Bool
can_pop q = q.closed || not (is_empty q.tags)

abbrev pub pop_from : BoundedSenderQueue → List FlvTag → BoundedSenderQueue × Option FlvTag
pop_from q [] = (q, none)
pop_from q (tag ∷ tags) =
    (record q { tags = tags; bytes = sub_size q.bytes (wire_size tag) }, some tag)

-- `wait_pop` once it need not wait.
unfoldable pub wait_pop : BoundedSenderQueue → BoundedSenderQueue × Option FlvTag
wait_pop q = pop_from q q.tags

unfoldable pub close : BoundedSenderQueue → Bool → BoundedSenderQueue
close q discard =
    if discard
    then (record q { closed = true; tags = []; bytes = 0 })
    else (record q { closed = true })

unfoldable pub discard_pending : BoundedSenderQueue → BoundedSenderQueue
discard_pending q = record q { tags = []; bytes = 0 }

unfoldable pub reset : BoundedSenderQueue → BoundedSenderQueue
reset q = record q { tags = []; bytes = 0; closed = false }

-- The calls of a queue, in the order in which they take its mutex.
pub data Call : Type 0 where
  push : List FlvTag → Call
  drop pop discard_all start_again : Call
  finish : Bool → Call

unfoldable pub step : BoundedSenderQueue → Call → BoundedSenderQueue
step q (Call.push tags) = (try_push q tags).0
step q Call.drop = (drop_video q).0
step q Call.pop = (wait_pop q).0
step q (Call.finish discard) = close q discard
step q Call.discard_all = discard_pending q
step q Call.start_again = reset q

unfoldable pub run : BoundedSenderQueue → List Call → BoundedSenderQueue
run q [] = q
run q (call ∷ calls) = run (step q call) calls
