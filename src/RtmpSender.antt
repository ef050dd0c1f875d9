-- ===== src/RtmpSender.antt =====
-- src/rtmp-sender.hpp and src/rtmp-sender.cpp: what a sender does under its mutex. The worker's
-- transport is a parameter: what it does shows only in the arguments of the steps below.
pub mod Congestion
pub mod Fence
pub mod Worker
mod Tests
use obs_live_delay_plugin.Diagnostic.{diagnostic_error, DiagnosticCode}
use obs_live_delay_plugin.Flv.Tag.{FlvTag}
use obs_live_delay_plugin.Base.{
  zero, suc, some, none, [], ◌∷◌, true, false, ok, err, Bool, ℕ, List, if◌then◌else◌, add_size,
  Option, Result, String, ◌==◌, max, ◌++◌, ◌&&◌, not, is_empty, last_from, leb, ◌||◌, ltb, ◌-◌,
  is_empty_text, length,
}
use obs_live_delay_plugin.SenderQueue.{
  BoundedSenderQueue, reset, close, discard_pending, drop_video, try_push, front_timestamp_ms,
  is_media_video,
}

pub data SenderState : Type 0 where
  stopped starting running reconnecting stopping failed : SenderState

abbrev pub is_starting : SenderState → Bool
is_starting SenderState.starting = true
is_starting _ = false

abbrev pub is_running : SenderState → Bool
is_running SenderState.running = true
is_running _ = false

abbrev pub is_reconnecting : SenderState → Bool
is_reconnecting SenderState.reconnecting = true
is_reconnecting _ = false

abbrev pub is_stopped : SenderState → Bool
is_stopped SenderState.stopped = true
is_stopped _ = false

abbrev pub congestion_drop_ms : ℕ
congestion_drop_ms = 3000

pub record RtmpSender : Type 0 where
  pub queue : BoundedSenderQueue
  pub sequence_headers : List FlvTag
  pub epoch : ℕ
  pub acknowledged_epoch : ℕ
  pub published_epoch : ℕ
  pub delivered_epoch : ℕ
  pub delivery_ticket : ℕ
  pub enqueued_ticket : ℕ
  pub carried_ticket : ℕ
  pub drop_video_until_keyframe : Bool
  pub dropped_video_tags : ℕ
  pub writing : Bool
  pub transition_cancelled_transport : Bool
  pub resume_after_transition : Bool
  pub header_revision : ℕ
  pub primed_revision : ℕ
  pub state : SenderState
  pub error : String
  pub stop_requested : Bool
  pub sent_bytes : ℕ

-- The part of `start` under the mutex, once there is a connection.
unfoldable pub begin_session : RtmpSender → List FlvTag → RtmpSender
begin_session s headers = record {
  queue = reset s.queue;
  sequence_headers = headers;
  epoch = 0;
  acknowledged_epoch = 0;
  published_epoch = 0;
  delivered_epoch = 0;
  delivery_ticket = 0;
  enqueued_ticket = 0;
  carried_ticket = 0;
  drop_video_until_keyframe = false;
  dropped_video_tags = 0;
  writing = false;
  transition_cancelled_transport = false;
  resume_after_transition = false;
  header_revision = 0;
  primed_revision = 0;
  state = SenderState.starting;
  error = "";
  stop_requested = false;
  sent_bytes = 0;
}

-- `acknowledge_dropped_locked`.
unfoldable pub acknowledge_dropped : RtmpSender → RtmpSender
acknowledge_dropped s =
    let s' =
      if s.enqueued_ticket == 0
      then s
      else (record s { delivered_epoch = s.epoch; delivery_ticket = s.enqueued_ticket }) in
    record s' { carried_ticket = 0; drop_video_until_keyframe = false }

-- `reset_congestion_locked`.
unfoldable pub reset_congestion : RtmpSender → RtmpSender
reset_congestion s = record s {
  enqueued_ticket = 0;
  carried_ticket = 0;
  drop_video_until_keyframe = false;
}

-- `shed_queued_video_locked`.
unfoldable pub shed_queued_video : RtmpSender → RtmpSender
shed_queued_video s =
    let (q, (dropped, leftover)) = drop_video s.queue in
    record s {
      queue = q;
      dropped_video_tags = add_size s.dropped_video_tags dropped;
      carried_ticket = max s.carried_ticket leftover;
      drop_video_until_keyframe = true;
    }

-- The variables of the loop of `thin_incoming_video_locked`.
pub record Thinning : Type 0 where
  pub thinned : List FlvTag
  pub ticket : ℕ
  pub skips : Bool
  pub skipped : ℕ

abbrev pub skip_tag : Thinning → FlvTag → Thinning
skip_tag t tag = record t {
  ticket = max t.ticket tag.delivery_ticket;
  skipped = add_size t.skipped 1;
}

abbrev pub pass_tag : Thinning → FlvTag → Thinning
pass_tag t tag = record t {
  thinned = t.thinned ++ (record tag { delivery_ticket = max tag.delivery_ticket t.ticket } ∷ []);
  ticket = 0;
  skips = t.skips && not (is_media_video tag);
}

unfoldable pub thin_step : Thinning → FlvTag → Thinning
thin_step t tag =
    if t.skips && is_media_video tag && not tag.keyframe then skip_tag t tag else pass_tag t tag

unfoldable pub thin_loop : Thinning → List FlvTag → Thinning
thin_loop t [] = t
thin_loop t (tag ∷ tags) = thin_loop (thin_step t tag) tags

abbrev pub thin_start : RtmpSender → Thinning
thin_start s = record {
  thinned = [];
  ticket = s.carried_ticket;
  skips = s.drop_video_until_keyframe;
  skipped = s.dropped_video_tags;
}

abbrev pub thinned_by : RtmpSender → Thinning → RtmpSender × List FlvTag
thinned_by s t = (
  record s {
    carried_ticket = t.ticket;
    drop_video_until_keyframe = t.skips;
    dropped_video_tags = t.skipped;
  },
  t.thinned,
)

-- `thin_incoming_video_locked`: the sender, and what it leaves of the batch.
unfoldable pub thin_incoming_video : RtmpSender → List FlvTag → RtmpSender × List FlvTag
thin_incoming_video s tags =
    if not s.drop_video_until_keyframe && s.carried_ticket == 0
    then (s, tags)
    else thinned_by s (thin_loop (thin_start s) tags)

-- The batch with its epoch, and the highest ticket handed in so far.
unfoldable pub stamp : ℕ → List FlvTag → List FlvTag
stamp epoch [] = []
stamp epoch (tag ∷ tags) = record tag { epoch = epoch } ∷ stamp epoch tags

unfoldable pub highest_ticket : ℕ → List FlvTag → ℕ
highest_ticket ticket [] = ticket
highest_ticket ticket (tag ∷ tags) = highest_ticket (max ticket tag.delivery_ticket) tags

-- `enqueue_epoch` up to its state tests.
abbrev pub enter_epoch : RtmpSender → ℕ → RtmpSender
enter_epoch s epoch = if epoch == s.epoch then s else reset_congestion s

unfoldable pub admit : RtmpSender → List FlvTag → ℕ → List FlvTag → RtmpSender
admit s tags epoch headers =
    let s' = enter_epoch s epoch in
    record s' {
      epoch = epoch;
      sequence_headers = if is_empty headers then s'.sequence_headers else headers;
      header_revision =
          if is_empty headers then s'.header_revision else add_size s'.header_revision 1;
      enqueued_ticket = highest_ticket s'.enqueued_ticket tags;
    }

abbrev pub last_time : List FlvTag → Option ℕ
last_time [] = none
last_time (tag ∷ tags) = some (last_from tag tags).timestamp_ms

abbrev pub lags : Option ℕ → Option ℕ → Bool
lags none back = false
lags (some front) none = false
lags (some front) (some back) = leb front back && leb congestion_drop_ms (back - front)

-- The test that sheds queued video before it is needed.
abbrev pub is_congested : RtmpSender → List FlvTag → Bool
is_congested s tags =
    not s.drop_video_until_keyframe && lags (front_timestamp_ms s.queue) (last_time tags)

-- A call that may fail with an error text.
abbrev pub Enqueued : Type 0
Enqueued = RtmpSender × Result (Unit {0})

unfoldable pub push_thinned : RtmpSender × List FlvTag → Enqueued
push_thinned (s, tags) =
    let (q, pushed) = try_push s.queue tags in
    if pushed then (record s { queue = q }, ok tt) else (
      s,
      err (
          diagnostic_error DiagnosticCode.rtmp_sender_queue_full
            "RTMP sender queue reached its bounded capacity"),
    )

unfoldable pub push_or_shed : RtmpSender × List FlvTag → Enqueued
push_or_shed (s, tags) =
    let (q, pushed) = try_push s.queue tags in
    if pushed
    then (record s { queue = q }, ok tt)
    else push_thinned (thin_incoming_video (shed_queued_video s) tags)

unfoldable pub enqueue_running : RtmpSender → List FlvTag → Enqueued
enqueue_running s tags =
    push_or_shed (thin_incoming_video (if is_congested s tags then shed_queued_video s else s) tags)

abbrev pub resumes_transition : RtmpSender → Bool
resumes_transition s = is_reconnecting s.state && s.resume_after_transition

unfoldable pub enqueue_admitted : RtmpSender → List FlvTag → Enqueued
enqueue_admitted s tags =
    if (is_starting s.state || is_reconnecting s.state) && not (resumes_transition s)
    then (acknowledge_dropped s, ok tt)
    else if not (is_running s.state) && not (resumes_transition s)
    then (
      s,
      err (
          diagnostic_error DiagnosticCode.rtmp_sender_startup_failed
            (if is_empty_text s.error then "RTMP sender is not running" else s.error)),
    )
    else enqueue_running s tags

unfoldable pub enqueue_epoch : RtmpSender → List FlvTag → ℕ → List FlvTag → Enqueued
enqueue_epoch s tags epoch headers =
    if ltb epoch s.epoch
    then (s, ok tt)
    else enqueue_admitted (admit s tags epoch headers) (stamp epoch tags)

abbrev pub enqueue : RtmpSender → List FlvTag → Enqueued
enqueue s tags = enqueue_epoch s tags 0 []

-- The second result tells whether the transport is to be cut after the grace period.
unfoldable pub invalidate_epoch : RtmpSender → ℕ → RtmpSender × Bool
invalidate_epoch s epoch =
    if leb epoch s.epoch
    then (s, false)
    else (let s' = record (reset_congestion (record s { epoch = epoch })) {
      queue = discard_pending s.queue;
      sequence_headers = [];
      header_revision = add_size s.header_revision 1;
    } in
        if s.writing
        then (record s' { transition_cancelled_transport = true }, true)
        else (record s' { acknowledged_epoch = epoch }, false))

-- `request_stop`; the transport is interrupted after it.
unfoldable pub request_stop : RtmpSender → RtmpSender
request_stop s = record s {
  stop_requested = true;
  state = if is_stopped s.state then s.state else SenderState.stopping;
  queue = close s.queue true;
}

-- `keep_transport_locked`, whose second result tells whether the deadline is cleared.
unfoldable pub keep_transport : RtmpSender → RtmpSender × Bool
keep_transport s =
    if s.transition_cancelled_transport
    then (record s { transition_cancelled_transport = false }, true)
    else (s, false)

-- The first block of `send_bytes`, where none leaves the bytes out as if they were sent.
unfoldable pub begin_send : RtmpSender → Option ℕ → Option RtmpSender
begin_send s epoch =
    if s.stop_requested || elim epoch [ none ↦ false | some e ↦ not (e == s.epoch) ]
    then none
    else some (record s { writing = true })

-- The end of `send_bytes`, where the transport has or has not written `count` bytes.
unfoldable pub end_send : RtmpSender → Bool → ℕ → RtmpSender
end_send s sent count =
    let s' = record s { writing = false; acknowledged_epoch = s.epoch } in
    if sent then record (keep_transport s').0 { sent_bytes = add_size s.sent_bytes count } else s'

-- The end of `send_tag` for a tag that was sent.
unfoldable pub acknowledge_tag : RtmpSender → FlvTag → RtmpSender
acknowledge_tag s tag =
    if not (tag.delivery_ticket == 0) && tag.epoch == s.epoch && not s.stop_requested
    then record s { delivered_epoch = tag.epoch; delivery_ticket = tag.delivery_ticket }
    else s

unfoldable pub take_transport_cancellation : RtmpSender → RtmpSender × Bool
take_transport_cancellation s =
    (record s { transition_cancelled_transport = false }, s.transition_cancelled_transport)

unfoldable pub end_transition_resume : RtmpSender → Bool → RtmpSender
end_transition_resume s discard =
    let s' =
      if s.resume_after_transition && discard
      then acknowledge_dropped (record s { queue = discard_pending s.queue })
      else s in
    record s' { resume_after_transition = false }

-- The first block of `reconnect`.
unfoldable pub begin_reconnect : RtmpSender → RtmpSender
begin_reconnect s =
    let s' = record s {
      state = if s.stop_requested then s.state else SenderState.reconnecting;
      published_epoch = 0;
      delivered_epoch = 0;
      delivery_ticket = 0;
      resume_after_transition = s.transition_cancelled_transport;
    } in
    if s.transition_cancelled_transport
    then s'
    else acknowledge_dropped (record s' { queue = discard_pending s.queue })

-- The start of `run` once the connection is primed.
unfoldable pub mark_running : RtmpSender → RtmpSender
mark_running s = if s.stop_requested then s else record s { state = SenderState.running }

-- The headers that go before a tag, where the connection has not got the current ones.
unfoldable pub headers_for : ℕ → ℕ → List FlvTag → List FlvTag
headers_for epoch time [] = []
headers_for epoch time (header ∷ headers) =
    record header { epoch = epoch; timestamp_ms = time } ∷ headers_for epoch time headers

unfoldable pub select_headers : RtmpSender → FlvTag → List FlvTag
unfolding headers_for
select_headers s tag =
    if s.primed_revision == s.header_revision
    then []
    else headers_for tag.epoch tag.timestamp_ms s.sequence_headers

-- After they are sent: none where the epoch has changed meanwhile and the tag is passed over.
-- `revision` is the one that was read with the headers.
unfoldable pub mark_primed : RtmpSender → ℕ → FlvTag → Option RtmpSender
mark_primed s revision tag =
    if tag.epoch == s.epoch then some (record s { primed_revision = revision }) else none

-- The state that `fail` leaves, and whether the callback gets the error.
unfoldable pub fail : RtmpSender → String → RtmpSender × Bool
fail s error = (
  record s {
    error = error;
    state = if s.stop_requested then SenderState.stopping else SenderState.failed;
    queue = close s.queue true;
  },
  not s.stop_requested,
)

pub record SenderStatus : Type 0 where
  pub state : SenderState
  pub queued_tags : ℕ
  pub queued_bytes : ℕ
  pub sent_bytes : ℕ
  pub error : String
  pub acknowledged_epoch : ℕ
  pub published_epoch : ℕ
  pub delivered_epoch : ℕ
  pub delivery_ticket : ℕ
  pub dropped_video_tags : ℕ

-- `status`, less the count of reconnects.
unfoldable pub status : RtmpSender → SenderStatus
status s = record {
  state = s.state;
  queued_tags = length s.queue.tags;
  queued_bytes = s.queue.bytes;
  sent_bytes = s.sent_bytes;
  error = s.error;
  acknowledged_epoch = s.acknowledged_epoch;
  published_epoch = s.published_epoch;
  delivered_epoch = s.delivered_epoch;
  delivery_ticket = s.delivery_ticket;
  dropped_video_tags = s.dropped_video_tags;
}
