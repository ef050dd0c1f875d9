-- ===== src/NetworkConsumer.antt =====
-- src/network-packet-consumer.hpp and src/network-packet-consumer.cpp: a consumer that muxes released
-- packets for one sender. A failure is the exception that the dispatcher catches; what was changed
-- before it stays.
pub mod Fence
mod Tests
use obs_live_delay_plugin.Flv.Tag.{FlvTag, sequence_headers}
use obs_live_delay_plugin.Dispatcher.{ReleasedPacketBatch, PacketDiscontinuity}
use obs_live_delay_plugin.Base.{
  zero, suc, some, none, [], ◌∷◌, true, false, ok, err, Option, Result, ℕ, List, if◌then◌else◌,
  Bool, ltb, is_empty, leb, ◌||◌, not, ◌&&◌, ◌==◌, is_some,
}
use obs_live_delay_plugin.RtmpSender.{
  is_running, is_reconnecting, Enqueued, RtmpSender, enqueue_epoch, invalidate_epoch,
}
use obs_live_delay_plugin.Flv.Muxer.{set_headers, FlvMuxer, mux}

pub record NetworkPacketConsumer : Type 0 where
  pub muxer : Option FlvMuxer
  pub sender : RtmpSender
  pub epoch : ℕ
  pub needs_headers : Bool

-- A call that may throw.
abbrev pub Consumed : Type 0
Consumed = NetworkPacketConsumer × Result (Unit {0})

-- `tags.back().delivery_ticket = ticket`.
unfoldable pub with_ticket : ℕ → List FlvTag → List FlvTag
with_ticket ticket [] = []
with_ticket ticket (tag ∷ []) = record tag { delivery_ticket = ticket } ∷ []
with_ticket ticket (tag ∷ next ∷ tags) = tag ∷ with_ticket ticket (next ∷ tags)

-- The headers at the time of the first tag.
abbrev pub first_time : List FlvTag → ℕ
first_time [] = 0
first_time (tag ∷ tags) = tag.timestamp_ms

unfoldable pub at_time : ℕ → List FlvTag → List FlvTag
at_time time [] = []
at_time time (tag ∷ tags) = record tag { timestamp_ms = time } ∷ at_time time tags

abbrev pub after_enqueue : NetworkPacketConsumer → Enqueued → Consumed
after_enqueue c (s, r) = (record c { sender = s }, r)

-- The end of `consume`, with the tags of the batch.
abbrev pub hand_over :
    NetworkPacketConsumer → List FlvTag → ReleasedPacketBatch → Result (List FlvTag) → Consumed
hand_over c headers batch (err message) = (c, err message)
hand_over c headers batch (ok tags) = after_enqueue c (
    enqueue_epoch c.sender (with_ticket batch.delivery_ticket tags) batch.epoch
      (at_time (first_time tags) headers))

unfoldable pub mux_batch :
    NetworkPacketConsumer → FlvMuxer → List FlvTag → ReleasedPacketBatch → Consumed
mux_batch c m headers batch =
    let (m', r) = mux m batch.packets in hand_over (record c { muxer = some m' }) headers batch r

-- The headers of the batch, where it has any.
abbrev pub with_headers : NetworkPacketConsumer → ReleasedPacketBatch → Result FlvMuxer → Consumed
with_headers c batch (err message) = (c, err message)
with_headers c batch (ok m) =
    mux_batch (record c { muxer = some m; needs_headers = false }) m (sequence_headers m.headers)
      batch

unfoldable pub select_headers : NetworkPacketConsumer → FlvMuxer → ReleasedPacketBatch → Consumed
select_headers c m batch = elim batch.headers [
  | none ↦ mux_batch c m [] batch
  | some headers ↦ with_headers c batch (set_headers m headers)
]

-- `consume` with a muxer.
unfoldable pub consume_with : NetworkPacketConsumer → FlvMuxer → ReleasedPacketBatch → Consumed
consume_with c m batch =
    if ltb batch.epoch c.epoch
    then (c, ok tt)
    else if not (c.epoch == 0) && ltb c.epoch batch.epoch
    then (c, err "TRANSITION_EPOCH_NOT_COORDINATED")
    else if c.needs_headers && not (is_some batch.headers)
    then (record c { epoch = batch.epoch }, err "TRANSITION_CODEC_HEADERS_MISSING")
    else select_headers (record c { epoch = batch.epoch }) m batch

abbrev pub consume_started :
    NetworkPacketConsumer → Option FlvMuxer → ReleasedPacketBatch → Consumed
consume_started c none batch = (c, err "Network packet consumer is not started")
consume_started c (some m) batch = consume_with c m batch

-- A batch without packets is left out.
unfoldable pub consume : NetworkPacketConsumer → ReleasedPacketBatch → Consumed
consume c batch = if is_empty batch.packets then (c, ok tt) else consume_started c c.muxer batch

unfoldable pub discontinuity : NetworkPacketConsumer → PacketDiscontinuity → NetworkPacketConsumer
discontinuity c event = if leb event.epoch c.epoch then c else record c {
  epoch = event.epoch;
  needs_headers = true;
  sender = (invalidate_epoch c.sender event.epoch).0;
}

abbrev pub boundary_delivered : NetworkPacketConsumer → ℕ → Bool
boundary_delivered c epoch = leb epoch c.sender.published_epoch

abbrev pub delivered : NetworkPacketConsumer → ℕ → ℕ → Bool
delivered c epoch ticket =
    (is_running c.sender.state || is_reconnecting c.sender.state)
    && (c.sender.delivered_epoch == epoch)
    && leb ticket c.sender.delivery_ticket
