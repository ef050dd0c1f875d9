-- ===== src/NetworkConsumer/Fence.antt =====
-- What reaches the sender after a discontinuity.
use obs_live_delay_plugin.Base.{
  some, none, true, Option, ◌<◌, ◌≡◌, arith, ◌⊎◌, ◌≢◌, refl, if_cases, is_empty, subst, ℕ, sym,
}
use obs_live_delay_plugin.NetworkConsumer.{
  consume, discontinuity, NetworkPacketConsumer, consume_with, PacketDiscontinuity, FlvMuxer,
  ReleasedPacketBatch, consume_started, Consumed,
}

discontinuity_state :
    (c : NetworkPacketConsumer) (event : PacketDiscontinuity)
    → c.epoch < event.epoch
    → ((discontinuity c event).epoch ≡ event.epoch) × ((discontinuity c event).needs_headers ≡ true)
unfolding discontinuity
discontinuity_state c event h = ground arith

refused_with :
    (c : NetworkPacketConsumer) (m : FlvMuxer) (batch : ReleasedPacketBatch)
    → 0 < c.epoch
    → c.needs_headers ≡ true
    → (batch.headers ≡ none) ⊎ (batch.epoch ≢ c.epoch)
    → (consume_with c m batch).0 ≡ c
unfolding consume_with
refused_with c m batch positive needs h = ground (arith, eta c batch)
  where
    eta :
        (c : NetworkPacketConsumer) (batch : ReleasedPacketBatch)
        → batch.epoch ≡ c.epoch
        → record c { epoch = batch.epoch } ≡ c
    eta c batch e = rw e refl

refused :
    (c : NetworkPacketConsumer) (muxer : Option FlvMuxer) (batch : ReleasedPacketBatch)
    → 0 < c.epoch
    → c.needs_headers ≡ true
    → (batch.headers ≡ none) ⊎ (batch.epoch ≢ c.epoch)
    → (consume_started c muxer batch).0 ≡ c
refused c none batch positive needs h = refl
refused c (some m) batch positive needs h = refused_with c m batch positive needs h

-- After a discontinuity of a newer epoch, a batch that is not of exactly that epoch, or that brings
-- no codec headers, changes nothing in the consumer, its muxer or its sender.
pub discontinuity_fences :
    (c : NetworkPacketConsumer) (event : PacketDiscontinuity) (batch : ReleasedPacketBatch)
    → c.epoch < event.epoch
    → (batch.headers ≡ none) ⊎ (batch.epoch ≢ event.epoch)
    → (consume (discontinuity c event) batch).0 ≡ discontinuity c event
unfolding consume
discontinuity_fences c event batch newer h =
    let d = discontinuity c event in
    let (at, needs) = discontinuity_state c event newer in
    if_cases (λ (r : Consumed). r.0 ≡ d) (is_empty batch.packets) (λ e. refl)
      (λ e.
        refused d d.muxer batch (omega (arith, at)) needs
          (subst (λ (n : ℕ). (batch.headers ≡ none) ⊎ (batch.epoch ≢ n)) (sym at) h))
