-- ===== src/Dispatcher/Fanout.antt =====
-- What the consumers get of a batch, and what a newer epoch keeps from them.
use obs_live_delay_plugin.Base.{◌≤◌, ◌≡◌, some, ◌<◌, arith, ok, [], refl, ltb}
use obs_live_delay_plugin.Dispatcher.{
  ReleasedPacketConsumer, ReleasedPacketBatch, dispatch_loop, dispatch, dispatch_discontinuity,
  List, ℕ, ReleasedPacketDispatcher, observe_epoch, Entry, PacketDiscontinuity, ConsumerFailure,
  failed,
}
use obs_live_delay_plugin.Base.{some, [], ◌∷◌, true, ok}

module _ {ℓ} {C : Type ℓ} (ops : ReleasedPacketConsumer C) where
  -- Every consumer takes the batch.
  abbrev pub all_consume : ReleasedPacketBatch → List (Entry C) → List (Entry C)
  all_consume batch [] = []
  all_consume batch ((id, consumer) ∷ entries) =
      (id, (ops.consume consumer batch).0) ∷ all_consume batch entries

  -- The failures of the consumers that throw.
  abbrev pub thrown_by : ReleasedPacketBatch → List (Entry C) → List ConsumerFailure
  thrown_by batch [] = []
  thrown_by batch ((id, consumer) ∷ entries) =
      failed id (ops.consume consumer batch).1 (thrown_by batch entries)

  dispatch_loop_fenced :
      (batch : ReleasedPacketBatch) (floors : ℕ → ℕ) (entries : List (Entry C)) (i : ℕ)
      → batch.epoch < floors i
      → dispatch_loop ops batch floors entries i ≡ (entries, [])
  unfolding dispatch_loop
  dispatch_loop_fenced batch floors [] i h = refl
  dispatch_loop_fenced batch floors ((id, consumer) ∷ entries) i h = rw stale refl
    where
      stale : ltb batch.epoch (floors i) ≡ true
      stale = ground arith

  observed :
      (d : ReleasedPacketDispatcher C) (event : PacketDiscontinuity)
      → event.epoch ≤ ((dispatch_discontinuity ops d event).0).publication_epoch
  unfolding dispatch_discontinuity observe_epoch
  observed d event = ground arith

  -- Once a discontinuity is dispatched, a batch of an older epoch reaches no consumer: its
  -- dispatch changes nothing and reports no failure, as long as the epoch is not lowered.
  pub dispatch_fenced :
      (d : ReleasedPacketDispatcher C) (event : PacketDiscontinuity) (batch : ReleasedPacketBatch)
      (floors : ℕ → ℕ)
      → batch.epoch < event.epoch
      → ((j : ℕ) → ((dispatch_discontinuity ops d event).0).publication_epoch ≤ floors j)
      → dispatch ops (dispatch_discontinuity ops d event).0 floors (some batch)
        ≡ ((dispatch_discontinuity ops d event).0, ok [])
  unfolding dispatch
  dispatch_fenced d event batch floors h raised =
      rw
        (dispatch_loop_fenced batch floors ((dispatch_discontinuity ops d event).0).consumers 0
          (let le = raised 0 in let seen = observed d event in omega arith))
        refl
