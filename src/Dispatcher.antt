-- ===== src/Dispatcher.antt =====
-- src/released-packet-dispatcher.hpp and src/released-packet-dispatcher.cpp: the fan-out of
-- released packets to consumers, and the publication epoch that fences it. A consumer is the state
-- of an object of another part: what it does with a batch or an event is a parameter.
pub mod Epoch
pub mod Fanout
mod Tests
use obs_live_delay_plugin.Flv.Tag.{FlvCodecHeaders}
use obs_live_delay_plugin.Packet.{EncodedPacket}
use obs_live_delay_plugin.Base.{
  ℕ, Option, List, [], String, ◌^◌, if◌then◌else◌, Result, none, Bool, map, ◌-◌, ltb, max, ◌==◌,
  err, some, true, ◌+◌, ◌++◌, ◌∷◌, ◌&&◌, ok, add_size, false,
}

pub record ReleasedPacketBatch : Type 0 where
  pub epoch : ℕ
  pub packets : List EncodedPacket
  pub headers : Option FlvCodecHeaders
  pub delivery_ticket : ℕ

pub record PacketDiscontinuity : Type 0 where
  pub epoch : ℕ
  pub reason : String

pub record ConsumerFailure : Type 0 where
  pub consumer_id : ℕ
  pub error : String

-- `ReleasedPacketConsumer`: a call gives the consumer's next state, and the message of the
-- exception it threw, if it threw one.
pub record ReleasedPacketConsumer {ℓ} (C : Type ℓ) : Type ℓ where
  pub consume : C → ReleasedPacketBatch → C × Option String
  pub discontinuity : C → PacketDiscontinuity → C × Option String
  pub stop : C → C
  pub delivered : C → ℕ → ℕ → Bool

abbrev pub uint64_max : ℕ
uint64_max = 2 ^ 64 - 1

-- `ConsumerEntry`.
abbrev pub Entry {ℓ} : Type ℓ → Type ℓ
Entry C = ℕ × C

pub record ReleasedPacketDispatcher {ℓ} (C : Type ℓ) : Type ℓ where
  pub consumers : List (Entry C)
  pub next_consumer_id : ℕ
  pub publication_epoch : ℕ

-- A call that threw adds its failure.
abbrev pub failed : ℕ → Option String → List ConsumerFailure → List ConsumerFailure
failed id none rest = rest
failed id (some message) rest = record { consumer_id = id; error = message } ∷ rest

module _ {ℓ} {C : Type ℓ} where
  abbrev pub new_dispatcher : ReleasedPacketDispatcher C
  new_dispatcher = record { consumers = []; next_consumer_id = 1; publication_epoch = 0 }

  -- One pass of the loop of `observe_epoch` that wins its exchange, or that need not make it.
  unfoldable pub observe_epoch : ReleasedPacketDispatcher C → ℕ → ReleasedPacketDispatcher C
  observe_epoch d epoch =
      if ltb d.publication_epoch epoch then record d { publication_epoch = epoch } else d

  -- `reserve_epoch`; the failure is its `std::runtime_error`.
  unfoldable pub reserve_epoch :
      ReleasedPacketDispatcher C → ℕ → ReleasedPacketDispatcher C × Result ℕ
  reserve_epoch d after =
      let base = max d.publication_epoch after in
      if base == uint64_max
      then (d, err "TRANSITION_EPOCH_OVERFLOW")
      else (record d { publication_epoch = base + 1 }, ok (base + 1))

  unfoldable pub advance_epoch :
      ReleasedPacketDispatcher C → ℕ → ReleasedPacketDispatcher C × Result Bool
  advance_epoch d expected =
      if expected == uint64_max
      then (d, err "TRANSITION_EPOCH_OVERFLOW")
      else if d.publication_epoch == expected
      then (record d { publication_epoch = expected + 1 }, ok true)
      else (d, ok false)

  -- A null consumer is refused with `std::invalid_argument`.
  unfoldable pub add_consumer :
      ReleasedPacketDispatcher C → Option C → ReleasedPacketDispatcher C × Result ℕ
  add_consumer d none = (d, err "Released packet consumer is null")
  add_consumer d (some consumer) = (
    record d {
      consumers = d.consumers ++ ((d.next_consumer_id, consumer) ∷ []);
      next_consumer_id = add_size d.next_consumer_id 1;
    },
    ok d.next_consumer_id,
  )

  -- The search and the erasure of `remove_consumer`: the entries left and the consumer removed.
  unfoldable pub take_out : ℕ → List (Entry C) → List (Entry C) × Option C
  take_out id [] = ([], none)
  take_out id ((i, consumer) ∷ entries) =
      let (left, found) = take_out id entries in
      if i == id then (entries, some consumer) else ((i, consumer) ∷ left, found)

  -- The consumer that is removed is stopped outside the lock, so it is a result.
  unfoldable pub remove_consumer :
      ReleasedPacketConsumer C
      → ReleasedPacketDispatcher C
      → ℕ
      → ReleasedPacketDispatcher C × Option C
  remove_consumer ops d id =
      let (left, found) = take_out id d.consumers in
      (
        record d { consumers = left },
        elim found [ none ↦ none | some consumer ↦ some (ops.stop consumer) ],
      )

  -- The loop of `dispatch` from the consumer at `i` on: `floors i` is what `publication_epoch_`
  -- reads before that consumer, which other threads may have raised. With the states of the
  -- consumers it gives the failures.
  unfoldable pub dispatch_loop :
      ReleasedPacketConsumer C
      → ReleasedPacketBatch
      → (ℕ → ℕ)
      → List (Entry C)
      → ℕ
      → List (Entry C) × List ConsumerFailure
  dispatch_loop ops batch floors [] i = ([], [])
  dispatch_loop ops batch floors ((id, consumer) ∷ entries) i =
      let (consumer', thrown) = ops.consume consumer batch in
      let (rest, failures) = dispatch_loop ops batch floors entries (i + 1) in
      if ltb batch.epoch (floors i)
      then ((id, consumer) ∷ entries, [])
      else ((id, consumer') ∷ rest, failed id thrown failures)

  -- A null batch is refused with `std::invalid_argument`.
  unfoldable pub dispatch :
      ReleasedPacketConsumer C
      → ReleasedPacketDispatcher C
      → (ℕ → ℕ)
      → Option ReleasedPacketBatch
      → ReleasedPacketDispatcher C × Result (List ConsumerFailure)
  dispatch ops d floors none = (d, err "Released packet batch is null")
  dispatch ops d floors (some batch) =
      let (entries, failures) = dispatch_loop ops batch floors d.consumers 0 in
      (record d { consumers = entries }, ok failures)

  unfoldable pub notify_loop :
      ReleasedPacketConsumer C
      → PacketDiscontinuity
      → List (Entry C)
      → List (Entry C) × List ConsumerFailure
  notify_loop ops event [] = ([], [])
  notify_loop ops event ((id, consumer) ∷ entries) =
      let (consumer', thrown) = ops.discontinuity consumer event in
      let (rest, failures) = notify_loop ops event entries in
      ((id, consumer') ∷ rest, failed id thrown failures)

  unfoldable pub dispatch_discontinuity :
      ReleasedPacketConsumer C
      → ReleasedPacketDispatcher C
      → PacketDiscontinuity
      → ReleasedPacketDispatcher C × List ConsumerFailure
  dispatch_discontinuity ops d event =
      let d' = observe_epoch d event.epoch in
      let (entries, failures) = notify_loop ops event d'.consumers in
      (record d' { consumers = entries }, failures)

  unfoldable pub all_delivered : ReleasedPacketConsumer C → ℕ → ℕ → List (Entry C) → Bool
  all_delivered ops epoch ticket [] = true
  all_delivered ops epoch ticket ((id, consumer) ∷ entries) =
      ops.delivered consumer epoch ticket && all_delivered ops epoch ticket entries

  unfoldable pub delivered : ReleasedPacketConsumer C → ReleasedPacketDispatcher C → ℕ → ℕ → Bool
  delivered ops d epoch ticket =
      (epoch == d.publication_epoch) && all_delivered ops epoch ticket d.consumers

  -- The consumers are stopped outside the lock, so they are a result.
  unfoldable pub stop_all :
      ReleasedPacketConsumer C → ReleasedPacketDispatcher C → ReleasedPacketDispatcher C × List C
  stop_all ops d = (record d { consumers = [] }, map (λ (e : Entry C). ops.stop e.1) d.consumers)
