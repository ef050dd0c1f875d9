-- ===== src/MultiTarget.antt =====
-- src/multi-target-sender.hpp and src/multi-target-sender.cpp: one primary destination and its
-- secondaries. Each function is what one call does from its snapshot of the workers to its end, with
-- no call of another thread in between. A consumer is the state of a `NetworkPacketConsumer`, and
-- what it does is an interface; the steady clock, in microseconds, is an argument.
pub mod Isolation
pub mod Waits
pub mod Timeout
pub mod Startup
pub mod StartIsolation
mod Tests
use Prim.Native.String.{◌++◌ as join_text}
use obs_live_delay_plugin.Diagnostic.{diagnostic_error, DiagnosticCode}
use obs_live_delay_plugin.Flv.Tag.{FlvCodecHeaders}
use obs_live_delay_plugin.Base.Int.{ℤ, pos, ◌-ℤ◌, ltb_ℤ}
use obs_live_delay_plugin.RtmpTarget.{RtmpTarget}
use obs_live_delay_plugin.RtmpSender.{SenderState, SenderStatus}
use obs_live_delay_plugin.Multistream.{
  MultistreamConfiguration, MultistreamDestination, validate_configuration,
}
use obs_live_delay_plugin.Multistream.Platforms.{safe_destination_label}
use obs_live_delay_plugin.Dispatcher.{ReleasedPacketBatch, PacketDiscontinuity}
use obs_live_delay_plugin.Base.{
  ◌∷◌, [], some, none, ℕ, List, Bool, String, Option, true, not, if◌then◌else◌, map, ◌||◌, Result,
  false, ◌&&◌, ◌++◌, ◌==◌, is_some, value_or, ◌+◌, is_empty, is_empty_text,
}

-- What a consumer reports: the status of its sender and how often that reconnected.
pub record ConsumerStatus : Type 0 where
  pub sender : SenderStatus
  pub reconnect_count : ℕ

-- The calls of `NetworkPacketConsumer`; a message is that of the exception a call threw.
pub record TargetConsumer {ℓ} (C : Type ℓ) : Type ℓ where
  pub start : C → RtmpTarget → FlvCodecHeaders → C × Result (Unit {0})
  pub consume : C → ReleasedPacketBatch → C × Option String
  pub discontinuity : C → PacketDiscontinuity → C × Option String
  pub request_stop : C → C
  pub stop : C → C
  pub status : C → ConsumerStatus
  pub delivered : C → ℕ → ℕ → Bool
  pub boundary_delivered : C → ℕ → Bool

pub record DeliveryWait : Type 0 where
  pub epoch : ℕ
  pub progress : ℕ
  pub since : Option ℤ
  pub polled : ℤ

abbrev pub new_wait : DeliveryWait
new_wait = record { epoch = 0; progress = 0; since = none; polled = pos 0 }

pub record Worker {ℓ} (C : Type ℓ) : Type ℓ where
  pub id : List ℕ
  pub name : List ℕ
  pub primary : Bool
  pub consumer : C
  pub isolated_error : String
  pub ticket_wait : DeliveryWait
  pub boundary_wait : DeliveryWait

abbrev pub is_running : SenderState → Bool
is_running SenderState.running = true
is_running _ = false

abbrev pub is_reconnecting : SenderState → Bool
is_reconnecting SenderState.reconnecting = true
is_reconnecting _ = false

abbrev pub has_failed : SenderState → Bool
has_failed SenderState.failed = true
has_failed _ = false

abbrev pub secondary_error : String → String
secondary_error message = diagnostic_error DiagnosticCode.secondary_target_failed message

module _ {ℓ} {C : Type ℓ} (ops : TargetConsumer C) where
  -- A secondary that failed takes nothing more.
  abbrev pub is_isolated : Worker C → Bool
  is_isolated w = not w.primary && not (is_empty_text w.isolated_error)

  -- A worker behind a call of its consumer, and the exception that is thrown on.
  abbrev pub after_call : String → Worker C → C × Option String → Worker C × Option String
  after_call prefix w (c, none) = (record w { consumer = c }, none)
  after_call prefix w (c, some message) =
      if w.primary then (record w { consumer = c }, some message) else (
        record w {
          consumer = ops.request_stop c;
          isolated_error = secondary_error (join_text prefix message);
        },
        none,
      )

  unfoldable pub serve : (C → C × Option String) → String → Worker C → Worker C × Option String
  serve call prefix w = if is_isolated w then (w, none) else after_call prefix w (call w.consumer)

  -- The loops of `consume` and of `discontinuity`.
  unfoldable pub serve_all :
      (C → C × Option String) → String → List (Worker C) → List (Worker C) × Option String
  serve_all call prefix [] = ([], none)
  serve_all call prefix (w ∷ ws) =
      let (w', thrown) = serve call prefix w in
      let (rest, later) = serve_all call prefix ws in
      elim thrown [ some message ↦ (w' ∷ ws, some message) | none ↦ (w' ∷ rest, later) ]

  unfoldable pub consume : List (Worker C) → ReleasedPacketBatch → List (Worker C) × Option String
  consume ws batch = serve_all (λ c. ops.consume c batch) "Secondary delivery stopped: " ws

  unfoldable pub discontinuity :
      List (Worker C) → PacketDiscontinuity → List (Worker C) × Option String
  discontinuity ws event =
      serve_all (λ c. ops.discontinuity c event) "Secondary discontinuity handling failed: " ws

  -- `stop`: the workers left, and the consumers that were stopped.
  unfoldable pub stop : List (Worker C) → List (Worker C) × List C
  stop ws = ([], map (λ (w : Worker C). ops.stop (ops.request_stop w.consumer)) ws)

  -- A secondary that drops its media until it resumes.
  abbrev pub is_resuming : ConsumerStatus → Bool
  is_resuming s =
      is_reconnecting s.sender.state
      || (is_running s.sender.state
          && (not (s.reconnect_count == 0) && (s.sender.published_epoch == 0)))

  abbrev pub progress_of : ConsumerStatus → Bool → ℕ → ℕ
  progress_of s boundary epoch =
      if boundary
      then s.sender.published_epoch
      else if s.sender.delivered_epoch == epoch
      then s.sender.delivery_ticket
      else 0

  abbrev pub wait_of : Worker C → Bool → DeliveryWait
  wait_of w boundary = if boundary then w.boundary_wait else w.ticket_wait

  abbrev pub set_wait : Worker C → Bool → DeliveryWait → Worker C
  set_wait w boundary wait =
      if boundary then record w { boundary_wait = wait } else record w { ticket_wait = wait }

  abbrev pub is_delivered : Worker C → ℕ → ℕ → Bool → Bool
  is_delivered w epoch ticket boundary =
      if boundary
      then ops.boundary_delivered w.consumer epoch
      else ops.delivered w.consumer epoch ticket

  -- The wait at `now`: another query, progress or a pause starts it again.
  abbrev pub restarts : DeliveryWait → (epoch progress : ℕ) → ℤ → Bool
  restarts wait epoch progress now =
      not (is_some wait.since)
      || (not (wait.epoch == epoch)
          || (not (wait.progress == progress) || ltb_ℤ (pos 250_000) (now -ℤ wait.polled)))

  unfoldable pub polled_wait : DeliveryWait → (epoch progress : ℕ) → ℤ → DeliveryWait
  polled_wait wait epoch progress now =
      if restarts wait epoch progress now
      then record { epoch = epoch; progress = progress; since = some now; polled = now }
      else record wait { polled = now }

  -- How long a secondary has waited.
  abbrev pub waited : DeliveryWait → ℤ → ℤ
  waited wait now = now -ℤ value_or wait.since now

  abbrev pub after_poll : Worker C → Bool → DeliveryWait → ℤ → Worker C × Bool
  after_poll w boundary wait now =
      if ltb_ℤ (waited wait now) (pos 1_000_000) then (set_wait w boundary wait, false) else (
        record (set_wait w boundary wait) {
          isolated_error = "TRANSITION_SECONDARY_TIMEOUT: boundary delivery stalled";
          consumer = ops.request_stop w.consumer;
        },
        true,
      )

  -- One pass of the loop of `delivery_ready`: the worker, and whether it is ready.
  unfoldable pub poll : (epoch ticket : ℕ) (boundary : Bool) → ℤ → Worker C → Worker C × Bool
  poll epoch ticket boundary now w =
      let s = ops.status w.consumer in
      if not w.primary && (not (is_empty_text w.isolated_error) || has_failed s.sender.state)
      then (w, true)
      else if not w.primary && is_resuming s
      then (set_wait w boundary (record (wait_of w boundary) { since = none }), true)
      else if is_delivered w epoch ticket boundary
      then (w, true)
      else if w.primary
      then (w, false)
      else after_poll w boundary
          (polled_wait (wait_of w boundary) epoch (progress_of s boundary epoch) now) now

  unfoldable pub poll_all :
      (epoch ticket : ℕ) (boundary : Bool) → (ℕ → ℤ) → List (Worker C) → ℕ → List (Worker C) × Bool
  poll_all epoch ticket boundary clock [] i = ([], true)
  poll_all epoch ticket boundary clock (w ∷ ws) i =
      let (w', ready) = poll epoch ticket boundary (clock i) w in
      let (rest, others) = poll_all epoch ticket boundary clock ws (i + 1) in
      (w' ∷ rest, ready && others)

  unfoldable pub delivery_ready :
      List (Worker C) → (ℕ → ℤ) → (epoch ticket : ℕ) (boundary : Bool) → List (Worker C) × Bool
  delivery_ready ws clock epoch ticket boundary =
      if is_empty ws then (ws, false) else poll_all epoch ticket boundary clock ws 0
