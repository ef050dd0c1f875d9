-- ===== src/MultiTarget/Startup.antt =====
-- src/multi-target-sender.cpp: `start`, whose threads are the calls of the consumers' `start`, one for
-- each worker, and `status`. A call of a consumer's `start` throws nothing; the consumer of the
-- n-th worker is `fresh n`.
use Prim.Native.String.{◌++◌ as join_text}
use obs_live_delay_plugin.Multistream.{
  MultistreamConfiguration, MultistreamDestination, validate_configuration,
}
use obs_live_delay_plugin.Multistream.Platforms.{safe_destination_label}
use obs_live_delay_plugin.Diagnostic.{diagnostic_error, DiagnosticCode}
use obs_live_delay_plugin.Flv.Tag.{FlvCodecHeaders}
use obs_live_delay_plugin.RtmpTarget.{RtmpTarget}
use obs_live_delay_plugin.RtmpSender.{SenderState}
use obs_live_delay_plugin.MultiTarget.{
  ConsumerStatus, TargetConsumer, Worker, new_wait, secondary_error, stop,
}
use obs_live_delay_plugin.Base.{
  ◌∷◌, [], some, none, ℕ, List, Bool, String, Option, true, not, if◌then◌else◌, map, Result, ok,
  err, false, ◌==◌, value_or, ◌+◌, is_empty, is_empty_text, ◌++◌, add_size, ◌||◌,
}

-- What `start` leaves: the workers, the consumers that it stopped, and what it returns.
pub record Startup {ℓ} (C : Type ℓ) : Type ℓ where
  pub workers : List (Worker C)
  pub stopped : List C
  pub result : Result (Unit {0})

-- What the calls of the consumers' `start` came to.
pub record StartResults {ℓ} (C : Type ℓ) : Type ℓ where
  pub workers : List (Worker C)
  pub primary_started : Bool
  pub error : Option String

pub record MultiTargetDestinationStatus : Type 0 where
  pub id : List ℕ
  pub name : List ℕ
  pub primary : Bool
  pub sender : ConsumerStatus

pub record MultiTargetStatus : Type 0 where
  pub destinations : List MultiTargetDestinationStatus
  pub aggregate_state : SenderState
  pub sent_bytes : ℕ

abbrev pub primary_message : String → String
primary_message message = diagnostic_error DiagnosticCode.multi_target_startup_failed (
    if is_empty_text message
    then "The primary RTMP destination did not start"
    else join_text "Primary RTMP destination did not start: " message)

abbrev pub secondary_message : String → String
secondary_message message = secondary_error (
    if is_empty_text message
    then "The secondary RTMP destination did not start"
    else join_text "Secondary RTMP destination did not start: " message)

abbrev pub primary_id : List ℕ
primary_id = b'p' ∷ b'r' ∷ b'i' ∷ b'm' ∷ b'a' ∷ b'r' ∷ b'y' ∷ []

-- "Primary OBS service".
abbrev pub primary_service : List ℕ
primary_service =
    b'P' ∷ b'r' ∷ b'i' ∷ b'm' ∷ b'a' ∷ b'r' ∷ b'y' ∷ 32 ∷ b'O' ∷ b'B' ∷ b'S' ∷ 32 ∷ b's' ∷ b'e'
    ∷ b'r' ∷ b'v' ∷ b'i' ∷ b'c' ∷ b'e' ∷ []

module _ {ℓ} {C : Type ℓ} (ops : TargetConsumer C) where
  abbrev pub new_worker : (id name : List ℕ) → Bool → C → Worker C
  new_worker id name primary consumer = record {
    id = id;
    name = name;
    primary = primary;
    consumer = consumer;
    isolated_error = "";
    ticket_wait = new_wait;
    boundary_wait = new_wait;
  }

  -- The loop over the secondary destinations, at the n-th worker.
  unfoldable pub pending_secondaries :
      (ℕ → C) → ℕ → List MultistreamDestination → List (Worker C × RtmpTarget)
  pending_secondaries fresh n [] = []
  pending_secondaries fresh n (d ∷ ds) =
      if d.enabled
      then (new_worker d.id (safe_destination_label d) false (fresh n), d.target)
        ∷ pending_secondaries fresh (n + 1) ds
      else pending_secondaries fresh n ds

  -- One pass of the loop over the results, in front of those behind it.
  abbrev pub collect : Worker C → C × Result (Unit {0}) → StartResults C → StartResults C
  collect w (c, ok _) later = record later {
    workers = record w { consumer = c } ∷ later.workers;
    primary_started = w.primary || later.primary_started;
  }
  collect w (c, err message) later =
      if w.primary
      then record later {
        workers = record w { consumer = c } ∷ later.workers;
        error = some (value_or later.error (primary_message message));
      }
      else record later {
        workers =
            record w { consumer = c; isolated_error = secondary_message message } ∷ later.workers;
      }

  unfoldable pub start_all : FlvCodecHeaders → List (Worker C × RtmpTarget) → StartResults C
  start_all headers [] = record { workers = []; primary_started = false; error = none }
  start_all headers ((w, target) ∷ pending) =
      collect w (ops.start w.consumer target headers) (start_all headers pending)

  abbrev stop_consumer : Worker C → C
  stop_consumer w = ops.stop (ops.request_stop w.consumer)

  -- The end of `start`; `stopped` are the consumers of the workers before.
  abbrev pub finish_start : List C → StartResults C → Startup C
  finish_start stopped results =
      if results.primary_started
      then record { workers = results.workers; stopped = stopped; result = ok tt }
      else record {
        workers = [];
        stopped = stopped ++ map stop_consumer results.workers;
        result = err (value_or results.error "");
      }

  -- The results count only for a valid configuration.
  abbrev pub start_checked : List C → StartResults C → Result (Unit {0}) → Startup C
  start_checked stopped results (err message) = record {
    workers = [];
    stopped = stopped;
    result = err message;
  }
  start_checked stopped results (ok _) = finish_start stopped results

  unfoldable pub start :
      List (Worker C)
      → (ℕ → C)
      → RtmpTarget
      → List ℕ
      → MultistreamConfiguration
      → FlvCodecHeaders
      → Startup C
  start old fresh target name configuration headers =
      let stopped = (stop ops old).1 in
      let service = if is_empty name then primary_service else name in
      let first = new_worker primary_id service true (fresh 0) in
      let others = pending_secondaries fresh 1 configuration.secondary_destinations in
      start_checked stopped (start_all headers ((first, target) ∷ others))
        (validate_configuration configuration (some target))

  -- The status that `status` reports for a worker.
  abbrev pub reported : Worker C → ConsumerStatus
  reported w =
      let s = ops.status w.consumer in
      if is_empty_text w.isolated_error then s else record s {
        sender = record (s.sender) { state = SenderState.failed; error = w.isolated_error };
      }

  -- The loop of `status`, with `primary_state` and the bytes counted so far.
  unfoldable pub status_loop :
      List (Worker C) → SenderState → ℕ → List MultiTargetDestinationStatus × SenderState × ℕ
  status_loop [] primary_state sent = ([], primary_state, sent)
  status_loop (w ∷ ws) primary_state sent =
      let sender = reported w in
      let state = if w.primary then sender.sender.state else primary_state in
      let (rest, last, total) = status_loop ws state (add_size sent sender.sender.sent_bytes) in
      (
        record { id = w.id; name = w.name; primary = w.primary; sender = sender } ∷ rest,
        last,
        total,
      )

  unfoldable pub status : List (Worker C) → (stops_in_progress : ℕ) → MultiTargetStatus
  status ws stops_in_progress =
      let (destinations, primary_state, sent) = status_loop ws SenderState.stopped 0 in
      record {
        destinations = destinations;
        aggregate_state =
            if not (stops_in_progress == 0) then SenderState.stopping else primary_state;
        sent_bytes = sent;
      }
