-- ===== src/MultiTarget/Tests.antt =====
-- Tests with consumers that are their own status, and throw on an epoch that they know.
use obs_live_delay_plugin.MultiTarget.Isolation.{served, serve_all-isolates}
use obs_live_delay_plugin.MultiTarget.Timeout.{ArePolls, GaveUp, poll_run, poll_run-GaveUp}
use obs_live_delay_plugin.Base.Int.{◌+ℤ◌, ℤ, pos}
use obs_live_delay_plugin.Base.{
  ◌∷◌, [], some, none, ℕ, Bool, ok, err, List, ◌≡◌, Option, ◌==◌, true, map, String, false,
  if◌then◌else◌, arith, inr, inl, refl,
}
use obs_live_delay_plugin.MultiTarget.{
  TargetConsumer, ConsumerStatus, Worker, serve_all, new_wait, PacketDiscontinuity,
}
use obs_live_delay_plugin.MultiTarget.StartIsolation.{
  enabled_of, start_isolates, started_secondaries, primary_worker,
}
use obs_live_delay_plugin.MultiTarget.Startup.{
  MultiTargetDestinationStatus, start, status, status_loop,
}
use obs_live_delay_plugin.Multistream.{
  MultistreamDestination, MultistreamConfiguration, DestinationPlatform, validate_configuration,
  contains, check_destinations, check_destination, valid_identifier, build_destination_identity,
}
use obs_live_delay_plugin.RtmpTarget.{
  RtmpTarget, build_rtmp_publish_url, eq_text, find_text, begins_with, trim_end, trim_front,
  percent_encode, is_unreserved,
}
use obs_live_delay_plugin.Diagnostic.{diagnostic_error}
use obs_live_delay_plugin.Flv.Tag.{FlvCodecHeaders}
use obs_live_delay_plugin.RtmpSender.{SenderState}

abbrev sender_at : SenderState → ℕ → ConsumerStatus
sender_at state epoch = record {
  sender = record {
    state = state;
    queued_tags = 0;
    queued_bytes = 0;
    sent_bytes = 0;
    error = "";
    acknowledged_epoch = epoch;
    published_epoch = epoch;
    delivered_epoch = epoch;
    delivery_ticket = 3;
    dropped_video_tags = 0;
  };
  reconnect_count = 0;
}

abbrev thrown_at : Bool → Option String
thrown_at known = if known then some "connection lost" else none

abbrev stubborn : TargetConsumer ConsumerStatus
stubborn = record {
  start = λ c target headers. (c, ok tt);
  consume = λ c batch. (c, thrown_at (batch.epoch == c.sender.acknowledged_epoch));
  discontinuity = λ c event. (c, thrown_at (event.epoch == c.sender.acknowledged_epoch));
  request_stop = λ c. sender_at SenderState.stopping 0;
  stop = λ c. sender_at SenderState.stopped 0;
  status = λ c. c;
  delivered = λ c epoch ticket. false;
  boundary_delivered = λ c epoch. false;
}

abbrev worker : Bool → ℕ → Worker ConsumerStatus
worker primary epoch = record {
  id = [];
  name = [];
  primary = primary;
  consumer = sender_at SenderState.running epoch;
  isolated_error = "";
  ticket_wait = new_wait;
  boundary_wait = new_wait;
}

abbrev event : PacketDiscontinuity
event = record { epoch = 6; reason = "cut" }

abbrev three_workers : List (Worker ConsumerStatus)
three_workers = worker true 5 ∷ worker false 6 ∷ worker false 5 ∷ []

-- The first secondary throws.
serve_all-isolates_example :
    serve_all stubborn (λ c. stubborn.discontinuity c event) "Stopped: " three_workers
    ≡ (map (served stubborn (λ c. stubborn.discontinuity c event) "Stopped: ") three_workers, none)
serve_all-isolates_example =
    serve_all-isolates stubborn (λ c. stubborn.discontinuity c event) "Stopped: " three_workers
      (inr refl, (inl refl, (inl refl, tt)))

abbrev five_polls : List ℤ
five_polls = pos 250_100 ∷ pos 500_100 ∷ pos 750_100 ∷ pos 1_000_100 ∷ []

five_polls-ArePolls : ArePolls stubborn 6 4 false (pos 100) five_polls (pos 1_000_100)
unfolding ◌+ℤ◌
five_polls-ArePolls = (
  omega arith,
  omega arith,
  (omega arith, omega arith, (omega arith, omega arith, (omega arith, omega arith, refl))),
)

poll_run-GaveUp_example :
    GaveUp stubborn 6 4 false
      (poll_run stubborn 6 4 false (worker false 6) true (pos 100 ∷ five_polls))
unfolding ◌+ℤ◌
poll_run-GaveUp_example =
    poll_run-GaveUp stubborn 6 4 false five_polls (pos 100) (pos 1_000_100) (worker false 6)
      five_polls-ArePolls (omega arith)
      (record { secondary = refl; not_failed = refl; not_resuming = refl; undelivered = refl }) refl
      tt

abbrev target_with : ℕ → RtmpTarget
target_with key = record {
  server_url = b'r' ∷ b't' ∷ b'm' ∷ b'p' ∷ b':' ∷ b'/' ∷ b'/' ∷ b'h' ∷ b'/' ∷ b'a' ∷ [];
  stream_key = key ∷ [];
  username = [];
  password = [];
}

abbrev destination : ℕ → Bool → MultistreamDestination
destination id enabled = record {
  id = id ∷ [];
  name = b'M' ∷ b'y' ∷ [];
  target = target_with id;
  platform = DestinationPlatform.kick;
  enabled = enabled;
}

abbrev two_destinations : MultistreamConfiguration
two_destinations = record {
  version = 2;
  secondary_destinations = destination b'x' false ∷ destination b'y' true ∷ [];
}

two_accepted : validate_configuration two_destinations (some (target_with b'p')) ≡ ok tt
unfolding validate_configuration check_destinations check_destination valid_identifier
    build_destination_identity contains build_rtmp_publish_url find_text begins_with eq_text
    trim_end trim_front percent_encode is_unreserved
two_accepted = refl

-- A consumer that refuses to start is the one made second.
abbrev refusing : TargetConsumer ConsumerStatus
refusing = record stubborn {
  start = λ c target headers.
      if c.sender.acknowledged_epoch == 1
      then (sender_at SenderState.failed 1, err "refused")
      else (sender_at SenderState.running c.sender.acknowledged_epoch, ok tt);
}

abbrev no_headers : FlvCodecHeaders
no_headers = record { avc_decoder_configuration = []; aac_audio_specific_config = [] }

abbrev fresh : ℕ → ConsumerStatus
fresh n = sender_at SenderState.stopped n

abbrev started : List (Worker ConsumerStatus)
started =
    primary_worker refusing [] (sender_at SenderState.running 0)
    ∷ started_secondaries refusing fresh no_headers 1
        (enabled_of two_destinations.secondary_destinations)

-- One secondary is switched off and the other refused, and the output runs.
start_runs :
    start refusing [] fresh (target_with b'p') [] two_destinations no_headers
    ≡ record { workers = started; stopped = []; result = ok tt }
start_runs =
    start_isolates refusing [] fresh (target_with b'p') [] two_destinations no_headers two_accepted

status_runs :
    ((status refusing started 0).aggregate_state ≡ SenderState.running)
    × (map
          (λ (d : MultiTargetDestinationStatus). d.sender.sender.state)
          (status refusing started 0).destinations
        ≡ SenderState.running ∷ SenderState.failed ∷ [])
unfolding status status_loop started_secondaries enabled_of diagnostic_error
status_runs = (refl, refl)

status_stopping : (status refusing started 1).aggregate_state ≡ SenderState.stopping
unfolding status status_loop started_secondaries enabled_of
status_stopping = refl
