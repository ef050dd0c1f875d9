-- ===== src/MultiTarget/StartIsolation.antt =====
-- src/multi-target-sender.cpp: what `start` leaves, from the starts of its consumers.
use obs_live_delay_plugin.MultiTarget.Startup.{
  Startup, StartResults, new_worker, pending_secondaries, collect, start_all, finish_start,
  start_checked, start, primary_id, primary_service, primary_message, secondary_message,
}
use obs_live_delay_plugin.Multistream.{
  MultistreamConfiguration, MultistreamDestination, validate_configuration,
}
use obs_live_delay_plugin.Multistream.Platforms.{safe_destination_label}
use obs_live_delay_plugin.Flv.Tag.{FlvCodecHeaders}
use obs_live_delay_plugin.RtmpTarget.{RtmpTarget}
use obs_live_delay_plugin.MultiTarget.{TargetConsumer, Worker, stop, new_wait}
use obs_live_delay_plugin.Base.{
  ◌∷◌, [], some, none, ℕ, List, true, if◌then◌else◌, map, Result, ok, err, false, ◌+◌, is_empty,
  ◌≡◌, refl, ◌++◌, ap, ◌∙◌, Bool, String,
}

-- The destinations that are switched on, in their order.
unfoldable pub enabled_of : List MultistreamDestination → List MultistreamDestination
enabled_of [] = []
enabled_of (d ∷ ds) = if d.enabled then d ∷ enabled_of ds else enabled_of ds

-- Two choices by one test.
both_branches {ℓ κ} :
    {A R : Type ℓ} {B : Type κ} (f : A → R) (g : B → R) (test : Bool) {x x' : A} {y y' : B}
    → f x ≡ g y
    → f x' ≡ g y'
    → f (if test then x else x') ≡ g (if test then y else y')
both_branches f g true e e' = e
both_branches f g false e e' = e'

module _ {ℓ} {C : Type ℓ} (ops : TargetConsumer C) where
  -- A worker for a destination, whose consumer has answered its `start`.
  abbrev pub fresh_worker : (id name : List ℕ) → Bool → C → String → Worker C
  fresh_worker id name primary consumer isolated = record {
    id = id;
    name = name;
    primary = primary;
    consumer = consumer;
    isolated_error = isolated;
    ticket_wait = new_wait;
    boundary_wait = new_wait;
  }

  -- A secondary: where its consumer refused to start, it is isolated.
  abbrev pub secondary_of : MultistreamDestination → C × Result (Unit {0}) → Worker C
  secondary_of d (c, ok _) = fresh_worker d.id (safe_destination_label d) false c ""
  secondary_of d (c, err message) =
      fresh_worker d.id (safe_destination_label d) false c (secondary_message message)

  -- The secondaries for destinations, each started on its own with the next consumer.
  unfoldable pub started_secondaries :
      (ℕ → C) → FlvCodecHeaders → ℕ → List MultistreamDestination → List (Worker C)
  started_secondaries fresh headers n [] = []
  started_secondaries fresh headers n (d ∷ ds) =
      secondary_of d (ops.start (fresh n) d.target headers)
      ∷ started_secondaries fresh headers (n + 1) ds

  abbrev pub stopped_consumer : Worker C → C
  stopped_consumer w = ops.stop (ops.request_stop w.consumer)

  abbrev pub primary_worker : List ℕ → C → Worker C
  primary_worker name c =
      fresh_worker primary_id (if is_empty name then primary_service else name) true c ""

  abbrev pub only_secondaries : List (Worker C) → StartResults C
  only_secondaries ws = record { workers = ws; primary_started = false; error = none }

  collect_secondary :
      (d : MultistreamDestination) (c : C) (r : C × Result (Unit {0})) (ws : List (Worker C))
      → collect ops (new_worker ops d.id (safe_destination_label d) false c) r (only_secondaries ws)
        ≡ only_secondaries (secondary_of d r ∷ ws)
  collect_secondary d c (c', ok _) ws = refl
  collect_secondary d c (c', err message) ws = refl

  start_all-secondaries :
      (fresh : ℕ → C) (headers : FlvCodecHeaders) (n : ℕ) (ds : List MultistreamDestination)
      → start_all ops headers (pending_secondaries ops fresh n ds)
        ≡ only_secondaries (started_secondaries fresh headers n (enabled_of ds))
  unfolding pending_secondaries start_all enabled_of started_secondaries
  start_all-secondaries fresh headers n [] = refl
  start_all-secondaries fresh headers n (d ∷ ds) =
      both_branches (start_all ops headers)
        (λ (es : List MultistreamDestination).
          only_secondaries (started_secondaries fresh headers n es))
        d.enabled
        (rw (start_all-secondaries fresh headers (n + 1) ds) (
          collect_secondary d (fresh n) (ops.start (fresh n) d.target headers)
            (started_secondaries fresh headers (n + 1) (enabled_of ds))))
        (start_all-secondaries fresh headers n ds)

  -- What `start` leaves of a valid configuration, from the start of the primary's consumer.
  abbrev pub start_outcome : List C → List ℕ → List (Worker C) → C × Result (Unit {0}) → Startup C
  start_outcome stopped name others (c, ok _) = record {
    workers = primary_worker name c ∷ others;
    stopped = stopped;
    result = ok tt;
  }
  start_outcome stopped name others (c, err message) = record {
    workers = [];
    stopped = stopped ++ (ops.stop (ops.request_stop c) ∷ map stopped_consumer others);
    result = err (primary_message message);
  }

  finish_start-start_outcome :
      (stopped : List C) (name : List ℕ) (fresh : C) (others : List (Worker C))
      (r : C × Result (Unit {0}))
      → finish_start ops stopped
          (collect ops (primary_worker name fresh) r (only_secondaries others))
        ≡ start_outcome stopped name others r
  finish_start-start_outcome stopped name fresh others (c, ok _) = refl
  finish_start-start_outcome stopped name fresh others (c, err message) = refl

  pub start_isolates :
      (old : List (Worker C)) (fresh : ℕ → C) (target : RtmpTarget) (name : List ℕ)
      (configuration : MultistreamConfiguration) (headers : FlvCodecHeaders)
      → validate_configuration configuration (some target) ≡ ok tt
      → start ops old fresh target name configuration headers
        ≡ start_outcome
            (map stopped_consumer old)
            name
            (started_secondaries fresh headers 1 (enabled_of configuration.secondary_destinations))
            (ops.start (fresh 0) target headers)
  unfolding start start_all stop
  start_isolates old fresh target name configuration headers valid =
      let stopped = map stopped_consumer old in
      let r = ops.start (fresh 0) target headers in
      let ds = configuration.secondary_destinations in
      let first = primary_worker name (fresh 0) in
      ap
        (λ v.
          start_checked ops stopped
            (collect ops first r (start_all ops headers (pending_secondaries ops fresh 1 ds))) v)
        valid
      ∙ ap (λ o. finish_start ops stopped (collect ops first r o))
          (start_all-secondaries fresh headers 1 ds)
      ∙ finish_start-start_outcome stopped name (fresh 0)
          (started_secondaries fresh headers 1 (enabled_of ds)) r
