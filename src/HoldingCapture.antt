-- ===== src/HoldingCapture.antt =====
-- src/holding-capture.hpp and src/holding-capture.cpp: the owner of a capture. The backend is an
-- interface, and what its calls do to the feed is part of what they return. The steady clock is an
-- argument, and so is whether the thread of the monitor can be made.
pub mod Owner
mod Tests
use obs_live_delay_plugin.HoldingFeed.{
  HoldingFeed, HoldingState, new_feed, begin, fail, check_deadline, stop as stop_feed,
}
use obs_live_delay_plugin.Base.{
  ◌∷◌, [], List, ℕ, Bool, String, Option, Result, some, none, true, false, ok, err, if◌then◌else◌,
  not, ◌||◌, is_empty_text, ◌&&◌,
}

-- How a call of the backend ends.
pub data Outcome : Type 0 where
  accepted : Outcome
  refused : (error : String) → Outcome
  thrown : Outcome

-- `HoldingCaptureBackend`.
pub record HoldingCaptureBackend {ℓ} (B : Type ℓ) : Type ℓ where
  pub prepare : B → HoldingFeed → B × HoldingFeed × Outcome
  pub start : B → HoldingFeed → B × HoldingFeed × Outcome
  pub stop : B → B

-- `monitor` says that the thread runs.
pub record HoldingCapture {ℓ} (B : Type ℓ) : Type ℓ where
  pub feed : HoldingFeed
  pub backend : Option B
  pub monitor : Bool
  pub cancel : Bool
  pub prepared : Bool
  pub started : Bool

abbrev pub new_capture {ℓ} : {B : Type ℓ} → Option B → HoldingCapture B
new_capture backend = record {
  feed = new_feed;
  backend = backend;
  monitor = false;
  cancel = false;
  prepared = false;
  started = false;
}

abbrev pub is_failed : HoldingState → Bool
is_failed HoldingState.failed = true
is_failed _ = false

-- `if (error.empty()) error = message`.
abbrev pub error_or : String → String → String
error_or error message = if is_empty_text error then message else error

-- What the owner calls, a round of the monitor, and a callback of the backend, which runs only
-- between `prepare` and the stop of the backend.
pub data Call : Type 0 where
  prepare_at : (now : ℕ) → Call
  start_at : (now : ℕ) (spawns : Bool) → Call
  stop_now : Call
  round_at : (now : ℕ) → Call
  callback : (touch : HoldingFeed → HoldingFeed) → Call

module _ {ℓ} {B : Type ℓ} (ops : HoldingCaptureBackend B) where
  abbrev pub cancel_monitor : HoldingCapture B → HoldingCapture B
  cancel_monitor c = record c { cancel = true; monitor = false }

  abbrev pub stop_backend : Option B → Option B
  stop_backend none = none
  stop_backend (some b) = some (ops.stop b)

  abbrev pub cleanup : HoldingCapture B → HoldingCapture B
  cleanup c = record (cancel_monitor c) {
    backend = stop_backend c.backend;
    prepared = false;
    started = false;
  }

  -- `feed_.fail(error); cleanup(); return false;`.
  abbrev pub abandon :
      HoldingCapture B → HoldingFeed → String → HoldingCapture B × Result (Unit {0})
  abandon c feed error = (cleanup (record c { feed = fail feed error }), err error)

  abbrev pub prepared_with :
      HoldingCapture B → B × HoldingFeed × Outcome → HoldingCapture B × Result (Unit {0})
  prepared_with c (b, feed, Outcome.accepted) =
      (record c { backend = some b; feed = feed; prepared = true }, ok tt)
  prepared_with c (b, feed, Outcome.refused error) =
      abandon (record c { backend = some b }) feed
        (error_or error "HOLDING_PREPARE_FAILED: capture resources unavailable")
  prepared_with c (b, feed, Outcome.thrown) =
      abandon (record c { backend = some b }) feed
        "HOLDING_PREPARE_FAILED: capture resource initialization failed"

  abbrev pub prepare_backend : HoldingCapture B → Option B → HoldingCapture B × Result (Unit {0})
  prepare_backend c none = abandon c c.feed "HOLDING_PREPARE_FAILED: capture resources unavailable"
  prepare_backend c (some b) = prepared_with c (ops.prepare b c.feed)

  unfoldable pub prepare : HoldingCapture B → ℕ → HoldingCapture B × Result (Unit {0})
  prepare c now =
      let cleaned = cleanup c in
      if c.prepared || c.started
      then (c, err "HOLDING_ALREADY_PREPARED: stop before preparing another capture")
      else prepare_backend (record cleaned { feed = begin c.feed now }) cleaned.backend

  abbrev pub started_with :
      HoldingCapture B → B × HoldingFeed × Outcome → HoldingCapture B × Result (Unit {0})
  started_with c (b, feed, Outcome.accepted) =
      if is_failed feed.status.state
      then (cleanup (record c { backend = some b; feed = feed }), err feed.status.error)
      else (record c { backend = some b; feed = feed; started = true }, ok tt)
  started_with c (b, feed, Outcome.refused error) =
      abandon (record c { backend = some b }) feed
        (error_or error "HOLDING_START_FAILED: capture did not start")
  started_with c (b, feed, Outcome.thrown) =
      abandon (record c { backend = some b }) feed "HOLDING_START_FAILED: capture startup failed"

  -- A prepared capture has a backend.
  abbrev pub start_backend :
      HoldingCapture B → Option B → Bool → HoldingCapture B × Result (Unit {0})
  start_backend c none spawns = abandon c c.feed "HOLDING_START_FAILED: capture startup failed"
  start_backend c (some b) false = abandon c c.feed "HOLDING_START_FAILED: capture startup failed"
  start_backend c (some b) true = started_with (record c { monitor = true }) (ops.start b c.feed)

  unfoldable pub start : HoldingCapture B → ℕ → Bool → HoldingCapture B × Result (Unit {0})
  start c now spawns =
      if not c.prepared || c.started
      then (c, err "HOLDING_NOT_PREPARED: prepare once before start")
      else start_backend (record c { feed = begin c.feed now; cancel = false }) c.backend spawns

  unfoldable pub stop : HoldingCapture B → HoldingCapture B
  stop c = cleanup (record c { feed = stop_feed c.feed })

  -- A round of the monitor.
  unfoldable pub monitor_round : HoldingCapture B → ℕ → HoldingCapture B
  monitor_round c now =
      if c.monitor && not c.cancel then record c { feed = check_deadline c.feed now } else c

  unfoldable pub step : HoldingCapture B → Call → HoldingCapture B
  step c (prepare_at now) = (prepare c now).0
  step c (start_at now spawns) = (start c now spawns).0
  step c stop_now = stop c
  step c (round_at now) = monitor_round c now
  step c (callback touch) = if c.prepared then record c { feed = touch c.feed } else c

  unfoldable pub run : HoldingCapture B → List Call → HoldingCapture B
  run c [] = c
  run c (call ∷ calls) = run (step c call) calls
