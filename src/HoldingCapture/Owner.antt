-- ===== src/HoldingCapture/Owner.antt =====
-- src/holding-capture.cpp: what a capture owns after any calls.
use obs_live_delay_plugin.HoldingFeed.{
  HoldingFeed, stop as stop_feed, HoldingState, is_running, begin, fail,
}
use obs_live_delay_plugin.HoldingCapture.{
  HoldingCapture, HoldingCaptureBackend, is_failed, Outcome, Call, new_capture, step, prepare,
  start, stop, monitor_round, abandon, prepared_with, prepare_backend, started_with, start_backend,
  cleanup, run, check_deadline,
}
use obs_live_delay_plugin.Base.{
  ◌∷◌, [], ℕ, List, Bool, String, Option, Result, some, none, true, false, ◌≡◌, refl, if_cases,
  ◌||◌, not, ◌&&◌, sym, ◌∙◌,
}

fail-quiet : (f : HoldingFeed) (error : String) → is_running (fail f error).status.state ≡ false
unfolding fail
fail-quiet f error =
    if_cases (λ (g : HoldingFeed). is_running g.status.state ≡ false) (is_running f.status.state)
      (λ e. refl) (λ e. e)

failed_quiet : (state : HoldingState) → is_failed state ≡ true → is_running state ≡ false
failed_quiet HoldingState.stopped e = refl
failed_quiet HoldingState.starting e = cc
failed_quiet HoldingState.ready e = cc
failed_quiet HoldingState.failed e = refl

both_true : (m x : Bool) → (m && x) ≡ true → m ≡ true
both_true true x e = refl
both_true false x e = cc

prepared_of : (p s : Bool) → (not p || s) ≡ false → p ≡ true
prepared_of true s e = refl
prepared_of false s e = cc

module _ {ℓ} {B : Type ℓ} where
  -- The monitor runs exactly between a start and the next stop, and only over a prepared capture;
  -- a capture that is not prepared has a feed that takes no media.
  pub record IsOwned (c : HoldingCapture B) : Type ℓ where
    pub watched : c.monitor ≡ c.started
    pub live : c.started ≡ true → (c.prepared ≡ true) × (c.cancel ≡ false)
    pub quiet : c.prepared ≡ false → is_running c.feed.status.state ≡ false

module _ {ℓ} {B : Type ℓ} (ops : HoldingCaptureBackend B) where
  cleanup-IsOwned :
      (c : HoldingCapture B) → is_running c.feed.status.state ≡ false → IsOwned (cleanup ops c)
  cleanup-IsOwned c quiet = record { watched = refl; live = λ e. cc; quiet = λ e. quiet }

  abandon-IsOwned :
      (c : HoldingCapture B) (feed : HoldingFeed) (error : String)
      → IsOwned (abandon ops c feed error).0
  abandon-IsOwned c feed error =
      cleanup-IsOwned (record c { feed = fail feed error }) (fail-quiet feed error)

  prepared_with-IsOwned :
      (c : HoldingCapture B) (r : B × HoldingFeed × Outcome)
      → c.monitor ≡ false
      → c.started ≡ false
      → IsOwned (prepared_with ops c r).0
  prepared_with-IsOwned c (b, feed, Outcome.accepted) m s = record {
    watched = cc;
    live = λ e. cc;
    quiet = λ e. cc;
  }
  prepared_with-IsOwned c (b, feed, Outcome.refused error) m s =
      abandon-IsOwned (record c { backend = some b }) feed _
  prepared_with-IsOwned c (b, feed, Outcome.thrown) m s =
      abandon-IsOwned (record c { backend = some b }) feed _

  prepare_backend-IsOwned :
      (c : HoldingCapture B) (backend : Option B)
      → c.monitor ≡ false
      → c.started ≡ false
      → IsOwned (prepare_backend ops c backend).0
  prepare_backend-IsOwned c none m s = abandon-IsOwned c c.feed _
  prepare_backend-IsOwned c (some b) m s = prepared_with-IsOwned c (ops.prepare b c.feed) m s

  prepare-IsOwned : (c : HoldingCapture B) (now : ℕ) → IsOwned c → IsOwned (prepare ops c now).0
  unfolding prepare
  prepare-IsOwned c now v =
      if_cases (λ (r : HoldingCapture B × Result (Unit {0})). IsOwned r.0) (c.prepared || c.started)
        (λ e. v)
        (λ e.
          prepare_backend-IsOwned (record (cleanup ops c) { feed = begin c.feed now })
            (cleanup ops c).backend refl refl)

  started_with-IsOwned :
      (c : HoldingCapture B) (r : B × HoldingFeed × Outcome)
      → c.monitor ≡ true
      → c.prepared ≡ true
      → c.cancel ≡ false
      → IsOwned (started_with ops c r).0
  started_with-IsOwned c (b, feed, Outcome.accepted) m p x =
      if_cases (λ (r : HoldingCapture B × Result (Unit {0})). IsOwned r.0)
        (is_failed feed.status.state)
        (λ e. cleanup-IsOwned (record c { backend = some b; feed = feed }) (failed_quiet _ e))
        (λ e. record { watched = m; live = λ s. (p, x); quiet = λ q. cc })
  started_with-IsOwned c (b, feed, Outcome.refused error) m p x =
      abandon-IsOwned (record c { backend = some b }) feed _
  started_with-IsOwned c (b, feed, Outcome.thrown) m p x =
      abandon-IsOwned (record c { backend = some b }) feed _

  start_backend-IsOwned :
      (c : HoldingCapture B) (backend : Option B) (spawns : Bool)
      → c.prepared ≡ true
      → c.cancel ≡ false
      → IsOwned (start_backend ops c backend spawns).0
  start_backend-IsOwned c none spawns p x = abandon-IsOwned c c.feed _
  start_backend-IsOwned c (some b) false p x = abandon-IsOwned c c.feed _
  start_backend-IsOwned c (some b) true p x =
      started_with-IsOwned (record c { monitor = true }) (ops.start b c.feed) refl p x

  start-IsOwned :
      (c : HoldingCapture B) (now : ℕ) (spawns : Bool)
      → IsOwned c
      → IsOwned (start ops c now spawns).0
  unfolding start
  start-IsOwned c now spawns v =
      if_cases (λ (r : HoldingCapture B × Result (Unit {0})). IsOwned r.0)
        (not c.prepared || c.started) (λ e. v)
        (λ e.
          start_backend-IsOwned (record c { feed = begin c.feed now; cancel = false }) c.backend
            spawns (prepared_of c.prepared c.started e) refl)

  -- Whatever owner, monitor and backend do with the feed, it keeps what is owned.
  touched-IsOwned :
      (c : HoldingCapture B) (feed : HoldingFeed)
      → c.prepared ≡ true
      → IsOwned c
      → IsOwned (record c { feed = feed })
  touched-IsOwned c feed p v = record { watched = v.watched; live = v.live; quiet = λ e. cc }

  monitor_round-IsOwned :
      (c : HoldingCapture B) (now : ℕ) → IsOwned c → IsOwned (monitor_round ops c now)
  unfolding monitor_round
  monitor_round-IsOwned c now v =
      if_cases IsOwned (c.monitor && not c.cancel)
        (λ e.
          touched-IsOwned c (check_deadline c.feed now)
            (v.live (sym v.watched ∙ both_true c.monitor (not c.cancel) e)).0 v)
        (λ e. v)

  step-IsOwned : (c : HoldingCapture B) (call : Call) → IsOwned c → IsOwned (step ops c call)
  unfolding step stop obs_live_delay_plugin.HoldingFeed.stop
  step-IsOwned c (Call.prepare_at now) v = prepare-IsOwned c now v
  step-IsOwned c (Call.start_at now spawns) v = start-IsOwned c now spawns v
  step-IsOwned c Call.stop_now v = cleanup-IsOwned (record c { feed = stop_feed c.feed }) refl
  step-IsOwned c (Call.round_at now) v = monitor_round-IsOwned c now v
  step-IsOwned c (Call.callback touch) v =
      if_cases IsOwned c.prepared (λ e. touched-IsOwned c (touch c.feed) e v) (λ e. v)

  run-IsOwned : (c : HoldingCapture B) (calls : List Call) → IsOwned c → IsOwned (run ops c calls)
  unfolding run
  run-IsOwned c [] v = v
  run-IsOwned c (call ∷ calls) v = run-IsOwned (step ops c call) calls (step-IsOwned c call v)

  -- After any calls on a new capture, whatever the backend accepts, refuses or throws and whatever
  -- its callbacks do to the feed, the monitor runs exactly if the capture is started, a started
  -- capture is prepared and its monitor not cancelled, and a feed that takes media belongs to a
  -- prepared capture.
  pub run-new_capture-IsOwned :
      (backend : Option B) (calls : List Call) → IsOwned (run ops (new_capture backend) calls)
  run-new_capture-IsOwned backend calls =
      run-IsOwned (new_capture backend) calls
        (record { watched = refl; live = λ e. cc; quiet = λ e. refl })
