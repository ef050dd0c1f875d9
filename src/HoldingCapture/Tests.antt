-- ===== src/HoldingCapture/Tests.antt =====
-- A capture whose backend starts at the second attempt.
use obs_live_delay_plugin.Base.{◌≡◌, if◌then◌else◌, ◌∷◌, true, ltb, [], ◌+◌, refl}
use obs_live_delay_plugin.HoldingCapture.{
  HoldingCapture, HoldingCaptureBackend, Outcome, Call, new_capture, run, step, prepare, start,
  monitor_round, ℕ, List, some,
}
use obs_live_delay_plugin.HoldingFeed.{begin}
use obs_live_delay_plugin.HoldingCapture.Owner.{IsOwned, run-new_capture-IsOwned}

-- The backend counts its stops, and starts once it has been stopped.
abbrev stubborn : HoldingCaptureBackend ℕ
stubborn = record {
  prepare = λ n feed. (n, feed, Outcome.accepted);
  start = λ n feed. (n, feed, if ltb n 3 then Outcome.thrown else Outcome.accepted);
  stop = λ n. n + 1;
}

abbrev attempts : List Call
attempts =
    Call.prepare_at 10
    ∷ Call.start_at 20 true
    ∷ Call.prepare_at 30
    ∷ Call.start_at 40 true
    ∷ Call.round_at 50
    ∷ Call.callback (λ f. f)
    ∷ []

abbrev attempted : HoldingCapture ℕ
attempted = run stubborn (new_capture (some 0)) attempts

-- The first start throws: the capture is released and prepared again.
attempted_starts :
    (attempted.started ≡ true) × (attempted.monitor ≡ true) × (attempted.backend ≡ some 3)
unfolding run step prepare start monitor_round begin
attempted_starts = (refl, refl, refl)

run-new_capture-IsOwned_example : IsOwned attempted
run-new_capture-IsOwned_example = run-new_capture-IsOwned stubborn (some 0) attempts
