-- ===== src/Controller/Calls.antt =====
-- src/delay-controller.hpp: the public calls of `DelayController` as data, and runs of them.
use obs_live_delay_plugin.Base.{List, [], ◌∷◌, String}
use obs_live_delay_plugin.Base.Int.{ℤ}
use obs_live_delay_plugin.Packet.{EncodedPacket}
use obs_live_delay_plugin.Controller.State.{DelayController}
use obs_live_delay_plugin.Controller.Ingest.{ingest, take_ready_packets}
use obs_live_delay_plugin.Controller.Commands.{
  arm, begin_broadcast, start_live, rewind, resume_live, set_target, return_live,
  reset_for_discontinuity, begin_timestamp_epoch,
}

-- The calls of the session's threads, in the order in which the mutex admits them.
pub data Call : Type 0 where
  arms set_targets : ℤ → Call
  begins_broadcast starts_live rewinds resumes_live returns_live begins_epoch takes_ready : Call
  resets : String → Call
  ingests : EncodedPacket → Call

unfoldable pub step : DelayController → Call → DelayController
step c (arms t) = (arm c t).0
step c (set_targets t) = (set_target c t).0
step c begins_broadcast = (begin_broadcast c).0
step c starts_live = (start_live c).0
step c rewinds = (rewind c).0
step c resumes_live = (resume_live c).0
step c returns_live = return_live c
step c begins_epoch = begin_timestamp_epoch c
step c takes_ready = (take_ready_packets c).0
step c (resets reason) = reset_for_discontinuity c reason
step c (ingests p) = ingest c p

unfoldable pub run : DelayController → List Call → DelayController
run c [] = c
run c (x ∷ xs) = run (step c x) xs
