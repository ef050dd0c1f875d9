-- ===== src/Controller/History/Reachable.antt =====
-- The history of a controller that any sequence of calls has led to.
use obs_live_delay_plugin.Base.{Bool, List, [], ◌∷◌, arith, if_cases, ◌||◌, not}
use obs_live_delay_plugin.Base.Int.{ℤ, pos, eq_ℤ, ltb_ℤ, leb_ℤ}
use obs_live_delay_plugin.Packet.{DelayState, is_live, is_error}
use obs_live_delay_plugin.Controller.State.{DelayController, BufferLimits, new_controller, duration}
use obs_live_delay_plugin.Controller.Buffer.{trim_to_target}
use obs_live_delay_plugin.Controller.Ingest.{take_ready_packets}
use obs_live_delay_plugin.Controller.Commands.{
  arm, begin_broadcast, start_live, rewind, resume_live, Outcome, shorten, retarget, set_target,
  return_live, reset_for_discontinuity, begin_timestamp_epoch,
}
use obs_live_delay_plugin.Controller.History.Fits.{Fits-nil}
use obs_live_delay_plugin.Controller.Calls.{
  Call, arms, set_targets, begins_broadcast, starts_live, rewinds, resumes_live, returns_live,
  begins_epoch, takes_ready, resets, ingests, step, run,
}
use obs_live_delay_plugin.Controller.History.Invariant.{
  IsValid, ingest-IsValid, roll_prebuffer-IsValid, trim_to_target-IsValid,
}

resume_live-IsValid : (c : DelayController) → IsValid c → IsValid (resume_live c).0
unfolding resume_live
resume_live-IsValid c v =
    if_cases (λ (r : DelayController × Bool). IsValid r.0)
      (not c.rewind_mode || c.passthrough || leb_ℤ c.target_delay (pos 0) || is_error c.state)
      (λ _. v) (λ _. roll_prebuffer-IsValid _ (record { fits = v.fits }))

shorten-IsValid : (c : DelayController) → IsValid c → IsValid (shorten c)
unfolding shorten
shorten-IsValid c v =
    let t =
      trim_to_target-IsValid (record c { state = DelayState.delayed }) (record { fits = v.fits }) in
    if_cases IsValid (trim_to_target (record c { state = DelayState.delayed })).1 (λ _. t)
      (λ _. record { fits = t.fits })

retarget-IsValid : (c : DelayController) (t : ℤ) → IsValid c → IsValid (retarget c t)
unfolding retarget
retarget-IsValid c t v =
    if_cases IsValid (eq_ℤ t (pos 0)) (λ _. record { fits = Fits-nil })
      (λ _.
        if_cases IsValid (is_live c.state) (λ _. record { fits = v.fits })
          (λ _.
            if_cases IsValid (ltb_ℤ (duration c.buffered) t) (λ _. record { fits = v.fits })
              (λ _. shorten-IsValid c v)))

set_target-IsValid : (c : DelayController) (t : ℤ) → IsValid c → IsValid (set_target c t).0
unfolding set_target
set_target-IsValid c t v =
    if_cases (λ (r : Outcome). IsValid r.0) c.armed (λ _. v)
      (λ _.
        if_cases (λ (r : Outcome). IsValid r.0) (ltb_ℤ t (pos 0) || ltb_ℤ c.limits.max_delay t)
          (λ _. record { fits = v.fits }) (λ _. retarget-IsValid _ t (record { fits = v.fits })))

-- Whatever call is made, the timestamps of the history stay in order and its byte count exact.
pub step-IsValid : (c : DelayController) (x : Call) → IsValid c → IsValid (step c x)
unfolding step arm begin_broadcast start_live rewind return_live reset_for_discontinuity
    begin_timestamp_epoch take_ready_packets
step-IsValid c (arms t) v = ground (arith, Fits-nil)
step-IsValid c (set_targets t) v = set_target-IsValid c t v
step-IsValid c begins_broadcast v = ground (arith, v.fits)
step-IsValid c starts_live v = ground (arith, v.fits)
step-IsValid c rewinds v = ground (arith, v.fits)
step-IsValid c resumes_live v = resume_live-IsValid c v
step-IsValid c returns_live v = record { fits = Fits-nil }
step-IsValid c begins_epoch v = record { fits = v.fits }
step-IsValid c takes_ready v = record { fits = v.fits }
step-IsValid c (resets reason) v = record { fits = Fits-nil }
step-IsValid c (ingests p) v = ingest-IsValid c p v

run-IsValid : (c : DelayController) (xs : List Call) → IsValid c → IsValid (run c xs)
unfolding run
run-IsValid c [] v = v
run-IsValid c (x ∷ xs) v = run-IsValid (step c x) xs (step-IsValid c x v)

-- So it holds after any sequence of calls on a new controller.
pub run-new_controller-IsValid :
    (limits : BufferLimits) (xs : List Call) → IsValid (run (new_controller limits) xs)
run-new_controller-IsValid limits xs = run-IsValid _ xs (record { fits = Fits-nil })
