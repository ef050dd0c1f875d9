-- ===== src/Policies.antt =====
-- src/scene-switch-policy.cpp and src/delayed-output-watchdog.cpp: the health of a scene switch and of
-- a delayed output. Times are in milliseconds.
mod Tests
use obs_live_delay_plugin.Base.Int.{ℤ, pos, ltb_ℤ, leb_ℤ}
use obs_live_delay_plugin.Base.{Bool, true, false, not, ◌&&◌, if◌then◌else◌}

pub data SceneSwitchHealth : Type 0 where
  inactive healthy holding_unavailable holding_interrupted program_unavailable : SceneSwitchHealth

unfoldable pub evaluate_scene_switch_health :
    (transition_active delay_building program_available holding_available holding_is_current : Bool)
    → SceneSwitchHealth
evaluate_scene_switch_health transition_active delay_building program_available holding_available
      holding_is_current =
    if not transition_active
    then SceneSwitchHealth.inactive
    else if not program_available
    then SceneSwitchHealth.program_unavailable
    else if not holding_available
    then SceneSwitchHealth.holding_unavailable
    else if delay_building && not holding_is_current
    then SceneSwitchHealth.holding_interrupted
    else SceneSwitchHealth.healthy

pub data DelayedOutputHealth : Type 0 where
  waiting_for_video progressing stopped video_timeout : DelayedOutputHealth

unfoldable pub evaluate_delayed_output_health :
    (active : Bool) (total_video_frames active_for timeout : ℤ) → DelayedOutputHealth
evaluate_delayed_output_health active total_video_frames active_for timeout =
    if not active
    then DelayedOutputHealth.stopped
    else if ltb_ℤ (pos 0) total_video_frames
    then DelayedOutputHealth.progressing
    else if leb_ℤ timeout active_for
    then DelayedOutputHealth.video_timeout
    else DelayedOutputHealth.waiting_for_video
