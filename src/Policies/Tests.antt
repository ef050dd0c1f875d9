-- ===== src/Policies/Tests.antt =====
-- Tests of the order of the checks.
use obs_live_delay_plugin.Policies.{
  SceneSwitchHealth, DelayedOutputHealth, evaluate_scene_switch_health,
  evaluate_delayed_output_health,
}
use obs_live_delay_plugin.Base.Int.{pos}
use obs_live_delay_plugin.Base.{◌≡◌, refl, true, false}

-- The programme is looked at before the holding scene.
programme_first :
    evaluate_scene_switch_health true true false false false ≡ SceneSwitchHealth.program_unavailable
unfolding evaluate_scene_switch_health
programme_first = refl

-- While no delay is built, another scene than the holding one may be shown.
not_building : evaluate_scene_switch_health true false true true false ≡ SceneSwitchHealth.healthy
unfolding evaluate_scene_switch_health
not_building = refl

-- The timeout counts from its own millisecond on.
timeout_reached :
    evaluate_delayed_output_health true (pos 0) (pos 5000) (pos 5000)
    ≡ DelayedOutputHealth.video_timeout
unfolding evaluate_delayed_output_health
timeout_reached = refl

late_frame :
    evaluate_delayed_output_health true (pos 1) (pos 6000) (pos 5000)
    ≡ DelayedOutputHealth.progressing
unfolding evaluate_delayed_output_health
late_frame = refl
