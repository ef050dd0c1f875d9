-- ===== src/Controller/Playback/Shorten.antt =====
-- A shorter delay: `set_target` cuts the history at a keyframe or waits for one.
use obs_live_delay_plugin.Controller.History.Cuts.{IsCut}
use obs_live_delay_plugin.Packet.{EncodedPacket, DelayState}
use obs_live_delay_plugin.Controller.Buffer.{next_keyframe}
use obs_live_delay_plugin.Base.{List, ◌≡◌, false, none, ◌⊎◌, if◌then◌else◌, true, []}
use obs_live_delay_plugin.Controller.State.{DelayController, duration}
use obs_live_delay_plugin.Base.Int.{ℤ, ◌<ℤ◌, ◌≤ℤ◌, eq_ℤ}

-- How a shortened controller ends up.
abbrev pub Shortened : ℤ → List EncodedPacket → DelayController → Type 0
Shortened target ps d =
    IsCut target ps d.buffered
    × (((d.state ≡ DelayState.delayed) × (duration d.buffered ≤ℤ target))
        ⊎ ((d.state ≡ DelayState.building_delay)
            × (d.pending_trim ≡ true)
            × (target <ℤ duration d.buffered)
            × (next_keyframe false d.buffered ≡ none)))

-- The controller that `set_target` shortens.
abbrev retargeted : DelayController → ℤ → DelayController
retargeted c target = record c {
  playback_delay = none;
  ready = if eq_ℤ target c.target_delay then c.ready else [];
  error = "";
  target_delay = target;
  pending_trim = false;
}
