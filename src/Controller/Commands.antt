-- ===== src/Controller/Commands.antt =====
-- src/delay-controller.cpp: arming, going live, rewinding, returning live and changing the delay.
use obs_live_delay_plugin.Base.{
  Bool, true, false, not, ◌&&◌, ◌||◌, Option, none, some, [], String, if◌then◌else◌,
}
use obs_live_delay_plugin.Base.Int.{ℤ, pos, ltb_ℤ, leb_ℤ, eq_ℤ}
use obs_live_delay_plugin.Packet.{DelayState, is_error, is_live}
use obs_live_delay_plugin.Diagnostic.{DiagnosticCode, diagnostic_error}
use obs_live_delay_plugin.Controller.State.{
  DelayController, duration, history_age, prebuffer_ready, reset_timestamp_tracking,
}
use obs_live_delay_plugin.Controller.Buffer.{roll_prebuffer, trim_to_target}

-- A refused call returns its message.
abbrev pub Outcome : Type 0
Outcome = DelayController × Option String

unfoldable pub arm : DelayController → ℤ → Outcome
arm c target =
    if leb_ℤ target (pos 0) || ltb_ℤ c.limits.max_delay target
    then (c, some "PREBUFFER_TARGET_INVALID: choose a positive delay within the configured maximum")
    else (
      record (reset_timestamp_tracking c) {
        buffered = [];
        ready = [];
        buffered_bytes = 0;
        video_watermark = none;
        audio_watermark = none;
        playback_delay = none;
        target_delay = target;
        armed = true;
        state = DelayState.building_delay;
        error = "";
        passthrough = false;
        rewind_mode = false;
      },
      none,
    )

unfoldable pub begin_broadcast : DelayController → DelayController × Bool
unfolding prebuffer_ready history_age
begin_broadcast c =
    if prebuffer_ready c
    then (
      record c {
        playback_delay = some (history_age c.buffered);
        armed = false;
        state = DelayState.delayed;
      },
      true,
    )
    else (c, false)

unfoldable pub start_live : DelayController → DelayController × Bool
start_live c = if not c.armed || c.passthrough || is_error c.state then (c, false) else (
  record c {
    ready = [];
    passthrough = true;
    rewind_mode = true;
    waiting_for_live_keyframe = true;
    state = DelayState.live;
  },
  true,
)

unfoldable pub rewind : DelayController → DelayController × Bool
unfolding prebuffer_ready history_age
rewind c =
    if c.passthrough && prebuffer_ready c
    then (
      record c {
        ready = [];
        passthrough = false;
        playback_delay = some (history_age c.buffered);
        armed = false;
        state = DelayState.delayed;
      },
      true,
    )
    else (c, false)

unfoldable pub resume_live : DelayController → DelayController × Bool
resume_live c =
    if not c.rewind_mode || c.passthrough || leb_ℤ c.target_delay (pos 0) || is_error c.state
    then (c, false)
    else (
      roll_prebuffer (record c {
        ready = [];
        playback_delay = none;
        pending_trim = false;
        armed = true;
        passthrough = true;
        waiting_for_live_keyframe = true;
        state = DelayState.live;
      }),
      true,
    )

-- The end of `set_target`, where the history is long enough already.
unfoldable pub shorten : DelayController → DelayController
shorten c =
    let (c', done) = trim_to_target (record c { state = DelayState.delayed }) in
    if done then c' else record c' { pending_trim = true; state = DelayState.building_delay }

-- `set_target` after its guards: `return_live` is the target 0.
unfoldable pub retarget : DelayController → ℤ → DelayController
retarget c target =
    if eq_ℤ target (pos 0)
    then record (reset_timestamp_tracking c) {
      buffered = [];
      ready = [];
      buffered_bytes = 0;
      waiting_for_live_keyframe = true;
      state = DelayState.live;
    }
    else if is_live c.state
    then record c { ready = []; state = DelayState.building_delay }
    else if ltb_ℤ (duration c.buffered) target
    then record c { state = DelayState.building_delay }
    else shorten c

unfoldable pub set_target : DelayController → ℤ → Outcome
set_target c target =
    if c.armed
    then (c, some "PREBUFFER_ARMED: disarm before changing delay")
    else if ltb_ℤ target (pos 0) || ltb_ℤ c.limits.max_delay target
    then (
      record c { playback_delay = none },
      some (
          diagnostic_error DiagnosticCode.output_controller_failed
            "Requested delay is outside the configured maximum"),
    )
    else (
      retarget
          (record c {
            playback_delay = none;
            ready = if eq_ℤ target c.target_delay then c.ready else [];
            error = "";
            target_delay = target;
            pending_trim = false;
          })
          target,
      none,
    )

-- What `return_live` and `reset_for_discontinuity` share.
cleared : DelayController → String → DelayController
cleared c message = record (reset_timestamp_tracking c) {
  armed = false;
  passthrough = false;
  playback_delay = none;
  video_watermark = none;
  audio_watermark = none;
  buffered = [];
  ready = [];
  buffered_bytes = 0;
  target_delay = pos 0;
  error = message;
  waiting_for_live_keyframe = true;
  state = DelayState.live;
}

unfoldable pub return_live : DelayController → DelayController
unfolding cleared
return_live c = cleared c ""

unfoldable pub reset_for_discontinuity : DelayController → String → DelayController
unfolding cleared
reset_for_discontinuity c reason = record (cleared c reason) { rewind_mode = false }

unfoldable pub begin_timestamp_epoch : DelayController → DelayController
begin_timestamp_epoch c = record c { timestamp_offset_us = none; rebase_next_timestamp = true }
