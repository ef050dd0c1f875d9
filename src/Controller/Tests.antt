-- ===== src/Controller/Tests.antt =====
-- Runs of the delay controller on small inputs.
use obs_live_delay_plugin.Controller.Epochs.{
  JoinsAt, joining_offset, normalize_timestamp_joins, checked_add_exact,
}
use obs_live_delay_plugin.Controller.Buffer.{
  roll_prebuffer, after_roll, roll_at, rolled, pop_fronts, keep_index, promote, promote_building,
  promote_release, release_loop,
}
use obs_live_delay_plugin.Controller.Timestamps.{normalize_timestamp, apply_offset, checked_add}
use obs_live_delay_plugin.Controller.Playback.GoLive.{start_live_opens, resume_live_opens}
use obs_live_delay_plugin.Controller.Ingest.{
  ingest, ingest_normalized, ingest_history, append, set_watermark, enforce_limits, live_gate,
  emit_live, moved_backwards,
}
use obs_live_delay_plugin.Controller.Playback.LiveGate.{OpensLive}
use obs_live_delay_plugin.Controller.Playback.Rewind.{StartsOnKeyframe, rewind_replays}
use obs_live_delay_plugin.Controller.Playback.Replay.{
  ingest_all, delay_of, ingest_all_lossless, Playing,
}
use obs_live_delay_plugin.Controller.Commands.{arm, start_live, rewind, resume_live}
use obs_live_delay_plugin.Controller.History.Reachable.{run-new_controller-IsValid}
use obs_live_delay_plugin.Controller.State.{
  DelayController, new_controller, default_limits, duration, history_age, prebuffer_ready, covers,
  any_packet,
}
use obs_live_delay_plugin.Base.{
  none, some, true, false, [], ◌∷◌, ℕ, List, ◌≡◌, refl, ◌≢◌, ◌++◌, arith, ◌⊎◌,
}
use obs_live_delay_plugin.Base.Int.{pos, ◌≤ℤ◌, ◌-ℤ◌, ◌+ℤ◌, IsInt64, int64_max}
use obs_live_delay_plugin.Packet.{EncodedPacket, PacketKind, DelayState}
use obs_live_delay_plugin.Controller.Calls.{Call, run, step}
use obs_live_delay_plugin.Controller.History.Invariant.{IsValid}

abbrev key_at : ℕ → EncodedPacket
key_at t = record {
  kind = PacketKind.video;
  payload = 0 ∷ 0 ∷ 0 ∷ 1 ∷ 101 ∷ [];
  pts_us = pos t;
  dts_us = pos t;
  keyframe = true;
  audio_drain = false;
}

abbrev frame_at : ℕ → EncodedPacket
frame_at t = record (key_at t) { keyframe = false }

abbrev audio_at : ℕ → EncodedPacket
audio_at t = record (key_at t) { kind = PacketKind.audio; payload = 33 ∷ []; keyframe = false }

abbrev capture : List Call
capture =
    Call.ingests (key_at 10)
    ∷ Call.ingests (audio_at 11)
    ∷ Call.ingests (frame_at 13)
    ∷ Call.ingests (audio_at 14)
    ∷ []

-- A rewind-mode broadcast that has four microseconds of history.
abbrev on_air : DelayController
on_air = run (new_controller default_limits) (Call.arms (pos 3) ∷ Call.starts_live ∷ capture)

on_air-IsValid : IsValid on_air
on_air-IsValid =
    run-new_controller-IsValid default_limits (Call.arms (pos 3) ∷ Call.starts_live ∷ capture)

on_air_accepts : (rewind on_air).1 ≡ true
unfolding run step arm start_live ingest rewind resume_live prebuffer_ready covers any_packet
    normalize_timestamp apply_offset ingest_normalized ingest_history append set_watermark
    enforce_limits roll_prebuffer after_roll roll_at rolled pop_fronts keep_index live_gate
    emit_live moved_backwards duration history_age promote promote_building promote_release
    release_loop ◌+ℤ◌ ◌-ℤ◌
on_air_accepts = refl

on_air_settled :
    (on_air.pending_trim ≡ false)
    × (on_air.rebase_next_timestamp ≡ false)
    × (on_air.timestamp_offset_us ≡ none)
unfolding run step arm start_live ingest rewind resume_live prebuffer_ready covers any_packet
    normalize_timestamp apply_offset ingest_normalized ingest_history append set_watermark
    enforce_limits roll_prebuffer after_roll roll_at rolled pop_fronts keep_index live_gate
    emit_live moved_backwards duration history_age promote promote_building promote_release
    release_loop ◌+ℤ◌ ◌-ℤ◌
on_air_settled = (refl, refl, refl)

delayed_continues : (s : DelayState) → s ≡ DelayState.delayed → s ≢ DelayState.error
delayed_continues s e f = grind arith

abbrev later : List EncodedPacket
later = key_at 20 ∷ audio_at 21 ∷ []

on_air_continues : (ingest_all (rewind on_air).0 later).state ≢ DelayState.error
unfolding ingest_all run step arm start_live ingest rewind resume_live prebuffer_ready covers
    any_packet normalize_timestamp apply_offset ingest_normalized ingest_history append
    set_watermark enforce_limits roll_prebuffer after_roll roll_at rolled pop_fronts keep_index
    live_gate emit_live moved_backwards duration history_age promote promote_building
    promote_release release_loop ◌+ℤ◌ ◌-ℤ◌
on_air_continues = delayed_continues _ refl

rewind_replays_example :
    StartsOnKeyframe on_air.buffered
    × ((ingest_all (rewind on_air).0 later).ready ++ (ingest_all (rewind on_air).0 later).buffered
        ≡ on_air.buffered ++ later)
    × (duration (ingest_all (rewind on_air).0 later).buffered ≤ℤ history_age on_air.buffered)
rewind_replays_example =
    rewind_replays on_air later on_air-IsValid on_air_accepts on_air_settled.0 on_air_settled.1
      on_air_settled.2 on_air_continues

-- A controller whose delay plays.
abbrev playing : DelayController
playing = (rewind on_air).0

playing_Playing : Playing playing
unfolding run step arm start_live ingest rewind resume_live prebuffer_ready covers any_packet
    normalize_timestamp apply_offset ingest_normalized ingest_history append set_watermark
    enforce_limits roll_prebuffer after_roll roll_at rolled pop_fronts keep_index live_gate
    emit_live moved_backwards duration history_age promote promote_building promote_release
    release_loop ◌+ℤ◌ ◌-ℤ◌
playing_Playing = record {
  delayed = refl;
  disarmed = refl;
  not_live = refl;
  trimmed = refl;
  same_epoch = refl;
  no_offset = refl;
}

playing_within : (pos 0 ≤ℤ delay_of playing) × (duration playing.buffered ≤ℤ delay_of playing)
unfolding run step arm start_live ingest rewind resume_live prebuffer_ready covers any_packet
    normalize_timestamp apply_offset ingest_normalized ingest_history append set_watermark
    enforce_limits roll_prebuffer after_roll roll_at rolled pop_fronts keep_index live_gate
    emit_live moved_backwards duration history_age promote promote_building promote_release
    release_loop ◌+ℤ◌ ◌-ℤ◌
playing_within = (omega arith, omega arith)

ingest_all_lossless_example :
    ((ingest_all playing later).ready ++ (ingest_all playing later).buffered
      ≡ playing.ready ++ (playing.buffered ++ later))
    × (duration (ingest_all playing later).buffered ≤ℤ delay_of playing)
ingest_all_lossless_example =
    ingest_all_lossless playing later playing_Playing playing_within.0 playing_within.1
      on_air_continues

run-new_controller-IsValid_example :
    IsValid (run (new_controller default_limits) (Call.set_targets (pos 3) ∷ capture))
run-new_controller-IsValid_example =
    run-new_controller-IsValid default_limits (Call.set_targets (pos 3) ∷ capture)

abbrev armed : DelayController
armed = (arm (new_controller default_limits) (pos 3)).0

armed_starts : (start_live armed).1 ≡ true
unfolding run step arm start_live ingest rewind resume_live prebuffer_ready covers any_packet
    normalize_timestamp apply_offset ingest_normalized ingest_history append set_watermark
    enforce_limits roll_prebuffer after_roll roll_at rolled pop_fronts keep_index live_gate
    emit_live moved_backwards duration history_age promote promote_building promote_release
    release_loop ◌+ℤ◌ ◌-ℤ◌
armed_starts = refl

start_live_opens_example :
    OpensLive (ingest_all (start_live armed).0 (audio_at 5 ∷ key_at 6 ∷ [])).ready
start_live_opens_example = start_live_opens armed (audio_at 5 ∷ key_at 6 ∷ []) armed_starts

playing_resumes : (resume_live playing).1 ≡ true
unfolding run step arm start_live ingest rewind resume_live prebuffer_ready covers any_packet
    normalize_timestamp apply_offset ingest_normalized ingest_history append set_watermark
    enforce_limits roll_prebuffer after_roll roll_at rolled pop_fronts keep_index live_gate
    emit_live moved_backwards duration history_age promote promote_building promote_release
    release_loop ◌+ℤ◌ ◌-ℤ◌
playing_resumes = refl

resume_live_opens_example : OpensLive (ingest_all (resume_live playing).0 later).ready
resume_live_opens_example = resume_live_opens playing later playing_resumes

checked_add_exact_example :
    (IsInt64 (int64_max +ℤ pos 1) × (checked_add int64_max (pos 1) ≡ some (int64_max +ℤ pos 1)))
    ⊎ ((¬ IsInt64 (int64_max +ℤ pos 1)) × (checked_add int64_max (pos 1) ≡ none))
checked_add_exact_example =
    checked_add_exact int64_max (pos 1) (omega arith, omega arith) (omega arith, omega arith)

-- Video that the encoder restarted at 0, after audio at 14.
abbrev restarted : EncodedPacket
restarted = key_at 0

last_input : playing.last_input_dts_us ≡ some (pos 14)
unfolding run step arm start_live ingest rewind resume_live prebuffer_ready covers any_packet
    normalize_timestamp apply_offset ingest_normalized ingest_history append set_watermark
    enforce_limits roll_prebuffer after_roll roll_at rolled pop_fronts keep_index emit_live
    moved_backwards duration history_age ◌+ℤ◌ ◌-ℤ◌
last_input = refl

joins_in_range :
    IsInt64 (pos 14)
    × IsInt64 restarted.dts_us
    × IsInt64 restarted.pts_us
    × IsInt64 (pos 14 +ℤ pos 1)
    × IsInt64 (joining_offset (pos 14) restarted)
    × IsInt64 (restarted.pts_us +ℤ joining_offset (pos 14) restarted)
unfolding ◌+ℤ◌ ◌-ℤ◌
joins_in_range = (
  (omega arith, omega arith),
  (omega arith, omega arith),
  (omega arith, omega arith),
  (omega arith, omega arith),
  (omega arith, omega arith),
  (omega arith, omega arith),
)

normalize_timestamp_joins_example : JoinsAt playing restarted (pos 14)
normalize_timestamp_joins_example =
    normalize_timestamp_joins playing restarted (pos 14) last_input joins_in_range.0
      joins_in_range.1 joins_in_range.2 joins_in_range.3 joins_in_range.4 joins_in_range.5
