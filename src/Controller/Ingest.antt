-- ===== src/Controller/Ingest.antt =====
-- src/delay-controller.cpp: `ingest`, which takes one packet of the programme, and
-- `take_ready_packets`, which hands over what is released.
use obs_live_delay_plugin.Base.{
  Bool, true, false, not, ◌&&◌, ◌||◌, none, some, List, [], ◌∷◌, ◌++◌, length, last_from,
  if◌then◌else◌, is_empty, ltb, add_size,
}
use obs_live_delay_plugin.Base.Int.{ℤ, pos, ◌+ℤ◌, ltb_ℤ}
use obs_live_delay_plugin.Packet.{
  EncodedPacket, PacketKind, is_keyframe, is_audio, is_error, is_live, is_building,
}
use obs_live_delay_plugin.Diagnostic.{DiagnosticCode, diagnostic_error}
use obs_live_delay_plugin.Controller.State.{DelayController, duration, set_error}
use obs_live_delay_plugin.Controller.Buffer.{roll_prebuffer, promote}
use obs_live_delay_plugin.Controller.Timestamps.{Normalized, normalize_timestamp}

-- Live output waits for a keyframe, and passes no audio older than that.
unfoldable pub live_gate : DelayController → EncodedPacket → DelayController × Bool
live_gate c p =
    if c.waiting_for_live_keyframe
    then (if is_keyframe p
        then (record c { waiting_for_live_keyframe = false; live_keyframe_dts_us = p.dts_us }, true)
        else (c, false))
    else (c, not (is_audio p.kind && ltb_ℤ p.dts_us c.live_keyframe_dts_us))

unfoldable pub emit_live : DelayController → EncodedPacket → DelayController
unfolding live_gate
emit_live c p =
    let (c', emit) = live_gate c p in
    if emit then record c' { ready = c'.ready ++ (p ∷ []) } else c'

-- `!buffered_.empty() && packet.dts_us < buffered_.back().dts_us`.
unfoldable pub moved_backwards : List EncodedPacket → EncodedPacket → Bool
moved_backwards [] p = false
moved_backwards (q ∷ qs) p = ltb_ℤ p.dts_us (last_from q qs).dts_us

unfoldable pub set_watermark : DelayController → PacketKind → ℤ → DelayController
set_watermark c PacketKind.video dts = record c { video_watermark = some dts }
set_watermark c PacketKind.audio dts = record c { audio_watermark = some dts }

-- The packet joins the history.
unfoldable pub append : DelayController → EncodedPacket → DelayController
unfolding set_watermark
append c p =
    set_watermark
      (record c {
        buffered = c.buffered ++ (p ∷ []);
        buffered_bytes = add_size c.buffered_bytes (length p.payload);
      })
      p.kind p.dts_us

-- `buffered_.size() > 262144 || duration_locked() > limits_.max_delay + 5 s`.
abbrev pub over_capacity : DelayController → Bool
over_capacity c =
    ltb 262144 (length c.buffered)
    || ltb_ℤ (c.limits.max_delay +ℤ pos 5_000_000) (duration c.buffered)

-- The end of `ingest`, from the memory limit on.
unfoldable pub enforce_limits : DelayController → DelayController
enforce_limits c =
    if ltb c.limits.max_bytes c.buffered_bytes
    then set_error c (
        diagnostic_error DiagnosticCode.output_controller_failed
          "Encoded packet buffer reached its memory limit")
    else if c.armed
    then (if over_capacity c
        then set_error c "PREBUFFER_CAPACITY: compressed history exceeded its time or packet budget"
        else c)
    else promote c

unfoldable pub ingest_history : DelayController → EncodedPacket → DelayController
ingest_history c p =
    if (is_building c.state || c.passthrough) && is_empty c.buffered && not (is_keyframe p)
    then c
    else if moved_backwards c.buffered p
    then set_error c (
        diagnostic_error DiagnosticCode.output_controller_failed
          "Encoder packet timestamps moved backwards")
    else (let c' = append c p in enforce_limits (if c.armed then roll_prebuffer c' else c'))

unfoldable pub ingest_normalized : DelayController → EncodedPacket → DelayController
ingest_normalized c p =
    if is_live c.state
    then (let c' = emit_live c p in if c.passthrough then ingest_history c' p else c')
    else ingest_history c p

abbrev pub after_normalize : Normalized → DelayController
after_normalize (c, none) = c
after_normalize (c, some p) = ingest_normalized c p

unfoldable pub ingest : DelayController → EncodedPacket → DelayController
ingest c p = if is_error c.state then c else after_normalize (normalize_timestamp c p)

unfoldable pub take_ready_packets : DelayController → DelayController × List EncodedPacket
take_ready_packets c = (record c { ready = [] }, c.ready)
