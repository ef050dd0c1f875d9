-- ===== src/Controller/Playback/GoLive.antt =====
-- Whole runs of `ingest` after `start_live`.
use obs_live_delay_plugin.Packet.{EncodedPacket, is_live, is_error}
use obs_live_delay_plugin.Base.Int.{ℤ, leb_ℤ, pos}
use obs_live_delay_plugin.Controller.Playback.LiveGate.{
  AiringOrStopped, Airing, OpensLive, Gated-OpensLive, set_error-stops, ingest_history-Airing,
  emit_live-Airing, roll_prebuffer-Airing,
}
use obs_live_delay_plugin.Controller.Commands.{start_live, resume_live}
use obs_live_delay_plugin.Controller.Playback.Replay.{ingest_all}
use obs_live_delay_plugin.Controller.Ingest.{ingest_normalized, ingest, after_normalize}
use obs_live_delay_plugin.Controller.State.{DelayController}
use obs_live_delay_plugin.Controller.Timestamps.{
  Normalized, apply_offset, normalize_timestamp, rebase, accept_shifted, offset_by, rebase_by,
  rebase_after, shift_packet, epoch_offset,
}
use obs_live_delay_plugin.Base.{
  none, some, inl, inr, true, false, [], ◌∷◌, ◌≡◌, Option, true, List, some, Bool, inl, arith,
  if_cases, false, inr, not, ◌||◌, Bool-cases,
}

-- A packet is passed on only by a controller that is still on the air.
abbrev Passed : Normalized → Type 0
Passed (c, none) = AiringOrStopped c
Passed (c, some p) = Airing c

Airing-same :
    (c : DelayController) (last offset : Option ℤ) (rebase : Bool)
    → Airing c
    → Airing (record c {
      last_input_dts_us = last;
      timestamp_offset_us = offset;
      rebase_next_timestamp = rebase;
    })
Airing-same c last offset rebase h = ground arith

accept_shifted-Passed :
    (o : Option EncodedPacket) (c : DelayController) → Airing c → Passed (accept_shifted c o)
accept_shifted-Passed none c h = set_error-stops c _ h.armed
accept_shifted-Passed (some p) c h =
    Airing-same c (some p.dts_us) c.timestamp_offset_us c.rebase_next_timestamp h

offset_by-Passed :
    (o : Option ℤ) (c : DelayController) (p : EncodedPacket) → Airing c → Passed (offset_by o c p)
offset_by-Passed none c p h =
    Airing-same c (some p.dts_us) c.timestamp_offset_us c.rebase_next_timestamp h
offset_by-Passed (some offset) c p h = accept_shifted-Passed (shift_packet p offset) c h

apply_offset-Passed :
    (c : DelayController) (p : EncodedPacket) → Airing c → Passed (apply_offset c p)
unfolding apply_offset
apply_offset-Passed c p h = offset_by-Passed c.timestamp_offset_us c p h

rebase_by-Passed :
    (o : Option ℤ) (c : DelayController) (p : EncodedPacket) → Airing c → Passed (rebase_by o c p)
rebase_by-Passed none c p h = set_error-stops c _ h.armed
rebase_by-Passed (some offset) c p h =
    apply_offset-Passed _ p
      (Airing-same c c.last_input_dts_us (some offset) c.rebase_next_timestamp h)

rebase_after-Passed :
    (o : Option ℤ) (c : DelayController) (p : EncodedPacket)
    → Airing c
    → Passed (rebase_after o c p)
rebase_after-Passed none c p h = apply_offset-Passed c p h
rebase_after-Passed (some last) c p h = rebase_by-Passed (epoch_offset last p.dts_us) c p h

normalize_timestamp-Passed :
    (c : DelayController) (p : EncodedPacket) → Airing c → Passed (normalize_timestamp c p)
unfolding normalize_timestamp rebase
normalize_timestamp-Passed c p h =
    if_cases Passed c.rebase_next_timestamp
      (λ _.
        rebase_after-Passed c.last_input_dts_us _ p
          (Airing-same c c.last_input_dts_us c.timestamp_offset_us false h))
      (λ _. apply_offset-Passed c p h)

ingest_normalized-Airing :
    (c : DelayController) (p : EncodedPacket) → Airing c → AiringOrStopped (ingest_normalized c p)
unfolding ingest_normalized
ingest_normalized-Airing c p h =
    if_cases AiringOrStopped (is_live c.state)
      (λ _.
        if_cases AiringOrStopped c.passthrough
          (λ _. ingest_history-Airing _ p (emit_live-Airing c p h))
          (λ _. inl (emit_live-Airing c p h)))
      (λ e. absurd (ground (arith, h.live)))

after_normalize-Airing : (r : Normalized) → Passed r → AiringOrStopped (after_normalize r)
after_normalize-Airing (c, none) h = h
after_normalize-Airing (c, some p) h = ingest_normalized-Airing c p h

ingest-Airing :
    (c : DelayController) (p : EncodedPacket) → AiringOrStopped c → AiringOrStopped (ingest c p)
unfolding ingest
ingest-Airing c p (inl h) =
    if_cases AiringOrStopped (is_error c.state) (λ _. inl h)
      (λ _. after_normalize-Airing _ (normalize_timestamp-Passed c p h))
ingest-Airing c p (inr h) =
    if_cases AiringOrStopped (is_error c.state) (λ _. inr h) (λ e. absurd (ground (arith, h.0)))

ingest_all-Airing :
    (c : DelayController) (ps : List EncodedPacket)
    → AiringOrStopped c
    → AiringOrStopped (ingest_all c ps)
unfolding ingest_all
ingest_all-Airing c [] h = h
ingest_all-Airing c (p ∷ ps) h = ingest_all-Airing (ingest c p) ps (ingest-Airing c p h)

Airing-OpensLive : (c : DelayController) → AiringOrStopped c → OpensLive c.ready
Airing-OpensLive c (inl h) =
    Gated-OpensLive c.waiting_for_live_keyframe c.live_keyframe_dts_us c.ready h.gated
Airing-OpensLive c (inr (e, r)) = rw r tt

start_live-Airing : (c : DelayController) → (start_live c).1 ≡ true → Airing (start_live c).0
unfolding start_live
start_live-Airing c e = ground arith

-- Whatever is captured after an accepted `start_live`, epochs and errors included, what is ready
-- for the viewers is empty or opens on a video keyframe and has no audio from before it.
pub start_live_opens :
    (c : DelayController) (ps : List EncodedPacket)
    → (start_live c).1 ≡ true
    → OpensLive (ingest_all (start_live c).0 ps).ready
start_live_opens c ps e = Airing-OpensLive _ (ingest_all-Airing _ ps (inl (start_live-Airing c e)))

resume_live-Airing : (c : DelayController) → (resume_live c).1 ≡ true → Airing (resume_live c).0
unfolding resume_live
resume_live-Airing c e = elim (Bool-cases refused) [
  | inl r ↦ absurd (ground arith)
  | inr r ↦ rw r (roll_prebuffer-Airing _ (ground arith))
]
  where
    refused : Bool
    refused = not c.rewind_mode || c.passthrough || leb_ℤ c.target_delay (pos 0) || is_error c.state

-- The same holds after Return Live in rewind mode.
pub resume_live_opens :
    (c : DelayController) (ps : List EncodedPacket)
    → (resume_live c).1 ≡ true
    → OpensLive (ingest_all (resume_live c).0 ps).ready
resume_live_opens c ps e =
    Airing-OpensLive _ (ingest_all-Airing _ ps (inl (resume_live-Airing c e)))
