-- ===== src/Controller/Playback/Replay.antt =====
-- While a delay plays, `ingest` feeds the tail of the history and releases its front.
use obs_live_delay_plugin.Controller.Playback.Release.{release_loop-keeps, release_loop_bounds}
use obs_live_delay_plugin.Base.{
  ◌≡◌, false, none, some, [], ◌∷◌, ◌++◌, arith, value_or, ◌≢◌, ◌∙◌, ap, List, append-nil, sym,
  append_assoc,
}
use obs_live_delay_plugin.Base.Int.{ℤ, pos, ◌≤ℤ◌}
use obs_live_delay_plugin.Packet.{EncodedPacket, DelayState}
use obs_live_delay_plugin.Controller.State.{DelayController, duration, set_error}
use obs_live_delay_plugin.Controller.Buffer.{promote, promote_building, promote_release}
use obs_live_delay_plugin.Controller.Timestamps.{apply_offset, normalize_timestamp}
use obs_live_delay_plugin.Controller.Ingest.{
  ingest, ingest_normalized, ingest_history, append, enforce_limits, set_watermark,
}

-- A delay is playing and no epoch is being joined.
pub record Playing (c : DelayController) : Type 0 where
  pub delayed : c.state ≡ DelayState.delayed
  pub disarmed : c.armed ≡ false
  pub not_live : c.passthrough ≡ false
  pub trimmed : c.pending_trim ≡ false
  pub same_epoch : c.rebase_next_timestamp ≡ false
  pub no_offset : c.timestamp_offset_us ≡ none

-- How far behind live the viewers are kept.
abbrev pub delay_of : DelayController → ℤ
delay_of c = value_or c.playback_delay c.target_delay

-- One packet goes in at the back of `before`, giving `after`.
pub record Advances (before : DelayController) (p : EncodedPacket) (after : DelayController)
    : Type 0 where
  pub playing : Playing after
  pub lossless : after.ready ++ after.buffered ≡ before.ready ++ (before.buffered ++ (p ∷ []))
  pub same_delay : delay_of after ≡ delay_of before
  pub within : pos 0 ≤ℤ delay_of before → duration after.buffered ≤ℤ delay_of before

ingest_playing :
    (c : DelayController) (p : EncodedPacket)
    → Playing c
    → ingest c p ≡ ingest_history (record c { last_input_dts_us = some p.dts_us }) p
unfolding ingest normalize_timestamp apply_offset ingest_normalized
ingest_playing c p h = ground arith

promote_playing : (c : DelayController) → Playing c → promote c ≡ promote_release c
unfolding promote promote_building
promote_playing c h = ground arith

Playing-promote_release : (c : DelayController) → Playing c → Playing (promote_release c)
unfolding promote_release
Playing-promote_release c h = ground arith

promote_release_advances :
    (c : DelayController)
    → Playing c
    → let d = promote_release c in
      (d.ready ++ d.buffered ≡ c.ready ++ c.buffered)
      × (delay_of d ≡ delay_of c)
      × (pos 0 ≤ℤ delay_of c → duration d.buffered ≤ℤ delay_of c)
unfolding promote_release
promote_release_advances c h = ground (
  arith,
  release_loop-keeps (delay_of c) c.buffered c.ready c.buffered_bytes,
  release_loop_bounds (delay_of c) c.buffered c.ready c.buffered_bytes,
)

Playing-append : (c : DelayController) (p : EncodedPacket) → Playing c → Playing (append c p)
unfolding append set_watermark
Playing-append c p h = ground arith

append_contents :
    (c : DelayController) (p : EncodedPacket)
    → ((append c p).ready ≡ c.ready)
      × ((append c p).buffered ≡ c.buffered ++ (p ∷ []))
      × (delay_of (append c p) ≡ delay_of c)
unfolding append set_watermark
append_contents c p = ground arith

-- An ingest that leaves no error is one append and one release.
ingest_history_playing :
    (c : DelayController) (p : EncodedPacket)
    → Playing c
    → (ingest_history c p).state ≢ DelayState.error
    → ingest_history c p ≡ promote_release (append c p)
unfolding ingest_history enforce_limits set_error
ingest_history_playing c p h ok =
    ground (arith, Playing-append c p h, promote_playing (append c p) (Playing-append c p h))

ingest_history-Advances :
    (c : DelayController) (p : EncodedPacket)
    → Playing c
    → (ingest_history c p).state ≢ DelayState.error
    → Advances c p (ingest_history c p)
ingest_history-Advances c p h ok =
    let a = Playing-append c p h in
    let (kept, same, bound) = promote_release_advances (append c p) a in
    let (r, b, d) = append_contents c p in
    rw (ingest_history_playing c p h ok) (record {
      playing = Playing-promote_release (append c p) a;
      lossless = cc (kept, r, b);
      same_delay = same ∙ d;
      within = rw d at bound;
    })

-- Each packet that is taken without error joins the end of the programme, and the delay stays.
pub ingest-Advances :
    (c : DelayController) (p : EncodedPacket)
    → Playing c
    → (ingest c p).state ≢ DelayState.error
    → Advances c p (ingest c p)
ingest-Advances c p h ok =
    let e = ingest_playing c p h in
    let taken : DelayController = record c { last_input_dts_us = some p.dts_us } in
    let still : Playing taken = record {
      delayed = h.delayed;
      disarmed = h.disarmed;
      not_live = h.not_live;
      trimmed = h.trimmed;
      same_epoch = h.same_epoch;
      no_offset = h.no_offset;
    } in
    let a = ingest_history-Advances taken p still (λ q. ok (ap (λ d. d.state) e ∙ q)) in
    rw e (record {
      playing = a.playing;
      lossless = a.lossless;
      same_delay = a.same_delay;
      within = a.within;
    })

unfoldable pub ingest_all : DelayController → List EncodedPacket → DelayController
ingest_all c [] = c
ingest_all c (p ∷ ps) = ingest_all (ingest c p) ps

-- An error stays until a command clears it.
ingest_error :
    (c : DelayController) (p : EncodedPacket) → c.state ≡ DelayState.error → ingest c p ≡ c
unfolding ingest
ingest_error c p e = ground arith

ingest_all_error :
    (c : DelayController) (ps : List EncodedPacket)
    → c.state ≡ DelayState.error
    → (ingest_all c ps).state ≡ DelayState.error
unfolding ingest_all
ingest_all_error c [] e = e
ingest_all_error c (p ∷ ps) e =
    ingest_all_error (ingest c p) ps (ap (λ d. d.state) (ingest_error c p e) ∙ e)

-- Unless an error stops it, a playing delay passes on its history and then every packet that
-- came in, in that order, and never falls further behind than its delay.
pub ingest_all_lossless :
    (c : DelayController) (ps : List EncodedPacket)
    → Playing c
    → pos 0 ≤ℤ delay_of c
    → duration c.buffered ≤ℤ delay_of c
    → (ingest_all c ps).state ≢ DelayState.error
    → let d = ingest_all c ps in
      (d.ready ++ d.buffered ≡ c.ready ++ (c.buffered ++ ps)) × (duration d.buffered ≤ℤ delay_of c)
unfolding ingest_all
ingest_all_lossless c [] h z w ok = (rw (append-nil c.buffered), w)
ingest_all_lossless c (p ∷ ps) h z w ok =
    let a = ingest-Advances c p h (λ e. ok (ingest_all_error (ingest c p) ps e)) in
    let (kept, bound) =
      ingest_all_lossless (ingest c p) ps a.playing (rw a.same_delay z)
        (rw a.same_delay (a.within z)) ok in
    (
      kept
          ∙ sym (append_assoc (ingest c p).ready (ingest c p).buffered ps)
          ∙ ap (λ l. l ++ ps) a.lossless
          ∙ append_assoc c.ready (c.buffered ++ (p ∷ [])) ps
          ∙ ap (◌++◌ c.ready) (append_assoc c.buffered (p ∷ []) ps),
      rw a.same_delay at bound,
    )
