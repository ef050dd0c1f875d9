-- ===== src/Controller/Playback/Rewind.antt =====
-- Start Delay on a live broadcast: `rewind` turns the kept history into the programme.
use obs_live_delay_plugin.Controller.Playback.Replay.{ingest_all, ingest_all_lossless}
use obs_live_delay_plugin.Controller.History.Invariant.{IsValid}
use obs_live_delay_plugin.Base.Int.{ℤ, ◌≤ℤ◌, pos, int_laws}
use obs_live_delay_plugin.Controller.History.Fits.{Ordered}
use obs_live_delay_plugin.Controller.Commands.{rewind}
use obs_live_delay_plugin.Controller.State.{
  history_age, covers, prebuffer_ready, duration, DelayController, watermark,
}
use obs_live_delay_plugin.Packet.{EncodedPacket, is_keyframe, DelayState}
use obs_live_delay_plugin.Base.{
  ◌≡◌, List, ◌∷◌, true, last_from, arith, [], false, some, Option-cases, none, ◌≢◌, ◌++◌, inl, refl,
  inr,
}

-- The first packet is a video keyframe, from which a decoder can start.
abbrev pub StartsOnKeyframe : List EncodedPacket → Type 0
StartsOnKeyframe [] = ⊥
StartsOnKeyframe (p ∷ ps) = is_keyframe p ≡ true

Before-last :
    (p : EncodedPacket) (ps : List EncodedPacket)
    → Ordered (p ∷ ps)
    → p.dts_us ≤ℤ (last_from p ps).dts_us
Before-last p [] o = omega arith
Before-last p (q ∷ qs) o = omega (arith, o.0, Before-last q qs o.1)

pub history_age-nonneg : (ps : List EncodedPacket) → Ordered ps → pos 0 ≤ℤ history_age ps
unfolding history_age
history_age-nonneg [] o = omega arith
history_age-nonneg (p ∷ ps) o = omega (int_laws, Before-last p ps o)

pub duration-le-history_age : (ps : List EncodedPacket) → Ordered ps → duration ps ≤ℤ history_age ps
unfolding history_age duration
duration-le-history_age [] o = omega arith
duration-le-history_age (p ∷ []) o = omega int_laws
duration-le-history_age (p ∷ q ∷ qs) o = grind (arith, history_age-nonneg (p ∷ q ∷ qs) o)

covers_starts :
    (target mark : ℤ) (ps : List EncodedPacket) → covers target mark ps ≡ true → StartsOnKeyframe ps
unfolding covers
covers_starts target mark [] e = cc
covers_starts target mark (p ∷ ps) e = ground arith

prebuffer_ready_starts :
    (c : DelayController) → prebuffer_ready c ≡ true → StartsOnKeyframe c.buffered
unfolding prebuffer_ready
prebuffer_ready_starts c e = elim (Option-cases (watermark c)) [
  | inl w ↦ absurd (ground arith)
  | inr (mark, w) ↦ covers_starts c.target_delay mark c.buffered (ground arith)
]

-- What an accepted `rewind` leaves.
abbrev replaying : DelayController → DelayController
replaying c = record c {
  ready = [];
  passthrough = false;
  playback_delay = some (history_age c.buffered);
  armed = false;
  state = DelayState.delayed;
}

rewind_state :
    (c : DelayController)
    → (rewind c).1 ≡ true
    → (prebuffer_ready c ≡ true) × ((rewind c).0 ≡ replaying c)
unfolding rewind
rewind_state c e = ground arith

-- An accepted `rewind` puts nothing between the kept history and what is captured later: until an
-- error or another command, the programme is that history, which opens on a video keyframe, and
-- then every captured packet in order, and viewers stay within the age of the history.
pub rewind_replays :
    (c : DelayController) (ps : List EncodedPacket)
    → IsValid c
    → (rewind c).1 ≡ true
    → c.pending_trim ≡ false
    → c.rebase_next_timestamp ≡ false
    → c.timestamp_offset_us ≡ none
    → (ingest_all (rewind c).0 ps).state ≢ DelayState.error
    → let d = ingest_all (rewind c).0 ps in
      StartsOnKeyframe c.buffered
      × (d.ready ++ d.buffered ≡ c.buffered ++ ps)
      × (duration d.buffered ≤ℤ history_age c.buffered)
rewind_replays c ps v accepted t r o ok =
    let (ready, e) = rewind_state c accepted in
    let (kept, bound) =
      ingest_all_lossless (replaying c) ps
        (record {
          delayed = refl;
          disarmed = refl;
          not_live = refl;
          trimmed = t;
          same_epoch = r;
          no_offset = o;
        })
        (history_age-nonneg c.buffered v.fits.ordered)
        (duration-le-history_age c.buffered v.fits.ordered) (rw e at ok) in
    (prebuffer_ready_starts c ready, rw e kept, rw e bound)
