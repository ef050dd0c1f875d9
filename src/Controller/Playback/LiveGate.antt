-- ===== src/Controller/Playback/LiveGate.antt =====
-- Going live: what the controller emits between `start_live` and the next command.
use obs_live_delay_plugin.Controller.Buffer.{roll_at, roll_prebuffer, after_roll}
use obs_live_delay_plugin.Controller.State.{DelayController, set_error, watermark}
use obs_live_delay_plugin.Packet.{EncodedPacket, is_audio, is_keyframe, DelayState, is_building}
use obs_live_delay_plugin.Controller.Ingest.{
  emit_live, live_gate, append, enforce_limits, ingest_history, set_watermark, over_capacity,
  moved_backwards,
}
use obs_live_delay_plugin.Base.Int.{ℤ, ◌≤ℤ◌, ltb_ℤ}
use obs_live_delay_plugin.Base.{
  ◌≡◌, refl, List, Bool, ◌∷◌, [], false, true, ◌++◌, Every, Every-append, ◌&&◌, arith, Bool-cases,
  inl, inr, subst, ◌⊎◌, sym, String, Option_cases, if_cases, ltb, ◌||◌, is_empty, not,
}

-- Audio of the live programme is not older than the keyframe it opened on.
abbrev pub NotBefore : ℤ → EncodedPacket → Type 0
NotBefore start p = is_audio p.kind ≡ true → start ≤ℤ p.dts_us

-- What a decoder gets from live output: a keyframe first, and no audio from before it.
abbrev pub OpensLive : List EncodedPacket → Type 0
OpensLive [] = Unit {0}
OpensLive (p ∷ ps) = (is_keyframe p ≡ true) × Every (NotBefore p.dts_us) (p ∷ ps)

-- `OpensLive`, with the gate's own state: nothing is out while it waits.
abbrev pub Gated : Bool → ℤ → List EncodedPacket → Type 0
Gated true start ready = ready ≡ []
Gated false start [] = ⊥
Gated false start (p ∷ ps) =
    (is_keyframe p ≡ true) × (p.dts_us ≡ start) × Every (NotBefore start) (p ∷ ps)

Gated-append :
    (start : ℤ) (ready : List EncodedPacket) (p : EncodedPacket)
    → Gated false start ready
    → NotBefore start p
    → Gated false start (ready ++ (p ∷ []))
Gated-append start [] p g h = absurd g
Gated-append start (q ∷ qs) p (key, at, all) h =
    (key, at, Every-append (NotBefore start) (q ∷ qs) (p ∷ []) all (h, tt))

pub Gated-OpensLive :
    (waiting : Bool) (start : ℤ) (ready : List EncodedPacket)
    → Gated waiting start ready
    → OpensLive ready
Gated-OpensLive true start [] g = tt
Gated-OpensLive true start (p ∷ ps) g = cc
Gated-OpensLive false start [] g = tt
Gated-OpensLive false start (p ∷ ps) (key, at, all) =
    (key, subst (λ t. Every (NotBefore t) (p ∷ ps)) (sym at) all)

fresh_audio :
    (start : ℤ) (p : EncodedPacket)
    → (is_audio p.kind && ltb_ℤ p.dts_us start) ≡ false
    → NotBefore start p
fresh_audio start p e a = ground arith

Gated-append_fresh :
    (start : ℤ) (ready : List EncodedPacket) (p : EncodedPacket)
    → Gated false start ready
    → (is_audio p.kind && ltb_ℤ p.dts_us start) ≡ false
    → Gated false start (ready ++ (p ∷ []))
Gated-append_fresh start ready p g e = Gated-append start ready p g (fresh_audio start p e)

Gated-first : (p : EncodedPacket) → is_keyframe p ≡ true → Gated false p.dts_us ([] ++ (p ∷ []))
Gated-first p key = (key, refl, ((λ a. ground arith), tt))

abbrev pub IsGated : DelayController → Type 0
IsGated c = Gated c.waiting_for_live_keyframe c.live_keyframe_dts_us c.ready

-- The gate opens on a keyframe, and then holds back old audio only.
emit_opened :
    (c : DelayController) (p : EncodedPacket)
    → c.waiting_for_live_keyframe ≡ false
    → Gated false c.live_keyframe_dts_us c.ready
    → IsGated (emit_live c p)
unfolding emit_live live_gate
emit_opened c p w g = ground (arith, Gated-append_fresh c.live_keyframe_dts_us c.ready p g)

emit_waiting :
    (c : DelayController) (p : EncodedPacket)
    → c.waiting_for_live_keyframe ≡ true
    → c.ready ≡ []
    → IsGated (emit_live c p)
unfolding emit_live live_gate
emit_waiting c p w g = ground (arith, Gated-first p)

emit_live-IsGated : (c : DelayController) (p : EncodedPacket) → IsGated c → IsGated (emit_live c p)
emit_live-IsGated c p g = elim (Bool-cases c.waiting_for_live_keyframe) [
  | inl e ↦ emit_waiting c p e (ground arith)
  | inr e ↦ emit_opened c p e (ground arith)
]

-- A live broadcast in rewind mode, or one that an error has emptied.
pub record Airing (c : DelayController) : Type 0 where
  pub live : c.state ≡ DelayState.live
  pub armed : c.armed ≡ true
  pub passing : c.passthrough ≡ true
  pub gated : IsGated c

abbrev pub AiringOrStopped : DelayController → Type 0
AiringOrStopped c = Airing c ⊎ ((c.state ≡ DelayState.error) × (c.ready ≡ []))

pub set_error-stops :
    (c : DelayController) (m : String) → c.armed ≡ true → AiringOrStopped (set_error c m)
unfolding set_error
set_error-stops c m a = inr (ground arith, ground arith)

append-Airing : (c : DelayController) (p : EncodedPacket) → Airing c → Airing (append c p)
unfolding append set_watermark
append-Airing c p h = ground arith

roll_at-Airing : (c : DelayController) (mark : ℤ) → Airing c → Airing (roll_at c mark)
unfolding roll_at after_roll
roll_at-Airing c mark h = ground arith

pub roll_prebuffer-Airing : (c : DelayController) → Airing c → Airing (roll_prebuffer c)
unfolding roll_prebuffer
roll_prebuffer-Airing c h =
    Option_cases Airing (watermark c) (λ _. h) (λ mark _. roll_at-Airing c mark h)

enforce_limits-Airing : (c : DelayController) → Airing c → AiringOrStopped (enforce_limits c)
unfolding enforce_limits
enforce_limits-Airing c h =
    if_cases AiringOrStopped (ltb c.limits.max_bytes c.buffered_bytes)
      (λ _. set_error-stops c _ h.armed)
      (λ _.
        if_cases AiringOrStopped c.armed
          (λ _.
            if_cases AiringOrStopped (over_capacity c) (λ _. set_error-stops c _ h.armed)
              (λ _. inl h))
          (λ e. absurd (ground arith)))

pub ingest_history-Airing :
    (c : DelayController) (p : EncodedPacket) → Airing c → AiringOrStopped (ingest_history c p)
unfolding ingest_history
ingest_history-Airing c p h =
    if_cases AiringOrStopped
      ((is_building c.state || c.passthrough) && is_empty c.buffered && not (is_keyframe p))
      (λ _. inl h)
      (λ _.
        if_cases AiringOrStopped (moved_backwards c.buffered p) (λ _. set_error-stops c _ h.armed)
          (λ _. enforce_limits-Airing _ (
            if_cases Airing c.armed (λ _. roll_prebuffer-Airing _ (append-Airing c p h))
              (λ _. append-Airing c p h))))

pub emit_live-Airing : (c : DelayController) (p : EncodedPacket) → Airing c → Airing (emit_live c p)
unfolding emit_live live_gate
emit_live-Airing c p h = ground (arith, emit_live-IsGated c p h.gated)
