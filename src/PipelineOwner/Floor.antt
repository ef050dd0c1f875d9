-- ===== src/PipelineOwner/Floor.antt =====
-- src/pipeline-owner.cpp: how long the floor under late packets stands.
use obs_live_delay_plugin.Packet.{EncodedPacket, is_video, PacketKind}
use obs_live_delay_plugin.Base.Int.{ℤ, leb_ℤ}
use obs_live_delay_plugin.PipelineOwner.Queues.{
  Capture, Admission, stale, refused, taken, hand_next, merge_loop, merge_below, merge_ingress,
  take_packet, admit_ordered, admit_from, admit_packet, floor_after, push_ingress, set_input,
  does_not_advance, input_of, overflows, is_stalled, ingress_of,
}
use obs_live_delay_plugin.PipelineOwner.Interleave.{CaptureCall, swap_packets}
use obs_live_delay_plugin.PipelineOwner.Bounds.{capture_states, capture_step, queues_after}
use obs_live_delay_plugin.Base.{
  ◌∷◌, [], some, none, ℕ, List, Option, ◌≡◌, ◌⊎◌, inl, inr, Every, refl, if_cases, true, false,
  zero, suc, ◌∙◌, Option_cases, subst, sym,
}

-- The capture behind a pass of the loop has the floor of before.
abbrev SameFloor : Option ℤ → Option Capture → Type 0
SameFloor floor none = Unit
SameFloor floor (some c) = c.capture_floor ≡ floor

hand_next-SameFloor :
    (watermark : ℤ) (c : Capture) (video audio : List EncodedPacket)
    → SameFloor c.capture_floor (hand_next watermark c video audio)
hand_next-SameFloor watermark c [] [] = tt
hand_next-SameFloor watermark c (v ∷ vs) [] =
    if_cases (SameFloor c.capture_floor) (leb_ℤ watermark v.dts_us) (λ e. tt) (λ e. refl)
hand_next-SameFloor watermark c [] (a ∷ rest) =
    if_cases (SameFloor c.capture_floor) (leb_ℤ watermark a.dts_us) (λ e. tt) (λ e. refl)
hand_next-SameFloor watermark c (v ∷ vs) (a ∷ rest) =
    if_cases (SameFloor c.capture_floor) (leb_ℤ v.dts_us a.dts_us)
      (λ e. if_cases (SameFloor c.capture_floor) (leb_ℤ watermark v.dts_us) (λ e. tt) (λ e. refl))
      (λ e. if_cases (SameFloor c.capture_floor) (leb_ℤ watermark a.dts_us) (λ e. tt) (λ e. refl))

merge_loop-floor :
    (fuel : ℕ) (watermark : ℤ) (c : Capture)
    → (merge_loop fuel watermark c).capture_floor ≡ c.capture_floor
unfolding merge_loop
merge_loop-floor zero watermark c = refl
merge_loop-floor (suc fuel) watermark c =
    Option_cases (λ (d : Capture). d.capture_floor ≡ c.capture_floor)
      (hand_next watermark c c.video_ingress c.audio_ingress) (λ e. refl)
      (λ c' e.
        merge_loop-floor fuel watermark c'
        ∙ subst (SameFloor c.capture_floor) e
            (hand_next-SameFloor watermark c c.video_ingress c.audio_ingress))

merge_below-floor :
    (c : Capture) (video audio : Option ℤ)
    → (merge_below c video audio).capture_floor ≡ c.capture_floor
merge_below-floor c none audio = refl
merge_below-floor c (some video) none = refl
merge_below-floor c (some video) (some audio) = merge_loop-floor _ _ c

-- What an admission leaves has a floor.
abbrev Leaves : Option ℤ → Admission → Type 0
Leaves floor stale = Unit
Leaves floor (refused c message) = c.capture_floor ≡ floor
Leaves floor (taken c) = c.capture_floor ≡ floor

set_input-floor :
    (c : Capture) (k : PacketKind) (dts : ℤ) → (set_input c k dts).capture_floor ≡ c.capture_floor
set_input-floor c PacketKind.video dts = refl
set_input-floor c PacketKind.audio dts = refl

push_ingress-floor :
    (c : Capture) (k : PacketKind) (p : EncodedPacket)
    → (push_ingress c k p).capture_floor ≡ c.capture_floor
push_ingress-floor c PacketKind.video p = refl
push_ingress-floor c PacketKind.audio p = refl

take_packet-Leaves : (c : Capture) (p : EncodedPacket) → Leaves c.capture_floor (take_packet c p)
unfolding take_packet merge_ingress
take_packet-Leaves c p =
    let set = set_input c p.kind p.dts_us in
    let pushed = push_ingress set p.kind p in
    if_cases (Leaves c.capture_floor) (is_stalled (ingress_of c p.kind) p)
      (λ e. set_input-floor c p.kind p.dts_us)
      (λ e.
        merge_below-floor pushed pushed.video_input pushed.audio_input
        ∙ push_ingress-floor set p.kind p
        ∙ set_input-floor c p.kind p.dts_us)

admit_ordered-Leaves :
    (c : Capture) (p : EncodedPacket) → Leaves c.capture_floor (admit_ordered c p)
unfolding admit_ordered
admit_ordered-Leaves c p =
    if_cases (Leaves c.capture_floor) (does_not_advance (input_of c p.kind) p) (λ e. refl)
      (λ e.
        if_cases (Leaves c.capture_floor) (overflows c p) (λ f. refl) (λ f. take_packet-Leaves c p))

floor_after-audio :
    (floor : ℤ) (p : EncodedPacket) → is_video p.kind ≡ false → floor_after floor p ≡ some floor
floor_after-audio floor p e = rw e refl

-- A call other than the arrival of video above `floor`.
abbrev pub IsBelow : ℤ → CaptureCall → Type 0
IsBelow floor CaptureCall.swapped = Unit
IsBelow floor (CaptureCall.arrives p) = (is_video p.kind ≡ false) ⊎ (leb_ℤ p.dts_us floor ≡ true)

admit_from-Leaves :
    (c : Capture) (p : EncodedPacket) (floor : ℤ)
    → IsBelow floor (CaptureCall.arrives p)
    → Leaves (some floor) (admit_from c p (some floor))
admit_from-Leaves c p floor (inr low) = rw low tt
admit_from-Leaves c p floor (inl sound) =
    if_cases (Leaves (some floor)) (leb_ℤ p.dts_us floor) (λ e. tt)
      (λ e.
        subst (λ f. Leaves f (admit_ordered (record c { capture_floor = floor_after floor p }) p))
          (floor_after-audio floor p sound)
          (admit_ordered-Leaves (record c { capture_floor = floor_after floor p }) p))

queues_after-floor :
    (c : Capture) (r : Admission) (floor : Option ℤ)
    → c.capture_floor ≡ floor
    → Leaves floor r
    → (queues_after c r).capture_floor ≡ floor
queues_after-floor c stale floor e h = e
queues_after-floor c (refused c' message) floor e h = h
queues_after-floor c (taken c') floor e h = h

capture_step-floor :
    (c : Capture) (call : CaptureCall) (floor : ℤ)
    → c.capture_floor ≡ some floor
    → IsBelow floor call
    → (capture_step c call).capture_floor ≡ some floor
unfolding capture_step swap_packets admit_packet
capture_step-floor c CaptureCall.swapped floor e h = e
capture_step-floor c (CaptureCall.arrives p) floor e h =
    queues_after-floor c (admit_from c p c.capture_floor) (some floor) e
      (subst (λ f. Leaves (some floor) (admit_from c p f)) (sym e) (admit_from-Leaves c p floor h))

-- As long as no video above it arrives, the floor stands.
pub capture_states-floor :
    (calls : List CaptureCall) (c : Capture) (floor : ℤ)
    → c.capture_floor ≡ some floor
    → Every (IsBelow floor) calls
    → (capture_states c calls).capture_floor ≡ some floor
unfolding capture_states
capture_states-floor [] c floor e h = e
capture_states-floor (call ∷ calls) c floor e (here, later) =
    capture_states-floor calls (capture_step c call) floor (capture_step-floor c call floor e here)
      later
