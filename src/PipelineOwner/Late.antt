-- ===== src/PipelineOwner/Late.antt =====
-- src/pipeline-owner.cpp: what the encoders still deliver of the time before a cleared capture.
use obs_live_delay_plugin.PipelineOwner.Floor.{IsBelow, capture_states-floor}
use obs_live_delay_plugin.PipelineOwner.Bounds.{capture_states}
use obs_live_delay_plugin.Base.Int.{◌≤ℤ◌, leb_ℤ, max_ℤ, int64_min}
use obs_live_delay_plugin.PipelineOwner.{PipelineOwner, EncodedPacket, ℤ, is_video}
use obs_live_delay_plugin.PipelineOwner.Calls.{raised_floor}
use obs_live_delay_plugin.PipelineOwner.Queues.{
  Capture, stale, admit_packet, clear_capture, admit_from,
}
use obs_live_delay_plugin.PipelineOwner.Interleave.{IsAtMostInput, CaptureCall}
use obs_live_delay_plugin.Base.{
  none, some, ◌∷◌, [], ◌≡◌, false, ◌⊎◌, Option, if◌then◌else◌, is_some, some, List, ◌||◌, inl, true,
  value_or, arith, inr, refl, Every,
}

-- A packet that is not above the clock that one of the encoders had reached.
abbrev pub IsLate {ℓ} : {C : Type ℓ} → PipelineOwner C → EncodedPacket → Type 0
IsLate o p = IsAtMostInput o.capture.video_input p ⊎ IsAtMostInput o.capture.audio_input p

-- A call that leaves the floor of `o` standing: any but the arrival of video above it.
abbrev pub KeepsFloor {ℓ} : {C : Type ℓ} → PipelineOwner C → CaptureCall → Type 0
KeepsFloor o CaptureCall.swapped = Unit
KeepsFloor o (CaptureCall.arrives p) = (is_video p.kind ≡ false) ⊎ IsLate o p

leb_max_left : (a b c : ℤ) → a ≤ℤ b → leb_ℤ a (max_ℤ b c) ≡ true
leb_max_left a b c h = ground arith

leb_max_right : (a b c : ℤ) → a ≤ℤ c → leb_ℤ a (max_ℤ b c) ≡ true
leb_max_right a b c h = ground arith

-- The floor of the two clocks.
abbrev floor_of : (video audio old : Option ℤ) → Option ℤ
floor_of video audio old =
    if is_some video || is_some audio
    then some (max_ℤ (value_or video int64_min) (value_or audio int64_min))
    else old

-- A packet that is not above one of two clocks.
abbrev Late : (video audio : Option ℤ) → EncodedPacket → Type 0
Late video audio p = IsAtMostInput video p ⊎ IsAtMostInput audio p

-- Where there is a late packet, the floor is one, and no late packet is above it.
covering_floor :
    (p : EncodedPacket) (video audio old : Option ℤ)
    → Late video audio p
    → (floor : ℤ) × (floor_of video audio old ≡ some floor)
      × ((q : EncodedPacket) → Late video audio q → leb_ℤ q.dts_us floor ≡ true)
covering_floor p none none old (inl h) = absurd h
covering_floor p none none old (inr h) = absurd h
covering_floor p (some v) none old late = (
  max_ℤ v int64_min,
  refl,
  λ q h. elim h [ inl l ↦ leb_max_left q.dts_us v int64_min l | inr r ↦ absurd r ],
)
covering_floor p none (some a) old late = (
  max_ℤ int64_min a,
  refl,
  λ q h. elim h [ inl l ↦ absurd l | inr r ↦ leb_max_right q.dts_us int64_min a r ],
)
covering_floor p (some v) (some a) old late = (
  max_ℤ v a,
  refl,
  λ q h. elim h [ inl l ↦ leb_max_left q.dts_us v a l | inr r ↦ leb_max_right q.dts_us v a r ],
)

KeepsFloor-IsBelow :
    {C : Type 0} (o : PipelineOwner C) (floor : ℤ)
    → ((q : EncodedPacket) → IsLate o q → leb_ℤ q.dts_us floor ≡ true)
    → (calls : List CaptureCall) → Every (KeepsFloor o) calls
    → Every (IsBelow floor) calls
KeepsFloor-IsBelow o floor f [] h = tt
KeepsFloor-IsBelow o floor f (CaptureCall.swapped ∷ calls) (here, later) =
    (tt, KeepsFloor-IsBelow o floor f calls later)
KeepsFloor-IsBelow o floor f ((CaptureCall.arrives p) ∷ calls) (inl sound, later) =
    (inl sound, KeepsFloor-IsBelow o floor f calls later)
KeepsFloor-IsBelow o floor f ((CaptureCall.arrives p) ∷ calls) (inr low, later) =
    (inr (f p low), KeepsFloor-IsBelow o floor f calls later)

stale_from :
    (c : Capture) (p : EncodedPacket) (old : Option ℤ) (floor : ℤ)
    → old ≡ some floor
    → leb_ℤ p.dts_us floor ≡ true
    → admit_from c p old ≡ stale
stale_from c p old floor e low = rw e (rw low refl)

pub late_dropped :
    {C : Type 0} (o : PipelineOwner C) (calls : List CaptureCall) (p : EncodedPacket)
    → Every (KeepsFloor o) calls
    → IsLate o p
    → admit_packet
        (capture_states
          (clear_capture (record o.capture { capture_floor = raised_floor o.capture }))
          calls)
        p
      ≡ stale
unfolding raised_floor clear_capture admit_packet
late_dropped o calls p keeps late =
    let c = clear_capture (record o.capture { capture_floor = raised_floor o.capture }) in
    let (floor, set, covers) =
      covering_floor p o.capture.video_input o.capture.audio_input o.capture.capture_floor late in
    let stands =
      capture_states-floor calls c floor set (KeepsFloor-IsBelow o floor covers calls keeps) in
    stale_from (capture_states c calls) p (capture_states c calls).capture_floor floor stands
      (covers p late)
