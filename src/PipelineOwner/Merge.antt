-- ===== src/PipelineOwner/Merge.antt =====
-- src/pipeline-owner.cpp: the merge of two streams that `enqueue_uninterleaved` is meant to give,
-- written without its queues, and where one more packet stands in it.
use obs_live_delay_plugin.Base.Int.{ℤ, ◌<ℤ◌, leb_ℤ, ltb_ℤ}
use obs_live_delay_plugin.Base.{
  List, ◌∷◌, Bool, ◌≡◌, Every, if◌then◌else◌, [], false, ◌++◌, ap, refl, ◌&&◌, arith, true,
  Bool-cases, inl, inr,
}
use obs_live_delay_plugin.Packet.{EncodedPacket, PacketKind, is_video, is_audio}

-- A packet of video before the audio above its clock; `rest` merges the packets behind it.
unfoldable pub weave :
    EncodedPacket
    → (List EncodedPacket → List EncodedPacket)
    → List EncodedPacket
    → List EncodedPacket
weave v rest [] = v ∷ rest []
weave v rest (a ∷ audio) =
    let later = weave v rest audio in
    if leb_ℤ v.dts_us a.dts_us then v ∷ rest (a ∷ audio) else a ∷ later

-- Two streams by their clocks, where video goes first on equal ones.
unfoldable pub merge : (video audio : List EncodedPacket) → List EncodedPacket
unfolding weave
merge [] audio = audio
merge (v ∷ video) audio = weave v (merge video) audio

-- Whether `p` stands before `m` of the other kind.
abbrev pub goes_first : EncodedPacket → EncodedPacket → Bool
goes_first p m =
    if is_video p.kind
    then is_audio m.kind && leb_ℤ p.dts_us m.dts_us
    else is_video m.kind && ltb_ℤ p.dts_us m.dts_us

unfoldable pub place : EncodedPacket → List EncodedPacket → List EncodedPacket
place p [] = p ∷ []
place p (m ∷ ms) = let rest = place p ms in if goes_first p m then p ∷ m ∷ ms else m ∷ rest

abbrev pub HasKind : PacketKind → EncodedPacket → Type 0
HasKind k p = p.kind ≡ k

-- A packet whose clock is below `dts`.
abbrev pub IsBelow : ℤ → EncodedPacket → Type 0
IsBelow dts p = p.dts_us <ℤ dts

goes_first-below : (p m : EncodedPacket) → IsBelow p.dts_us m → goes_first p m ≡ false
goes_first-below p m h = ground arith

video_meets_audio :
    (p m : EncodedPacket)
    → HasKind PacketKind.video p
    → HasKind PacketKind.audio m
    → goes_first p m ≡ leb_ℤ p.dts_us m.dts_us
video_meets_audio p m kp km = rw kp (rw km refl)

audio_meets_video :
    (p m : EncodedPacket)
    → HasKind PacketKind.audio p
    → HasKind PacketKind.video m
    → goes_first p m ≡ ltb_ℤ p.dts_us m.dts_us
audio_meets_video p m kp km = rw kp (rw km refl)

meets_own :
    (p m : EncodedPacket) (k : PacketKind) → HasKind k p → HasKind k m → goes_first p m ≡ false
meets_own p m PacketKind.video kp km = rw kp (rw km refl)
meets_own p m PacketKind.audio kp km = rw kp (rw km refl)

leb_ℤ-trans : (a b c : ℤ) → leb_ℤ b a ≡ false → b <ℤ c → leb_ℤ c a ≡ false
leb_ℤ-trans a b c e h = ground arith

ltb_ℤ-trans : (a b c : ℤ) → leb_ℤ a b ≡ true → b <ℤ c → ltb_ℤ c a ≡ false
ltb_ℤ-trans a b c e h = ground arith

ltb_ℤ-flip : (a b : ℤ) → leb_ℤ a b ≡ true → ltb_ℤ b a ≡ false
ltb_ℤ-flip a b e = ground arith

ltb_ℤ-not : (a b : ℤ) → leb_ℤ a b ≡ false → ltb_ℤ b a ≡ true
ltb_ℤ-not a b e = ground arith

pub place-append :
    (p : EncodedPacket) (front back : List EncodedPacket)
    → Every (IsBelow p.dts_us) front
    → place p (front ++ back) ≡ front ++ place p back
unfolding place
place-append p [] back h = refl
place-append p (m ∷ front) back (here, later) =
    rw (goes_first-below p m here) (ap (λ ms. m ∷ ms) (place-append p front back later))

-- A packet of video that comes last of its stream.
pub merge-video :
    (p : EncodedPacket) (video audio : List EncodedPacket)
    → HasKind PacketKind.video p
    → Every (HasKind PacketKind.video) video
    → Every (IsBelow p.dts_us) video
    → Every (HasKind PacketKind.audio) audio
    → merge (video ++ (p ∷ [])) audio ≡ place p (merge video audio)
unfolding merge weave place
merge-video p [] [] kp kv below ka = refl
merge-video p [] (a ∷ audio) kp kv below (k, ka) =
    rw (video_meets_audio p a kp k) (elim (Bool-cases (leb_ℤ p.dts_us a.dts_us)) [
      | inl e ↦ rw e refl
      | inr e ↦ rw e (ap (λ ms. a ∷ ms) (merge-video p [] audio kp kv below ka))
    ])
merge-video p (v ∷ video) [] kp (kv, kvs) (b, below) ka =
    rw (meets_own p v PacketKind.video kp kv)
      (ap (λ ms. v ∷ ms) (merge-video p video [] kp kvs below ka))
merge-video p (v ∷ video) (a ∷ audio) kp (kv, kvs) (b, below) (k, ka) =
    elim (Bool-cases (leb_ℤ v.dts_us a.dts_us)) [
      | inl e ↦ rw e (
          rw (meets_own p v PacketKind.video kp kv)
            (ap (λ ms. v ∷ ms) (merge-video p video (a ∷ audio) kp kvs below (k, ka))))
      | inr e ↦ rw e (
          rw (video_meets_audio p a kp k) (
            rw (leb_ℤ-trans a.dts_us v.dts_us p.dts_us e b)
              (ap (λ ms. a ∷ ms) (merge-video p (v ∷ video) audio kp (kv, kvs) (b, below) ka))))
    ]

-- A packet of audio that comes last of its stream.
pub merge-audio :
    (p : EncodedPacket) (video audio : List EncodedPacket)
    → HasKind PacketKind.audio p
    → Every (HasKind PacketKind.video) video
    → Every (HasKind PacketKind.audio) audio
    → Every (IsBelow p.dts_us) audio
    → merge video (audio ++ (p ∷ [])) ≡ place p (merge video audio)
unfolding merge weave place
merge-audio p [] [] kp kv ka below = refl
merge-audio p [] (a ∷ audio) kp kv (k, ka) (b, below) =
    rw (meets_own p a PacketKind.audio kp k)
      (ap (λ ms. a ∷ ms) (merge-audio p [] audio kp kv ka below))
merge-audio p (v ∷ video) [] kp (kv, kvs) ka below =
    rw (audio_meets_video p v kp kv) (elim (Bool-cases (leb_ℤ v.dts_us p.dts_us)) [
      | inl e ↦ rw e (
          rw (ltb_ℤ-flip v.dts_us p.dts_us e)
            (ap (λ ms. v ∷ ms) (merge-audio p video [] kp kvs ka below)))
      | inr e ↦ rw e (rw (ltb_ℤ-not v.dts_us p.dts_us e) refl)
    ])
merge-audio p (v ∷ video) (a ∷ audio) kp (kv, kvs) (k, ka) (b, below) =
    elim (Bool-cases (leb_ℤ v.dts_us a.dts_us)) [
      | inl e ↦ rw e (
          rw (audio_meets_video p v kp kv) (
            rw (ltb_ℤ-trans v.dts_us a.dts_us p.dts_us e b)
              (ap (λ ms. v ∷ ms) (merge-audio p video (a ∷ audio) kp kvs (k, ka) (b, below)))))
      | inr e ↦ rw e (
          rw (meets_own p a PacketKind.audio kp k)
            (ap (λ ms. a ∷ ms) (merge-audio p (v ∷ video) audio kp (kv, kvs) ka below)))
    ]
