-- ===== src/PipelineOwner/Interleave/Order.antt =====
-- src/pipeline-owner.cpp: a run of `enqueue_uninterleaved` and of the owner's swaps keeps its
-- queues at one place of the merge of the two streams.
use obs_live_delay_plugin.PipelineOwner.Interleave.{
  IsReached, Weaves, IfSome, hand_video-Weaves, hand_audio-Weaves, Woven, IsBelowInput, IsQueued,
  Every-map, HasKind,
}
use obs_live_delay_plugin.Base.Int.{ℤ, leb_ℤ, min_ℤ}
use obs_live_delay_plugin.PipelineOwner.Queues.{
  merge_loop, merge_ingress, Capture, merge_below, does_not_advance, hand_next, push_ingress,
  set_input,
}
use obs_live_delay_plugin.PipelineOwner.Merge.{
  merge, weave, IsBelow, merge-video, place-append, place, merge-audio,
}
use obs_live_delay_plugin.Packet.{EncodedPacket, PacketKind}
use obs_live_delay_plugin.Base.{
  ◌∷◌, [], List, ℕ, ◌≡◌, Option, suc, some, refl, if_cases, length, false, ◌+◌, subst, ◌++◌, sym,
  zero, arith, none, Option_cases, ap, ◌∙◌, Every-append, Every,
}

-- A pass of the loop leaves the clocks of the encoders alone.
abbrev SameInputs : Capture → Capture → Type 0
SameInputs c c' = (c'.video_input ≡ c.video_input) × (c'.audio_input ≡ c.audio_input)

hand_next-SameInputs :
    (watermark : ℤ) (c : Capture) (vs rest : List EncodedPacket)
    → IfSome (SameInputs c) (hand_next watermark c vs rest)
hand_next-SameInputs watermark c [] [] = tt
hand_next-SameInputs watermark c (v ∷ vs) [] =
    if_cases (IfSome (SameInputs c)) (leb_ℤ watermark v.dts_us) (λ e. tt) (λ e. (refl, refl))
hand_next-SameInputs watermark c [] (a ∷ rest) =
    if_cases (IfSome (SameInputs c)) (leb_ℤ watermark a.dts_us) (λ e. tt) (λ e. (refl, refl))
hand_next-SameInputs watermark c (v ∷ vs) (a ∷ rest) =
    if_cases (IfSome (SameInputs c)) (leb_ℤ v.dts_us a.dts_us)
      (λ f.
        if_cases (IfSome (SameInputs c)) (leb_ℤ watermark v.dts_us) (λ e. tt) (λ e. (refl, refl)))
      (λ f.
        if_cases (IfSome (SameInputs c)) (leb_ℤ watermark a.dts_us) (λ e. tt) (λ e. (refl, refl)))

module _ (p : EncodedPacket) where
  IsBelow-next :
      (input : Option ℤ) (m : EncodedPacket)
      → does_not_advance input p ≡ false
      → IsBelowInput input m
      → IsBelow p.dts_us m
  IsBelow-next none m e h = absurd h
  IsBelow-next (some dts) m e h = ground arith

  queued_next :
      (k : PacketKind) (input : Option ℤ) (m : EncodedPacket)
      → does_not_advance input p ≡ false
      → IsQueued k input m
      → IsBelow p.dts_us m
  queued_next k none m e h = absurd (h.1)
  queued_next k (some dts) m e (hk, h) = ground arith

  IsQueued-still :
      (k : PacketKind) (input : Option ℤ) (m : EncodedPacket)
      → does_not_advance input p ≡ false
      → IsQueued k input m
      → IsQueued k (some p.dts_us) m
  IsQueued-still k none m e h = absurd (h.1)
  IsQueued-still k (some dts) m e (hk, h) = (hk, ground arith)

  all_handed :
      (input : Option ℤ) (ms : List EncodedPacket)
      → does_not_advance input p ≡ false
      → Every (IsBelowInput input) ms
      → Every (IsBelow p.dts_us) ms
  all_handed input ms e =
      Every-map (IsBelowInput input) (IsBelow p.dts_us) (λ m. IsBelow-next input m e) ms

  all_before :
      (k : PacketKind) (input : Option ℤ) (ms : List EncodedPacket)
      → does_not_advance input p ≡ false
      → Every (IsQueued k input) ms
      → Every (IsBelow p.dts_us) ms
  all_before k input ms e =
      Every-map (IsQueued k input) (IsBelow p.dts_us) (λ m. queued_next k input m e) ms

  all-IsQueued :
      (k : PacketKind) (input : Option ℤ) (ms : List EncodedPacket)
      → p.kind ≡ k
      → does_not_advance input p ≡ false
      → Every (IsQueued k input) ms
      → Every (IsQueued k (some p.dts_us)) (ms ++ (p ∷ []))
  all-IsQueued k input ms kp e h =
      Every-append (IsQueued k (some p.dts_us)) ms (p ∷ [])
        (Every-map (IsQueued k input) (IsQueued k (some p.dts_us)) (λ m. IsQueued-still k input m e)
          ms h)
        ((kp, omega arith), tt)

kinds :
    (k : PacketKind) (input : Option ℤ) (ms : List EncodedPacket)
    → Every (IsQueued k input) ms
    → Every (HasKind k) ms
kinds k input = Every-map (IsQueued k input) (HasKind k) (λ m h. h.0)

module _ (out video audio : List EncodedPacket) where
  hand_next-Weaves :
      (watermark : ℤ) (c : Capture) (vs rest : List EncodedPacket)
      → IsReached watermark c.video_input
      → IsReached watermark c.audio_input
      → c.video_ingress ≡ vs
      → c.audio_ingress ≡ rest
      → Weaves out video audio c
      → IfSome (Weaves out video audio) (hand_next watermark c vs rest)
  unfolding merge weave
  hand_next-Weaves watermark c [] [] rv ra ev ea w = tt
  hand_next-Weaves watermark c (v ∷ vs) [] rv ra ev ea w =
      hand_video-Weaves out video audio watermark c v vs rv ra ev (rw ea refl) w
  hand_next-Weaves watermark c [] (a ∷ rest) rv ra ev ea w =
      hand_audio-Weaves out video audio watermark c a rest rv ra ea (rw ev refl) w
  hand_next-Weaves watermark c (v ∷ vs) (a ∷ rest) rv ra ev ea w =
      if_cases (IfSome (Weaves out video audio)) (leb_ℤ v.dts_us a.dts_us)
        (λ e. hand_video-Weaves out video audio watermark c v vs rv ra ev (rw ea (rw e refl)) w)
        (λ e. hand_audio-Weaves out video audio watermark c a rest rv ra ea (rw ev (rw e refl)) w)

  merge_loop-Weaves :
      (fuel : ℕ) (watermark : ℤ) (c : Capture)
      → IsReached watermark c.video_input
      → IsReached watermark c.audio_input
      → Weaves out video audio c
      → Weaves out video audio (merge_loop fuel watermark c)
  unfolding merge_loop
  merge_loop-Weaves zero watermark c rv ra w = w
  merge_loop-Weaves (suc fuel) watermark c rv ra w =
      Option_cases (Weaves out video audio) (hand_next watermark c c.video_ingress c.audio_ingress)
        (λ e. w)
        (λ c' e.
          (let next =
              hand_next-Weaves watermark c c.video_ingress c.audio_ingress rv ra refl refl w in
            let (sv, sa) =
              subst (IfSome (SameInputs c)) e
                (hand_next-SameInputs watermark c c.video_ingress c.audio_ingress) in
            merge_loop-Weaves fuel watermark c' (subst (IsReached watermark) (sym sv) rv)
              (subst (IsReached watermark) (sym sa) ra)
              (subst (IfSome (Weaves out video audio)) e next)))

  merge_below-Weaves :
      (c : Capture) (vin ain : Option ℤ)
      → c.video_input ≡ vin
      → c.audio_input ≡ ain
      → Weaves out video audio c
      → Weaves out video audio (merge_below c vin ain)
  merge_below-Weaves c none ain ev ea w = w
  merge_below-Weaves c (some vin) none ev ea w = w
  merge_below-Weaves c (some vin) (some ain) ev ea w =
      merge_loop-Weaves (length c.video_ingress + length c.audio_ingress) (min_ℤ vin ain) c
        (subst (IsReached (min_ℤ vin ain)) (sym ev) (ground arith))
        (subst (IsReached (min_ℤ vin ain)) (sym ea) (ground arith)) w

  pub merge_ingress-Weaves :
      (c : Capture) → Weaves out video audio c → Weaves out video audio (merge_ingress c)
  unfolding merge_ingress
  merge_ingress-Weaves c w = merge_below-Weaves c c.video_input c.audio_input refl refl w

  -- A packet above the clock of its encoder comes last of its stream.
  pub push_video-Weaves :
      (c : Capture) (p : EncodedPacket)
      → p.kind ≡ PacketKind.video
      → does_not_advance c.video_input p ≡ false
      → Weaves out video audio c
      → Woven
          (out ++ c.packets)
          (video ++ (p ∷ []))
          audio
          (push_ingress (set_input c PacketKind.video p.dts_us) PacketKind.video p)
  push_video-Weaves c p k e w =
      let handed = all_handed p c.video_input (out ++ c.packets) e w.below_video in
      record {
        no_floor = w.no_floor;
        streams =
            ap (λ ms. (out ++ c.packets) ++ ms)
              (merge-video p c.video_ingress c.audio_ingress k
                (kinds PacketKind.video c.video_input c.video_ingress w.video_queue)
                (all_before p PacketKind.video c.video_input c.video_ingress e w.video_queue)
                (kinds PacketKind.audio c.audio_input c.audio_ingress w.audio_queue))
            ∙ sym (place-append p (out ++ c.packets) (merge c.video_ingress c.audio_ingress) handed)
            ∙ ap (place p) w.streams
            ∙ sym (
                merge-video p video audio k (kinds PacketKind.video c.video_input video w.videos)
                  (all_before p PacketKind.video c.video_input video e w.videos)
                  (kinds PacketKind.audio c.audio_input audio w.audios));
        below_video = handed;
        below_audio = w.below_audio;
        videos = all-IsQueued p PacketKind.video c.video_input video k e w.videos;
        audios = w.audios;
        video_queue =
            all-IsQueued p PacketKind.video c.video_input c.video_ingress k e w.video_queue;
        audio_queue = w.audio_queue;
      }

  pub push_audio-Weaves :
      (c : Capture) (p : EncodedPacket)
      → p.kind ≡ PacketKind.audio
      → does_not_advance c.audio_input p ≡ false
      → Weaves out video audio c
      → Woven
          (out ++ c.packets)
          video
          (audio ++ (p ∷ []))
          (push_ingress (set_input c PacketKind.audio p.dts_us) PacketKind.audio p)
  push_audio-Weaves c p k e w =
      let handed = all_handed p c.audio_input (out ++ c.packets) e w.below_audio in
      record {
        no_floor = w.no_floor;
        streams =
            ap (λ ms. (out ++ c.packets) ++ ms)
              (merge-audio p c.video_ingress c.audio_ingress k
                (kinds PacketKind.video c.video_input c.video_ingress w.video_queue)
                (kinds PacketKind.audio c.audio_input c.audio_ingress w.audio_queue)
                (all_before p PacketKind.audio c.audio_input c.audio_ingress e w.audio_queue))
            ∙ sym (place-append p (out ++ c.packets) (merge c.video_ingress c.audio_ingress) handed)
            ∙ ap (place p) w.streams
            ∙ sym (
                merge-audio p video audio k (kinds PacketKind.video c.video_input video w.videos)
                  (kinds PacketKind.audio c.audio_input audio w.audios)
                  (all_before p PacketKind.audio c.audio_input audio e w.audios));
        below_audio = handed;
        below_video = w.below_video;
        audios = all-IsQueued p PacketKind.audio c.audio_input audio k e w.audios;
        videos = w.videos;
        audio_queue =
            all-IsQueued p PacketKind.audio c.audio_input c.audio_ingress k e w.audio_queue;
        video_queue = w.video_queue;
      }
