-- ===== src/PipelineOwner/Interleave.antt =====
-- src/pipeline-owner.cpp: whatever the order in which the two encoders call
-- `enqueue_uninterleaved`, and whenever the owner takes `packets_`, the packets come out merged.
pub mod Order
pub mod Runs
use obs_live_delay_plugin.PipelineOwner.Merge.{HasKind, merge}
use obs_live_delay_plugin.Base.Int.{ℤ, ◌<ℤ◌, ◌≤ℤ◌, leb_ℤ}
use obs_live_delay_plugin.Base.{
  ◌∷◌, Option, List, [], some, if◌then◌else◌, ◌≡◌, none, ◌++◌, Every, subst, ap, append_assoc, sym,
  false, if_cases, Every-append, ◌∙◌, arith,
}
use obs_live_delay_plugin.PipelineOwner.Queues.{
  Capture, Admission, refused, admit_packet, taken, stale, hand_video, hand_audio,
}
use obs_live_delay_plugin.Packet.{EncodedPacket, PacketKind, is_video, is_audio}

-- A packet that an encoder delivers, and the owner's `packets.swap(packets_)`.
pub data CaptureCall : Type 0 where
  arrives : EncodedPacket → CaptureCall
  swapped : CaptureCall

unfoldable pub swap_packets : Capture → Capture
swap_packets c = record c { packets = []; packet_bytes = 0 }

-- The queues and the packets taken so far, and none where a call fails.
abbrev pub after_admission : Capture → Admission → Option Capture
after_admission c stale = some c
after_admission c (refused c' message) = none
after_admission c (taken c') = some c'

unfoldable pub capture_run :
    Capture → List EncodedPacket → List CaptureCall → Option (Capture × List EncodedPacket)
capture_run c out [] = some (c, out)
capture_run c out ((CaptureCall.arrives p) ∷ calls) = elim (after_admission c (admit_packet c p)) [
  | none ↦ none
  | some c' ↦ capture_run c' out calls
]
capture_run c out (CaptureCall.swapped ∷ calls) =
    capture_run (swap_packets c) (out ++ c.packets) calls

-- The packets of one kind, in the order in which its encoder delivers them.
abbrev pub arrivals : PacketKind → List CaptureCall → List EncodedPacket
arrivals k [] = []
arrivals k (CaptureCall.swapped ∷ calls) = arrivals k calls
arrivals PacketKind.video ((CaptureCall.arrives p) ∷ calls) =
    if is_video p.kind then p ∷ arrivals PacketKind.video calls else arrivals PacketKind.video calls
arrivals PacketKind.audio ((CaptureCall.arrives p) ∷ calls) =
    if is_audio p.kind then p ∷ arrivals PacketKind.audio calls else arrivals PacketKind.audio calls

-- Packets below a clock, and none below one that has not started.
abbrev pub IsBelowInput : Option ℤ → EncodedPacket → Type 0
IsBelowInput none p = ⊥
IsBelowInput (some dts) p = p.dts_us <ℤ dts

abbrev pub IsAtMostInput : Option ℤ → EncodedPacket → Type 0
IsAtMostInput none p = ⊥
IsAtMostInput (some dts) p = p.dts_us ≤ℤ dts

abbrev pub IsQueued : PacketKind → Option ℤ → EncodedPacket → Type 0
IsQueued k input p = HasKind k p × IsAtMostInput input p

-- Where `handed` was handed on of the streams `video` and `audio`.
pub record Woven (handed video audio : List EncodedPacket) (c : Capture) : Type 0 where
  no_floor : c.capture_floor ≡ none
  streams : handed ++ merge c.video_ingress c.audio_ingress ≡ merge video audio
  below_video : Every (IsBelowInput c.video_input) handed
  below_audio : Every (IsBelowInput c.audio_input) handed
  videos : Every (IsQueued PacketKind.video c.video_input) video
  audios : Every (IsQueued PacketKind.audio c.audio_input) audio
  video_queue : Every (IsQueued PacketKind.video c.video_input) c.video_ingress
  audio_queue : Every (IsQueued PacketKind.audio c.audio_input) c.audio_ingress

abbrev pub IfSome : (Capture → Type 0) → Option Capture → Type 0
IfSome P none = Unit
IfSome P (some c) = P c

abbrev pub IfTaken : (Capture → Type 0) → Admission → Type 0
IfTaken P stale = ⊥
IfTaken P (refused c message) = Unit
IfTaken P (taken c) = P c

module _ (Q : EncodedPacket → Type 0) where
  Every-snoc :
      (front back : List EncodedPacket) (p : EncodedPacket)
      → Every Q (front ++ back)
      → Q p
      → Every Q (front ++ (back ++ (p ∷ [])))
  Every-snoc front back p h q =
      subst (Every Q) (append_assoc front back (p ∷ []))
        (Every-append Q (front ++ back) (p ∷ []) h (q, tt))

  pub Every-map :
      (R : EncodedPacket → Type 0)
      → ((m : EncodedPacket) → Q m → R m)
      → (ms : List EncodedPacket) → Every Q ms
      → Every R ms
  Every-map R f [] h = tt
  Every-map R f (m ∷ ms) (here, later) = (f m here, Every-map R f ms later)

-- A packet goes over from the front of the pending ones to the end of those handed on.
handed_over :
    (out packets pending : List EncodedPacket) (p : EncodedPacket)
    → (out ++ (packets ++ (p ∷ []))) ++ pending ≡ (out ++ packets) ++ (p ∷ pending)
handed_over out packets pending p =
    ap (λ ms. ms ++ pending) (sym (append_assoc out packets (p ∷ [])))
    ∙ append_assoc (out ++ packets) (p ∷ []) pending

-- The watermark is at most the clocks of both encoders.
abbrev pub IsReached : ℤ → Option ℤ → Type 0
IsReached watermark none = ⊥
IsReached watermark (some dts) = watermark ≤ℤ dts

below_reached :
    (watermark : ℤ) (input : Option ℤ) (p : EncodedPacket)
    → IsReached watermark input
    → leb_ℤ watermark p.dts_us ≡ false
    → IsBelowInput input p
below_reached watermark none p reached e = reached
below_reached watermark (some dts) p reached e = ground arith

module _ (out video audio : List EncodedPacket) where
  abbrev pub Weaves : Capture → Type 0
  Weaves c = Woven (out ++ c.packets) video audio c

  pub hand_video-Weaves :
      (watermark : ℤ) (c : Capture) (v : EncodedPacket) (vs : List EncodedPacket)
      → IsReached watermark c.video_input
      → IsReached watermark c.audio_input
      → c.video_ingress ≡ v ∷ vs
      → merge (v ∷ vs) c.audio_ingress ≡ v ∷ merge vs c.audio_ingress
      → Weaves c
      → IfSome Weaves (hand_video watermark c v vs)
  hand_video-Weaves watermark c v vs rv ra e first w =
      if_cases (IfSome Weaves) (leb_ℤ watermark v.dts_us) (λ late. tt)
        (λ early. record {
          no_floor = w.no_floor;
          streams =
              handed_over out c.packets (merge vs c.audio_ingress) v
              ∙ ap (λ ms. (out ++ c.packets) ++ ms) (sym first)
              ∙ ap (λ ms. (out ++ c.packets) ++ merge ms c.audio_ingress) (sym e)
              ∙ w.streams;
          below_video =
              Every-snoc (IsBelowInput c.video_input) out c.packets v w.below_video
                (below_reached watermark c.video_input v rv early);
          below_audio =
              Every-snoc (IsBelowInput c.audio_input) out c.packets v w.below_audio
                (below_reached watermark c.audio_input v ra early);
          videos = w.videos;
          audios = w.audios;
          video_queue = (subst (Every (IsQueued PacketKind.video c.video_input)) e w.video_queue).1;
          audio_queue = w.audio_queue;
        })

  pub hand_audio-Weaves :
      (watermark : ℤ) (c : Capture) (a : EncodedPacket) (rest : List EncodedPacket)
      → IsReached watermark c.video_input
      → IsReached watermark c.audio_input
      → c.audio_ingress ≡ a ∷ rest
      → merge c.video_ingress (a ∷ rest) ≡ a ∷ merge c.video_ingress rest
      → Weaves c
      → IfSome Weaves (hand_audio watermark c a rest)
  hand_audio-Weaves watermark c a rest rv ra e first w =
      if_cases (IfSome Weaves) (leb_ℤ watermark a.dts_us) (λ late. tt)
        (λ early. record {
          no_floor = w.no_floor;
          streams =
              handed_over out c.packets (merge c.video_ingress rest) a
              ∙ ap (λ ms. (out ++ c.packets) ++ ms) (sym first)
              ∙ ap (λ ms. (out ++ c.packets) ++ merge c.video_ingress ms) (sym e)
              ∙ w.streams;
          below_video =
              Every-snoc (IsBelowInput c.video_input) out c.packets a w.below_video
                (below_reached watermark c.video_input a rv early);
          below_audio =
              Every-snoc (IsBelowInput c.audio_input) out c.packets a w.below_audio
                (below_reached watermark c.audio_input a ra early);
          videos = w.videos;
          audios = w.audios;
          video_queue = w.video_queue;
          audio_queue = (subst (Every (IsQueued PacketKind.audio c.audio_input)) e w.audio_queue).1;
        })
