-- ===== src/PipelineOwner/Interleave/Runs.antt =====
-- src/pipeline-owner.cpp: what the owner takes out of its capture queues, over any sequence of
-- `enqueue_uninterleaved` and of its swaps.
use obs_live_delay_plugin.PipelineOwner.Interleave.Order.{
  merge_ingress-Weaves, push_video-Weaves, push_audio-Weaves,
}
use obs_live_delay_plugin.PipelineOwner.Queues.{
  does_not_advance, admit_ordered, input_of, take_packet, merge_ingress, push_ingress, set_input,
  Admission, new_capture, overflows, is_stalled, ingress_of, refused, taken, stale, admit_from,
}
use obs_live_delay_plugin.PipelineOwner.Queues.{admit_packet, Capture}
use obs_live_delay_plugin.Base.{
  none, some, ◌∷◌, [], List, ◌++◌, ◌≡◌, false, if_cases, subst, if◌then◌else◌, sym, append-nil,
  refl, ◌∙◌, append_assoc,
}
use obs_live_delay_plugin.PipelineOwner.Interleave.{
  CaptureCall, Woven, IfTaken, arrivals, capture_run, PacketKind, swap_packets, Capture,
  EncodedPacket, Weaves, merge, after_admission, is_video, is_audio,
}

-- The streams with one more packet.
abbrev with_arrival :
    PacketKind → PacketKind → EncodedPacket → List EncodedPacket → List EncodedPacket
with_arrival PacketKind.video PacketKind.video p ms = ms ++ (p ∷ [])
with_arrival PacketKind.audio PacketKind.audio p ms = ms ++ (p ∷ [])
with_arrival _ _ p ms = ms

module _ (out video audio : List EncodedPacket) where
  abbrev Arrived : EncodedPacket → Capture → Type 0
  Arrived p c =
      Weaves out (with_arrival PacketKind.video p.kind p video)
        (with_arrival PacketKind.audio p.kind p audio) c

  take_packet-Arrived :
      (c : Capture) (p : EncodedPacket) (k : PacketKind)
      → p.kind ≡ k
      → does_not_advance (input_of c k) p ≡ false
      → Weaves out video audio c
      → Weaves out
          (with_arrival PacketKind.video k p video)
          (with_arrival PacketKind.audio k p audio)
          (merge_ingress (push_ingress (set_input c k p.dts_us) k p))
  take_packet-Arrived c p PacketKind.video e advances w =
      merge_ingress-Weaves out (video ++ (p ∷ [])) audio
        (push_ingress (set_input c PacketKind.video p.dts_us) PacketKind.video p)
        (push_video-Weaves out video audio c p e advances w)
  take_packet-Arrived c p PacketKind.audio e advances w =
      merge_ingress-Weaves out video (audio ++ (p ∷ []))
        (push_ingress (set_input c PacketKind.audio p.dts_us) PacketKind.audio p)
        (push_audio-Weaves out video audio c p e advances w)

  admit_packet-Arrived :
      (c : Capture) (p : EncodedPacket)
      → Weaves out video audio c
      → IfTaken (Arrived p) (admit_packet c p)
  unfolding admit_packet admit_ordered take_packet
  admit_packet-Arrived c p w =
      subst (λ floor. IfTaken (Arrived p) (admit_from c p floor)) (sym w.no_floor)
        (if_cases (IfTaken (Arrived p)) (does_not_advance (input_of c p.kind) p) (λ e. tt)
          (λ advances.
            if_cases (IfTaken (Arrived p)) (overflows c p) (λ e. tt)
              (λ fits.
                if_cases (IfTaken (Arrived p)) (is_stalled (ingress_of c p.kind) p) (λ e. tt)
                  (λ moves. take_packet-Arrived c p p.kind refl advances w))))

swap_packets-Woven :
    (out video audio : List EncodedPacket) (c : Capture)
    → Weaves out video audio c
    → Weaves (out ++ c.packets) video audio (swap_packets c)
unfolding swap_packets
swap_packets-Woven out video audio c w =
    subst (λ handed. Woven handed video audio (swap_packets c))
      (sym (append-nil (out ++ c.packets)))
      (record {
        no_floor = w.no_floor;
        streams = w.streams;
        below_video = w.below_video;
        below_audio = w.below_audio;
        videos = w.videos;
        audios = w.audios;
        video_queue = w.video_queue;
        audio_queue = w.audio_queue;
      })

-- All the packets that were handed on, in order, and the merge of those that wait.
abbrev pub sequence : Capture × List EncodedPacket → List EncodedPacket
sequence (c, out) = (out ++ c.packets) ++ merge c.video_ingress c.audio_ingress

some_inj : {l last : Capture × List EncodedPacket} → some l ≡ some last → l ≡ last
some_inj e = cc

abbrev merged_streams :
    EncodedPacket → List CaptureCall → (video audio : List EncodedPacket) → List EncodedPacket
merged_streams p calls video audio =
    merge (with_arrival PacketKind.video p.kind p video ++ arrivals PacketKind.video calls)
      (with_arrival PacketKind.audio p.kind p audio ++ arrivals PacketKind.audio calls)

after_arrival :
    (c : Capture) (p : EncodedPacket) (calls : List CaptureCall)
    (out video audio : List EncodedPacket) {last : Capture × List EncodedPacket} (r : Admission)
    → (elim (after_admission c r) [ none ↦ none | some c' ↦ capture_run c' out calls ]) ≡ some last
    → IfTaken (Arrived out video audio p) r
    → ((c' : Capture)
        → capture_run c' out calls ≡ some last
        → Arrived out video audio p c'
        → sequence last ≡ merged_streams p calls video audio)
    → sequence last ≡ merged_streams p calls video audio
after_arrival c p calls out video audio stale e h ih = absurd h
after_arrival c p calls out video audio (refused c' message) e h ih = cc
after_arrival c p calls out video audio (taken c') e h ih = ih c' e h

arrival_in :
    (k : PacketKind) (p : EncodedPacket) (ms rest : List EncodedPacket)
    → with_arrival PacketKind.video k p ms ++ rest ≡ ms ++ (if is_video k then p ∷ rest else rest)
arrival_in PacketKind.video p ms rest = append_assoc ms (p ∷ []) rest
arrival_in PacketKind.audio p ms rest = refl

arrival_of :
    (k : PacketKind) (p : EncodedPacket) (ms rest : List EncodedPacket)
    → with_arrival PacketKind.audio k p ms ++ rest ≡ ms ++ (if is_audio k then p ∷ rest else rest)
arrival_of PacketKind.video p ms rest = refl
arrival_of PacketKind.audio p ms rest = append_assoc ms (p ∷ []) rest

capture_run-Woven :
    (calls : List CaptureCall) (c : Capture) (out video audio : List EncodedPacket)
    {last : Capture × List EncodedPacket}
    → capture_run c out calls ≡ some last
    → Weaves out video audio c
    → sequence last
      ≡ merge (video ++ arrivals PacketKind.video calls) (audio ++ arrivals PacketKind.audio calls)
unfolding capture_run
capture_run-Woven [] c out video audio e w =
    subst (λ l. sequence l ≡ merge (video ++ []) (audio ++ [])) (some_inj e)
      (rw (append-nil video) (rw (append-nil audio) w.streams))
capture_run-Woven (CaptureCall.swapped ∷ calls) c out video audio e w =
    capture_run-Woven calls (swap_packets c) (out ++ c.packets) video audio e
      (swap_packets-Woven out video audio c w)
capture_run-Woven ((CaptureCall.arrives p) ∷ calls) c out video audio e w =
    let keeps = admit_packet-Arrived out video audio c p w in
    after_arrival c p calls out video audio (admit_packet c p) e keeps (λ c'.
      capture_run-Woven calls c' out (with_arrival PacketKind.video p.kind p video)
        (with_arrival PacketKind.audio p.kind p audio))
    ∙ (rw (arrival_in p.kind p video (arrivals PacketKind.video calls))
        (rw (arrival_of p.kind p audio (arrivals PacketKind.audio calls)) refl))

-- A capture that starts with empty queues and fails nowhere hands its packets on as the merge of
-- the two streams, video first on equal clocks, whatever the order in which the encoders delivered
-- them and whenever the owner took them: what was handed on and the merge of what still waits are
-- together exactly that sequence.
pub capture_run-merge :
    (calls : List CaptureCall) (last : Capture × List EncodedPacket)
    → capture_run new_capture [] calls ≡ some last
    → sequence last ≡ merge (arrivals PacketKind.video calls) (arrivals PacketKind.audio calls)
capture_run-merge calls last e = capture_run-Woven calls new_capture [] [] [] e (record {
  no_floor = refl;
  streams = refl;
  below_video = tt;
  below_audio = tt;
  videos = tt;
  audios = tt;
  video_queue = tt;
  audio_queue = tt;
})
