-- ===== src/PipelineOwner/Bounds.antt =====
-- src/pipeline-owner.cpp: what the native capture queues hold, and that their counters are exact.
use obs_live_delay_plugin.Packet.{EncodedPacket, total_bytes, PacketKind, total_bytes-append}
use obs_live_delay_plugin.Base.Int.{ℤ, leb_ℤ, min_ℤ}
use obs_live_delay_plugin.Base.{
  Option, ◌≡◌, some, none, List, ◌+◌, ◌∷◌, ◌≤◌, if_cases, length, arith, ap, ℕ, [], suc, false,
  length-append, Option_cases, subst, zero, refl, ◌<◌,
}
use obs_live_delay_plugin.PipelineOwner.Queues.{
  Capture, hand_video, byte_limit, count_limit, hand_on, hand_audio, hand_next, merge_loop,
  merge_below, Admission, admit_ordered, refused, set_input, overflows, take_packet, taken,
  merge_ingress, stale, push_ingress, does_not_advance, input_of, is_stalled, ingress_of,
  admit_from, admit_packet, floor_after,
}
use obs_live_delay_plugin.PipelineOwner.Interleave.{CaptureCall, swap_packets}

-- The counters are what the queues weigh, within the limits of the admission.
pub record IsBounded (c : Capture) : Type 0 where
  pub exact_ingress : c.ingress_bytes ≡ total_bytes c.video_ingress + total_bytes c.audio_ingress
  pub exact_packets : c.packet_bytes ≡ total_bytes c.packets
  pub bytes_fit : c.ingress_bytes + c.packet_bytes ≤ byte_limit
  pub count_fits : length c.video_ingress + length c.audio_ingress + length c.packets ≤ count_limit

abbrev IfBounded : Option Capture → Type 0
IfBounded none = Unit
IfBounded (some c) = IsBounded c

-- A packet leaves the queues, which `left` is the rest of, and joins the packets.
handed-IsBounded :
    (c : Capture) (p : EncodedPacket) (left : Capture)
    → IsBounded c
    → total_bytes c.video_ingress + total_bytes c.audio_ingress
      ≡ length p.payload + (total_bytes left.video_ingress + total_bytes left.audio_ingress)
    → length c.video_ingress + length c.audio_ingress
      ≡ 1 + (length left.video_ingress + length left.audio_ingress)
    → IsBounded (record (hand_on c p) {
      video_ingress = left.video_ingress;
      audio_ingress = left.audio_ingress;
    })
handed-IsBounded c p left b bytes count =
    let weight = total_bytes-append c.packets (p ∷ []) in
    let size = length-append c.packets (p ∷ []) in
    record {
      exact_ingress = omega (arith, b, bytes);
      exact_packets = omega (arith, b, bytes, weight);
      bytes_fit = omega (arith, b, bytes);
      count_fits = omega (arith, b, count, size);
    }

hand_video-IsBounded :
    (watermark : ℤ) (c : Capture) (v : EncodedPacket) (vs : List EncodedPacket)
    → c.video_ingress ≡ v ∷ vs
    → IsBounded c
    → IfBounded (hand_video watermark c v vs)
hand_video-IsBounded watermark c v vs e b =
    if_cases IfBounded (leb_ℤ watermark v.dts_us) (λ late. tt)
      (λ early.
        handed-IsBounded c v (record c { video_ingress = vs }) b (omega (arith, ap total_bytes e))
          (omega (arith, ap length e)))

hand_audio-IsBounded :
    (watermark : ℤ) (c : Capture) (a : EncodedPacket) (rest : List EncodedPacket)
    → c.audio_ingress ≡ a ∷ rest
    → IsBounded c
    → IfBounded (hand_audio watermark c a rest)
hand_audio-IsBounded watermark c a rest e b =
    if_cases IfBounded (leb_ℤ watermark a.dts_us) (λ late. tt)
      (λ early.
        handed-IsBounded c a (record c { audio_ingress = rest }) b (omega (arith, ap total_bytes e))
          (omega (arith, ap length e)))

hand_next-IsBounded :
    (watermark : ℤ) (c : Capture) (vs rest : List EncodedPacket)
    → c.video_ingress ≡ vs
    → c.audio_ingress ≡ rest
    → IsBounded c
    → IfBounded (hand_next watermark c vs rest)
hand_next-IsBounded watermark c [] [] ev ea b = tt
hand_next-IsBounded watermark c (v ∷ vs) [] ev ea b = hand_video-IsBounded watermark c v vs ev b
hand_next-IsBounded watermark c [] (a ∷ rest) ev ea b = hand_audio-IsBounded watermark c a rest ea b
hand_next-IsBounded watermark c (v ∷ vs) (a ∷ rest) ev ea b =
    if_cases IfBounded (leb_ℤ v.dts_us a.dts_us) (λ e. hand_video-IsBounded watermark c v vs ev b)
      (λ e. hand_audio-IsBounded watermark c a rest ea b)

merge_loop-IsBounded :
    (fuel : ℕ) (watermark : ℤ) (c : Capture) → IsBounded c → IsBounded (merge_loop fuel watermark c)
unfolding merge_loop
merge_loop-IsBounded zero watermark c b = b
merge_loop-IsBounded (suc fuel) watermark c b =
    Option_cases IsBounded (hand_next watermark c c.video_ingress c.audio_ingress) (λ e. b)
      (λ c' e. merge_loop-IsBounded fuel watermark c' (
        subst IfBounded e
          (hand_next-IsBounded watermark c c.video_ingress c.audio_ingress refl refl b)))

merge_below-IsBounded :
    (c : Capture) (video audio : Option ℤ) → IsBounded c → IsBounded (merge_below c video audio)
merge_below-IsBounded c none audio b = b
merge_below-IsBounded c (some video) none b = b
merge_below-IsBounded c (some video) (some audio) b =
    merge_loop-IsBounded (length c.video_ingress + length c.audio_ingress) (min_ℤ video audio) c b

abbrev AdmissionBounded : Admission → Type 0
AdmissionBounded stale = Unit
AdmissionBounded (refused c message) = IsBounded c
AdmissionBounded (taken c) = IsBounded c

set_input-IsBounded :
    (c : Capture) (k : PacketKind) (dts : ℤ) → IsBounded c → IsBounded (set_input c k dts)
set_input-IsBounded c PacketKind.video dts b = ground (arith, b)
set_input-IsBounded c PacketKind.audio dts b = ground (arith, b)

-- What the limits leave to a packet.
abbrev HasRoom : Capture → EncodedPacket → Type 0
HasRoom c p =
    (c.ingress_bytes + c.packet_bytes + length p.payload ≤ byte_limit)
    × (length c.video_ingress + length c.audio_ingress + length c.packets < count_limit)

overflows-HasRoom :
    (c : Capture) (p : EncodedPacket) → IsBounded c → overflows c p ≡ false → HasRoom c p
overflows-HasRoom c p b fits = ground (arith, b)

push-IsBounded :
    (c : Capture) (k : PacketKind) (p : EncodedPacket)
    → overflows c p ≡ false
    → IsBounded c
    → IsBounded (push_ingress (set_input c k p.dts_us) k p)
push-IsBounded c PacketKind.video p fits b =
    let room = overflows-HasRoom c p b fits in
    let weight = total_bytes-append c.video_ingress (p ∷ []) in
    let size = length-append c.video_ingress (p ∷ []) in
    record {
      exact_ingress = omega (arith, b, room, weight);
      exact_packets = b.exact_packets;
      bytes_fit = omega (arith, b, room);
      count_fits = omega (arith, b, room, size);
    }
push-IsBounded c PacketKind.audio p fits b =
    let room = overflows-HasRoom c p b fits in
    let weight = total_bytes-append c.audio_ingress (p ∷ []) in
    let size = length-append c.audio_ingress (p ∷ []) in
    record {
      exact_ingress = omega (arith, b, room, weight);
      exact_packets = b.exact_packets;
      bytes_fit = omega (arith, b, room);
      count_fits = omega (arith, b, room, size);
    }

admit_ordered-IsBounded :
    (c : Capture) (p : EncodedPacket) → IsBounded c → AdmissionBounded (admit_ordered c p)
unfolding admit_ordered take_packet merge_ingress
admit_ordered-IsBounded c p b =
    if_cases AdmissionBounded (does_not_advance (input_of c p.kind) p) (λ e. b)
      (λ advances.
        if_cases AdmissionBounded (overflows c p) (λ e. b)
          (λ fits.
            if_cases AdmissionBounded (is_stalled (ingress_of c p.kind) p)
              (λ e. set_input-IsBounded c p.kind p.dts_us b)
              (λ moves.
                (let next = push_ingress (set_input c p.kind p.dts_us) p.kind p in
                  merge_below-IsBounded next next.video_input next.audio_input
                    (push-IsBounded c p.kind p fits b)))))

admit_from-IsBounded :
    (c : Capture) (p : EncodedPacket) (floor : Option ℤ)
    → IsBounded c
    → AdmissionBounded (admit_from c p floor)
admit_from-IsBounded c p none b = admit_ordered-IsBounded c p b
admit_from-IsBounded c p (some floor) b =
    if_cases AdmissionBounded (leb_ℤ p.dts_us floor) (λ e. tt)
      (λ e.
        admit_ordered-IsBounded (record c { capture_floor = floor_after floor p }) p
          (ground (arith, b)))

admit_packet-IsBounded :
    (c : Capture) (p : EncodedPacket) → IsBounded c → AdmissionBounded (admit_packet c p)
unfolding admit_packet
admit_packet-IsBounded c p b = admit_from-IsBounded c p c.capture_floor b

-- What the owner's calls make of the queues, failures included.
abbrev pub queues_after : Capture → Admission → Capture
queues_after c stale = c
queues_after c (refused c' message) = c'
queues_after c (taken c') = c'

queues_after-IsBounded :
    (c : Capture) (r : Admission) → IsBounded c → AdmissionBounded r → IsBounded (queues_after c r)
queues_after-IsBounded c stale b h = b
queues_after-IsBounded c (refused c' message) b h = h
queues_after-IsBounded c (taken c') b h = h

unfoldable pub capture_step : Capture → CaptureCall → Capture
capture_step c (CaptureCall.arrives p) = queues_after c (admit_packet c p)
capture_step c CaptureCall.swapped = swap_packets c

unfoldable pub capture_states : Capture → List CaptureCall → Capture
capture_states c [] = c
capture_states c (call ∷ calls) = capture_states (capture_step c call) calls

-- Whatever the encoders deliver and whenever the owner takes the packets, failures included, the
-- byte counters are exact, and the queues and the packets for the owner hold together at most
-- 16 MiB of payload in at most 4096 packets.
pub capture_states-IsBounded :
    (calls : List CaptureCall) (c : Capture) → IsBounded c → IsBounded (capture_states c calls)
unfolding capture_states capture_step swap_packets
capture_states-IsBounded [] c b = b
capture_states-IsBounded (CaptureCall.swapped ∷ calls) c b =
    capture_states-IsBounded calls (swap_packets c) (record {
      exact_ingress = b.exact_ingress;
      exact_packets = refl;
      bytes_fit = omega (arith, b);
      count_fits = omega (arith, b);
    })
capture_states-IsBounded ((CaptureCall.arrives p) ∷ calls) c b =
    capture_states-IsBounded calls (queues_after c (admit_packet c p))
      (queues_after-IsBounded c (admit_packet c p) b (admit_packet-IsBounded c p b))
