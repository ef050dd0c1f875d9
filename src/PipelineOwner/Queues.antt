-- ===== src/PipelineOwner/Queues.antt =====
-- src/pipeline-owner.cpp: the native capture queues of `PipelineOwner` and how
-- `enqueue_uninterleaved` merges the two encoders into one sequence. What the method does besides
-- (its guards, its clock and its report of a failure) is in src/pipeline-owner.cpp's module.
use obs_live_delay_plugin.Packet.{PacketKind, EncodedPacket, is_video}
use obs_live_delay_plugin.Base.Int.{ℤ, pos, leb_ℤ, ltb_ℤ, ◌-ℤ◌, min_ℤ}
use obs_live_delay_plugin.Base.{
  List, [], String, ℕ, Option, none, ◌*◌, some, ◌++◌, if◌then◌else◌, suc, Bool, ◌∷◌, zero, length,
  false, is_empty, add_size, sub_size, ◌+◌, ◌||◌, ltb, ◌-◌, leb,
}

-- The fields of `PipelineOwner` that `clear_capture_locked` and the admission of packets use.
pub record Capture : Type 0 where
  pub packets : List EncodedPacket
  pub video_ingress : List EncodedPacket
  pub audio_ingress : List EncodedPacket
  pub video_input : Option ℤ
  pub audio_input : Option ℤ
  pub capture_floor : Option ℤ
  pub ingress_bytes : ℕ
  pub packet_bytes : ℕ

abbrev pub new_capture : Capture
new_capture = record {
  packets = [];
  video_ingress = [];
  audio_ingress = [];
  video_input = none;
  audio_input = none;
  capture_floor = none;
  ingress_bytes = 0;
  packet_bytes = 0;
}

-- `clear_capture_locked`, which keeps the floor.
unfoldable pub clear_capture : Capture → Capture
clear_capture c = record new_capture { capture_floor = c.capture_floor }

-- What becomes of a packet: nothing, a failure, or a place in the queues. The queues of a failure
-- are what the owner is left with.
pub data Admission : Type 0 where
  stale : Admission
  refused : Capture → String → Admission
  taken : Capture → Admission

abbrev pub byte_limit : ℕ
byte_limit = 16 * 1024 * 1024

abbrev pub count_limit : ℕ
count_limit = 4096

abbrev pub interleave_budget_us : ℤ
interleave_budget_us = pos 5_000_000

abbrev pub input_of : Capture → PacketKind → Option ℤ
input_of c PacketKind.video = c.video_input
input_of c PacketKind.audio = c.audio_input

abbrev pub set_input : Capture → PacketKind → ℤ → Capture
set_input c PacketKind.video dts = record c { video_input = some dts }
set_input c PacketKind.audio dts = record c { audio_input = some dts }

abbrev pub ingress_of : Capture → PacketKind → List EncodedPacket
ingress_of c PacketKind.video = c.video_ingress
ingress_of c PacketKind.audio = c.audio_ingress

-- `ingress_bytes_ += ...; queue.push_back(...)`.
abbrev pub push_ingress : Capture → PacketKind → EncodedPacket → Capture
push_ingress c PacketKind.video p = record c {
  video_ingress = c.video_ingress ++ (p ∷ []);
  ingress_bytes = add_size c.ingress_bytes (length p.payload);
}
push_ingress c PacketKind.audio p = record c {
  audio_ingress = c.audio_ingress ++ (p ∷ []);
  ingress_bytes = add_size c.ingress_bytes (length p.payload);
}

-- One pass of the loop that hands a packet on.
abbrev pub hand_on : Capture → EncodedPacket → Capture
hand_on c p = record c {
  packets = c.packets ++ (p ∷ []);
  ingress_bytes = sub_size c.ingress_bytes (length p.payload);
  packet_bytes = add_size c.packet_bytes (length p.payload);
}

abbrev pub hand_video : ℤ → Capture → EncodedPacket → List EncodedPacket → Option Capture
hand_video watermark c v vs =
    if leb_ℤ watermark v.dts_us then none else some (record (hand_on c v) { video_ingress = vs })

abbrev pub hand_audio : ℤ → Capture → EncodedPacket → List EncodedPacket → Option Capture
hand_audio watermark c a rest =
    if leb_ℤ watermark a.dts_us then none else some (record (hand_on c a) { audio_ingress = rest })

-- `next` by the two queues, and none where the loop ends.
abbrev pub hand_next : ℤ → Capture → (video audio : List EncodedPacket) → Option Capture
hand_next watermark c [] [] = none
hand_next watermark c (v ∷ vs) [] = hand_video watermark c v vs
hand_next watermark c [] (a ∷ rest) = hand_audio watermark c a rest
hand_next watermark c (v ∷ vs) (a ∷ rest) =
    if leb_ℤ v.dts_us a.dts_us then hand_video watermark c v vs else hand_audio watermark c a rest

-- The loop; a pass takes a packet out of the queues, so their length is fuel enough.
unfoldable pub merge_loop : (fuel : ℕ) → ℤ → Capture → Capture
merge_loop zero watermark c = c
merge_loop (suc fuel) watermark c = elim (hand_next watermark c c.video_ingress c.audio_ingress) [
  | none ↦ c
  | some c' ↦ merge_loop fuel watermark c'
]

-- `if (video_input_ && audio_input_) { ... }`.
abbrev pub merge_below : Capture → Option ℤ → Option ℤ → Capture
merge_below c (some video) (some audio) =
    merge_loop (length c.video_ingress + length c.audio_ingress) (min_ℤ video audio) c
merge_below c _ _ = c

unfoldable pub merge_ingress : Capture → Capture
merge_ingress c = merge_below c c.video_input c.audio_input

-- A packet of the queue's kind too long after its first one.
abbrev pub is_stalled : List EncodedPacket → EncodedPacket → Bool
is_stalled [] p = false
is_stalled (front ∷ queue) p = ltb_ℤ interleave_budget_us (p.dts_us -ℤ front.dts_us)

abbrev pub does_not_advance : Option ℤ → EncodedPacket → Bool
does_not_advance none p = ltb_ℤ p.dts_us (pos 0)
does_not_advance (some last) p = ltb_ℤ p.dts_us (pos 0) || leb_ℤ p.dts_us last

abbrev pub overflows : Capture → EncodedPacket → Bool
overflows c p =
    is_empty p.payload
    || (ltb byte_limit (length p.payload)
        || (ltb (byte_limit - length p.payload) (add_size c.ingress_bytes c.packet_bytes)
            || leb count_limit
                (length c.video_ingress + length c.audio_ingress + length c.packets)))

-- From the update of `last` on.
unfoldable pub take_packet : Capture → EncodedPacket → Admission
take_packet c p =
    if is_stalled (ingress_of c p.kind) p
    then refused (set_input c p.kind p.dts_us)
        "PROGRAMME_INGRESS_STALLED: peer encoder exceeded five-second interleave budget"
    else taken (merge_ingress (push_ingress (set_input c p.kind p.dts_us) p.kind p))

unfoldable pub admit_ordered : Capture → EncodedPacket → Admission
admit_ordered c p =
    if does_not_advance (input_of c p.kind) p
    then refused c "PROGRAMME_TIMESTAMP_INVALID: native encoder clock did not advance"
    else if overflows c p
    then refused c "PROGRAMME_INGRESS_OVERFLOW: bounded native capture queue reached capacity"
    else take_packet c p

-- The floor that a packet above it leaves.
abbrev pub floor_after : ℤ → EncodedPacket → Option ℤ
floor_after floor p = if is_video p.kind then none else some floor

abbrev pub admit_from : Capture → EncodedPacket → Option ℤ → Admission
admit_from c p none = admit_ordered c p
admit_from c p (some floor) =
    if leb_ℤ p.dts_us floor
    then stale
    else admit_ordered (record c { capture_floor = floor_after floor p }) p

-- From the test of the floor on.
unfoldable pub admit_packet : Capture → EncodedPacket → Admission
admit_packet c p = admit_from c p c.capture_floor
