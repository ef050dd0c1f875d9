-- ===== src/HoldingFeed.antt =====
-- src/holding-feed.hpp and src/holding-feed.cpp: the compressed feed of the holding scene. The mutex
-- serialises the calls. `Clock::now()` is an argument, in nanoseconds.
use obs_live_delay_plugin.Packet.{EncodedPacket, PacketKind, is_audio, is_keyframe, is_video}
use obs_live_delay_plugin.Flv.Tag.{FlvCodecHeaders}
use obs_live_delay_plugin.Base.{
  zero, suc, some, none, [], ◌∷◌, true, false, ℕ, Bool, if◌then◌else◌, String, List, Option, ◌*◌,
  ◌+◌, ◌&&◌, ◌++◌, ◌==◌, not, ◌%◌, add_size, sub_size, last_from, is_empty, leb, ◌^◌, length, ◌||◌,
  ◌-◌, ltb,
}
use obs_live_delay_plugin.Base.Int.{pos, negsuc, ℤ, min_ℤ, ltb_ℤ, max_ℤ, eq_ℤ, leb_ℤ, ◌-ℤ◌}
pub mod Bounds
pub mod Drain
mod Tests

pub data HoldingState : Type 0 where
  stopped starting ready failed : HoldingState

pub record HoldingStatus : Type 0 where
  pub state : HoldingState
  pub queued_bytes : ℕ
  pub video_cutoff_us : ℤ
  pub error : String

abbrev pub default_status : HoldingStatus
default_status = record {
  state = HoldingState.stopped;
  queued_bytes = 0;
  video_cutoff_us = pos 0;
  error = "";
}

abbrev pub readiness_limit : ℕ
readiness_limit = 5_000_000_000

abbrev pub queue_duration_us : ℕ
queue_duration_us = 5_000_000

abbrev pub queue_byte_limit : ℕ
queue_byte_limit = 16 * 1024 * 1024

-- `failure_callback` tells whether one is installed, and `notified` what it was called with.
pub record HoldingFeed : Type 0 where
  pub status : HoldingStatus
  pub failure_callback : Bool
  pub notified : List String
  pub headers : FlvCodecHeaders
  pub deadline : ℕ
  pub packets : List EncodedPacket
  pub keyframe : Bool
  pub audio : Bool
  pub minimum_dts : Option ℤ
  pub maximum_dts : Option ℤ
  pub last_video_dts : Option ℤ
  pub last_audio_dts : Option ℤ

abbrev pub no_headers : FlvCodecHeaders
no_headers = record { avc_decoder_configuration = []; aac_audio_specific_config = [] }

abbrev pub new_feed : HoldingFeed
new_feed = record {
  status = default_status;
  failure_callback = false;
  notified = [];
  headers = no_headers;
  deadline = 0;
  packets = [];
  keyframe = false;
  audio = false;
  minimum_dts = none;
  maximum_dts = none;
  last_video_dts = none;
  last_audio_dts = none;
}

abbrev pub is_starting : HoldingState → Bool
is_starting HoldingState.starting = true
is_starting _ = false

abbrev pub is_ready : HoldingState → Bool
is_ready HoldingState.ready = true
is_ready _ = false

-- Starting or ready.
abbrev pub is_running : HoldingState → Bool
is_running HoldingState.starting = true
is_running HoldingState.ready = true
is_running _ = false

unfoldable pub set_failure_callback : HoldingFeed → Bool → HoldingFeed
set_failure_callback f installed = record f { failure_callback = installed }

unfoldable pub begin : HoldingFeed → ℕ → HoldingFeed
begin f now = record f {
  status = record default_status { state = HoldingState.starting };
  headers = no_headers;
  packets = [];
  keyframe = false;
  audio = false;
  minimum_dts = none;
  maximum_dts = none;
  deadline = now + readiness_limit;
  last_video_dts = none;
  last_audio_dts = none;
}

-- `update_ready_locked`.
unfoldable pub update_ready : HoldingFeed → HoldingFeed
update_ready f =
    if is_starting f.status.state
      && f.keyframe
      && f.audio
      && not (is_empty f.headers.avc_decoder_configuration)
      && not (is_empty f.headers.aac_audio_specific_config)
    then record f { status = record f.status { state = HoldingState.ready } }
    else f

-- `fail_locked`.
unfoldable pub fail : HoldingFeed → String → HoldingFeed
fail f error =
    if is_running f.status.state
    then record f {
      status = record f.status { state = HoldingState.failed; error = error; queued_bytes = 0 };
      notified = if f.failure_callback then f.notified ++ (error ∷ []) else f.notified;
      packets = [];
      headers = no_headers;
    }
    else f

-- `check_deadline_locked`.
unfoldable pub check_deadline : HoldingFeed → ℕ → HoldingFeed
check_deadline f now =
    if is_starting f.status.state && leb f.deadline now
    then fail f "HOLDING_READINESS_TIMEOUT: H.264 keyframe, AAC or codec headers unavailable"
    else f

-- `std::vector` equality.
unfoldable pub eq_bytes : List ℕ → List ℕ → Bool
eq_bytes [] [] = true
eq_bytes [] (y ∷ ys) = false
eq_bytes (x ∷ xs) [] = false
eq_bytes (x ∷ xs) (y ∷ ys) = (x == y) && eq_bytes xs ys

abbrev pub headers_changed : FlvCodecHeaders → FlvCodecHeaders → Bool
headers_changed old new =
    (not (is_empty old.avc_decoder_configuration) || not (is_empty old.aac_audio_specific_config))
    && (not (eq_bytes old.avc_decoder_configuration new.avc_decoder_configuration)
        || not (eq_bytes old.aac_audio_specific_config new.aac_audio_specific_config))

unfoldable pub set_headers_running : HoldingFeed → FlvCodecHeaders → HoldingFeed
set_headers_running f headers =
    if headers_changed f.headers headers
    then fail f "HOLDING_CODEC_CHANGED: encoder configuration changed during capture"
    else update_ready (record f { headers = headers })

unfoldable pub set_headers : HoldingFeed → ℕ → FlvCodecHeaders → HoldingFeed
set_headers f now headers =
    let f' = check_deadline f now in
    if is_running f'.status.state then set_headers_running f' headers else f'

-- `static_cast<std::uint64_t>` of a 64-bit difference.
abbrev pub as_uint64 : ℤ → ℕ
as_uint64 (pos n) = n % 2 ^ 64
as_uint64 (negsuc n) = 2 ^ 64 - 1 - n % 2 ^ 64

-- The end of `ingest`, where the packet is taken.
unfoldable pub take_in : HoldingFeed → EncodedPacket → ℤ → ℤ → HoldingFeed
take_in f p minimum maximum = update_ready (record f {
  minimum_dts = some minimum;
  maximum_dts = some maximum;
  status = record f.status { queued_bytes = add_size f.status.queued_bytes (length p.payload) };
  packets = f.packets ++ (p ∷ []);
})

abbrev pub lowest : Option ℤ → ℤ → ℤ
lowest none dts = dts
lowest (some m) dts = min_ℤ m dts

abbrev pub highest : Option ℤ → ℤ → ℤ
highest none dts = dts
highest (some m) dts = max_ℤ m dts

-- `ingest` from the limit on bytes and packets on.
unfoldable pub ingest_limited : HoldingFeed → EncodedPacket → HoldingFeed
ingest_limited f p =
    let minimum = lowest f.minimum_dts p.dts_us in
    let maximum = highest f.maximum_dts p.dts_us in
    if ltb (sub_size queue_byte_limit f.status.queued_bytes) (length p.payload)
      || leb 4096 (length f.packets)
    then fail f "HOLDING_QUEUE_LIMIT: compressed holding queue exhausted"
    else if ltb queue_duration_us (as_uint64 (maximum -ℤ minimum))
    then fail f "HOLDING_QUEUE_LIMIT: holding media exceeded five seconds"
    else take_in f p minimum maximum

abbrev pub last_of : HoldingFeed → PacketKind → Option ℤ
last_of f PacketKind.video = f.last_video_dts
last_of f PacketKind.audio = f.last_audio_dts

abbrev pub set_last : HoldingFeed → PacketKind → ℤ → HoldingFeed
set_last f PacketKind.video dts = record f { last_video_dts = some dts }
set_last f PacketKind.audio dts = record f { last_audio_dts = some dts }

abbrev pub falls_behind : Option ℤ → ℤ → Bool
falls_behind none dts = false
falls_behind (some last) dts = ltb_ℤ dts last

-- `ingest` from the check of its stream's order on.
unfoldable pub ingest_ordered : HoldingFeed → EncodedPacket → HoldingFeed
ingest_ordered f p =
    if falls_behind (last_of f p.kind) p.dts_us
    then fail f "HOLDING_TIMESTAMP_INVALID: encoder DTS moved backwards"
    else ingest_limited (set_last f p.kind p.dts_us) p

-- `ingest` once the feed has its keyframe: audio from before it is left out.
unfoldable pub ingest_started : HoldingFeed → EncodedPacket → HoldingFeed
ingest_started f p =
    if is_audio p.kind && ltb_ℤ p.dts_us f.status.video_cutoff_us
    then f
    else ingest_ordered (record f { audio = f.audio || is_audio p.kind }) p

unfoldable pub ingest_running : HoldingFeed → EncodedPacket → HoldingFeed
ingest_running f p =
    if f.keyframe
    then ingest_started f p
    else if is_keyframe p
    then ingest_started
        (record f { keyframe = true; status = record f.status { video_cutoff_us = p.dts_us } }) p
    else f

unfoldable pub ingest : HoldingFeed → ℕ → EncodedPacket → HoldingFeed
ingest f now p =
    let f' = check_deadline f now in if is_running f'.status.state then ingest_running f' p else f'

unfoldable pub stop : HoldingFeed → HoldingFeed
stop f = record f {
  status = default_status;
  headers = no_headers;
  packets = [];
  keyframe = false;
  audio = false;
}

-- The order of `take_packets`: by decoding time, and video before audio.
abbrev pub goes_before : EncodedPacket → EncodedPacket → Bool
goes_before a b =
    ltb_ℤ a.dts_us b.dts_us || (eq_ℤ a.dts_us b.dts_us && is_video a.kind && is_audio b.kind)

-- `std::stable_sort`: each packet goes in front of the first that it must precede.
unfoldable pub insert : EncodedPacket → List EncodedPacket → List EncodedPacket
insert p [] = p ∷ []
insert p (q ∷ qs) = let rest = insert p qs in if goes_before q p then q ∷ rest else p ∷ q ∷ qs

unfoldable pub stable_sort : List EncodedPacket → List EncodedPacket
unfolding insert
stable_sort [] = []
stable_sort (p ∷ ps) = insert p (stable_sort ps)

-- The loop of `take_packets`: the packets released, those left, and the bytes left.
unfoldable pub release : ℤ → List EncodedPacket → ℕ → List EncodedPacket × List EncodedPacket × ℕ
release mark [] bytes = ([], [], bytes)
release mark (p ∷ ps) bytes =
    let (out, left, rest) = release mark ps (sub_size bytes (length p.payload)) in
    if leb_ℤ p.dts_us mark then (p ∷ out, left, rest) else ([], p ∷ ps, bytes)

abbrev pub front_dts : List EncodedPacket → Option ℤ
front_dts [] = none
front_dts (p ∷ ps) = some p.dts_us

abbrev pub back_dts : List EncodedPacket → Option ℤ
back_dts [] = none
back_dts (p ∷ ps) = some (last_from p ps).dts_us

unfoldable pub take_until : HoldingFeed → ℤ → HoldingFeed × List EncodedPacket
take_until f mark =
    let (out, left, bytes) = release mark (stable_sort f.packets) f.status.queued_bytes in
    (
      record f {
        packets = left;
        status = record f.status { queued_bytes = bytes };
        minimum_dts = front_dts left;
        maximum_dts = back_dts left;
      },
      out,
    )

-- `*last_video_dts_` and `*last_audio_dts_`; none where one of them is empty, which C++ does not
-- allow.
abbrev pub slower_stream : HoldingFeed → Option ℤ
slower_stream f = elim f.last_video_dts [
  | none ↦ none
  | some v ↦ elim f.last_audio_dts [ none ↦ none | some a ↦ some (min_ℤ v a) ]
]

-- None stands for the read of an empty optional.
unfoldable pub take_packets : HoldingFeed → Option (HoldingFeed × List EncodedPacket)
take_packets f =
    if is_ready f.status.state
    then elim (slower_stream f) [ none ↦ none | some mark ↦ some (take_until f mark) ]
    else some (f, [])

-- The calls of a feed, in the order in which the mutex admits them.
pub data Call : Type 0 where
  installs : Bool → Call
  begins checks : ℕ → Call
  gets_headers : ℕ → FlvCodecHeaders → Call
  ingests : ℕ → EncodedPacket → Call
  fails : String → Call
  stops takes : Call

abbrev pub after_take : Option (HoldingFeed × List EncodedPacket) → Option HoldingFeed
after_take none = none
after_take (some (f, out)) = some f

unfoldable pub step : HoldingFeed → Call → Option HoldingFeed
step f (Call.installs b) = some (set_failure_callback f b)
step f (Call.begins now) = some (begin f now)
step f (Call.checks now) = some (check_deadline f now)
step f (Call.gets_headers now headers) = some (set_headers f now headers)
step f (Call.ingests now p) = some (ingest f now p)
step f (Call.fails error) = some (fail f error)
step f Call.stops = some (stop f)
step f Call.takes = after_take (take_packets f)

abbrev pub and_then : Option HoldingFeed → (HoldingFeed → Option HoldingFeed) → Option HoldingFeed
and_then none next = none
and_then (some f) next = next f

unfoldable pub run : HoldingFeed → List Call → Option HoldingFeed
run f [] = some f
run f (call ∷ calls) = and_then (step f call) (λ f'. run f' calls)
