-- ===== src/HoldingFeed/Bounds.antt =====
-- The feed stays within its bounds and releases nothing before both streams have begun.
use obs_live_delay_plugin.Packet.{total_bytes, total_bytes-append}
use obs_live_delay_plugin.Base.{
  some, [], ◌∷◌, true, false, ◌≡◌, ℕ, arith, String, if_cases, ltb, ◌≤◌, ◌&&◌, ◌+◌, sub_size, not,
  leb, length, is_some, is_empty, ◌<◌, ◌||◌, refl, length-append,
}
use obs_live_delay_plugin.HoldingFeed.{
  HoldingFeed, begin, stop, fail, update_ready, check_deadline, set_headers, take_in,
  ingest_limited, FlvCodecHeaders, set_headers_running, EncodedPacket, PacketKind, is_running,
  is_starting, ℤ, pos, headers_changed, set_last, queue_byte_limit, is_ready, queue_duration_us,
  as_uint64, highest, ◌-ℤ◌, lowest, ingest_ordered, is_audio, ingest_started, ingest_running,
  ingest, falls_behind, ltb_ℤ, is_keyframe, last_of,
}

-- The bytes and packets are within their limits, the bytes are counted, and a feed that runs has
-- seen video once it has its keyframe, audio once it has audio, and both once it is ready.
pub record IsValid (f : HoldingFeed) : Type 0 where
  pub counted : f.status.queued_bytes ≡ total_bytes f.packets
  pub bounded : f.status.queued_bytes ≤ queue_byte_limit
  pub few : length f.packets ≤ 4096
  pub video : (is_running f.status.state && f.keyframe && not (is_some f.last_video_dts)) ≡ false
  pub sound : (is_running f.status.state && f.audio && not (is_some f.last_audio_dts)) ≡ false
  pub both : (is_ready f.status.state && not (f.keyframe && f.audio)) ≡ false

pub begin-IsValid : (f : HoldingFeed) (now : ℕ) → IsValid (begin f now)
unfolding begin
begin-IsValid f now = record {
  counted = refl;
  bounded = omega arith;
  few = omega arith;
  video = refl;
  sound = refl;
  both = refl;
}

pub stop-IsValid : (f : HoldingFeed) → IsValid (stop f)
unfolding stop
stop-IsValid f = record {
  counted = refl;
  bounded = omega arith;
  few = omega arith;
  video = refl;
  sound = refl;
  both = refl;
}

pub fail-IsValid : (f : HoldingFeed) (error : String) → IsValid f → IsValid (fail f error)
unfolding fail
fail-IsValid f error v =
    if_cases IsValid (is_running f.status.state)
      (λ e. record {
        counted = refl;
        bounded = omega arith;
        few = omega arith;
        video = refl;
        sound = refl;
        both = refl;
      })
      (λ e. v)

update_ready-IsValid : (f : HoldingFeed) → IsValid f → IsValid (update_ready f)
unfolding update_ready
update_ready-IsValid f v =
    if_cases IsValid
      (is_starting f.status.state
        && f.keyframe
        && f.audio
        && not (is_empty f.headers.avc_decoder_configuration)
        && not (is_empty f.headers.aac_audio_specific_config))
      (λ e. record {
        counted = v.counted;
        bounded = v.bounded;
        few = v.few;
        video = ground (arith, v.video);
        sound = ground (arith, v.sound);
        both = ground arith;
      })
      (λ e. v)

pub check_deadline-IsValid :
    (f : HoldingFeed) (now : ℕ) → IsValid f → IsValid (check_deadline f now)
unfolding check_deadline
check_deadline-IsValid f now v =
    if_cases IsValid (is_starting f.status.state && leb f.deadline now) (λ e. fail-IsValid f _ v)
      (λ e. v)

with_headers-IsValid :
    (f : HoldingFeed) (headers : FlvCodecHeaders)
    → IsValid f
    → IsValid (record f { headers = headers })
with_headers-IsValid f headers v = record {
  counted = v.counted;
  bounded = v.bounded;
  few = v.few;
  video = v.video;
  sound = v.sound;
  both = v.both;
}

pub set_headers-IsValid :
    (f : HoldingFeed) (now : ℕ) (headers : FlvCodecHeaders)
    → IsValid f
    → IsValid (set_headers f now headers)
unfolding set_headers set_headers_running
set_headers-IsValid f now headers v =
    let f' = check_deadline f now in
    let v' = check_deadline-IsValid f now v in
    if_cases IsValid (is_running f'.status.state)
      (λ e.
        if_cases IsValid (headers_changed f'.headers headers) (λ c. fail-IsValid f' _ v')
          (λ c.
            update_ready-IsValid (record f' { headers = headers })
              (with_headers-IsValid f' headers v')))
      (λ e. v')

take_in-IsValid :
    (f : HoldingFeed) (p : EncodedPacket) (minimum maximum : ℤ)
    → IsValid f
    → f.status.queued_bytes + length p.payload ≤ queue_byte_limit
    → length f.packets < 4096
    → IsValid (take_in f p minimum maximum)
unfolding take_in
take_in-IsValid f p minimum maximum v room space = update_ready-IsValid _ (record {
  counted = omega (arith, v.counted, total_bytes-append f.packets (p ∷ []));
  bounded = omega arith;
  few = omega (arith, length-append f.packets (p ∷ []));
  video = v.video;
  sound = v.sound;
  both = v.both;
})

ingest_limited-IsValid :
    (f : HoldingFeed) (p : EncodedPacket) → IsValid f → IsValid (ingest_limited f p)
unfolding ingest_limited
ingest_limited-IsValid f p v =
    if_cases IsValid
      (ltb (sub_size queue_byte_limit f.status.queued_bytes) (length p.payload)
        || leb 4096 (length f.packets))
      (λ e. fail-IsValid f _ v)
      (λ e.
        if_cases IsValid
          (ltb queue_duration_us
            (as_uint64 (highest f.maximum_dts p.dts_us -ℤ lowest f.minimum_dts p.dts_us)))
          (λ l. fail-IsValid f _ v)
          (λ l. take_in-IsValid f p _ _ v (ground (arith, v.bounded)) (ground arith)))

-- What holds just before a packet's stream is marked: as `IsValid`, but for that stream.
abbrev Awaits : HoldingFeed → PacketKind → Type 0
Awaits f PacketKind.video = IsValid (record f { last_video_dts = some (pos 0) })
Awaits f PacketKind.audio = IsValid (record f { last_audio_dts = some (pos 0) })

set_last-IsValid :
    (f : HoldingFeed) (kind : PacketKind) (dts : ℤ) → Awaits f kind → IsValid (set_last f kind dts)
set_last-IsValid f PacketKind.video dts v = record {
  counted = v.counted;
  bounded = v.bounded;
  few = v.few;
  video = v.video;
  sound = v.sound;
  both = v.both;
}
set_last-IsValid f PacketKind.audio dts v = record {
  counted = v.counted;
  bounded = v.bounded;
  few = v.few;
  video = v.video;
  sound = v.sound;
  both = v.both;
}

fail_running-IsValid :
    (f : HoldingFeed) (error : String) → is_running f.status.state ≡ true → IsValid (fail f error)
unfolding fail
fail_running-IsValid f error running =
    if_cases IsValid (is_running f.status.state)
      (λ e. record {
        counted = refl;
        bounded = omega arith;
        few = omega arith;
        video = refl;
        sound = refl;
        both = refl;
      })
      (λ e. absurd (ground arith))

ingest_ordered-IsValid :
    (f : HoldingFeed) (p : EncodedPacket)
    → is_running f.status.state ≡ true
    → Awaits f p.kind
    → IsValid (ingest_ordered f p)
unfolding ingest_ordered
ingest_ordered-IsValid f p running v =
    if_cases IsValid (falls_behind (last_of f p.kind) p.dts_us)
      (λ e. fail_running-IsValid f _ running)
      (λ e.
        ingest_limited-IsValid (set_last f p.kind p.dts_us) p
          (set_last-IsValid f p.kind p.dts_us v))

-- A packet of a running feed; `f` may have got its keyframe from this packet.
Awaits-stream :
    (f : HoldingFeed) (kind : PacketKind)
    → Awaits f PacketKind.video
    → (is_audio kind ≡ true → IsValid f)
    → Awaits (record f { audio = f.audio || is_audio kind }) kind
Awaits-stream f PacketKind.video v w = record {
  counted = v.counted;
  bounded = v.bounded;
  few = v.few;
  video = v.video;
  sound = ground (arith, v.sound);
  both = ground (arith, v.both);
}
Awaits-stream f PacketKind.audio v w =
    let u = w refl in
    record {
      counted = u.counted;
      bounded = u.bounded;
      few = u.few;
      video = u.video;
      sound = ground arith;
      both = ground (arith, u.both);
    }

Awaits-video : (f : HoldingFeed) → IsValid f → Awaits f PacketKind.video
Awaits-video f v = record {
  counted = v.counted;
  bounded = v.bounded;
  few = v.few;
  video = ground arith;
  sound = v.sound;
  both = v.both;
}

ingest_started-IsValid :
    (f : HoldingFeed) (p : EncodedPacket)
    → is_running f.status.state ≡ true
    → Awaits f PacketKind.video
    → (is_audio p.kind ≡ true → IsValid f)
    → (is_audio p.kind && ltb_ℤ p.dts_us f.status.video_cutoff_us ≡ true → IsValid f)
    → IsValid (ingest_started f p)
unfolding ingest_started
ingest_started-IsValid f p running v w early =
    if_cases IsValid (is_audio p.kind && ltb_ℤ p.dts_us f.status.video_cutoff_us) (λ e. early e)
      (λ e. ingest_ordered-IsValid _ p running (Awaits-stream f p.kind v w))

Awaits-keyframe :
    (f : HoldingFeed) (cutoff : ℤ)
    → f.keyframe ≡ false
    → IsValid f
    → Awaits
        (record f { keyframe = true; status = record f.status { video_cutoff_us = cutoff } })
        PacketKind.video
Awaits-keyframe f cutoff e v = record {
  counted = v.counted;
  bounded = v.bounded;
  few = v.few;
  video = ground arith;
  sound = v.sound;
  both = ground (arith, v.both);
}

ingest_running-IsValid :
    (f : HoldingFeed) (p : EncodedPacket)
    → is_running f.status.state ≡ true
    → IsValid f
    → IsValid (ingest_running f p)
unfolding ingest_running
ingest_running-IsValid f p running v =
    if_cases IsValid f.keyframe
      (λ e. ingest_started-IsValid f p running (Awaits-video f v) (λ _. v) (λ _. v))
      (λ e.
        if_cases IsValid (is_keyframe p)
          (λ k.
            ingest_started-IsValid _ p running (Awaits-keyframe f p.dts_us e v)
              (λ a. absurd (ground arith)) (λ a. absurd (ground arith)))
          (λ k. v))

pub ingest-IsValid :
    (f : HoldingFeed) (now : ℕ) (p : EncodedPacket) → IsValid f → IsValid (ingest f now p)
unfolding ingest
ingest-IsValid f now p v =
    let f' = check_deadline f now in
    let v' = check_deadline-IsValid f now v in
    if_cases IsValid (is_running f'.status.state) (λ e. ingest_running-IsValid f' p e v') (λ e. v')
