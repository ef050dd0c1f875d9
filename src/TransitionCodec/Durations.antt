-- ===== src/TransitionCodec/Durations.antt =====
-- src/transition-codec.hpp: the frame durations of AVC configurations.
use obs_live_delay_plugin.TransitionCodec.{
  value_of, get, pure, FlvCodecHeaders, bits_of, unsupported_transition_codec,
}
use obs_live_delay_plugin.TransitionCodec.Video.{
  read_timing, skip_bits, frame_us, video_duration, transition_video_duration, read_profile,
  duration_of_rbsp, read_frames, read_vui, read_buffering, read_restriction, unescape_loop, size_at,
  is_outer_refused, is_pps_refused,
}
use obs_live_delay_plugin.Base.{
  Result, Bool, ℕ, ◌≤◌, ◌≡◌, ok, err, false, refl, true, ap, ok_inj, ◌==◌, ◌||◌, ltb, arith, List,
  ◌+◌, ◌-◌, subst, if◌then◌else◌, [],
}
use obs_live_delay_plugin.TransitionCodec.Bits.{
  TransitionBits, Reading, refuse_codec, read_on, byte_at,
}

-- A chain of readings that succeeds has a first reading that succeeds.
pub read_on_ok :
    {A B : Type 0} (first : Result (A × TransitionBits)) (next : A → Reading B)
    {last : B × TransitionBits}
    → read_on first next ≡ ok last
    → (a : A) × (c : TransitionBits) × (first ≡ ok (a, c)) × (next a c ≡ ok last)
read_on_ok (err message) next e = cc
read_on_ok (ok read) next e = (read.0, read.1, refl, e)

pub refuse_codec_ok :
    (refused : Bool) (b : TransitionBits) {last : Unit {0} × TransitionBits}
    → refuse_codec refused b ≡ ok last
    → refused ≡ false
refuse_codec_ok true b e = cc
refuse_codec_ok false b e = refl

pub value_of_ok :
    {A : Type 0} (r : Result (A × TransitionBits)) {a : A}
    → value_of r ≡ ok a
    → (c : TransitionBits) × (r ≡ ok (a, c))
value_of_ok (err message) e = cc
value_of_ok (ok read) e = (read.1, ap (λ v. ok (v, read.1)) (ok_inj e))

abbrev pub IsFrameDuration : ℕ → Type 0
IsFrameDuration d = (4000 ≤ d) × (d ≤ 100000)

timing_end :
    (found d : ℕ) → found ≡ d → (ltb found 4000 || ltb 100000 found) ≡ false → IsFrameDuration d
timing_end found d e h = ground arith

pub snd_ok : {A : Type 0} {a d : A} {b c : TransitionBits} → pure a b ≡ ok (d, c) → a ≡ d
snd_ok e = ap (λ r. r.0) (ok_inj e)

read_timing-IsFrameDuration :
    (b : TransitionBits) (d : ℕ) (c : TransitionBits)
    → read_timing b ≡ ok (d, c)
    → IsFrameDuration d
unfolding read_timing
read_timing-IsFrameDuration b d c e =
    let (units, b1, e1, f1) = read_on_ok (get 32 b) _ e in
    let (scale, b2, e2, f2) = read_on_ok (get 32 b1) _ f1 in
    let (u3, b3, e3, f3) = read_on_ok (skip_bits 1 b2) _ f2 in
    let (u4, b4, e4, f4) = read_on_ok (refuse_codec ((units == 0) || (scale == 0)) b3) _ f3 in
    let (u5, b5, e5, f5) =
      read_on_ok
        (refuse_codec (ltb (frame_us units scale) 4000 || ltb 100000 (frame_us units scale)) b4) _
        f4 in
    timing_end _ d (snd_ok f5) (refuse_codec_ok _ b4 e5)

video_duration-IsFrameDuration :
    (profile d : ℕ) (b c : TransitionBits)
    → video_duration profile b ≡ ok (d, c)
    → IsFrameDuration d
unfolding video_duration
video_duration-IsFrameDuration profile d b c e =
    let (u1, b1, e1, f1) = read_on_ok (read_profile profile b) _ e in
    let (u2, b2, e2, f2) = read_on_ok (read_frames b1) _ f1 in
    let (u3, b3, e3, f3) = read_on_ok (read_vui b2) _ f2 in
    let (found, b4, e4, f4) = read_on_ok (read_timing b3) _ f3 in
    let (u5, b5, e5, f5) = read_on_ok (read_buffering b4) _ f4 in
    let (u6, b6, e6, f6) = read_on_ok (read_restriction found b5) _ f5 in
    subst IsFrameDuration (snd_ok f6) (read_timing-IsFrameDuration b3 found b4 e4)

duration_of_rbsp-IsFrameDuration :
    (profile d : ℕ) (rbsp : Result (List ℕ))
    → duration_of_rbsp profile rbsp ≡ ok d
    → IsFrameDuration d
duration_of_rbsp-IsFrameDuration profile d (err message) e = cc
duration_of_rbsp-IsFrameDuration profile d (ok rbsp) e =
    let (c, f) = value_of_ok (video_duration profile (bits_of rbsp)) e in
    video_duration-IsFrameDuration profile d (bits_of rbsp) c f

accepted :
    {A : Type 0} (refused : Bool) (r : Result A) {a : A}
    → (if refused then unsupported_transition_codec else r) ≡ ok a
    → r ≡ ok a
accepted true r e = cc
accepted false r e = e

-- Whatever its bytes say, an admitted AVC configuration has a frame duration from 4000 to 100000
-- microseconds (10 to 250 frames a second).
pub transition_video_duration-IsFrameDuration :
    (headers : FlvCodecHeaders) (d : ℕ)
    → transition_video_duration headers ≡ ok d
    → IsFrameDuration d
unfolding transition_video_duration
transition_video_duration-IsFrameDuration headers d e =
    let c = headers.avc_decoder_configuration in
    duration_of_rbsp-IsFrameDuration (byte_at c 1) d
      (unescape_loop c (8 + size_at c 6) (size_at c 6 - 1) 9 [])
      (accepted (is_outer_refused c || is_pps_refused c (8 + size_at c 6)) _ e)
