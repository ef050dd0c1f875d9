-- ===== src/TransitionCodec/Video.antt =====
-- src/transition-codec.hpp: `transition_video_duration`, which reads the frame duration from an
-- AVC decoder configuration. Each part of the sequence parameter set is one definition.
use obs_live_delay_plugin.TransitionCodec.{transition_max_composition_us, value_of, bits_of}
use obs_live_delay_plugin.Flv.Tag.{FlvCodecHeaders}
use obs_live_delay_plugin.Base.{
  List, Bool, ℕ, ltb, ◌+◌, leb, Result, ◌*◌, ◌^◌, length, ◌==◌, not, ◌&&◌, ok, if◌then◌else◌, ◌-◌,
  suc, ◌||◌, err, ◌%◌, ◌++◌, ◌/◌, zero, ◌∷◌, [],
}
use obs_live_delay_plugin.TransitionCodec.Bits.{
  ◌>>=◌, ◌>>◌, Reading, byte_at, refuse_codec, read_on, get, ue, when, pure,
  unsupported_transition_codec,
}

-- `(std::size_t(c[i]) << 8) | c[i + 1]`.
abbrev pub size_at : List ℕ → ℕ → ℕ
size_at c i = byte_at c i * 2 ^ 8 + byte_at c (i + 1)

-- The tests before the picture parameter set.
abbrev pub is_outer_refused : List ℕ → Bool
is_outer_refused c =
    ltb (length c) 9
    || (ltb 4096 (length c)
        || (not (byte_at c 0 == 1)
            || (not (byte_at c 4 % 4 == 3)
                || (not (byte_at c 5 % 32 == 1)
                    || (ltb (size_at c 6) 5
                        || (ltb (length c) (8 + size_at c 6 + 3)
                            || not (byte_at c 8 % 32 == 7)))))))

-- The four bytes that may follow the picture parameter set of profile 100.
abbrev pub is_high_trailer : List ℕ → ℕ → Bool
is_high_trailer c end =
    byte_at c 1 == 100
    && (length c == end + 4
        && (byte_at c end == 0xfd
            && (byte_at c (end + 1) == 0xf8
                && (byte_at c (end + 2) == 0xf8 && byte_at c (end + 3) == 0))))

-- The tests of the picture parameter set at `pps`.
abbrev pub is_pps_refused : List ℕ → ℕ → Bool
is_pps_refused c pps =
    let pps_size = size_at c (pps + 1) in
    let end = pps + 3 + pps_size in
    not (byte_at c pps == 1)
    || (ltb pps_size 2
        || (ltb (length c) (pps + 3 + pps_size)
            || (not (byte_at c (pps + 3) % 32 == 8)
                || (not (end == length c) && not (is_high_trailer c end)))))

-- A byte that prevents the emulation of a start code.
abbrev pub is_escape : List ℕ → ℕ → Bool
is_escape c i = leb 11 i && (byte_at c i == 3 && (byte_at c (i - 1) == 0 && byte_at c (i - 2) == 0))

-- The loop that removes those bytes; `count` bytes are left before `stop`.
unfoldable pub unescape_loop : List ℕ → (stop count i : ℕ) → List ℕ → Result (List ℕ)
unescape_loop c stop zero i rbsp = ok rbsp
unescape_loop c stop (suc count) i rbsp =
    let rest =
      unescape_loop c stop count (i + 1)
        (if is_escape c i then rbsp else rbsp ++ (byte_at c i ∷ [])) in
    if is_escape c i && (leb stop (i + 1) || ltb 3 (byte_at c (i + 1)))
    then unsupported_transition_codec
    else rest

abbrev pub refuse_unless : Bool → Reading (Unit {0})
refuse_unless accepted = refuse_codec (not accepted)

abbrev pub read_flag : Reading Bool
read_flag b = read_on (get 1 b) (λ bit. pure (not (bit == 0)))

abbrev pub skip_bits : ℕ → Reading (Unit {0})
skip_bits count = do dropped ← get count; pure tt

abbrev pub skip_ue : Reading (Unit {0})
skip_ue = do dropped ← ue; pure tt

abbrev pub ue_at_most : ℕ → Reading (Unit {0})
ue_at_most limit = do value ← ue; refuse_codec (ltb limit value)

abbrev pub ue_equal : ℕ → Reading (Unit {0})
ue_equal wanted = do value ← ue; refuse_unless (value == wanted)

abbrev pub get_equal : (count wanted : ℕ) → Reading (Unit {0})
get_equal count wanted = do value ← get count; refuse_unless (value == wanted)

abbrev pub read_profile : ℕ → Reading (Unit {0})
read_profile wanted = do
  profile ← get 8
  skip_bits 8
  skip_bits 8
  refuse_unless (profile == wanted)
  refuse_unless ((profile == 66) || ((profile == 77) || (profile == 100)))
  ue_at_most 31
  when (profile == 100) (do ue_equal 1; ue_equal 0; ue_equal 0; get_equal 1 0; get_equal 1 0)

abbrev pub read_order_count : Reading (Unit {0})
read_order_count = do poc ← ue; if poc == 0 then ue_at_most 12 else refuse_unless (poc == 2)

abbrev pub skip_crop : Reading (Unit {0})
skip_crop = do skip_ue; skip_ue; skip_ue; skip_ue

-- From `log2_max_frame_num_minus4` to the flag that says that there is a VUI.
abbrev pub read_frames : Reading (Unit {0})
read_frames = do
  ue_at_most 12
  read_order_count
  ue_at_most 16
  get_equal 1 0
  ue_at_most 511
  ue_at_most 511
  get_equal 1 1
  skip_bits 1
  crop ← read_flag
  when crop skip_crop
  vui ← read_flag
  refuse_unless vui

abbrev pub skip_aspect : Reading (Unit {0})
skip_aspect = do ratio ← get 8; when (ratio == 255) (do skip_bits 16; skip_bits 16)

abbrev pub skip_signal : Reading (Unit {0})
skip_signal = do
  skip_bits 3
  skip_bits 1
  colour ← read_flag
  when colour (do skip_bits 8; skip_bits 8; skip_bits 8)

abbrev pub skip_chroma : Reading (Unit {0})
skip_chroma = do skip_ue; skip_ue

-- The VUI before its timing, and the flag that says that there is a timing.
abbrev pub read_vui : Reading (Unit {0})
read_vui = do
  aspect ← read_flag
  when aspect skip_aspect
  overscan ← read_flag
  when overscan (skip_bits 1)
  signal ← read_flag
  when signal skip_signal
  chroma ← read_flag
  when chroma skip_chroma
  timing ← read_flag
  refuse_unless timing

abbrev pub frame_us : (units scale : ℕ) → ℕ
frame_us units scale = (2000000 * units + scale - 1) / scale

unfoldable pub read_timing : Reading ℕ
read_timing = do
  units ← get 32
  scale ← get 32
  skip_bits 1
  refuse_codec ((units == 0) || (scale == 0))
  refuse_codec (ltb (frame_us units scale) 4000 || ltb 100000 (frame_us units scale))
  pure (frame_us units scale)

-- The loop of `skip_hrd`.
unfoldable pub skip_schedules : ℕ → Reading (Unit {0})
skip_schedules zero = pure tt
skip_schedules (suc count) = do skip_ue; skip_ue; skip_bits 1; skip_schedules count

unfoldable pub skip_hrd : Reading (Unit {0})
skip_hrd = do
  last ← ue
  refuse_codec (ltb 32 (last + 1))
  skip_bits 8
  skip_schedules (last + 1)
  skip_bits 20

abbrev pub read_buffering : Reading (Unit {0})
read_buffering = do
  nal_hrd ← read_flag
  when nal_hrd skip_hrd
  vcl_hrd ← read_flag
  when vcl_hrd skip_hrd
  when (nal_hrd || vcl_hrd) (skip_bits 1)
  skip_bits 1

-- The end of the VUI for a frame of `duration` microseconds.
unfoldable pub read_restriction : ℕ → Reading (Unit {0})
read_restriction duration = do
  restricted ← read_flag
  when restricted (do
    skip_bits 1
    skip_ue
    skip_ue
    skip_ue
    skip_ue
    reorder ← ue
    buffer ← ue
    refuse_codec (
        ltb buffer reorder
        || (ltb 16 buffer || ltb transition_max_composition_us (reorder * duration))))

-- The whole sequence parameter set of a configuration for `profile`.
unfoldable pub video_duration : ℕ → Reading ℕ
video_duration profile = do
  read_profile profile
  read_frames
  read_vui
  duration ← read_timing
  read_buffering
  read_restriction duration
  pure duration

abbrev pub duration_of_rbsp : ℕ → Result (List ℕ) → Result ℕ
duration_of_rbsp profile (err message) = err message
duration_of_rbsp profile (ok rbsp) = value_of (video_duration profile (bits_of rbsp))

unfoldable pub transition_video_duration : FlvCodecHeaders → Result ℕ
transition_video_duration headers =
    let c = headers.avc_decoder_configuration in
    if is_outer_refused c || is_pps_refused c (8 + size_at c 6)
    then unsupported_transition_codec
    else duration_of_rbsp (byte_at c 1) (unescape_loop c (8 + size_at c 6) (size_at c 6 - 1) 9 [])
