-- ===== src/TransitionCodec/Admission.antt =====
-- src/transition-codec.hpp: which AAC configurations `transition_aac_duration` admits.
use obs_live_delay_plugin.TransitionCodec.{
  transition_aac_duration, aac_duration, bits_of, sbr_absent,
}
use obs_live_delay_plugin.TransitionCodec.Bits.{TransitionBits, get, get_loop}
use obs_live_delay_plugin.TransitionCodec.Durations.{read_on_ok, value_of_ok, snd_ok}
use obs_live_delay_plugin.TransitionCodec.Aac.{
  low_complexity, no_replication, frame_duration, IsLowComplexity, aac_duration-Fields, fields_of,
  duration_of, sbr_absent-no_replication, Fields, AreFields, at_bit,
}
use obs_live_delay_plugin.Flv.Tag.{FlvCodecHeaders}
use obs_live_delay_plugin.Base.{
  ◌∷◌, [], ℕ, List, Bool, ok, true, false, ◌≡◌, ◌↔◌, ◌++◌, if◌then◌else◌, ◌<◌, Every, arith, refl,
  ap, sym, ◌∙◌, IsByte, append-nil,
}

Fields-AreFields :
    (size a b : ℕ) (bytes : List ℕ) (last : ℕ × TransitionBits)
    → a < 256
    → b < 256
    → Fields size bytes a b last
    → AreFields a b
Fields-AreFields size a b bytes last h k f = fields_of a b h k f.object f.rate f.channels f.flags

two_bytes :
    (a b d : ℕ) (last : TransitionBits)
    → a < 256
    → b < 256
    → aac_duration 2 (bits_of (a ∷ b ∷ [])) ≡ ok (d, last)
    → IsLowComplexity (a ∷ b ∷ []) d
two_bytes a b d last h k e =
    let f = aac_duration-Fields 2 a b [] (d, last) h k e in
    let (fast, stereo, bytes, rate) = Fields-AreFields 2 a b (a ∷ b ∷ []) (d, last) h k f in
    (
      fast,
      stereo,
      false,
      bytes ∙ sym (append-nil (low_complexity fast stereo)),
      sym (snd_ok {b = at_bit (a ∷ b ∷ []) 16} f.behind) ∙ duration_of fast _ rate,
    )

extension_eq :
    {x y z : ℕ} → x ≡ 0x56 → y ≡ 0xe5 → z ≡ 0 → ◌≡◌ {A = List ℕ} (x ∷ y ∷ z ∷ []) no_replication
extension_eq e f g = rw e (rw f (rw g refl))

five_bytes :
    (a b x y z d : ℕ) (last : TransitionBits)
    → Every IsByte (a ∷ b ∷ x ∷ y ∷ z ∷ [])
    → aac_duration 5 (bits_of (a ∷ b ∷ x ∷ y ∷ z ∷ [])) ≡ ok (d, last)
    → IsLowComplexity (a ∷ b ∷ x ∷ y ∷ z ∷ []) d
five_bytes a b x y z d last (ha, (hb, (hx, (hy, (hz, none_))))) e =
    let c = a ∷ b ∷ x ∷ y ∷ z ∷ [] in
    let f = aac_duration-Fields 5 a b (x ∷ y ∷ z ∷ []) (d, last) ha hb e in
    let (fast, stereo, bytes, rate) = Fields-AreFields 5 a b c (d, last) ha hb f in
    let (u, b9, absent, given) = read_on_ok (sbr_absent (at_bit c 16)) _ f.behind in
    let (ex, ey, ez) = sbr_absent-no_replication a b x y z hx hy hz absent in
    (
      fast,
      stereo,
      true,
      ap (λ front. front ++ (x ∷ y ∷ z ∷ [])) bytes
          ∙ ap (λ rest. low_complexity fast stereo ++ rest) (extension_eq ex ey ez),
      sym (snd_ok {b = b9} given) ∙ duration_of fast _ rate,
    )

admitted :
    (c : List ℕ) (d : ℕ)
    → Every IsByte c
    → transition_aac_duration
        (record { avc_decoder_configuration = []; aac_audio_specific_config = c })
      ≡ ok d
    → IsLowComplexity c d
unfolding transition_aac_duration
admitted [] d h e = cc
admitted (a ∷ []) d h e = cc
admitted (a ∷ b ∷ []) d (ha, (hb, none_)) e =
    let (last, f) = value_of_ok (aac_duration 2 (bits_of (a ∷ b ∷ []))) e in
    two_bytes a b d last ha hb f
admitted (a ∷ b ∷ x ∷ []) d h e = cc
admitted (a ∷ b ∷ x ∷ y ∷ []) d h e = cc
admitted (a ∷ b ∷ x ∷ y ∷ z ∷ []) d h e =
    let (last, f) = value_of_ok (aac_duration 5 (bits_of (a ∷ b ∷ x ∷ y ∷ z ∷ []))) e in
    five_bytes a b x y z d last h f
admitted (a ∷ b ∷ x ∷ y ∷ z ∷ t ∷ rest) d h e = absurd (ground arith)

-- The eight configurations are admitted.
admits :
    (fast stereo extended : Bool)
    → transition_aac_duration (record {
      avc_decoder_configuration = [];
      aac_audio_specific_config =
          low_complexity fast stereo ++ (if extended then no_replication else []);
    })
      ≡ ok (frame_duration fast)
unfolding transition_aac_duration aac_duration get get_loop
admits true true true = refl
admits true true false = refl
admits true false true = refl
admits true false false = refl
admits false true true = refl
admits false true false = refl
admits false false true = refl
admits false false false = refl

only_audio :
    (headers : FlvCodecHeaders)
    → transition_aac_duration headers
      ≡ transition_aac_duration (record {
        avc_decoder_configuration = [];
        aac_audio_specific_config = headers.aac_audio_specific_config;
      })
unfolding transition_aac_duration
only_audio headers = refl

-- A configuration of bytes is admitted exactly if it is one of eight: AAC LC with frames of 1024
-- samples at 48 or 44.1 kHz, mono or stereo, with or without the extension that says that there is
-- no spectral band replication; and the duration is then that of a frame, 21334 microseconds at 48
-- and 23220 at 44.1 kHz.
pub transition_aac_duration_iff :
    (headers : FlvCodecHeaders) (d : ℕ)
    → Every IsByte headers.aac_audio_specific_config
    → (transition_aac_duration headers ≡ ok d) ↔ IsLowComplexity headers.aac_audio_specific_config d
transition_aac_duration_iff headers d h = (
  λ e. admitted headers.aac_audio_specific_config d h (sym (only_audio headers) ∙ e),
  λ (fast, stereo, extended, c, e).
      only_audio headers
      ∙ ap
          (λ bytes.
            transition_aac_duration
              (record { avc_decoder_configuration = []; aac_audio_specific_config = bytes }))
          c
      ∙ admits fast stereo extended
      ∙ ap ok (sym e),
)
