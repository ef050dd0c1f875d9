-- ===== src/Preflight/Compatibility.antt =====
-- src/multistream-preflight.cpp: what the issues say of the platforms, against a table of what the
-- platforms take.
use obs_live_delay_plugin.Preflight.Issues.{
  NoHard, NoHard-nil, NoHard-split, NoHard-join, keyframes_near, either_checked, NoHard-hard_if,
  hard_if-NoHard, near_keyframes, guidance-NoHard,
}
use obs_live_delay_plugin.Multistream.Validation.{not-true, or_false, enabled_of}
use obs_live_delay_plugin.Base.{
  ◌∷◌, [], Bool, List, ◌++◌, ◌≡◌, true, false, ◌≤◌, ◌↔◌, not, ap, ℕ, ltb, ◌==◌, ◌||◌, arith,
  if◌then◌else◌, Every, ◌+◌, Bool-cases, inl, subst, inr,
}
use obs_live_delay_plugin.Preflight.{
  StreamRendition, PreflightIssue, check_platform, check_all, can_start,
  evaluate_multistream_preflight, no_hard_issue, DestinationPlatform, eq_text, check_shared_codecs,
  check_twitch, h264_name, check_youtube, check_kick, aac_name, cbr_name, youtube_keyframes,
  MultistreamDestination, MultistreamConfiguration,
}

module _ {ℓ} {Rate : Type ℓ} (above_60 : Rate → Bool) where
  -- H.264, AAC and a constant bit rate, which every platform with a check asks for.
  abbrev pub HasSharedCodecs : StreamRendition Rate → Type 0
  HasSharedCodecs r =
      (eq_text r.video_codec h264_name ≡ true)
      × (eq_text r.audio_codec aac_name ≡ true)
      × (eq_text r.rate_control cbr_name ≡ true)

  -- The table of what the platforms take.
  abbrev pub Takes : DestinationPlatform → StreamRendition Rate → Type 0
  Takes DestinationPlatform.custom_rtmp r = Unit
  Takes DestinationPlatform.twitch r = HasSharedCodecs r
  Takes DestinationPlatform.you_tube r =
      HasSharedCodecs r × (above_60 r.frames_per_second ≡ false) × (r.keyframe_interval_seconds ≤ 4)
  Takes DestinationPlatform.kick r =
      HasSharedCodecs r
      × (r.width ≤ 1920)
      × (r.height ≤ 1080)
      × (above_60 r.frames_per_second ≡ false)
      × (r.video_bitrate_kbps ≤ 8000)
      × (r.keyframe_interval_seconds ≡ 2)

  HasSharedCodecs-checked :
      (p : DestinationPlatform) (r : StreamRendition Rate)
      → NoHard (check_shared_codecs above_60 p r)
      → HasSharedCodecs r
  unfolding check_shared_codecs
  HasSharedCodecs-checked p r h =
      let (video, h1) = NoHard-split _ _ h in
      let (audio, rate) = NoHard-split _ _ h1 in
      (
        not-true _ (NoHard-hard_if _ _ _ _ video),
        not-true _ (NoHard-hard_if _ _ _ _ audio),
        not-true _ (NoHard-hard_if _ _ _ _ rate),
      )

  checked-HasSharedCodecs :
      (p : DestinationPlatform) (r : StreamRendition Rate)
      → HasSharedCodecs r
      → NoHard (check_shared_codecs above_60 p r)
  unfolding check_shared_codecs
  checked-HasSharedCodecs p r (video, audio, rate) =
      NoHard-join _ _ (hard_if-NoHard _ _ _ _ (ap not video)) (
        NoHard-join _ _ (hard_if-NoHard _ _ _ _ (ap not audio))
          (hard_if-NoHard _ _ _ _ (ap not rate)))

  youtube_keyframes-NoHard :
      (interval : ℕ) → NoHard (youtube_keyframes above_60 interval) ↔ (interval ≤ 4)
  unfolding no_hard_issue
  youtube_keyframes-NoHard interval = (
    λ h. (let near = keyframes_near (ltb 4 interval) _ _ _ _ h in ground arith),
    λ h. near_keyframes (ltb 4 interval) _ _ _ _ _ (ground arith),
  )

  Takes-checked :
      (p : DestinationPlatform) (r : StreamRendition Rate)
      → NoHard (check_platform above_60 p r)
      → Takes p r
  unfolding check_twitch check_youtube check_kick
  Takes-checked DestinationPlatform.custom_rtmp r h = tt
  Takes-checked DestinationPlatform.twitch r h =
      HasSharedCodecs-checked DestinationPlatform.twitch r (NoHard-split _ _ h).0
  Takes-checked DestinationPlatform.you_tube r h =
      let (shared, h1) = NoHard-split _ _ h in
      let (fps, keyframes) = NoHard-split _ _ h1 in
      (
        HasSharedCodecs-checked DestinationPlatform.you_tube r shared,
        NoHard-hard_if _ _ _ _ fps,
        (youtube_keyframes-NoHard r.keyframe_interval_seconds).0 keyframes,
      )
  Takes-checked DestinationPlatform.kick r h =
      let (shared, h1) = NoHard-split _ _ h in
      let (size, h2) = NoHard-split _ _ h1 in
      let (fps, h3) = NoHard-split _ _ h2 in
      let (bitrate, keyframes) = NoHard-split _ _ h3 in
      let (wide, tall) =
        or_false (ltb 1920 r.width) (ltb 1080 r.height) (NoHard-hard_if _ _ _ _ size) in
      let fast = NoHard-hard_if (ltb 8000 r.video_bitrate_kbps) _ _ _ bitrate in
      let key = not-true (r.keyframe_interval_seconds == 2) (NoHard-hard_if _ _ _ _ keyframes) in
      (
        HasSharedCodecs-checked DestinationPlatform.kick r shared,
        ground arith,
        ground arith,
        NoHard-hard_if _ _ _ _ fps,
        ground arith,
        ground arith,
      )

  checked-Takes :
      (p : DestinationPlatform) (r : StreamRendition Rate)
      → Takes p r
      → NoHard (check_platform above_60 p r)
  unfolding check_twitch check_youtube check_kick
  checked-Takes DestinationPlatform.custom_rtmp r h = NoHard-nil
  checked-Takes DestinationPlatform.twitch r h =
      NoHard-join _ _ (checked-HasSharedCodecs DestinationPlatform.twitch r h)
        (guidance-NoHard _ _ _ _)
  checked-Takes DestinationPlatform.you_tube r (shared, fps, keyframes) =
      NoHard-join _ _ (checked-HasSharedCodecs DestinationPlatform.you_tube r shared) (
        NoHard-join _ _ (hard_if-NoHard _ _ _ _ fps)
          ((youtube_keyframes-NoHard r.keyframe_interval_seconds).1 keyframes))
  checked-Takes DestinationPlatform.kick r (shared, wide, tall, fps, bitrate, key) =
      NoHard-join _ _ (checked-HasSharedCodecs DestinationPlatform.kick r shared) (
        NoHard-join _ _
          (hard_if-NoHard (ltb 1920 r.width || ltb 1080 r.height) _ _ _ (ground arith))
          (NoHard-join _ _ (hard_if-NoHard _ _ _ _ fps) (
            NoHard-join _ _ (hard_if-NoHard (ltb 8000 r.video_bitrate_kbps) _ _ _ (ground arith))
              (hard_if-NoHard (not (r.keyframe_interval_seconds == 2)) _ _ _ (ground arith)))))

  -- What a destination that is enabled needs.
  abbrev pub TakesAt : StreamRendition Rate → MultistreamDestination → Type 0
  TakesAt r d = Takes d.platform r

  check_all-Takes :
      (r : StreamRendition Rate) (ds : List MultistreamDestination) (count : ℕ)
      (issues : List PreflightIssue)
      → NoHard (check_all above_60 r ds count issues).1
      → NoHard issues × Every (TakesAt r) (enabled_of ds)
  unfolding check_all enabled_of
  check_all-Takes r [] count issues h = (h, tt)
  check_all-Takes r (d ∷ ds) count issues h =
      either_checked d.enabled _ _ h
        (λ e h1.
          (let (hi, rest) =
              check_all-Takes r ds (count + 1) (issues ++ check_platform above_60 d.platform r)
                h1 in
            let (before, own) = NoHard-split issues (check_platform above_60 d.platform r) hi in
            rw e (before, (Takes-checked d.platform r own, rest))))
        (λ e h1. rw e (check_all-Takes r ds count issues h1))

  Takes-check_all :
      (r : StreamRendition Rate) (ds : List MultistreamDestination) (count : ℕ)
      (issues : List PreflightIssue)
      → NoHard issues
      → Every (TakesAt r) (enabled_of ds)
      → NoHard (check_all above_60 r ds count issues).1
  unfolding check_all enabled_of
  Takes-check_all r [] count issues hi h = hi
  Takes-check_all r (d ∷ ds) count issues hi h = elim (Bool-cases d.enabled) [
    | inl e ↦
        (let (own, rest) =
            subst (λ b. Every (TakesAt r) (if b then d ∷ enabled_of ds else enabled_of ds)) e h in
          rw e (
            Takes-check_all r ds (count + 1) (issues ++ check_platform above_60 d.platform r)
              (NoHard-join issues (check_platform above_60 d.platform r) hi
                (checked-Takes d.platform r own))
              rest))
    | inr e ↦ rw e (
        Takes-check_all r ds count issues hi
          (subst (λ b. Every (TakesAt r) (if b then d ∷ enabled_of ds else enabled_of ds)) e h))
  ]

  -- A broadcast can start exactly if every enabled destination is on a platform that takes the
  -- rendition, by a table of the platforms' limits.
  pub can_start_iff :
      (c : MultistreamConfiguration) (r : StreamRendition Rate)
      → (can_start (evaluate_multistream_preflight above_60 c r) ≡ true)
        ↔ Every (TakesAt r) (enabled_of c.secondary_destinations)
  unfolding can_start evaluate_multistream_preflight
  can_start_iff c r = (
    λ h. (check_all-Takes r c.secondary_destinations 1 [] h).1,
    Takes-check_all r c.secondary_destinations 1 [] NoHard-nil,
  )
