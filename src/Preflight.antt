-- ===== src/Preflight.antt =====
-- src/multistream-preflight.hpp and src/multistream-preflight.cpp: the check of the one rendition
-- that is sent to every platform. The tests on a frame rate, which the source keeps as a `double`,
-- are a parameter: `above_60 rate` is `rate > 60.0`. Codec names are lists of bytes.
pub mod Issues
pub mod Compatibility
mod Tests
use obs_live_delay_plugin.RtmpTarget.{eq_text}
use obs_live_delay_plugin.Multistream.{
  DestinationPlatform, MultistreamDestination, MultistreamConfiguration,
}
use obs_live_delay_plugin.Base.{
  List, ℕ, Bool, String, ◌∷◌, not, ◌++◌, if◌then◌else◌, [], false, true, ltb, ◌==◌, ◌+◌, ◌&&◌, ◌||◌,
  ◌%◌, ◌^◌, ◌*◌,
}

pub record StreamRendition {ℓ} (Rate : Type ℓ) : Type ℓ where
  pub video_codec : List ℕ
  pub audio_codec : List ℕ
  pub rate_control : List ℕ
  pub width : ℕ
  pub height : ℕ
  pub frames_per_second : Rate
  pub video_bitrate_kbps : ℕ
  pub audio_bitrate_kbps : ℕ
  pub keyframe_interval_seconds : ℕ

pub data PreflightSeverity : Type 0 where
  guidance hard_incompatibility : PreflightSeverity

pub data PreflightIssueKind : Type 0 where
  h264_required aac_required cbr_required maximum_1080p maximum_60_fps maximum_8000_kbps :
      PreflightIssueKind
  two_second_keyframes_required maximum_four_second_keyframes : PreflightIssueKind
  two_second_keyframes_recommended twitch_keyframe_guidance : PreflightIssueKind

pub record PreflightIssue : Type 0 where
  pub platform : DestinationPlatform
  pub severity : PreflightSeverity
  pub kind : PreflightIssueKind
  pub message : String

pub record MultistreamPreflight : Type 0 where
  pub enabled_destination_count : ℕ
  pub estimated_upload_kbps : ℕ
  pub issues : List PreflightIssue

-- `add_issue` behind its test, onto the issues found so far.
abbrev pub issue_if :
    Bool
    → DestinationPlatform
    → PreflightSeverity
    → PreflightIssueKind
    → String
    → List PreflightIssue
issue_if found platform severity kind message =
    if found
    then record { platform = platform; severity = severity; kind = kind; message = message } ∷ []
    else []

abbrev pub h264_name : List ℕ
h264_name = b'h' ∷ 50 ∷ 54 ∷ 52 ∷ []

abbrev pub aac_name : List ℕ
aac_name = b'a' ∷ b'a' ∷ b'c' ∷ []

abbrev pub cbr_name : List ℕ
cbr_name = b'C' ∷ b'B' ∷ b'R' ∷ []

module _ {ℓ} {Rate : Type ℓ} (above_60 : Rate → Bool) where
  unfoldable pub check_shared_codecs :
      DestinationPlatform → StreamRendition Rate → List PreflightIssue
  check_shared_codecs platform r =
      issue_if (not (eq_text r.video_codec h264_name)) platform
        PreflightSeverity.hard_incompatibility PreflightIssueKind.h264_required
        "requires H.264 video"
      ++ (issue_if (not (eq_text r.audio_codec aac_name)) platform
            PreflightSeverity.hard_incompatibility PreflightIssueKind.aac_required
            "requires AAC audio"
          ++ issue_if (not (eq_text r.rate_control cbr_name)) platform
              PreflightSeverity.hard_incompatibility PreflightIssueKind.cbr_required
              "requires CBR rate control")

  unfoldable pub check_kick : StreamRendition Rate → List PreflightIssue
  check_kick r =
      check_shared_codecs DestinationPlatform.kick r
      ++ (issue_if (ltb 1920 r.width || ltb 1080 r.height) DestinationPlatform.kick
            PreflightSeverity.hard_incompatibility PreflightIssueKind.maximum_1080p
            "supports at most 1920x1080"
          ++ (issue_if (above_60 r.frames_per_second) DestinationPlatform.kick
                PreflightSeverity.hard_incompatibility PreflightIssueKind.maximum_60_fps
                "supports at most 60 fps"
              ++ (issue_if (ltb 8000 r.video_bitrate_kbps) DestinationPlatform.kick
                    PreflightSeverity.hard_incompatibility PreflightIssueKind.maximum_8000_kbps
                    "supports at most 8000 kbps video bitrate"
                  ++ issue_if (not (r.keyframe_interval_seconds == 2)) DestinationPlatform.kick
                      PreflightSeverity.hard_incompatibility
                      PreflightIssueKind.two_second_keyframes_required
                      "requires a 2-second keyframe interval")))

  -- The `else if` of the keyframe interval.
  abbrev pub youtube_keyframes : ℕ → List PreflightIssue
  youtube_keyframes interval =
      if ltb 4 interval
      then issue_if true DestinationPlatform.you_tube PreflightSeverity.hard_incompatibility
          PreflightIssueKind.maximum_four_second_keyframes
          "requires a keyframe interval of 4 seconds or less"
      else issue_if (not (interval == 2)) DestinationPlatform.you_tube PreflightSeverity.guidance
          PreflightIssueKind.two_second_keyframes_recommended
          "recommends a 2-second keyframe interval"

  unfoldable pub check_youtube : StreamRendition Rate → List PreflightIssue
  check_youtube r =
      check_shared_codecs DestinationPlatform.you_tube r
      ++ (issue_if (above_60 r.frames_per_second) DestinationPlatform.you_tube
            PreflightSeverity.hard_incompatibility PreflightIssueKind.maximum_60_fps
            "supports at most 60 fps for this RTMP/RTMPS workflow"
          ++ youtube_keyframes r.keyframe_interval_seconds)

  unfoldable pub check_twitch : StreamRendition Rate → List PreflightIssue
  check_twitch r =
      check_shared_codecs DestinationPlatform.twitch r
      ++ issue_if (not (r.keyframe_interval_seconds == 2)) DestinationPlatform.twitch
          PreflightSeverity.guidance PreflightIssueKind.twitch_keyframe_guidance
          "commonly expects a 2-second keyframe interval; verify current Twitch guidance"

  abbrev pub check_platform : DestinationPlatform → StreamRendition Rate → List PreflightIssue
  check_platform DestinationPlatform.custom_rtmp r = []
  check_platform DestinationPlatform.twitch r = check_twitch r
  check_platform DestinationPlatform.you_tube r = check_youtube r
  check_platform DestinationPlatform.kick r = check_kick r

  -- The loop: the number of enabled destinations and the issues, behind those found so far.
  unfoldable pub check_all :
      StreamRendition Rate
      → List MultistreamDestination
      → ℕ
      → List PreflightIssue
      → ℕ × List PreflightIssue
  check_all r [] count issues = (count, issues)
  check_all r (d ∷ ds) count issues =
      if d.enabled
      then check_all r ds (count + 1) (issues ++ check_platform d.platform r)
      else check_all r ds count issues

  -- The sum of the two rates is a `std::uint32_t`.
  unfoldable pub evaluate_multistream_preflight :
      MultistreamConfiguration → StreamRendition Rate → MultistreamPreflight
  evaluate_multistream_preflight c r =
      let (count, issues) = check_all r c.secondary_destinations 1 [] in
      record {
        enabled_destination_count = count;
        estimated_upload_kbps =
            ((r.video_bitrate_kbps + r.audio_bitrate_kbps) % 2 ^ 32 * count) % 2 ^ 64;
        issues = issues;
      }

abbrev pub is_hard : PreflightSeverity → Bool
is_hard PreflightSeverity.guidance = false
is_hard PreflightSeverity.hard_incompatibility = true

-- `std::none_of` over the issues.
unfoldable pub no_hard_issue : List PreflightIssue → Bool
no_hard_issue [] = true
no_hard_issue (issue ∷ issues) = not (is_hard issue.severity) && no_hard_issue issues

unfoldable pub can_start : MultistreamPreflight → Bool
can_start p = no_hard_issue p.issues
