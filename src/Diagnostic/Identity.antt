-- ===== src/Diagnostic/Identity.antt =====
-- Identifiers stay apart, and survive when one layer wraps the error of another.
use Prim.Native.String.{◌++◌}
use text.Mathlib.Text.{starts_with, ◌==◌ as str_eq}
use text.Mathlib.TextPositions.{starts_with-append}
use text.Mathlib.TextLemmas.{append_assoc}
use obs_live_delay_plugin.Base.{
  ◌≡◌, refl, sym, ap, ◌∙◌, true, Bool-cases, inl, inr, List, [], ◌∷◌, Option, none, some, String,
  if◌then◌else◌,
}
use obs_live_delay_plugin.Diagnostic.{DiagnosticCode, diagnostic_code, diagnostic_error}

abbrev all_codes : List DiagnosticCode
all_codes =
    DiagnosticCode.direct_profile_unavailable ∷ DiagnosticCode.direct_output_mode_unsupported
    ∷ DiagnosticCode.direct_service_missing ∷ DiagnosticCode.direct_video_encoder_unavailable
    ∷ DiagnosticCode.direct_audio_encoder_unsupported
    ∷ DiagnosticCode.direct_audio_encoder_unavailable
    ∷ DiagnosticCode.direct_encoder_settings_unavailable
    ∷ DiagnosticCode.direct_encoder_creation_failed ∷ DiagnosticCode.direct_output_creation_failed
    ∷ DiagnosticCode.direct_service_attach_failed ∷ DiagnosticCode.direct_output_start_failed
    ∷ DiagnosticCode.output_capture_not_ready ∷ DiagnosticCode.output_encoder_initialization_failed
    ∷ DiagnosticCode.output_service_missing ∷ DiagnosticCode.output_codec_headers_unavailable
    ∷ DiagnosticCode.output_capture_start_failed ∷ DiagnosticCode.output_encoder_stopped
    ∷ DiagnosticCode.output_controller_failed ∷ DiagnosticCode.output_mux_failed
    ∷ DiagnosticCode.output_pipeline_exception ∷ DiagnosticCode.operating_mode_conflict
    ∷ DiagnosticCode.network_consumer_startup_failed ∷ DiagnosticCode.packet_consumer_failed
    ∷ DiagnosticCode.packet_discontinuity_notification_failed
    ∷ DiagnosticCode.multistream_configuration_invalid ∷ DiagnosticCode.multi_target_startup_failed
    ∷ DiagnosticCode.multistream_preflight_failed ∷ DiagnosticCode.rtmp_target_invalid
    ∷ DiagnosticCode.rtmp_connection_failed ∷ DiagnosticCode.rtmp_write_failed
    ∷ DiagnosticCode.rtmp_sender_startup_failed ∷ DiagnosticCode.rtmp_sender_queue_full
    ∷ DiagnosticCode.rtmp_reconnect_exhausted ∷ DiagnosticCode.secondary_target_failed
    ∷ DiagnosticCode.output_stopped_unexpectedly ∷ DiagnosticCode.output_no_frames
    ∷ DiagnosticCode.scene_probe_input_invalid ∷ DiagnosticCode.scene_probe_recursion_detected
    ∷ DiagnosticCode.holding_scene_invalid ∷ DiagnosticCode.holding_scene_interrupted
    ∷ DiagnosticCode.program_scene_unavailable ∷ DiagnosticCode.dock_registration_failed
    ∷ DiagnosticCode.output_control_conflict ∷ DiagnosticCode.delay_control_unavailable
    ∷ DiagnosticCode.settings_save_failed ∷ DiagnosticCode.hotkey_registration_failed ∷ []

-- The identifier of a reported failure, looked up as a reader of a log does.
find_code : String → List DiagnosticCode → Option DiagnosticCode
unfolding diagnostic_code
find_code s [] = none
find_code s (c ∷ cs) = if str_eq (diagnostic_code c) s then some c else find_code s cs

find_code-diagnostic_code : (c : DiagnosticCode) → find_code (diagnostic_code c) all_codes ≡ some c
unfolding find_code
find_code-diagnostic_code DiagnosticCode.direct_profile_unavailable = refl
find_code-diagnostic_code DiagnosticCode.direct_output_mode_unsupported = refl
find_code-diagnostic_code DiagnosticCode.direct_service_missing = refl
find_code-diagnostic_code DiagnosticCode.direct_video_encoder_unavailable = refl
find_code-diagnostic_code DiagnosticCode.direct_audio_encoder_unsupported = refl
find_code-diagnostic_code DiagnosticCode.direct_audio_encoder_unavailable = refl
find_code-diagnostic_code DiagnosticCode.direct_encoder_settings_unavailable = refl
find_code-diagnostic_code DiagnosticCode.direct_encoder_creation_failed = refl
find_code-diagnostic_code DiagnosticCode.direct_output_creation_failed = refl
find_code-diagnostic_code DiagnosticCode.direct_service_attach_failed = refl
find_code-diagnostic_code DiagnosticCode.direct_output_start_failed = refl
find_code-diagnostic_code DiagnosticCode.output_capture_not_ready = refl
find_code-diagnostic_code DiagnosticCode.output_encoder_initialization_failed = refl
find_code-diagnostic_code DiagnosticCode.output_service_missing = refl
find_code-diagnostic_code DiagnosticCode.output_codec_headers_unavailable = refl
find_code-diagnostic_code DiagnosticCode.output_capture_start_failed = refl
find_code-diagnostic_code DiagnosticCode.output_encoder_stopped = refl
find_code-diagnostic_code DiagnosticCode.output_controller_failed = refl
find_code-diagnostic_code DiagnosticCode.output_mux_failed = refl
find_code-diagnostic_code DiagnosticCode.output_pipeline_exception = refl
find_code-diagnostic_code DiagnosticCode.operating_mode_conflict = refl
find_code-diagnostic_code DiagnosticCode.network_consumer_startup_failed = refl
find_code-diagnostic_code DiagnosticCode.packet_consumer_failed = refl
find_code-diagnostic_code DiagnosticCode.packet_discontinuity_notification_failed = refl
find_code-diagnostic_code DiagnosticCode.multistream_configuration_invalid = refl
find_code-diagnostic_code DiagnosticCode.multi_target_startup_failed = refl
find_code-diagnostic_code DiagnosticCode.multistream_preflight_failed = refl
find_code-diagnostic_code DiagnosticCode.rtmp_target_invalid = refl
find_code-diagnostic_code DiagnosticCode.rtmp_connection_failed = refl
find_code-diagnostic_code DiagnosticCode.rtmp_write_failed = refl
find_code-diagnostic_code DiagnosticCode.rtmp_sender_startup_failed = refl
find_code-diagnostic_code DiagnosticCode.rtmp_sender_queue_full = refl
find_code-diagnostic_code DiagnosticCode.rtmp_reconnect_exhausted = refl
find_code-diagnostic_code DiagnosticCode.secondary_target_failed = refl
find_code-diagnostic_code DiagnosticCode.output_stopped_unexpectedly = refl
find_code-diagnostic_code DiagnosticCode.output_no_frames = refl
find_code-diagnostic_code DiagnosticCode.scene_probe_input_invalid = refl
find_code-diagnostic_code DiagnosticCode.scene_probe_recursion_detected = refl
find_code-diagnostic_code DiagnosticCode.holding_scene_invalid = refl
find_code-diagnostic_code DiagnosticCode.holding_scene_interrupted = refl
find_code-diagnostic_code DiagnosticCode.program_scene_unavailable = refl
find_code-diagnostic_code DiagnosticCode.dock_registration_failed = refl
find_code-diagnostic_code DiagnosticCode.output_control_conflict = refl
find_code-diagnostic_code DiagnosticCode.delay_control_unavailable = refl
find_code-diagnostic_code DiagnosticCode.settings_save_failed = refl
find_code-diagnostic_code DiagnosticCode.hotkey_registration_failed = refl

some_inj : {c d : DiagnosticCode} → some c ≡ some d → c ≡ d
some_inj e = cc

-- The identifiers of two failures agree only if the failures do.
diagnostic_code-injective : (c d : DiagnosticCode) → diagnostic_code c ≡ diagnostic_code d → c ≡ d
diagnostic_code-injective c d e = some_inj (
    sym (find_code-diagnostic_code c)
    ∙ ap (λ s. find_code s all_codes) e
    ∙ find_code-diagnostic_code d)

-- Every identifier has the prefix that `diagnostic_error` looks for.
code_prefix : (c : DiagnosticCode) → (s : String) × (diagnostic_code c ≡ "ALD-E" ++ s)
unfolding diagnostic_code
code_prefix DiagnosticCode.direct_profile_unavailable = ("1001", refl)
code_prefix DiagnosticCode.direct_output_mode_unsupported = ("1002", refl)
code_prefix DiagnosticCode.direct_service_missing = ("1003", refl)
code_prefix DiagnosticCode.direct_video_encoder_unavailable = ("1004", refl)
code_prefix DiagnosticCode.direct_audio_encoder_unsupported = ("1005", refl)
code_prefix DiagnosticCode.direct_audio_encoder_unavailable = ("1006", refl)
code_prefix DiagnosticCode.direct_encoder_settings_unavailable = ("1007", refl)
code_prefix DiagnosticCode.direct_encoder_creation_failed = ("1008", refl)
code_prefix DiagnosticCode.direct_output_creation_failed = ("1009", refl)
code_prefix DiagnosticCode.direct_service_attach_failed = ("1010", refl)
code_prefix DiagnosticCode.direct_output_start_failed = ("1011", refl)
code_prefix DiagnosticCode.output_capture_not_ready = ("2001", refl)
code_prefix DiagnosticCode.output_encoder_initialization_failed = ("2002", refl)
code_prefix DiagnosticCode.output_service_missing = ("2003", refl)
code_prefix DiagnosticCode.output_codec_headers_unavailable = ("2004", refl)
code_prefix DiagnosticCode.output_capture_start_failed = ("2005", refl)
code_prefix DiagnosticCode.output_encoder_stopped = ("2006", refl)
code_prefix DiagnosticCode.output_controller_failed = ("2007", refl)
code_prefix DiagnosticCode.output_mux_failed = ("2008", refl)
code_prefix DiagnosticCode.output_pipeline_exception = ("2009", refl)
code_prefix DiagnosticCode.operating_mode_conflict = ("2010", refl)
code_prefix DiagnosticCode.network_consumer_startup_failed = ("2011", refl)
code_prefix DiagnosticCode.packet_consumer_failed = ("2012", refl)
code_prefix DiagnosticCode.packet_discontinuity_notification_failed = ("2013", refl)
code_prefix DiagnosticCode.multistream_configuration_invalid = ("2014", refl)
code_prefix DiagnosticCode.multi_target_startup_failed = ("2015", refl)
code_prefix DiagnosticCode.multistream_preflight_failed = ("2016", refl)
code_prefix DiagnosticCode.rtmp_target_invalid = ("3001", refl)
code_prefix DiagnosticCode.rtmp_connection_failed = ("3002", refl)
code_prefix DiagnosticCode.rtmp_write_failed = ("3003", refl)
code_prefix DiagnosticCode.rtmp_sender_startup_failed = ("3004", refl)
code_prefix DiagnosticCode.rtmp_sender_queue_full = ("3005", refl)
code_prefix DiagnosticCode.rtmp_reconnect_exhausted = ("3006", refl)
code_prefix DiagnosticCode.secondary_target_failed = ("3007", refl)
code_prefix DiagnosticCode.output_stopped_unexpectedly = ("4001", refl)
code_prefix DiagnosticCode.output_no_frames = ("4002", refl)
code_prefix DiagnosticCode.scene_probe_input_invalid = ("5001", refl)
code_prefix DiagnosticCode.scene_probe_recursion_detected = ("5002", refl)
code_prefix DiagnosticCode.holding_scene_invalid = ("5003", refl)
code_prefix DiagnosticCode.holding_scene_interrupted = ("5004", refl)
code_prefix DiagnosticCode.program_scene_unavailable = ("5005", refl)
code_prefix DiagnosticCode.dock_registration_failed = ("6001", refl)
code_prefix DiagnosticCode.output_control_conflict = ("6002", refl)
code_prefix DiagnosticCode.delay_control_unavailable = ("6003", refl)
code_prefix DiagnosticCode.settings_save_failed = ("6004", refl)
code_prefix DiagnosticCode.hotkey_registration_failed = ("6005", refl)

tagged : (s t : String) → starts_with ("[" ++ (("ALD-E" ++ s) ++ t)) "[ALD-E" ≡ true
tagged s t =
    rw (append_assoc "ALD-E" s t, ← append_assoc "[" "ALD-E" (s ++ t))
      (starts_with-append "[ALD-E" (s ++ t))

diagnostic_error-IsTagged :
    (c : DiagnosticCode) (t : String) → starts_with (diagnostic_error c t) "[ALD-E" ≡ true
unfolding diagnostic_error
diagnostic_error-IsTagged c t = elim (Bool-cases (starts_with t "[ALD-E")) [
  | inl e ↦ rw e e
  | inr e ↦ rw (e, (code_prefix c).1) (tagged (code_prefix c).0 ("] " ++ t))
]

-- An error that one layer has identified keeps its text when another layer reports it.
pub diagnostic_error-diagnostic_error :
    (c d : DiagnosticCode) (t : String)
    → diagnostic_error c (diagnostic_error d t) ≡ diagnostic_error d t
unfolding diagnostic_error
diagnostic_error-diagnostic_error c d t =
    ap
      (λ b.
        if b
        then diagnostic_error d t
        else "[" ++ (diagnostic_code c ++ ("] " ++ diagnostic_error d t)))
      (diagnostic_error-IsTagged d t)
