-- ===== src/Diagnostic.antt =====
-- src/diagnostic-error.hpp: the stable identifiers of failures, and the prefix that an error
-- message gets.
pub mod Identity
mod Tests
use Prim.Native.String.{◌++◌}
use text.Mathlib.Text.{starts_with}
use obs_live_delay_plugin.Base.{String, if◌then◌else◌}

pub data DiagnosticCode : Type 0 where
  direct_profile_unavailable direct_output_mode_unsupported direct_service_missing : DiagnosticCode
  direct_video_encoder_unavailable direct_audio_encoder_unsupported : DiagnosticCode
  direct_audio_encoder_unavailable direct_encoder_settings_unavailable : DiagnosticCode
  direct_encoder_creation_failed direct_output_creation_failed direct_service_attach_failed :
      DiagnosticCode
  direct_output_start_failed output_capture_not_ready output_encoder_initialization_failed :
      DiagnosticCode
  output_service_missing output_codec_headers_unavailable output_capture_start_failed :
      DiagnosticCode
  output_encoder_stopped output_controller_failed output_mux_failed : DiagnosticCode
  output_pipeline_exception operating_mode_conflict network_consumer_startup_failed : DiagnosticCode
  packet_consumer_failed packet_discontinuity_notification_failed : DiagnosticCode
  multistream_configuration_invalid multi_target_startup_failed multistream_preflight_failed :
      DiagnosticCode
  rtmp_target_invalid rtmp_connection_failed rtmp_write_failed rtmp_sender_startup_failed :
      DiagnosticCode
  rtmp_sender_queue_full rtmp_reconnect_exhausted secondary_target_failed : DiagnosticCode
  output_stopped_unexpectedly output_no_frames scene_probe_input_invalid : DiagnosticCode
  scene_probe_recursion_detected holding_scene_invalid holding_scene_interrupted : DiagnosticCode
  program_scene_unavailable dock_registration_failed output_control_conflict : DiagnosticCode
  delay_control_unavailable settings_save_failed hotkey_registration_failed : DiagnosticCode

unfoldable pub diagnostic_code : DiagnosticCode → String
diagnostic_code direct_profile_unavailable = "ALD-E1001"
diagnostic_code direct_output_mode_unsupported = "ALD-E1002"
diagnostic_code direct_service_missing = "ALD-E1003"
diagnostic_code direct_video_encoder_unavailable = "ALD-E1004"
diagnostic_code direct_audio_encoder_unsupported = "ALD-E1005"
diagnostic_code direct_audio_encoder_unavailable = "ALD-E1006"
diagnostic_code direct_encoder_settings_unavailable = "ALD-E1007"
diagnostic_code direct_encoder_creation_failed = "ALD-E1008"
diagnostic_code direct_output_creation_failed = "ALD-E1009"
diagnostic_code direct_service_attach_failed = "ALD-E1010"
diagnostic_code direct_output_start_failed = "ALD-E1011"
diagnostic_code output_capture_not_ready = "ALD-E2001"
diagnostic_code output_encoder_initialization_failed = "ALD-E2002"
diagnostic_code output_service_missing = "ALD-E2003"
diagnostic_code output_codec_headers_unavailable = "ALD-E2004"
diagnostic_code output_capture_start_failed = "ALD-E2005"
diagnostic_code output_encoder_stopped = "ALD-E2006"
diagnostic_code output_controller_failed = "ALD-E2007"
diagnostic_code output_mux_failed = "ALD-E2008"
diagnostic_code output_pipeline_exception = "ALD-E2009"
diagnostic_code operating_mode_conflict = "ALD-E2010"
diagnostic_code network_consumer_startup_failed = "ALD-E2011"
diagnostic_code packet_consumer_failed = "ALD-E2012"
diagnostic_code packet_discontinuity_notification_failed = "ALD-E2013"
diagnostic_code multistream_configuration_invalid = "ALD-E2014"
diagnostic_code multi_target_startup_failed = "ALD-E2015"
diagnostic_code multistream_preflight_failed = "ALD-E2016"
diagnostic_code rtmp_target_invalid = "ALD-E3001"
diagnostic_code rtmp_connection_failed = "ALD-E3002"
diagnostic_code rtmp_write_failed = "ALD-E3003"
diagnostic_code rtmp_sender_startup_failed = "ALD-E3004"
diagnostic_code rtmp_sender_queue_full = "ALD-E3005"
diagnostic_code rtmp_reconnect_exhausted = "ALD-E3006"
diagnostic_code secondary_target_failed = "ALD-E3007"
diagnostic_code output_stopped_unexpectedly = "ALD-E4001"
diagnostic_code output_no_frames = "ALD-E4002"
diagnostic_code scene_probe_input_invalid = "ALD-E5001"
diagnostic_code scene_probe_recursion_detected = "ALD-E5002"
diagnostic_code holding_scene_invalid = "ALD-E5003"
diagnostic_code holding_scene_interrupted = "ALD-E5004"
diagnostic_code program_scene_unavailable = "ALD-E5005"
diagnostic_code dock_registration_failed = "ALD-E6001"
diagnostic_code output_control_conflict = "ALD-E6002"
diagnostic_code delay_control_unavailable = "ALD-E6003"
diagnostic_code settings_save_failed = "ALD-E6004"
diagnostic_code hotkey_registration_failed = "ALD-E6005"

-- A detail that carries an identifier already keeps it.
unfoldable pub diagnostic_error : DiagnosticCode → String → String
unfolding diagnostic_code
diagnostic_error code detail =
    if starts_with detail "[ALD-E"
    then detail
    else "[" ++ (diagnostic_code code ++ ("] " ++ detail))
