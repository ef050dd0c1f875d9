-- ===== src/Diagnostic/Tests.antt =====
-- A failure that two layers report.
use obs_live_delay_plugin.Diagnostic.Identity.{diagnostic_error-diagnostic_error}
use obs_live_delay_plugin.Base.{◌≡◌}
use obs_live_delay_plugin.Diagnostic.{diagnostic_error, DiagnosticCode}

diagnostic_error-diagnostic_error_example :
    diagnostic_error DiagnosticCode.packet_consumer_failed
      (diagnostic_error DiagnosticCode.output_mux_failed "An encoded packet has an empty payload")
    ≡ diagnostic_error DiagnosticCode.output_mux_failed "An encoded packet has an empty payload"
diagnostic_error-diagnostic_error_example =
    diagnostic_error-diagnostic_error DiagnosticCode.packet_consumer_failed
      DiagnosticCode.output_mux_failed "An encoded packet has an empty payload"
