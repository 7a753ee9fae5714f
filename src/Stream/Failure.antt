-- ===== src/Stream/Failure.antt =====
-- internal/stream/terminal_failure.go, and the reasons to stop of internal/stream/engine.go. An error
-- of the scanner is a text.
use deep_seek_web_to_api.Prelude.{ℕ, Option, none, some, if◌then◌else◌}
use deep_seek_web_to_api.Prelude.Text.{String, str_eq}

abbrev pub StopReason : Type 0
StopReason = String

abbrev pub stop_reason_none : StopReason
stop_reason_none = ""

abbrev pub stop_reason_no_content_timeout : StopReason
stop_reason_no_content_timeout = "no_content_timeout"

abbrev pub stop_reason_idle_timeout : StopReason
stop_reason_idle_timeout = "idle_timeout"

abbrev pub stop_reason_upstream_completed : StopReason
stop_reason_upstream_completed = "upstream_completed"

abbrev pub stop_reason_handler_requested : StopReason
stop_reason_handler_requested = "handler_requested"

pub record TerminalFailure : Type 0 where
  pub status : ℕ
  pub code : String
  pub message : String

unfoldable pub classify_terminal_failure : StopReason → Option String → Option TerminalFailure
classify_terminal_failure reason (some e) = some (record {
  status = 502;
  code = "upstream_stream_error";
  message = "Upstream stream ended unexpectedly; the request did not complete.";
})
classify_terminal_failure reason none =
    if str_eq reason stop_reason_no_content_timeout
    then some (record {
      status = 504;
      code = "upstream_stream_timeout";
      message = "Upstream stream timed out before it produced content.";
    })
    else if str_eq reason stop_reason_idle_timeout
    then some (record {
      status = 504;
      code = "upstream_stream_timeout";
      message = "Upstream stream became idle before it completed.";
    })
    else none
