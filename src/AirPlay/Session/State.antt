-- ===== src/AirPlay/Session/State.antt =====
-- The state of one session of airplay_session.cpp, and the writes to it.
use foobar_universal_multiro.Core.Scheduler.{ScheduledPacket}
use foobar_universal_multiro.Base.Throws.{fail_if}
use foobar_universal_multiro.Base.Outcome.{Outcome, invalid_argument}
use foobar_universal_multiro.AirPlay.Client.{
  no_ports, AirPlayTransportPorts, AirPlayNegotiatedSession,
}
use foobar_universal_multiro.Device.{PcmFormat, default_format, OutputDevice}
use foobar_universal_multiro.Base.{
  Bool, List, Text, [], codes, false, if◌then◌else◌, not, text_eq, true, ℕ, ◌&&◌, ◌==◌, ◌||◌,
}
use foobar_universal_multiro.Base.Throws as Throws

pub data AirPlaySessionPhase : Type 0 where
  closed connecting ready failed : AirPlaySessionPhase

pub record AirPlaySessionState : Type 0 where
  pub output_id : Text
  pub output_name : Text
  pub endpoint_host : Text
  pub endpoint_port : ℕ
  pub phase : AirPlaySessionPhase
  pub is_open : Bool
  pub negotiated_format : PcmFormat
  pub rtsp_session_id : Text
  pub stream_uri : Text
  pub rtsp_server : Text
  pub rtsp_supported_methods : List Text
  pub transport_ports : AirPlayTransportPorts
  pub last_error : Text
  pub queued_packets : List ScheduledPacket

-- `AirPlaySessionState{}`, which `sessions_[id]` makes for a new id.
abbrev pub new_session : AirPlaySessionState
new_session = record {
  output_id = [];
  output_name = [];
  endpoint_host = [];
  endpoint_port = 0;
  phase = closed;
  is_open = false;
  negotiated_format = default_format;
  rtsp_session_id = [];
  stream_uri = [];
  rtsp_server = [];
  rtsp_supported_methods = [];
  transport_ports = no_ports;
  last_error = [];
  queued_packets = [];
}

abbrev pub is_ready : AirPlaySessionPhase → Bool
is_ready ready = true
is_ready _ = false

abbrev pub is_failed : AirPlaySessionPhase → Bool
is_failed failed = true
is_failed _ = false

unfoldable pub validate_stream_format : PcmFormat → Outcome (Unit {0})
validate_stream_format format =
    Throws.◌>>◌
      (fail_if (not (format.channels == 2) || not (format.bits_per_sample == 16)) invalid_argument
        (codes "AirPlay MVP sessions require stereo 16-bit PCM."))
      (fail_if (not (format.sample_rate == 44100) && not (format.sample_rate == 48000))
        invalid_argument (codes "AirPlay MVP sessions require 44.1 kHz or 48 kHz PCM."))

unfoldable pub same_format : PcmFormat → PcmFormat → Bool
same_format left right =
    left.sample_rate == right.sample_rate
    && left.channels == right.channels
    && left.bits_per_sample == right.bits_per_sample

unfoldable pub update_session_from_output : AirPlaySessionState → OutputDevice → AirPlaySessionState
update_session_from_output session output = record session {
  output_id = output.id;
  output_name = output.name;
  endpoint_host = output.endpoint_host;
  endpoint_port = output.endpoint_port;
}

-- The body of the loop of `prepare_outputs`.
unfoldable pub prepare_session : AirPlaySessionState → OutputDevice → AirPlaySessionState
unfolding update_session_from_output
prepare_session session output =
    let updated = update_session_from_output session output in
    if is_failed updated.phase then record updated { phase = closed; last_error = [] } else updated

unfoldable pub can_reuse_ready_session : AirPlaySessionState → OutputDevice → PcmFormat → Bool
unfolding same_format
can_reuse_ready_session session output format =
    is_ready session.phase
    && session.is_open
    && text_eq session.endpoint_host output.endpoint_host
    && session.endpoint_port == output.endpoint_port
    && same_format session.negotiated_format format

-- The writes before `control_client_->open`.
unfoldable pub connecting_session : AirPlaySessionState → AirPlaySessionState
connecting_session session = record session {
  phase = connecting;
  is_open = false;
  negotiated_format = default_format;
  rtsp_session_id = [];
  stream_uri = [];
  rtsp_server = [];
  rtsp_supported_methods = [];
  transport_ports = no_ports;
  last_error = [];
  queued_packets = [];
}

-- The writes after it.
unfoldable pub ready_session :
    AirPlaySessionState → PcmFormat → AirPlayNegotiatedSession → AirPlaySessionState
ready_session session format negotiated = record session {
  negotiated_format = format;
  rtsp_session_id = negotiated.rtsp_session_id;
  stream_uri = negotiated.stream_uri;
  rtsp_server = negotiated.server_name;
  rtsp_supported_methods = negotiated.supported_methods;
  transport_ports = negotiated.ports;
  phase = ready;
  is_open = true;
}

-- The writes of the handler.
unfoldable pub failed_session : AirPlaySessionState → Text → AirPlaySessionState
failed_session session what = record session {
  phase = failed;
  is_open = false;
  negotiated_format = default_format;
  rtsp_session_id = [];
  stream_uri = [];
  rtsp_server = [];
  rtsp_supported_methods = [];
  transport_ports = no_ports;
  last_error = what;
  queued_packets = [];
}

-- The writes of `close_control_session`, and those of the loops that call it.
unfoldable pub disconnected_session : AirPlaySessionState → AirPlaySessionState
disconnected_session session = record session {
  rtsp_session_id = [];
  stream_uri = [];
  rtsp_server = [];
  rtsp_supported_methods = [];
  transport_ports = no_ports;
}

unfoldable pub closed_session : AirPlaySessionState → AirPlaySessionState
closed_session session = record session {
  phase = closed;
  is_open = false;
  last_error = [];
  queued_packets = [];
}
