-- ===== src/AirPlay/Client.antt =====
-- transports/airplay/airplay_rtsp.h: the data of the control client and its interface, which the RTSP client
-- and the loopback client implement.
use foobar_universal_multiro.Base.Int.{ℤ}
use foobar_universal_multiro.Core.Scheduler.{ScheduledPacket}
use foobar_universal_multiro.Base.Outcome.{M}
use foobar_universal_multiro.Device.{OutputDevice, PcmFormat, PlaybackMetadata}
use foobar_universal_multiro.Base.{ℕ, Bool, List, Option, Text}

pub record AirPlayTransportPorts : Type 0 where
  pub local_data_port : ℕ
  pub local_control_port : ℕ
  pub local_timing_port : ℕ
  pub server_data_port : ℕ
  pub server_control_port : ℕ
  pub server_timing_port : ℕ

-- `AirPlayTransportPorts{}`
abbrev pub no_ports : AirPlayTransportPorts
no_ports = record {
  local_data_port = 0;
  local_control_port = 0;
  local_timing_port = 0;
  server_data_port = 0;
  server_control_port = 0;
  server_timing_port = 0;
}

pub record AirPlayNegotiatedSession : Type 0 where
  pub rtsp_session_id : Text
  pub stream_uri : Text
  pub server_name : Text
  pub supported_methods : List Text
  pub ports : AirPlayTransportPorts

pub record AirPlayPairingCredentials : Type 0 where
  pub output_id : Text
  pub client_id : Text
  pub controller_seed : Text
  pub accessory_identifier : Text
  pub accessory_public_key : Text

pub record AirPlayPairingResult : Type 0 where
  pub credentials : AirPlayPairingCredentials
  pub stored : Bool

pub data AirPlayRemoteCommand : Type 0 where
  play pause toggle_play_pause stop next_track previous_track : AirPlayRemoteCommand

pub record AirPlayRemoteCommandEvent : Type 0 where
  pub command : AirPlayRemoteCommand
  pub command_id : Text

-- `class AirPlayControlClient`: an implementation has a state of its own, and its methods may throw. A
-- handler is a function of the component; the managers only pass it on.
pub record AirPlayControlClient : Type 1 where
  pub State : Type 0
  pub Handler : Type 0
  pub pair : OutputDevice → Text → M State AirPlayPairingResult
  pub set_remote_command_handler : Handler → M State (Unit {0})
  pub open_session : OutputDevice → PcmFormat → M State AirPlayNegotiatedSession
  pub send_audio : Text → Text → ScheduledPacket → Option Text → ℕ → M State (Unit {0})
  pub set_volume : Text → Text → ℤ → M State (Unit {0})
  pub set_metadata : Text → Text → PlaybackMetadata → M State (Unit {0})
  pub clear_metadata : Text → Text → M State (Unit {0})
  pub flush : Text → Text → M State (Unit {0})
  pub reset_pending_open_cancel : M State (Unit {0})
  pub cancel_pending_open : M State (Unit {0})
  pub close : Text → Text → M State (Unit {0})
