-- ===== src/AirPlay/Loopback.antt =====
-- transports/airplay/airplay_rtsp.h and airplay_rtsp.cpp: the loopback client, which counts what it is asked to do.
use foobar_universal_multiro.Core.Engine.{null_buffer}
use foobar_universal_multiro.AirPlay.Client.{
  AirPlayControlClient, AirPlayPairingResult, AirPlayNegotiatedSession,
}
use foobar_universal_multiro.Base.Int.{ℤ}
use foobar_universal_multiro.Core.Scheduler.{ScheduledPacket}
use foobar_universal_multiro.Device.{PlaybackMetadata, OutputDevice, PcmFormat}
use foobar_universal_multiro.Base.{
  Option, Text, [], codes, false, none, not, some, suc, zero, ℕ, ◌%◌, ◌++◌, ◌+◌, ◌==◌, ◌^◌, ◌∷◌,
}
use foobar_universal_multiro.Base.Outcome.{
  M, modify, ok, when, throw_if, invalid_argument, ◌>>◌, pure,
}

pub record LoopbackState (Handler : Type 0) : Type 0 where
  pub open_count : ℕ
  pub audio_packet_count : ℕ
  pub volume_set_count : ℕ
  pub metadata_set_count : ℕ
  pub metadata_clear_count : ℕ
  pub last_metadata : PlaybackMetadata
  pub flush_count : ℕ
  pub close_count : ℕ
  pub remote_command_handler : Option Handler

-- `PlaybackMetadata{}`
abbrev pub no_metadata : PlaybackMetadata
no_metadata = record {
  title = [];
  artist = [];
  album = [];
  album_artist = [];
  composer = [];
  genre = [];
  track_number = 0;
  disc_number = 0;
  year = 0;
  duration_ms = 0;
  position_ms = 0;
  artwork_mime = [];
  artwork = [];
  paused = false;
}

abbrev pub new_loopback : {Handler : Type 0} → LoopbackState Handler
new_loopback = record {
  open_count = 0;
  audio_packet_count = 0;
  volume_set_count = 0;
  metadata_set_count = 0;
  metadata_clear_count = 0;
  last_metadata = no_metadata;
  flush_count = 0;
  close_count = 0;
  remote_command_handler = none;
}

repeat : ℕ → ℕ → Text
repeat zero byte = []
repeat (suc n) byte = byte ∷ repeat n byte

pub make_stream_uri : OutputDevice → Text
make_stream_uri output = codes "rtsp://" ++ (output.endpoint_host ++ (codes "/" ++ output.id))

-- What `open` returns.
pub negotiated : OutputDevice → AirPlayNegotiatedSession
unfolding make_stream_uri
negotiated output = record {
  rtsp_session_id = codes "loopback-" ++ output.id;
  stream_uri = make_stream_uri output;
  server_name = codes "loopback";
  supported_methods =
      codes "OPTIONS"
      ∷ codes "ANNOUNCE"
      ∷ codes "SETUP"
      ∷ codes "RECORD"
      ∷ codes "SET_PARAMETER"
      ∷ codes "FLUSH"
      ∷ codes "TEARDOWN"
      ∷ [];
  ports = record {
    local_data_port = 6000;
    local_control_port = 6001;
    local_timing_port = 6002;
    server_data_port = output.endpoint_port;
    server_control_port = (output.endpoint_port + 1) % 2 ^ 16;
    server_timing_port = (output.endpoint_port + 2) % 2 ^ 16;
  };
}

-- A number of arguments is ignored, as in the source.
module _ {Handler : Type 0} where
  unfoldable pub pair : OutputDevice → Text → M (LoopbackState Handler) AirPlayPairingResult
  unfolding repeat
  pair output pin = pure (record {
    credentials = record {
      output_id = output.id;
      client_id = codes "loopback-client";
      controller_seed = repeat 32 17;
      accessory_identifier = codes "loopback-accessory";
      accessory_public_key = repeat 32 34;
    };
    stored = false;
  })

  unfoldable pub set_remote_command_handler : Handler → M (LoopbackState Handler) (Unit {0})
  set_remote_command_handler handler =
      modify (λ s. record s { remote_command_handler = some handler })

  unfoldable pub open_session :
      OutputDevice → PcmFormat → M (LoopbackState Handler) AirPlayNegotiatedSession
  unfolding negotiated
  open_session output format s =
      (ok (negotiated output), record s { open_count = s.open_count + 1 })

  unfoldable pub send_audio :
      Text → Text → ScheduledPacket → Option Text → ℕ → M (LoopbackState Handler) (Unit {0})
  send_audio output_id rtsp_session_id packet frames bytes = do
    throw_if (null_buffer frames bytes) invalid_argument
        (codes "Loopback audio frame buffer cannot be null when bytes are present.")
    when (not (bytes == 0))
        (modify (λ s. record s { audio_packet_count = s.audio_packet_count + 1 }))

  unfoldable pub set_volume : Text → Text → ℤ → M (LoopbackState Handler) (Unit {0})
  set_volume output_id rtsp_session_id volume =
      modify (λ s. record s { volume_set_count = s.volume_set_count + 1 })

  unfoldable pub set_metadata :
      Text → Text → PlaybackMetadata → M (LoopbackState Handler) (Unit {0})
  set_metadata output_id rtsp_session_id metadata =
      modify
        (λ s. record s { last_metadata = metadata; metadata_set_count = s.metadata_set_count + 1 })

  unfoldable pub clear_metadata : Text → Text → M (LoopbackState Handler) (Unit {0})
  clear_metadata output_id rtsp_session_id = modify (λ s. record s {
    last_metadata = no_metadata;
    metadata_clear_count = s.metadata_clear_count + 1;
  })

  unfoldable pub flush : Text → Text → M (LoopbackState Handler) (Unit {0})
  flush output_id rtsp_session_id = modify (λ s. record s { flush_count = s.flush_count + 1 })

  unfoldable pub close : Text → Text → M (LoopbackState Handler) (Unit {0})
  close output_id rtsp_session_id = modify (λ s. record s { close_count = s.close_count + 1 })

abbrev pub loopback : Type 0 → AirPlayControlClient
loopback Handler = record {
  State = LoopbackState Handler;
  Handler = Handler;
  pair = pair;
  set_remote_command_handler = set_remote_command_handler;
  open_session = open_session;
  send_audio = send_audio;
  set_volume = set_volume;
  set_metadata = set_metadata;
  clear_metadata = clear_metadata;
  flush = flush;
  reset_pending_open_cancel = pure tt;
  cancel_pending_open = pure tt;
  close = close;
}
