-- ===== src/Device.antt =====
-- components/foo_out_multiroom_bridge/transport.h: the data that every part passes on, and the
-- `Transport` interface that the engine drives.
use foobar_universal_multiro.Base.{ℕ, Bool, true, false, List, [], Option, Text}
use foobar_universal_multiro.Base.Int.{ℤ, pos}
use foobar_universal_multiro.Base.Outcome.{M}

pub data OutputType : Type 0 where
  unknown airplay chromecast local heos fifo : OutputType

pub record OutputDevice : Type 0 where
  pub id : Text
  pub name : Text
  pub type : OutputType
  pub selected : Bool
  pub has_password : Bool
  pub requires_auth : Bool
  pub needs_auth_key : Bool
  pub supports_airplay2 : Bool
  pub supports_legacy_l16 : Bool
  pub requires_encrypted_stream : Bool
  pub volume : ℤ
  pub offset_ms : ℤ
  pub measured_latency_ms : ℤ
  pub format : Text
  pub supported_formats : List Text
  pub endpoint_host : Text
  pub endpoint_port : ℕ
  pub txt_records : List (Text × Text)
  pub aliases : List Text
  pub visible_in_dropdown : Bool

-- `OutputDevice{}`
abbrev pub default_output : OutputDevice
default_output = record {
  id = [];
  name = [];
  type = unknown;
  selected = false;
  has_password = false;
  requires_auth = false;
  needs_auth_key = false;
  supports_airplay2 = false;
  supports_legacy_l16 = false;
  requires_encrypted_stream = false;
  volume = pos 0;
  offset_ms = pos 0;
  measured_latency_ms = pos 0;
  format = [];
  supported_formats = [];
  endpoint_host = [];
  endpoint_port = 0;
  txt_records = [];
  aliases = [];
  visible_in_dropdown = true;
}

pub record PcmFormat : Type 0 where
  pub sample_rate : ℕ
  pub channels : ℕ
  pub bits_per_sample : ℕ

-- `PcmFormat{}`
abbrev pub default_format : PcmFormat
default_format = record { sample_rate = 48000; channels = 2; bits_per_sample = 16 }

pub record PlaybackMetadata : Type 0 where
  pub title : Text
  pub artist : Text
  pub album : Text
  pub album_artist : Text
  pub composer : Text
  pub genre : Text
  pub track_number : ℕ
  pub disc_number : ℕ
  pub year : ℕ
  pub duration_ms : ℕ
  pub position_ms : ℕ
  pub artwork_mime : Text
  pub artwork : Text
  pub paused : Bool

-- `class Transport`: an implementation has a state of its own, and its methods may throw. A null
-- frame buffer is `none`.
pub record Transport : Type 1 where
  pub State : Type 0
  pub start_discovery : M State (Unit {0})
  pub stop_discovery : M State (Unit {0})
  pub refresh_discovery : ℕ → M State (Unit {0})
  pub list_outputs : M State (List OutputDevice)
  pub set_enabled_outputs : List Text → M State (Unit {0})
  pub set_output_volume : Text → ℤ → M State (Unit {0})
  pub set_output_offset_ms : Text → ℤ → M State (Unit {0})
  pub set_playback_metadata : PlaybackMetadata → M State (Unit {0})
  pub clear_playback_metadata : M State (Unit {0})
  pub open_stream : PcmFormat → M State (Unit {0})
  pub write_frames : Option Text → ℕ → ℕ → M State (Unit {0})
  pub flush : M State (Unit {0})
  pub stop : M State (Unit {0})
