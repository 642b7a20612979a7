-- ===== src/Component/State/Shared.antt =====
-- multiroom_component_state.h: the members of the class, and the calls of the transport and of the engine. `widen_utf8`,
-- which asks Windows, is a parameter.
use foobar_universal_multiro.AirPlay.Transport.{AirPlayTransport}
use foobar_universal_multiro.AirPlay.Loopback.{no_metadata}
use foobar_universal_multiro.Base.Throws.{fail_if}
use foobar_universal_multiro.Component.OutputState.{apply_stored_output_state}
use foobar_universal_multiro.Core.Volume.{effective_output_volume_percent}
use foobar_universal_multiro.Core.Engine.{MultiroomEngine}
use foobar_universal_multiro.AirPlay.Client.{AirPlayControlClient}
use foobar_universal_multiro.AirPlay.Session.State.{AirPlaySessionState, is_ready}
use foobar_universal_multiro.Device.{
  PcmFormat, OutputDevice, default_format, Transport, PlaybackMetadata,
}
use foobar_universal_multiro.Base.Int.{ℤ, pos}
use foobar_universal_multiro.Base.Outcome.{
  Exception, M, Outcome, throw, within, modify, ◌>>=◌, ◌>>◌, ok, get, for_each, when,
  invalid_argument,
}
use foobar_universal_multiro.Core.SyncClock.{SyncClock}
use foobar_universal_multiro.Base.{
  Text, Bool, List, Option, codes, false, if◌then◌else◌, is_empty, keep_if, map, none, not, some,
  true, ℕ, ◌%◌, ◌&&◌, ◌==◌, ◌||◌, [],
}
use foobar_universal_multiro.Core.Engine
use foobar_universal_multiro.AirPlay.Transport as Air
use foobar_universal_multiro.Base.Throws as Throws

-- The client of the receivers, and what is asked of Windows.
pub record Surroundings : Type 1 where
  pub client : AirPlayControlClient
  pub is_numeric : Text → Bool
  pub widen_utf8 : Text → Text

-- What the engine adds to the transport that it holds by reference.
pub record EngineState : Type 0 where
  pub clock : SyncClock
  pub format : PcmFormat
  pub stream_open : Bool

pub record ComponentState (S : Type 0) : Type 0 where
  pub transport : AirPlayTransport S
  pub playback_engine : Option EngineState
  pub playback_format : PcmFormat
  pub cached_outputs : List OutputDevice
  pub active_output_names : List Text
  pub discovery_started : Bool
  pub refresh_in_progress : Bool
  pub refresh_requested : Bool
  pub refresh_deferred_until_stop : Bool
  pub control_in_progress : Bool
  pub control_full_update_requested : Bool
  pub control_volume_update_ids : List Text
  pub playback_metadata : PlaybackMetadata
  pub playback_metadata_active : Bool
  pub control_metadata_update_requested : Bool
  pub pairing_in_progress : Bool
  pub playback_format_valid : Bool
  pub playback_connecting : Bool
  pub master_volume_percent : ℤ
  pub playback_open : Bool
  pub playback_open_cancel_requested : Bool
  pub playback_failure_stop_queued : Bool
  pub shutting_down : Bool
  pub recent_remote_command_ids : List Text
  pub refresh_count : ℕ
  pub last_error : Text
  pub cfg_airplay_output_state : Text
  pub cfg_speaker_groups : Text

abbrev pub caught : {S A : Type 0} → (Exception → M S A) → Outcome A × S → Outcome A × S
caught handler (ok a, s) = (ok a, s)
caught handler (throw e, s) = handler e s

-- `try { m } catch (const std::exception& e) { handler }`
abbrev pub recover : {S A : Type 0} → M S A → (Exception → M S A) → M S A
recover m handler s = caught handler (m s)

abbrev pub rethrow : {S A : Type 0} → Exception → M S A
rethrow e s = (throw e, s)

abbrev pub effective_remote_volume : ℤ → ℤ → ℤ
effective_remote_volume speaker_volume master_volume_percent =
    effective_output_volume_percent master_volume_percent speaker_volume

unfoldable pub validate_playback_format : PcmFormat → Outcome (Unit {0})
validate_playback_format format =
    Throws.◌>>◌
      (fail_if (format.sample_rate == 0 || format.channels == 0 || format.bits_per_sample == 0)
        invalid_argument
        (codes "PCM format must have non-zero sample rate, channels, and bit depth."))
      (fail_if (not (format.bits_per_sample % 8 == 0)) invalid_argument
        (codes "PCM bit depth must be byte aligned."))

-- `session.open && session.phase == Ready`
abbrev is_active : AirPlaySessionState → Bool
is_active session = session.is_open && is_ready session.phase

module _ (env : Surroundings) where
  open env use {client, is_numeric, widen_utf8}
  open client use {State}

  abbrev pub C : Type 0
  C = ComponentState State

  -- The constructor, over a control client in its first state and the stored settings.
  abbrev pub new_state : State → (ℕ → Outcome (List OutputDevice)) → (ℕ → ℕ × ℕ) → Text → Text → C
  new_state control browses clock outputs groups = record {
    transport = Air.make_transport client is_numeric control browses clock;
    playback_engine = none;
    playback_format = default_format;
    cached_outputs = [];
    active_output_names = [];
    discovery_started = false;
    refresh_in_progress = false;
    refresh_requested = false;
    refresh_deferred_until_stop = false;
    control_in_progress = false;
    control_full_update_requested = false;
    control_volume_update_ids = [];
    playback_metadata = no_metadata;
    playback_metadata_active = false;
    control_metadata_update_requested = false;
    pairing_in_progress = false;
    playback_format_valid = false;
    playback_connecting = false;
    master_volume_percent = pos 100;
    playback_open = false;
    playback_open_cancel_requested = false;
    playback_failure_stop_queued = false;
    shutting_down = false;
    recent_remote_command_ids = [];
    refresh_count = 0;
    last_error = [];
    cfg_airplay_output_state = outputs;
    cfg_speaker_groups = groups;
  }

  abbrev pub on_transport : {A : Type 0} → M (AirPlayTransport State) A → M C A
  on_transport = within (λ c. c.transport) (λ c t. record c { transport = t })

  abbrev engine_over : EngineState → C → MultiroomEngine (AirPlayTransport State)
  engine_over e c = record {
    transport = c.transport;
    clock = e.clock;
    format = e.format;
    stream_open = e.stream_open;
  }

  abbrev pub with_engine : C → MultiroomEngine (AirPlayTransport State) → C
  with_engine c e = record c {
    transport = e.transport;
    playback_engine =
        some (record { clock = e.clock; format = e.format; stream_open = e.stream_open });
  }

  -- A call of the engine, if there is one: `if (playback_engine_) ...`.
  unfoldable pub engine_call :
      {A : Type 0} → Option EngineState → A → M (MultiroomEngine (AirPlayTransport State)) A → M C A
  engine_call none otherwise m c = (ok otherwise, c)
  engine_call (some e) otherwise m c = within (engine_over e) with_engine m c

  -- `std::make_unique<MultiroomEngine>(transport_)`, unless there is one.
  abbrev pub made_engine : Option EngineState → Option EngineState
  made_engine none = some (record {
    clock = record { sample_rate = 48000; frame_cursor = 0 };
    format = default_format;
    stream_open = false;
  })
  made_engine (some e) = some e

  unfoldable pub make_engine : M C (Unit {0})
  make_engine = modify (λ c. record c { playback_engine = made_engine c.playback_engine })

  abbrev pub is_stream_open : Option EngineState → Bool
  is_stream_open none = false
  is_stream_open (some e) = e.stream_open

  abbrev pub engine_open : C → Bool
  engine_open c = is_stream_open c.playback_engine

  abbrev engine : Transport
  engine = Air.transport client is_numeric

  unfoldable pub engine_open_stream : PcmFormat → M C (Unit {0})
  unfolding engine_call
  engine_open_stream format c =
      engine_call c.playback_engine tt (Engine.open_stream engine format) c

  unfoldable pub engine_write : Option Text → ℕ → M C ℕ
  unfolding engine_call
  engine_write frames bytes c =
      engine_call c.playback_engine 0 (Engine.write_interleaved_pcm engine frames bytes) c

  unfoldable pub engine_flush : M C (Unit {0})
  unfolding engine_call
  engine_flush c = engine_call c.playback_engine tt (Engine.flush engine) c

  unfoldable pub engine_stop : M C (Unit {0})
  unfolding engine_call
  engine_stop c = engine_call c.playback_engine tt (Engine.stop engine) c

  unfoldable pub fail_with : Exception → C → C
  fail_with e c = record c { last_error = widen_utf8 e.what }

  unfoldable pub ensure_discovery_started : M C (Unit {0})
  ensure_discovery_started = do
    c ← get
    when (not c.discovery_started) (do
      on_transport (Air.start_discovery client is_numeric)
      modify (λ d. record d { discovery_started = true }))

  -- The settings are read, and written where a state moves to the id of its output.
  unfoldable pub apply_stored : List OutputDevice → M C (List OutputDevice)
  apply_stored outputs c =
      let (applied, cfg) = apply_stored_output_state outputs c.cfg_airplay_output_state in
      (ok applied, record c { cfg_airplay_output_state = cfg })

  -- `refresh_discovery(timeout)`, `list_outputs()` and `apply_stored_output_state`, under the transport's mutex.
  unfoldable pub scan : ℕ → M C (List OutputDevice)
  unfolding apply_stored
  scan timeout = do
    on_transport (Air.refresh_discovery client is_numeric timeout)
    outputs ← on_transport (Air.list_outputs client is_numeric)
    apply_stored outputs

  -- The names of the sessions that are open and ready.
  names_of : List AirPlaySessionState → List Text
  names_of sessions =
      map
        (λ session.
          widen_utf8
            (if is_empty session.output_name then session.output_id else session.output_name))
        (keep_if is_active sessions)

  unfoldable pub active_names : C → List Text
  unfolding names_of
  active_names c = names_of (Air.sessions c.transport)

  -- The volume of each output of a snapshot.
  unfoldable pub set_volumes : ℤ → List OutputDevice → M C (Unit {0})
  set_volumes master outputs =
      for_each
        (λ output. on_transport (
          Air.set_output_volume client is_numeric output.id
            (effective_remote_volume output.volume master)))
        outputs

  -- The metadata of a snapshot.
  unfoldable pub send_metadata : Bool → PlaybackMetadata → M C (Unit {0})
  send_metadata active metadata =
      if active
      then on_transport (Air.set_playback_metadata client is_numeric metadata)
      else on_transport (Air.clear_playback_metadata client is_numeric)
