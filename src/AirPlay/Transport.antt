-- ===== src/AirPlay/Transport.antt =====
-- transports/airplay/airplay_transport.h and airplay_transport.cpp, over any control client. The readings of the
-- system clock and the devices that further refreshes find are part of the state.
mod State
pub mod Sync
pub mod Invariant
pub mod Outputs
pub mod Streaming
pub mod History
pub mod Writes
unfoldable pub use State.*
use foobar_universal_multiro.Core.Engine.{null_buffer}
use foobar_universal_multiro.AirPlay.Timing.{current_ntp_timestamp, ntp_to_rtp_timestamp}
use foobar_universal_multiro.Base.Int.{ℤ}
use foobar_universal_multiro.AirPlay.Session.{AirPlaySessionManager, make_manager}
use foobar_universal_multiro.AirPlay.Session.State.{AirPlaySessionState}
use foobar_universal_multiro.Core.Scheduler.{ScheduledPacket, PacketScheduleRequest, schedule}
use foobar_universal_multiro.AirPlay.Client.{AirPlayControlClient, AirPlayPairingResult}
use foobar_universal_multiro.Base.Outcome.{
  for_each, M, Outcome, within, ok, ◌>>=◌, ◌>>◌, modify, get, raise, throw_if, when, pure,
  out_of_range, invalid_argument, logic_error, runtime_error,
}
use foobar_universal_multiro.Device.{
  OutputDevice, PlaybackMetadata, PcmFormat, Transport, airplay, default_format,
}
use foobar_universal_multiro.Core.Registry.{OutputRegistry, clamp_volume}
use foobar_universal_multiro.AirPlay.Discovery.{AirPlayDiscovery, make_discovery}
use foobar_universal_multiro.Base.{
  Bool, List, Option, Text, [], codes, contains, false, find_if, if◌then◌else◌, is_empty, keep_if,
  map, none, not, some, text_eq, true, ℕ, ◌%◌, ◌&&◌, ◌++◌, ◌+◌, ◌-◌, ◌==◌, ◌^◌, ◌||◌, ◌∷◌, ◌*◌,
}
use foobar_universal_multiro.Base.Throws.{lift}
use foobar_universal_multiro.AirPlay.Discovery
use foobar_universal_multiro.AirPlay.Session
use foobar_universal_multiro.Core.Registry

module _ (client : AirPlayControlClient) (is_numeric : Text → Bool) where
  open client use {State}

  pub make_transport :
      State → (ℕ → Outcome (List OutputDevice)) → (ℕ → ℕ × ℕ) → AirPlayTransport State
  make_transport c browses clock = record {
    discovery = make_discovery browses;
    registry = [];
    sessions = make_manager client c;
    stream_format = default_format;
    discovery_active = false;
    stream_open = false;
    group_sync_anchor_valid = false;
    group_sync_start_rtp = 0;
    playback_metadata = none;
    clock = clock;
  }

  abbrev pub on_discovery : {A : Type 0} → M AirPlayDiscovery A → M (AirPlayTransport State) A
  on_discovery = within (λ t. t.discovery) (λ t d. record t { discovery = d })

  abbrev pub on_registry : {A : Type 0} → M OutputRegistry A → M (AirPlayTransport State) A
  on_registry = within (λ t. t.registry) (λ t r. record t { registry = r })

  abbrev pub on_sessions :
      {A : Type 0} → M (AirPlaySessionManager State) A → M (AirPlayTransport State) A
  on_sessions = within (λ t. t.sessions) (λ t s. record t { sessions = s })

  pub sync_discovered_outputs : M (AirPlayTransport State) (Unit {0})
  sync_discovered_outputs t = on_registry (sync_outputs (Discovery.list t.discovery)) t

  unfoldable pub start_discovery : M (AirPlayTransport State) (Unit {0})
  start_discovery = do
    on_discovery Discovery.start
    sync_discovered_outputs
    modify (λ t. record t { discovery_active = true })

  unfoldable pub stop_discovery : M (AirPlayTransport State) (Unit {0})
  stop_discovery = do
    on_discovery Discovery.stop
    modify (λ t. record t { discovery_active = false })

  unfoldable pub refresh_discovery : ℕ → M (AirPlayTransport State) (Unit {0})
  refresh_discovery timeout = do
    t ← get
    when t.discovery_active (on_discovery (Discovery.refresh is_numeric timeout))
    sync_discovered_outputs

  unfoldable pub list_outputs : M (AirPlayTransport State) (List OutputDevice)
  list_outputs = do sync_discovered_outputs; t ← get; pure (Registry.list t.registry)

  -- On the output that the registry gave.
  pub pair_found :
      Text → Text → Option OutputDevice → M (AirPlayTransport State) AirPlayPairingResult
  pair_found id pin none = raise out_of_range (codes "Unknown AirPlay output: " ++ id)
  pair_found id pin (some output) = do
    throw_if (not output.supports_airplay2) runtime_error
        (codes "AirPlay PIN pairing requires an AirPlay 2 output: " ++ id)
    on_sessions (Session.pair_output client output pin)

  unfoldable pub pair_output : Text → Text → M (AirPlayTransport State) AirPlayPairingResult
  pair_output id pin = do
    sync_discovered_outputs
    t ← get
    pair_found id pin (Registry.find (resolve_output_id id t.registry) t.registry)

  unfoldable pub set_remote_command_handler : client.Handler → M (AirPlayTransport State) (Unit {0})
  set_remote_command_handler handler =
      on_sessions (Session.set_remote_command_handler client handler)

  unfoldable pub set_enabled_outputs : List Text → M (AirPlayTransport State) (Unit {0})
  set_enabled_outputs ids = do
    sync_discovered_outputs
    t ← get
    on_registry (Registry.set_enabled_outputs (resolve_output_ids ids t.registry))
    enabled ← get
    on_sessions (Session.prepare_outputs (Registry.list enabled.registry))
    on_sessions (Session.close_missing_outputs client (Registry.list enabled.registry))

  unfoldable pub set_output_volume : Text → ℤ → M (AirPlayTransport State) (Unit {0})
  set_output_volume id volume = do
    sync_discovered_outputs
    t ← get
    on_registry (Registry.set_output_volume (resolve_output_id id t.registry) volume)
    on_sessions (Session.set_volume client (resolve_output_id id t.registry) volume)

  pub set_session_volume : Text → ℤ → M (AirPlayTransport State) (Unit {0})
  set_session_volume id volume = on_sessions (Session.set_volume client id (clamp_volume volume))

  unfoldable pub set_output_offset_ms : Text → ℤ → M (AirPlayTransport State) (Unit {0})
  set_output_offset_ms id offset_ms = do
    sync_discovered_outputs
    t ← get
    on_registry (Registry.set_output_offset_ms (resolve_output_id id t.registry) offset_ms)

  pub set_playback_metadata : PlaybackMetadata → M (AirPlayTransport State) (Unit {0})
  set_playback_metadata metadata = do
    modify (λ t. record t { playback_metadata = some metadata })
    on_sessions (Session.set_metadata client metadata)

  pub clear_playback_metadata : M (AirPlayTransport State) (Unit {0})
  clear_playback_metadata = do
    modify (λ t. record t { playback_metadata = none })
    on_sessions (Session.clear_metadata client)

  unfoldable pub open_stream : PcmFormat → M (AirPlayTransport State) (Unit {0})
  open_stream format = do
    throw_if (format.sample_rate == 0 || format.channels == 0 || format.bits_per_sample == 0)
        invalid_argument
        (codes "PCM format must have non-zero sample rate, channels, and bit depth.")
    modify (λ t. record t {
      stream_format = format;
      stream_open = true;
      group_sync_anchor_valid = false;
      group_sync_start_rtp = 0;
    })

  pub send_stored_metadata : Option PlaybackMetadata → M (AirPlayTransport State) (Unit {0})
  send_stored_metadata none = on_sessions (Session.clear_metadata client)
  send_stored_metadata (some metadata) = on_sessions (Session.set_metadata client metadata)

  pub connect_selected_outputs : M (AirPlayTransport State) (Unit {0})
  connect_selected_outputs t =
      if not t.stream_open
      then (ok tt, t)
      else (do
        on_sessions (Session.open_for_outputs client (Registry.list t.registry) t.stream_format)
        send_stored_metadata t.playback_metadata)
          t

  unfoldable pub cancel_pending_open : M (AirPlayTransport State) (Unit {0})
  cancel_pending_open = on_sessions (Session.cancel_pending_open client)

  unfoldable pub reset_pending_open_cancel : M (AirPlayTransport State) (Unit {0})
  reset_pending_open_cancel = on_sessions (Session.reset_pending_open_cancel client)

  -- The anchor of a group: where the stream would have started on the clock. The subtraction of the
  -- source is on 64-bit words.
  pub set_anchor : ℕ → AirPlayTransport State → AirPlayTransport State
  set_anchor stream_timestamp t =
      if t.group_sync_anchor_valid
      then t
      else let ntp = current_ntp_timestamp (t.clock 0).0 (t.clock 0).1 in
        let now_rtp = ntp_to_rtp_timestamp ntp t.stream_format.sample_rate in
        record t {
          clock = λ i. t.clock (i + 1);
          group_sync_start_rtp = (now_rtp + 2 ^ 64 - stream_timestamp) % 2 ^ 64;
          group_sync_anchor_valid = true;
        }

  abbrev pub request_of : ℕ → ℕ → AirPlayTransport State → PacketScheduleRequest
  request_of bytes stream_timestamp t = record {
    stream_timestamp = stream_timestamp;
    bytes = bytes;
    sample_rate = t.stream_format.sample_rate;
    minimum_lead_ms = 250;
    group_sync_start_rtp = t.group_sync_start_rtp;
    group_sync_anchor_valid = t.group_sync_anchor_valid;
  }

  -- `write_frames` behind its guards.
  pub send_frames : List OutputDevice → Option Text → ℕ → ℕ → M (AirPlayTransport State) (Unit {0})
  send_frames outputs frames bytes stream_timestamp = do
    modify (set_anchor stream_timestamp)
    t ← get
    packets ← lift (schedule outputs (request_of bytes stream_timestamp t))
    on_sessions (for_each (λ packet. Session.enqueue client packet frames bytes) packets)

  pub write_frames : Option Text → ℕ → ℕ → M (AirPlayTransport State) (Unit {0})
  write_frames frames bytes stream_timestamp = do
    t ← get
    throw_if (not t.stream_open) logic_error (codes "AirPlay stream is not open.")
    throw_if (null_buffer frames bytes) invalid_argument
        (codes "Frame buffer cannot be null when bytes are present.")
    let outputs = ready_outputs (Session.ready_output_ids t.sessions) t.registry
    throw_if (not (is_empty (selected_outputs t.registry)) && is_empty outputs) runtime_error
        (codes "No selected AirPlay output has a ready session.")
    send_frames outputs frames bytes stream_timestamp

  abbrev pub without_anchor : AirPlayTransport State → AirPlayTransport State
  without_anchor t = record t { group_sync_anchor_valid = false; group_sync_start_rtp = 0 }

  unfoldable pub flush : M (AirPlayTransport State) (Unit {0})
  flush = do on_sessions (Session.flush client); modify without_anchor

  unfoldable pub stop : M (AirPlayTransport State) (Unit {0})
  stop = do
    on_sessions (Session.clear_metadata client)
    on_sessions (Session.stop client)
    modify (λ t. without_anchor (record t { stream_open = false }))

  pub add_discovered_output : OutputDevice → M (AirPlayTransport State) (Unit {0})
  add_discovered_output device = do
    on_discovery (Discovery.upsert is_numeric (record device { type = airplay }))
    sync_discovered_outputs

  unfoldable pub set_measured_latency_ms : Text → ℤ → M (AirPlayTransport State) (Unit {0})
  set_measured_latency_ms id measured_latency_ms t =
      on_registry
        (Registry.set_measured_latency_ms (resolve_output_id id t.registry) measured_latency_ms) t

  -- `class AirPlayTransport final : public Transport`
  abbrev pub transport : Transport
  transport = record {
    State = AirPlayTransport State;
    start_discovery = start_discovery;
    stop_discovery = stop_discovery;
    refresh_discovery = refresh_discovery;
    list_outputs = list_outputs;
    set_enabled_outputs = set_enabled_outputs;
    set_output_volume = set_output_volume;
    set_output_offset_ms = set_output_offset_ms;
    set_playback_metadata = set_playback_metadata;
    clear_playback_metadata = clear_playback_metadata;
    open_stream = open_stream;
    write_frames = write_frames;
    flush = flush;
    stop = stop;
  }

unfoldable pub queued_packets : {S : Type 0} → AirPlayTransport S → List ScheduledPacket
queued_packets t = Session.queued_packets t.sessions

unfoldable pub sessions : {S : Type 0} → AirPlayTransport S → List AirPlaySessionState
sessions t = Session.sessions t.sessions
