-- ===== src/AirPlay/Transport/History.antt =====
-- Any history of calls of the transport.
use foobar_universal_multiro.AirPlay.Transport.Streaming.{
  set_playback_metadata-Kept, open_stream-Kept, clear_playback_metadata-Kept,
  connect_selected_outputs-Kept, cancel_pending_open-Kept, reset_pending_open_cancel-Kept,
  flush-Kept, stop-Kept, write_frames-Kept, add_discovered_output-Kept,
}
use foobar_universal_multiro.AirPlay.Transport.Outputs.{
  start_discovery-Kept, stop_discovery-Kept, list_outputs-Kept, refresh_discovery-Kept,
  pair_output-Kept, remote_handler-Kept, set_enabled_outputs-Kept, set_output_volume-Kept,
  set_session_volume-Kept, set_output_offset_ms-Kept, set_measured_latency_ms-Kept,
}
use foobar_universal_multiro.AirPlay.Session.History as Sessions
use foobar_universal_multiro.AirPlay.Session
use foobar_universal_multiro.AirPlay.Session.{AirPlaySessionManager}
use foobar_universal_multiro.AirPlay.Discovery.{AirPlayDiscovery}
use foobar_universal_multiro.AirPlay.Transport.Invariant.{IsTransport}
use foobar_universal_multiro.AirPlay.Transport.{AirPlayTransport}
use foobar_universal_multiro.Device.{PlaybackMetadata, PcmFormat, OutputDevice}
use foobar_universal_multiro.AirPlay.Client.{AirPlayControlClient}
use foobar_universal_multiro.Base.Int.{ℤ}
use foobar_universal_multiro.Base.{Bool, List, Option, Text, [], refl, ℕ, ◌∷◌, arith}
use foobar_universal_multiro.AirPlay.Transport
use foobar_universal_multiro.AirPlay.Discovery
use foobar_universal_multiro.Base.Outcome.{Outcome}

pub data Call (Handler : Type 0) : Type 0 where
  starts_discovery stops_discovery lists : Call Handler
  refreshes : ℕ → Call Handler
  pairs : Text → Text → Call Handler
  handles : Handler → Call Handler
  enables : List Text → Call Handler
  sets_volume sets_session_volume sets_offset sets_latency : Text → ℤ → Call Handler
  sets_metadata : PlaybackMetadata → Call Handler
  opens : PcmFormat → Call Handler
  clears_metadata connects cancels resets flushes stops : Call Handler
  writes : Option Text → ℕ → ℕ → Call Handler
  adds : OutputDevice → Call Handler
  interferes : List (Option Bool) → Call Handler

module _ (client : AirPlayControlClient) (is_numeric : Text → Bool) where
  open client use {State, Handler}

  -- The transport after a call, whether it returns or throws.
  unfoldable pub step : Call Handler → AirPlayTransport State → AirPlayTransport State
  step starts_discovery t = (Transport.start_discovery client is_numeric t).1
  step stops_discovery t = (Transport.stop_discovery client is_numeric t).1
  step lists t = (Transport.list_outputs client is_numeric t).1
  step (refreshes timeout) t = (Transport.refresh_discovery client is_numeric timeout t).1
  step (pairs id pin) t = (Transport.pair_output client is_numeric id pin t).1
  step (handles handler) t = (Transport.set_remote_command_handler client is_numeric handler t).1
  step (enables ids) t = (Transport.set_enabled_outputs client is_numeric ids t).1
  step (sets_volume id volume) t = (Transport.set_output_volume client is_numeric id volume t).1
  step (sets_session_volume id volume) t =
      (Transport.set_session_volume client is_numeric id volume t).1
  step (sets_offset id offset_ms) t =
      (Transport.set_output_offset_ms client is_numeric id offset_ms t).1
  step (sets_latency id latency) t =
      (Transport.set_measured_latency_ms client is_numeric id latency t).1
  step (sets_metadata metadata) t = (Transport.set_playback_metadata client is_numeric metadata t).1
  step (opens format) t = (Transport.open_stream client is_numeric format t).1
  step clears_metadata t = (Transport.clear_playback_metadata client is_numeric t).1
  step connects t = (Transport.connect_selected_outputs client is_numeric t).1
  step cancels t = (Transport.cancel_pending_open client is_numeric t).1
  step resets t = (Transport.reset_pending_open_cancel client is_numeric t).1
  step flushes t = (Transport.flush client is_numeric t).1
  step stops t = (Transport.stop client is_numeric t).1
  step (writes frames bytes stream_timestamp) t =
      (Transport.write_frames client is_numeric frames bytes stream_timestamp t).1
  step (adds device) t = (Transport.add_discovered_output client is_numeric device t).1
  step (interferes stores) t = record t { sessions = record t.sessions { stores = stores } }

  pub run : List (Call Handler) → AirPlayTransport State → AirPlayTransport State
  run [] t = t
  run (call ∷ calls) t = run calls (step call t)

  interfere-Kept :
      (stores : List (Option Bool)) (t : AirPlayTransport State)
      → IsTransport t
      → IsTransport (record t { sessions = record t.sessions { stores = stores } })
  unfolding Sessions.step
  interfere-Kept stores t v = record {
    discovered = v.discovered;
    registered = v.registered;
    managed = Sessions.step-IsManager client (Sessions.interferes stores) t.sessions v.managed;
    has_rate = v.has_rate;
    anchor_fits = v.anchor_fits;
    anchor_cleared = v.anchor_cleared;
  }

  step-IsTransport :
      (call : Call Handler) (t : AirPlayTransport State) → IsTransport t → IsTransport (step call t)
  unfolding step
  step-IsTransport starts_discovery = start_discovery-Kept client is_numeric
  step-IsTransport stops_discovery = stop_discovery-Kept client is_numeric
  step-IsTransport lists = list_outputs-Kept client is_numeric
  step-IsTransport (refreshes timeout) = refresh_discovery-Kept client is_numeric timeout
  step-IsTransport (pairs id pin) = pair_output-Kept client is_numeric id pin
  step-IsTransport (handles handler) = remote_handler-Kept client is_numeric handler
  step-IsTransport (enables ids) = set_enabled_outputs-Kept client is_numeric ids
  step-IsTransport (sets_volume id volume) = set_output_volume-Kept client is_numeric id volume
  step-IsTransport (sets_session_volume id volume) =
      set_session_volume-Kept client is_numeric id volume
  step-IsTransport (sets_offset id offset_ms) =
      set_output_offset_ms-Kept client is_numeric id offset_ms
  step-IsTransport (sets_latency id latency) =
      set_measured_latency_ms-Kept client is_numeric id latency
  step-IsTransport (sets_metadata metadata) = set_playback_metadata-Kept client is_numeric metadata
  step-IsTransport (opens format) = open_stream-Kept client is_numeric format
  step-IsTransport clears_metadata = clear_playback_metadata-Kept client is_numeric
  step-IsTransport connects = connect_selected_outputs-Kept client is_numeric
  step-IsTransport cancels = cancel_pending_open-Kept client is_numeric
  step-IsTransport resets = reset_pending_open_cancel-Kept client is_numeric
  step-IsTransport flushes = flush-Kept client is_numeric
  step-IsTransport stops = stop-Kept client is_numeric
  step-IsTransport (writes frames bytes stream_timestamp) =
      write_frames-Kept client is_numeric frames bytes stream_timestamp
  step-IsTransport (adds device) = add_discovered_output-Kept client is_numeric device
  step-IsTransport (interferes stores) = interfere-Kept stores

  run-IsTransport :
      (calls : List (Call Handler)) (t : AirPlayTransport State)
      → IsTransport t
      → IsTransport (run calls t)
  unfolding run
  run-IsTransport [] t v = v
  run-IsTransport (call ∷ calls) t v =
      run-IsTransport calls (step call t) (step-IsTransport call t v)

  -- From a new transport, after any calls, those that throw included, whatever the client answers, the network
  -- shows, the clock reads and other threads cancel: the discovered devices, the registry and the sessions are each
  -- well formed, the stream's format has a sample rate, the anchor of the group fits in 64 bits, and it is 0 where it
  -- is not set.
  pub run-make_transport-IsTransport :
      (calls : List (Call Handler)) (c : State) (browses : ℕ → Outcome (List OutputDevice))
      (clock : ℕ → ℕ × ℕ)
      → IsTransport (run calls (Transport.make_transport client is_numeric c browses clock))
  unfolding Transport.make_transport Session.make_manager Discovery.make_discovery
  run-make_transport-IsTransport calls c browses clock =
      run-IsTransport calls (Transport.make_transport client is_numeric c browses clock) (record {
        discovered = record { ordered = tt; keyed = tt };
        registered = record { ordered = tt; entries = tt };
        managed = record { ordered = tt; entries = tt };
        has_rate = omega arith;
        anchor_fits = omega arith;
        anchor_cleared = λ _. refl;
      })
