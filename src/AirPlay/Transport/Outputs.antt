-- ===== src/AirPlay/Transport/Outputs.antt =====
-- The calls of the transport on outputs, discovery and settings keep what holds of it.
use foobar_universal_multiro.Core.Registry.Invariant as Registered
use foobar_universal_multiro.Core.Registry
use foobar_universal_multiro.AirPlay.Session.History as Sessions
use foobar_universal_multiro.AirPlay.Session
use foobar_universal_multiro.AirPlay.Session.{AirPlaySessionManager}
use foobar_universal_multiro.Core.Registry.{OutputRegistry, clamp_volume}
use foobar_universal_multiro.AirPlay.Discovery.{AirPlayDiscovery}
use foobar_universal_multiro.AirPlay.Transport.Invariant.{
  Kept, seq_Kept, discovery_call-Kept, sync-Kept, flags-Kept, when-Kept, throw_if-Kept,
  sessions_call-Kept, registry_call-Kept,
}
use foobar_universal_multiro.AirPlay.Transport.{AirPlayTransport}
use foobar_universal_multiro.Device.{OutputDevice}
use foobar_universal_multiro.AirPlay.Client.{AirPlayControlClient}
use foobar_universal_multiro.Base.Int.{ℤ}
use foobar_universal_multiro.Base.{
  Bool, List, Option, Text, refl, true, ℕ, codes, false, none, not, some, ◌++◌,
}
use foobar_universal_multiro.AirPlay.Transport
use foobar_universal_multiro.AirPlay.Discovery
use foobar_universal_multiro.AirPlay.Discovery.History as Discovered
use foobar_universal_multiro.Base.Outcome.{
  ◌>>=◌, ◌>>◌, M, modify, get, pure, when, throw_if, runtime_error,
}

module _ (client : AirPlayControlClient) (is_numeric : Text → Bool) where
  open client use {State, Handler}

  abbrev on_discovery : {A : Type 0} → M AirPlayDiscovery A → M (AirPlayTransport State) A
  on_discovery = Transport.on_discovery client is_numeric

  abbrev on_registry : {A : Type 0} → M OutputRegistry A → M (AirPlayTransport State) A
  on_registry = Transport.on_registry client is_numeric

  abbrev on_sessions :
      {A : Type 0} → M (AirPlaySessionManager State) A → M (AirPlayTransport State) A
  on_sessions = Transport.on_sessions client is_numeric

  abbrev sync : M (AirPlayTransport State) (Unit {0})
  sync = Transport.sync_discovered_outputs client is_numeric

  pub start_discovery-Kept : Kept (Transport.start_discovery client is_numeric)
  unfolding Transport.start_discovery Discovered.step
  start_discovery-Kept =
      seq_Kept (on_discovery Discovery.start)
        (sync >> modify (λ t. record t { discovery_active = true }))
        (discovery_call-Kept client is_numeric Discovery.start Discovered.start (λ d. refl))
        (seq_Kept sync (modify (λ t. record t { discovery_active = true }))
          (sync-Kept client is_numeric)
          (λ t v. flags-Kept client is_numeric t true t.stream_open t.playback_metadata v))

  pub stop_discovery-Kept : Kept (Transport.stop_discovery client is_numeric)
  unfolding Transport.stop_discovery Discovered.step
  stop_discovery-Kept =
      seq_Kept (on_discovery Discovery.stop) (modify (λ t. record t { discovery_active = false }))
        (discovery_call-Kept client is_numeric Discovery.stop Discovered.stop (λ d. refl))
        (λ t v. flags-Kept client is_numeric t false t.stream_open t.playback_metadata v)

  pub refresh_discovery-Kept :
      (timeout : ℕ) → Kept (Transport.refresh_discovery client is_numeric timeout)
  unfolding Transport.refresh_discovery Discovered.step
  refresh_discovery-Kept timeout t =
      let browse = on_discovery (Discovery.refresh is_numeric timeout) in
      seq_Kept (when t.discovery_active browse) sync
        (when-Kept t.discovery_active browse (
          discovery_call-Kept client is_numeric (Discovery.refresh is_numeric timeout)
            (Discovered.refresh timeout) (λ d. refl)))
        (sync-Kept client is_numeric) t

  pub list_outputs-Kept : Kept (Transport.list_outputs client is_numeric)
  unfolding Transport.list_outputs
  list_outputs-Kept =
      seq_Kept sync (get >>= λ t. pure (Registry.list t.registry)) (sync-Kept client is_numeric)
        (λ t v. v)

  pub pair_found-Kept :
      (id pin : Text) (output : Option OutputDevice)
      → Kept (Transport.pair_found client is_numeric id pin output)
  unfolding Transport.pair_found Sessions.step
  pair_found-Kept id pin none t v = v
  pair_found-Kept id pin (some output) t v =
      seq_Kept
        (throw_if (not output.supports_airplay2) runtime_error
          (codes "AirPlay PIN pairing requires an AirPlay 2 output: " ++ id))
        (on_sessions (Session.pair_output client output pin))
        (throw_if-Kept (not output.supports_airplay2) runtime_error _)
        (sessions_call-Kept client is_numeric (Session.pair_output client output pin)
          (Sessions.pairs output pin) (λ s. refl))
        t v

  pub pair_output-Kept : (id pin : Text) → Kept (Transport.pair_output client is_numeric id pin)
  unfolding Transport.pair_output
  pair_output-Kept id pin =
      let pair = λ (t : AirPlayTransport State).
        Transport.pair_found client is_numeric id pin
          (Registry.find (Transport.resolve_output_id id t.registry) t.registry) in
      seq_Kept sync (get >>= pair) (sync-Kept client is_numeric) (λ t.
        pair_found-Kept id pin
          (Registry.find (Transport.resolve_output_id id t.registry) t.registry) t)

  pub remote_handler-Kept :
      (handler : Handler) → Kept (Transport.set_remote_command_handler client is_numeric handler)
  unfolding Transport.set_remote_command_handler Sessions.step
  remote_handler-Kept handler =
      sessions_call-Kept client is_numeric (Session.set_remote_command_handler client handler)
        (Sessions.handles handler) (λ s. refl)

  -- The two calls of the sessions at the end of `set_enabled_outputs`.
  pub prepare_and_close-Kept :
      (outputs : List OutputDevice)
      → Kept (
          on_sessions (Session.prepare_outputs outputs)
          >> on_sessions (Session.close_missing_outputs client outputs))
  unfolding Sessions.step
  prepare_and_close-Kept outputs =
      seq_Kept (on_sessions (Session.prepare_outputs outputs))
        (on_sessions (Session.close_missing_outputs client outputs))
        (sessions_call-Kept client is_numeric (Session.prepare_outputs outputs)
          (Sessions.prepares outputs) (λ s. refl))
        (sessions_call-Kept client is_numeric (Session.close_missing_outputs client outputs)
          (Sessions.closes_missing outputs) (λ s. refl))

  pub set_enabled_outputs-Kept :
      (ids : List Text) → Kept (Transport.set_enabled_outputs client is_numeric ids)
  unfolding Transport.set_enabled_outputs Registered.step
  set_enabled_outputs-Kept ids =
      let close : M (AirPlayTransport State) (Unit {0}) = get >>= λ t.
      on_sessions (Session.prepare_outputs (Registry.list t.registry))
      >> on_sessions (Session.close_missing_outputs client (Registry.list t.registry)) in
      let select : M (AirPlayTransport State) (Unit {0}) = get >>= λ t.
      on_registry (Registry.set_enabled_outputs (Transport.resolve_output_ids ids t.registry))
      >> close in
      seq_Kept sync select (sync-Kept client is_numeric) (λ t.
        let resolved = Transport.resolve_output_ids ids t.registry in
        seq_Kept (on_registry (Registry.set_enabled_outputs resolved)) close
          (registry_call-Kept client is_numeric (Registry.set_enabled_outputs resolved)
            (Registered.enables resolved) (λ r. refl))
          (λ t'. prepare_and_close-Kept (Registry.list t'.registry) t') t)

  pub set_output_volume-Kept :
      (id : Text) (volume : ℤ) → Kept (Transport.set_output_volume client is_numeric id volume)
  unfolding Transport.set_output_volume Registered.step Sessions.step
  set_output_volume-Kept id volume =
      let write : M (AirPlayTransport State) (Unit {0}) = get >>= λ t.
      let resolved = Transport.resolve_output_id id t.registry in
      on_registry (Registry.set_output_volume resolved volume)
      >> on_sessions (Session.set_volume client resolved volume) in
      seq_Kept sync write (sync-Kept client is_numeric) (λ t.
        let resolved = Transport.resolve_output_id id t.registry in
        seq_Kept (on_registry (Registry.set_output_volume resolved volume))
          (on_sessions (Session.set_volume client resolved volume))
          (registry_call-Kept client is_numeric (Registry.set_output_volume resolved volume)
            (Registered.sets_volume resolved volume) (λ r. refl))
          (sessions_call-Kept client is_numeric (Session.set_volume client resolved volume)
            (Sessions.sets_volume resolved volume) (λ s. refl))
          t)

  pub set_session_volume-Kept :
      (id : Text) (volume : ℤ) → Kept (Transport.set_session_volume client is_numeric id volume)
  unfolding Transport.set_session_volume Sessions.step
  set_session_volume-Kept id volume =
      sessions_call-Kept client is_numeric (Session.set_volume client id (clamp_volume volume))
        (Sessions.sets_volume id (clamp_volume volume)) (λ s. refl)

  pub set_output_offset_ms-Kept :
      (id : Text) (offset_ms : ℤ)
      → Kept (Transport.set_output_offset_ms client is_numeric id offset_ms)
  unfolding Transport.set_output_offset_ms Registered.step
  set_output_offset_ms-Kept id offset_ms =
      let write : M (AirPlayTransport State) (Unit {0}) = get >>= λ t.
      on_registry
        (Registry.set_output_offset_ms (Transport.resolve_output_id id t.registry) offset_ms) in
      seq_Kept sync write (sync-Kept client is_numeric) (λ t.
        let resolved = Transport.resolve_output_id id t.registry in
        registry_call-Kept client is_numeric (Registry.set_output_offset_ms resolved offset_ms)
          (Registered.sets_offset resolved offset_ms) (λ r. refl) t)

  pub set_measured_latency_ms-Kept :
      (id : Text) (latency : ℤ)
      → Kept (Transport.set_measured_latency_ms client is_numeric id latency)
  unfolding Transport.set_measured_latency_ms Registered.step
  set_measured_latency_ms-Kept id latency t =
      let resolved = Transport.resolve_output_id id t.registry in
      registry_call-Kept client is_numeric (Registry.set_measured_latency_ms resolved latency)
        (Registered.sets_latency resolved latency) (λ r. refl) t
