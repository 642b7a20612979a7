-- ===== src/AirPlay/Transport/Invariant.antt =====
-- What holds of the transport, and of every part of it, after any history of calls.
use foobar_universal_multiro.Device.{OutputDevice, PlaybackMetadata}
use foobar_universal_multiro.Base.Outcome.{
  ◌>>=◌, ◌>>◌, M, ErrorKind, throw_if, modify, when, then_keeps, for_each, for_each_keeps,
}
use foobar_universal_multiro.AirPlay.Session.Invariant.{IsManager}
use foobar_universal_multiro.AirPlay.Session.{AirPlaySessionManager}
use foobar_universal_multiro.Core.Registry.{OutputRegistry}
use foobar_universal_multiro.AirPlay.Discovery.{AirPlayDiscovery}
use foobar_universal_multiro.AirPlay.Client.{AirPlayControlClient}
use foobar_universal_multiro.Base.Outcome.{M, ErrorKind}
use foobar_universal_multiro.AirPlay.Transport.{AirPlayTransport}
use foobar_universal_multiro.Base.{
  Bool, Text, false, true, ◌<◌, ◌^◌, ◌≡◌, List, Option, arith, map, refl, subst, sym,
}
use foobar_universal_multiro.AirPlay.Transport
use foobar_universal_multiro.AirPlay.Discovery
use foobar_universal_multiro.AirPlay.Discovery.History as Discovered
use foobar_universal_multiro.AirPlay.Session.History as Sessions
use foobar_universal_multiro.Core.Registry
use foobar_universal_multiro.Core.Registry.Invariant as Registered

pub record IsTransport {S : Type 0} (t : AirPlayTransport S) : Type 0 where
  pub discovered : Discovered.IsDiscovery t.discovery.devices
  pub registered : Registered.IsRegistry t.registry
  pub managed : IsManager t.sessions
  pub has_rate : 0 < t.stream_format.sample_rate
  pub anchor_fits : t.group_sync_start_rtp < 2 ^ 64
  pub anchor_cleared : t.group_sync_anchor_valid ≡ false → t.group_sync_start_rtp ≡ 0

-- The method keeps it, whether it returns or throws.
abbrev pub Kept : {S A : Type 0} → M (AirPlayTransport S) A → Type 0
Kept {S} m = (t : AirPlayTransport S) → IsTransport t → IsTransport (m t).1

pub bind_Kept :
    {S A B : Type 0} (m : M (AirPlayTransport S) A) (f : A → M (AirPlayTransport S) B)
    → Kept m
    → ((a : A) → Kept (f a))
    → Kept (m >>= f)
bind_Kept m f h k t v = then_keeps IsTransport f (m t) (h t v) (λ a s w. k a s w)

pub seq_Kept :
    {S A B : Type 0} (m : M (AirPlayTransport S) A) (f : M (AirPlayTransport S) B)
    → Kept m
    → Kept f
    → Kept (m >> f)
seq_Kept m f h k t v = then_keeps IsTransport (λ _. f) (m t) (h t v) (λ a s w. k s w)

pub throw_if-Kept :
    {S : Type 0} (b : Bool) (kind : ErrorKind) (what : Text) → Kept {S = S} (throw_if b kind what)
throw_if-Kept true kind what t v = v
throw_if-Kept false kind what t v = v

pub when-Kept :
    {S : Type 0} (b : Bool) (m : M (AirPlayTransport S) (Unit {0})) → Kept m → Kept (when b m)
when-Kept true m h t v = h t v
when-Kept false m h t v = v

sync_outputs-IsRegistry :
    (devices : List OutputDevice) (registry : OutputRegistry)
    → Registered.IsRegistry registry
    → Registered.IsRegistry (Transport.sync_outputs devices registry).1
unfolding Transport.sync_outputs Transport.sync_output
sync_outputs-IsRegistry devices registry v =
    then_keeps Registered.IsRegistry
      (λ _. modify (Registry.retain (map (λ device. device.id) devices)))
      (for_each Transport.sync_output devices registry)
      (for_each_keeps Registered.IsRegistry Transport.sync_output devices registry
        (λ device r w. Registered.upsert-IsRegistry (Transport.synced device r) r w) v)
      (λ _ r w. Registered.retain-IsRegistry (map (λ device. device.id) devices) r w)

module _ (client : AirPlayControlClient) (is_numeric : Text → Bool) where
  open client use {State, Handler}

  on_discovery-Kept :
      {A : Type 0} (m : M AirPlayDiscovery A)
      → ((d : AirPlayDiscovery)
          → Discovered.IsDiscovery d.devices
          → Discovered.IsDiscovery (m d).1.devices)
      → Kept (Transport.on_discovery client is_numeric m)
  on_discovery-Kept m h t v = record {
    discovered = h t.discovery v.discovered;
    registered = v.registered;
    managed = v.managed;
    has_rate = v.has_rate;
    anchor_fits = v.anchor_fits;
    anchor_cleared = v.anchor_cleared;
  }

  on_registry-Kept :
      {A : Type 0} (m : M OutputRegistry A)
      → ((r : OutputRegistry) → Registered.IsRegistry r → Registered.IsRegistry (m r).1)
      → Kept (Transport.on_registry client is_numeric m)
  on_registry-Kept m h t v = record {
    discovered = v.discovered;
    registered = h t.registry v.registered;
    managed = v.managed;
    has_rate = v.has_rate;
    anchor_fits = v.anchor_fits;
    anchor_cleared = v.anchor_cleared;
  }

  pub on_sessions-Kept :
      {A : Type 0} (m : M (AirPlaySessionManager State) A)
      → ((s : AirPlaySessionManager State) → IsManager s → IsManager (m s).1)
      → Kept (Transport.on_sessions client is_numeric m)
  on_sessions-Kept m h t v = record {
    discovered = v.discovered;
    registered = v.registered;
    managed = h t.sessions v.managed;
    has_rate = v.has_rate;
    anchor_fits = v.anchor_fits;
    anchor_cleared = v.anchor_cleared;
  }

  -- A write to the flags alone.
  pub flags-Kept :
      (t : AirPlayTransport State) (discovery_active stream_open : Bool)
      (metadata : Option PlaybackMetadata)
      → IsTransport t
      → IsTransport (record t {
        discovery_active = discovery_active;
        stream_open = stream_open;
        playback_metadata = metadata;
      })
  flags-Kept t discovery_active stream_open metadata v = record {
    discovered = v.discovered;
    registered = v.registered;
    managed = v.managed;
    has_rate = v.has_rate;
    anchor_fits = v.anchor_fits;
    anchor_cleared = v.anchor_cleared;
  }

  pub without_anchor-Kept :
      (t : AirPlayTransport State) (stream_open : Bool)
      → IsTransport t
      → IsTransport
          (Transport.without_anchor client is_numeric (record t { stream_open = stream_open }))
  without_anchor-Kept t stream_open v = record {
    discovered = v.discovered;
    registered = v.registered;
    managed = v.managed;
    has_rate = v.has_rate;
    anchor_fits = omega arith;
    anchor_cleared = λ _. refl;
  }

  pub sync-Kept : Kept (Transport.sync_discovered_outputs client is_numeric)
  unfolding Transport.sync_discovered_outputs
  sync-Kept t =
      on_registry-Kept (Transport.sync_outputs (Discovery.list t.discovery))
        (sync_outputs-IsRegistry (Discovery.list t.discovery)) t

  pub registry_call-Kept :
      {A : Type 0} (m : M OutputRegistry A) (call : Registered.Call)
      → ((r : OutputRegistry) → (m r).1 ≡ Registered.step call r)
      → Kept (Transport.on_registry client is_numeric m)
  registry_call-Kept m call e =
      on_registry-Kept m
        (λ r v. subst Registered.IsRegistry (sym (e r)) (Registered.step-IsRegistry call r v))

  pub sessions_call-Kept :
      {A : Type 0} (m : M (AirPlaySessionManager State) A) (call : Sessions.Call Handler)
      → ((s : AirPlaySessionManager State) → (m s).1 ≡ Sessions.step client call s)
      → Kept (Transport.on_sessions client is_numeric m)
  sessions_call-Kept m call e =
      on_sessions-Kept m
        (λ s v. subst IsManager (sym (e s)) (Sessions.step-IsManager client call s v))

  pub discovery_call-Kept :
      {A : Type 0} (m : M AirPlayDiscovery A) (call : Discovered.Call)
      → ((d : AirPlayDiscovery) → (m d).1 ≡ Discovered.step is_numeric call d)
      → Kept (Transport.on_discovery client is_numeric m)
  discovery_call-Kept m call e = on_discovery-Kept m (λ d v.
      subst (λ d'. Discovered.IsDiscovery d'.devices) (sym (e d))
        (Discovered.step-IsDiscovery is_numeric call d v))
