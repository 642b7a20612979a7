-- ===== src/AirPlay/Transport/State.antt =====
-- The state of the transport, and its work on the registry: synchronisation and the resolution of ids.
use foobar_universal_multiro.AirPlay.Session.{AirPlaySessionManager}
use foobar_universal_multiro.Base.Outcome.{for_each, M, ◌>>◌, modify}
use foobar_universal_multiro.Device.{OutputDevice, PlaybackMetadata, PcmFormat}
use foobar_universal_multiro.Core.Registry.{OutputRegistry, clamp_volume}
use foobar_universal_multiro.AirPlay.Discovery.{AirPlayDiscovery}
use foobar_universal_multiro.Base.{
  Bool, List, Option, Text, [], contains, find_if, if◌then◌else◌, keep_if, map, none, some, text_eq,
  ℕ, ◌++◌, ◌||◌, ◌∷◌,
}
use foobar_universal_multiro.Core.Registry

pub record AirPlayTransport (S : Type 0) : Type 0 where
  pub discovery : AirPlayDiscovery
  pub registry : OutputRegistry
  pub sessions : AirPlaySessionManager S
  pub stream_format : PcmFormat
  pub discovery_active : Bool
  pub stream_open : Bool
  pub group_sync_anchor_valid : Bool
  pub group_sync_start_rtp : ℕ
  pub playback_metadata : Option PlaybackMetadata
  -- What the system clock gives at each further reading: seconds and nanoseconds.
  pub clock : ℕ → ℕ × ℕ

-- The writes to a device that the registry knows already.
unfoldable pub keep_user_state : OutputDevice → OutputDevice → OutputDevice
keep_user_state existing device = record device {
  selected = existing.selected;
  volume = existing.volume;
  offset_ms = existing.offset_ms;
  measured_latency_ms = existing.measured_latency_ms;
  visible_in_dropdown = existing.visible_in_dropdown;
}

-- The loop over the aliases, up to the first that the registry knows.
unfoldable pub find_by_alias : List Text → OutputRegistry → Option OutputDevice
find_by_alias [] registry = none
find_by_alias (alias ∷ aliases) registry =
    let rest = find_by_alias aliases registry in
    elim (Registry.find alias registry) [ none ↦ rest | some existing ↦ some existing ]

unfoldable pub find_existing : OutputDevice → OutputRegistry → Option OutputDevice
unfolding find_by_alias
find_existing device registry = elim (Registry.find device.id registry) [
  | none ↦ find_by_alias device.aliases registry
  | some existing ↦ some existing
]

-- The device with the settings of the entry that it updates, if there is one.
unfoldable pub synced : OutputDevice → OutputRegistry → OutputDevice
unfolding find_existing keep_user_state
synced device registry = elim (find_existing device registry) [
  | none ↦ device
  | some existing ↦ keep_user_state existing device
]

-- The body of the loop of `sync_discovered_outputs`.
unfoldable pub sync_output : OutputDevice → M OutputRegistry (Unit {0})
unfolding synced
sync_output device registry = Registry.upsert (synced device registry) registry

unfoldable pub sync_outputs : List OutputDevice → M OutputRegistry (Unit {0})
unfolding sync_output for_each
sync_outputs devices = do
  for_each sync_output devices
  modify (Registry.retain (map (λ device. device.id) devices))

unfoldable pub resolve_output_id : Text → OutputRegistry → Text
resolve_output_id id registry =
    elim (find_if (λ output. text_eq output.id id || contains output.aliases id)
      (Registry.list registry)) [ none ↦ id | some output ↦ output.id ]

unfoldable pub resolve_onto : List Text → List Text → OutputRegistry → List Text
unfolding resolve_output_id
resolve_onto resolved [] registry = resolved
resolve_onto resolved (id ∷ ids) registry =
    let canonical_id = resolve_output_id id registry in
    resolve_onto
      (if contains resolved canonical_id then resolved else resolved ++ canonical_id ∷ []) ids
      registry

unfoldable pub resolve_output_ids : List Text → OutputRegistry → List Text
unfolding resolve_onto
resolve_output_ids ids registry = resolve_onto [] ids registry

-- The selected outputs, and of these the ones with a ready session.
abbrev pub selected_outputs : OutputRegistry → List OutputDevice
selected_outputs registry = keep_if (λ output. output.selected) (Registry.list registry)

abbrev pub ready_outputs : List Text → OutputRegistry → List OutputDevice
ready_outputs ready_ids registry =
    keep_if (λ output. contains ready_ids output.id) (selected_outputs registry)
