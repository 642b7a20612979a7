-- ===== src/AirPlay/Discovery/Browse.antt =====
-- transports/airplay/airplay_discovery.cpp: what `browse_raw_mdns` and `browse_mdns` make of the services that
-- answered. The sockets between are not modelled.
use foobar_universal_multiro.Base.Outcome.{Outcome, ok, throw}
use foobar_universal_multiro.Device.{OutputDevice}
use foobar_universal_multiro.AirPlay.Discovery.Identity.{append_or_merge_device}
use foobar_universal_multiro.AirPlay.Discovery.Service.{normalize_service, to_output_device}
use foobar_universal_multiro.Base.Sort.{set_of}
use foobar_universal_multiro.AirPlay.Discovery.Response.{DiscoveredService}
use foobar_universal_multiro.AirPlay.Discovery.Names.{
  ends_with_service, airplay_service, trim_trailing_dot, lower_ascii, raop_service,
}
use foobar_universal_multiro.Base.{
  Bool, List, Text, [], false, if◌then◌else◌, is_empty, keep_if, map, none, not, some, true, ◌&&◌,
  ◌||◌, ◌∷◌,
}
use foobar_universal_multiro.Base.Map

-- A name of one of the two services.
abbrev is_service_name : Text → Bool
is_service_name name = ends_with_service name airplay_service || ends_with_service name raop_service

abbrev service_name_of : Text × DiscoveredService → Text
service_name_of (key, service) =
    trim_trailing_dot (if is_empty service.full_name then key else service.full_name)

unfoldable pub discovered_service_names : List (Text × DiscoveredService) → List Text
unfolding ends_with_service set_of
discovered_service_names services =
    set_of
      (keep_if (λ name. not (is_empty name) && is_service_name name) (map service_name_of services))

unfoldable pub unresolved_host_names :
    List (Text × DiscoveredService) → List (Text × Text) → List Text
unfolding set_of lower_ascii
unresolved_host_names services host_addresses = set_of (
    keep_if
      (λ host.
        not (is_empty host)
        && elim (Map.find (lower_ascii host) host_addresses) [ none ↦ true | some _ ↦ false ])
      (map (λ service. trim_trailing_dot service.target_host) (Map.values services)))

-- The test of the last loop, on a normalized service.
pub is_receiver : DiscoveredService → Bool
unfolding ends_with_service
is_receiver service =
    (is_service_name service.full_name || is_service_name service.service_type)
    && not (is_empty service.full_name)

module _ (is_numeric : Text → Bool) where
  -- The last loop of `browse_raw_mdns`.
  unfoldable pub collect_devices : List OutputDevice → List DiscoveredService → List OutputDevice
  unfolding normalize_service is_receiver to_output_device append_or_merge_device
  collect_devices devices [] = devices
  collect_devices devices (service ∷ services) =
      let normalized_service = normalize_service service in
      collect_devices
        (if is_receiver normalized_service
          then append_or_merge_device is_numeric devices (to_output_device normalized_service)
          else devices)
        services

  pub merge_each : List OutputDevice → List OutputDevice → List OutputDevice
  unfolding append_or_merge_device
  merge_each devices [] = devices
  merge_each devices (device ∷ found) =
      merge_each (append_or_merge_device is_numeric devices device) found

  -- `browse_mdns`, on what the Windows service and the raw query gave.
  unfoldable pub merge_browses :
      List OutputDevice → Outcome (List OutputDevice) → Outcome (List OutputDevice)
  unfolding merge_each
  merge_browses devices (ok raw_devices) = ok (merge_each devices raw_devices)
  merge_browses [] (throw e) = throw e
  merge_browses devices (throw e) = ok devices
