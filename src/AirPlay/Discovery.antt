-- ===== src/AirPlay/Discovery.antt =====
-- transports/airplay/airplay_discovery.h and airplay_discovery.cpp: the class `AirPlayDiscovery`. Each method
-- runs under one mutex. What `browse_mdns` finds, or throws, at each refresh is part of the state.
pub mod Names
pub mod Identity
pub mod Packet
pub mod Response
pub mod Parsing
pub mod Aliases
pub mod Reach
pub mod History
pub mod Service
pub mod Browse
use foobar_universal_multiro.AirPlay.Discovery.Identity.{upsert_discovered_identity}
use foobar_universal_multiro.Base.Outcome.{
  Outcome, M, modify, ok, ◌>>=◌, ◌>>◌, throw_if, invalid_argument,
}
use foobar_universal_multiro.Device.{OutputDevice, airplay}
use foobar_universal_multiro.Base.{
  Bool, List, Option, Text, [], codes, false, if◌then◌else◌, is_empty, not, true, ℕ, ◌+◌, ◌∷◌,
}
use foobar_universal_multiro.Base.Map

pub record AirPlayDiscovery : Type 0 where
  pub active : Bool
  pub devices : List (Text × OutputDevice)
  -- The results of the further calls of `browse_mdns`.
  pub browses : ℕ → Outcome (List OutputDevice)

unfoldable pub make_discovery : (ℕ → Outcome (List OutputDevice)) → AirPlayDiscovery
make_discovery browses = record { active = false; devices = []; browses = browses }

pub start : M AirPlayDiscovery (Unit {0})
start = modify (λ d. record d { active = true })

unfoldable pub stop : M AirPlayDiscovery (Unit {0})
stop = modify (λ d. record d { active = false })

-- `browse_mdns(timeout)`
pub browse_mdns : M AirPlayDiscovery (List OutputDevice)
browse_mdns d = (d.browses 0, record d { browses = λ i. d.browses (i + 1) })

unfoldable pub list : AirPlayDiscovery → List OutputDevice
list d = Map.values d.devices

unfoldable pub find : Text → AirPlayDiscovery → Option OutputDevice
find id d = Map.find id d.devices

module _ (is_numeric : Text → Bool) where
  pub upsert_each : List (Text × OutputDevice) → List OutputDevice → List (Text × OutputDevice)
  upsert_each devices [] = devices
  upsert_each devices (device ∷ found) =
      upsert_each (upsert_discovered_identity is_numeric devices device) found

  pub refresh : ℕ → M AirPlayDiscovery (Unit {0})
  unfolding browse_mdns upsert_each
  refresh timeout d =
      if not d.active
      then (ok tt, d)
      else (do
        found ← browse_mdns
        modify (λ d'. record d' { devices = upsert_each d'.devices found }))
          d

  unfoldable pub upsert : OutputDevice → M AirPlayDiscovery (Unit {0})
  upsert device = do
    throw_if (is_empty device.id) invalid_argument
        (codes "Discovered AirPlay device id cannot be empty.")
    modify (λ d. record d {
      devices = upsert_discovered_identity is_numeric d.devices (record device { type = airplay });
    })
