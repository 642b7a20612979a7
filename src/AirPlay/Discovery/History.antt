-- ===== src/AirPlay/Discovery/History.antt =====
-- What holds of the discovered devices after any history of calls.
use foobar_universal_multiro.Base.Outcome.{Outcome-cases}
use foobar_universal_multiro.AirPlay.Discovery.Aliases.{append_each-id, append_alias-id}
use foobar_universal_multiro.AirPlay.Discovery.Reach.{
  Keyed, reaches, find_alias-find, upsert_discovered_identity-reaches,
}
use foobar_universal_multiro.AirPlay.Discovery.{AirPlayDiscovery}
use foobar_universal_multiro.AirPlay.Discovery.Identity.{
  upsert_discovered_identity, append_aliases, keep_endpoint, put_identity, append_each, find_alias,
  append_alias, prefer_device_identity,
}
use foobar_universal_multiro.Device.{OutputDevice, airplay}
use foobar_universal_multiro.Base.{
  Bool, Bool-cases, List, Option-cases, Text, [], arith, inl, inr, not, refl, text_eq, true, ℕ,
  ◌||◌, ◌∙◌, ◌∷◌, ◌≡◌, ◌≢◌,
}
use foobar_universal_multiro.AirPlay.Discovery
use foobar_universal_multiro.Base.Map

pub record IsDiscovery (devices : List (Text × OutputDevice)) : Type 0 where
  pub ordered : Map.Ordered devices
  pub keyed : Keyed devices

put-IsDiscovery :
    (key : Text) (device : OutputDevice) (devices : List (Text × OutputDevice))
    → device.id ≡ key
    → IsDiscovery devices
    → IsDiscovery (Map.assign key device devices)
put-IsDiscovery key device devices e v = record {
  ordered = Map.assign-Ordered key device devices v.ordered;
  keyed = Map.assign-Each (λ k d. d.id ≡ k) key device devices e v.keyed;
}

append_aliases-id : (device source : OutputDevice) → (append_aliases device source).id ≡ device.id
unfolding append_aliases
append_aliases-id device source =
    append_each-id (append_alias device source.id) source.aliases ∙ append_alias-id device source.id

-- The calls of the class that change it.
pub data Call : Type 0 where
  start stop : Call
  refresh : ℕ → Call
  upsert : OutputDevice → Call

module _ (is_numeric : Text → Bool) where
  keep_endpoint-id :
      (existing device : OutputDevice) → (keep_endpoint is_numeric existing device).id ≡ device.id
  unfolding keep_endpoint
  keep_endpoint-id existing device = ground arith

  put_identity-IsDiscovery :
      (devices : List (Text × OutputDevice)) (device : OutputDevice)
      → IsDiscovery devices
      → IsDiscovery (put_identity is_numeric devices device)
  unfolding put_identity
  put_identity-IsDiscovery devices device v = elim (Option-cases (Map.find device.id devices)) [
    | inl e ↦ rw (e, put_identity) (put-IsDiscovery device.id device devices refl v)
    | inr (existing, e) ↦
        rw (e, put_identity)
          (put-IsDiscovery device.id _ devices
            (keep_endpoint-id existing (append_each device existing.aliases)
              ∙ append_each-id device existing.aliases)
            v)
  ]

  pub upsert_discovered_identity-IsDiscovery :
      (devices : List (Text × OutputDevice)) (device : OutputDevice)
      → IsDiscovery devices
      → IsDiscovery (upsert_discovered_identity is_numeric devices device)
  unfolding upsert_discovered_identity
  upsert_discovered_identity-IsDiscovery devices device v =
      elim (Option-cases (find_alias device devices)) [
        | inl e ↦ rw (e, upsert_discovered_identity) (put_identity-IsDiscovery devices device v)
        | inr ((key, other), e) ↦
            let found = find_alias-find device devices key other v.ordered e in
            let legacy_l16 = other.supports_legacy_l16 || device.supports_legacy_l16 in
            elim (Bool-cases (prefer_device_identity device other)) [
              | inl p ↦
                  rw (e, p, upsert_discovered_identity)
                    (put_identity-IsDiscovery (Map.erase_unless (λ k. not (text_eq k key)) devices)
                      _
                      (record {
                        ordered = Map.erase_unless-Ordered _ devices v.ordered;
                        keyed = Map.erase_unless-Each (λ k d. d.id ≡ k) _ devices v.keyed;
                      }))
              | inr p ↦
                  rw (e, p, upsert_discovered_identity)
                    (put-IsDiscovery key
                      (append_aliases (record other { supports_legacy_l16 = legacy_l16 }) device)
                      devices
                      (append_aliases-id (record other { supports_legacy_l16 = legacy_l16 }) device
                        ∙ Map.find-Each (λ k d. d.id ≡ k) key devices other v.keyed found)
                      v)
            ]
      ]

  unfoldable pub step : Call → AirPlayDiscovery → AirPlayDiscovery
  step start d = (Discovery.start d).1
  step stop d = (Discovery.stop d).1
  step (refresh timeout) d = (Discovery.refresh is_numeric timeout d).1
  step (upsert device) d = (Discovery.upsert is_numeric device d).1

  pub run : List Call → AirPlayDiscovery → AirPlayDiscovery
  run [] d = d
  run (call ∷ calls) d = run calls (step call d)

  upsert_each-IsDiscovery :
      (devices : List (Text × OutputDevice)) (found : List OutputDevice)
      → IsDiscovery devices
      → IsDiscovery (Discovery.upsert_each is_numeric devices found)
  unfolding Discovery.upsert_each
  upsert_each-IsDiscovery devices [] v = v
  upsert_each-IsDiscovery devices (device ∷ found) v =
      upsert_each-IsDiscovery (upsert_discovered_identity is_numeric devices device) found
        (upsert_discovered_identity-IsDiscovery devices device v)

  pub step-IsDiscovery :
      (call : Call) (d : AirPlayDiscovery)
      → IsDiscovery d.devices
      → IsDiscovery (step call d).devices
  unfolding step Discovery.start Discovery.stop Discovery.refresh Discovery.upsert
  step-IsDiscovery start d v = v
  step-IsDiscovery stop d v = v
  step-IsDiscovery (refresh timeout) d v = elim (Outcome-cases (d.browses 0)) [
    | inl (found, e) ↦
        unfold step Discovery.refresh in
        ground (arith, v, e, upsert_each-IsDiscovery d.devices found v)
    | inr (x, e) ↦ unfold step Discovery.refresh in ground (arith, v, e)
  ]
  step-IsDiscovery (upsert device) d v = ground (
    arith,
    v,
    upsert_discovered_identity-IsDiscovery d.devices (record device { type = airplay }) v,
  )

  -- The devices are in order, and `id` still finds one.
  abbrev pub Keeps : Text → List (Text × OutputDevice) → Type 0
  Keeps id devices = IsDiscovery devices × (reaches id devices ≡ true)

  upsert-Keeps :
      (id : Text) (devices : List (Text × OutputDevice)) (device : OutputDevice)
      → id ≢ []
      → Keeps id devices
      → Keeps id (upsert_discovered_identity is_numeric devices device)
  upsert-Keeps id devices device ne v = (
    upsert_discovered_identity-IsDiscovery devices device v.0,
    upsert_discovered_identity-reaches is_numeric devices device id ne v.0.ordered v.0.keyed
        (ground (arith, v.1)),
  )

  upsert_each-Keeps :
      (id : Text) (devices : List (Text × OutputDevice)) (found : List OutputDevice)
      → id ≢ []
      → Keeps id devices
      → Keeps id (Discovery.upsert_each is_numeric devices found)
  unfolding Discovery.upsert_each
  upsert_each-Keeps id devices [] ne v = v
  upsert_each-Keeps id devices (device ∷ found) ne v =
      upsert_each-Keeps id (upsert_discovered_identity is_numeric devices device) found ne
        (upsert-Keeps id devices device ne v)

  step-Keeps :
      (id : Text) (call : Call) (d : AirPlayDiscovery)
      → id ≢ []
      → Keeps id d.devices
      → Keeps id (step call d).devices
  unfolding step Discovery.start Discovery.stop Discovery.refresh Discovery.upsert
  step-Keeps id start d ne v = v
  step-Keeps id stop d ne v = v
  step-Keeps id (refresh timeout) d ne v = elim (Outcome-cases (d.browses 0)) [
    | inl (found, e) ↦
        unfold step Discovery.refresh in
        ground (arith, v, e, upsert_each-Keeps id d.devices found ne v)
    | inr (x, e) ↦ unfold step Discovery.refresh in ground (arith, v, e)
  ]
  step-Keeps id (upsert device) d ne v =
      ground (arith, v, upsert-Keeps id d.devices (record device { type = airplay }) ne v)

  -- Whatever is discovered later: the devices stay in strict order under their own ids, and an id that finds a
  -- device, as its id or as one of its aliases, finds one for ever, also where receivers are merged.
  pub run-Keeps :
      (id : Text) (calls : List Call) (d : AirPlayDiscovery)
      → id ≢ []
      → Keeps id d.devices
      → Keeps id (run calls d).devices
  unfolding run
  run-Keeps id [] d ne v = v
  run-Keeps id (call ∷ calls) d ne v =
      run-Keeps id calls (step call d) ne (step-Keeps id call d ne v)
