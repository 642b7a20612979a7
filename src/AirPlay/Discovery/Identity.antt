-- ===== src/AirPlay/Discovery/Identity.antt =====
-- transports/airplay/airplay_discovery.cpp: when two discovered devices are the same receiver, and how they
-- are merged. `is_numeric` says whether `inet_pton` reads a text as an IPv4 or an IPv6 address.

use foobar_universal_multiro.Device.{OutputDevice}
use foobar_universal_multiro.AirPlay.Discovery.Names.{lower_ascii}
use foobar_universal_multiro.Base.{
  Bool, List, Option, Text, [], codes, contains, false, if◌then◌else◌, is_empty, length, ltb, none,
  not, some, text_eq, true, ◌&&◌, ◌++◌, ◌==◌, ◌||◌, ◌∷◌,
}
use foobar_universal_multiro.Base.Map

pub same_physical_receiver : OutputDevice → OutputDevice → Bool
unfolding lower_ascii
same_physical_receiver left right =
    not (is_empty left.name)
    && not (is_empty left.endpoint_host)
    && text_eq (lower_ascii left.name) (lower_ascii right.name)
    && text_eq (lower_ascii left.endpoint_host) (lower_ascii right.endpoint_host)

pub has_public_key_identity : OutputDevice → Bool
has_public_key_identity device = elim (Map.find (codes "pk") device.txt_records) [
  | none ↦ false
  | some key ↦ not (is_empty key)
]

abbrev bool_eq : Bool → Bool → Bool
bool_eq true b = b
bool_eq false b = not b

pub prefer_device_identity : OutputDevice → OutputDevice → Bool
unfolding has_public_key_identity
prefer_device_identity candidate current =
    if not (bool_eq candidate.supports_airplay2 current.supports_airplay2)
    then candidate.supports_airplay2
    else if not (bool_eq (has_public_key_identity candidate) (has_public_key_identity current))
    then has_public_key_identity candidate
    else ltb (length current.id) (length candidate.id)

unfoldable pub append_alias : OutputDevice → Text → OutputDevice
append_alias device alias =
    if is_empty alias || text_eq alias device.id || contains device.aliases alias
    then device
    else record device { aliases = device.aliases ++ alias ∷ [] }

-- `for (alias : aliases) append_alias(device, alias)`
unfoldable pub append_each : OutputDevice → List Text → OutputDevice
unfolding append_alias
append_each device [] = device
append_each device (alias ∷ aliases) = append_each (append_alias device alias) aliases

unfoldable pub append_aliases : OutputDevice → OutputDevice → OutputDevice
unfolding append_each
append_aliases device source = append_each (append_alias device source.id) source.aliases

pub has_endpoint : OutputDevice → Bool
has_endpoint device = not (is_empty device.endpoint_host) && not (device.endpoint_port == 0)

-- `std::find_if` over the map, for another device that is the same receiver.
unfoldable pub find_alias : OutputDevice → List (Text × OutputDevice) → Option (Text × OutputDevice)
unfolding same_physical_receiver
find_alias device [] = none
find_alias device ((id, other) ∷ devices) =
    if not (text_eq id device.id) && same_physical_receiver other device
    then some (id, other)
    else find_alias device devices

-- The loop over the formats of the candidate.
pub add_formats : List Text → List Text → List Text
add_formats formats [] = formats
add_formats formats (format ∷ candidates) =
    add_formats (if contains formats format then formats else formats ++ format ∷ []) candidates

-- `try_emplace` of each entry: a key that is there keeps its value.
unfoldable pub emplace_each : List (Text × Text) → List (Text × Text) → List (Text × Text)
emplace_each records [] = records
emplace_each records ((key, value) ∷ entries) =
    emplace_each
      (elim (Map.find key records) [ none ↦ Map.assign key value records | some _ ↦ records ])
      entries

module _ (is_numeric : Text → Bool) where
  pub is_numeric_endpoint : OutputDevice → Bool
  is_numeric_endpoint device =
      not (is_empty device.endpoint_host) && is_numeric device.endpoint_host

  -- A numeric endpoint is kept where the new one is not numeric.
  unfoldable pub keep_endpoint : OutputDevice → OutputDevice → OutputDevice
  unfolding is_numeric_endpoint
  keep_endpoint existing device =
      if is_numeric_endpoint existing && not (is_numeric_endpoint device)
      then record device { endpoint_host = existing.endpoint_host }
      else device

  -- The end of `upsert_discovered_identity`: put the device under its id.
  unfoldable pub put_identity :
      List (Text × OutputDevice) → OutputDevice → List (Text × OutputDevice)
  unfolding append_each keep_endpoint
  put_identity devices device = elim (Map.find device.id devices) [
    | none ↦ Map.assign device.id device devices
    | some existing ↦
        Map.assign device.id (keep_endpoint existing (append_each device existing.aliases)) devices
  ]

  unfoldable pub upsert_discovered_identity :
      List (Text × OutputDevice) → OutputDevice → List (Text × OutputDevice)
  unfolding put_identity append_aliases prefer_device_identity find_alias
  upsert_discovered_identity devices device = elim (find_alias device devices) [
    | none ↦ put_identity devices device
    | some (id, other) ↦
        let legacy_l16 = other.supports_legacy_l16 || device.supports_legacy_l16 in
        if prefer_device_identity device other
        then put_identity (Map.erase_unless (λ key. not (text_eq key id)) devices)
            (append_aliases (record device { supports_legacy_l16 = legacy_l16 }) other)
        else Map.assign id
            (append_aliases (record other { supports_legacy_l16 = legacy_l16 }) device) devices
  ]

  -- Which endpoint `merge_device` keeps.
  pub prefer_candidate_endpoint : OutputDevice → OutputDevice → Bool
  unfolding has_endpoint is_numeric_endpoint
  prefer_candidate_endpoint target candidate =
      has_endpoint candidate
      && (not (has_endpoint target)
          || (candidate.supports_airplay2 && not target.supports_airplay2)
          || (bool_eq candidate.supports_airplay2 target.supports_airplay2
              && not (is_numeric_endpoint target && not (is_numeric_endpoint candidate))))

  pub merge_device : OutputDevice → OutputDevice → OutputDevice
  unfolding prefer_candidate_endpoint append_each add_formats emplace_each
  merge_device target candidate =
      let prefer = prefer_candidate_endpoint target candidate in
      let airplay2 = target.supports_airplay2 || candidate.supports_airplay2 in
      let legacy_l16 = target.supports_legacy_l16 || candidate.supports_legacy_l16 in
      append_each
        (record target {
          name = if is_empty target.name then candidate.name else target.name;
          endpoint_host =
              if prefer || is_empty target.endpoint_host
              then candidate.endpoint_host
              else target.endpoint_host;
          endpoint_port =
              if prefer || target.endpoint_port == 0
              then candidate.endpoint_port
              else target.endpoint_port;
          has_password = target.has_password || candidate.has_password;
          requires_auth = target.requires_auth || candidate.requires_auth;
          needs_auth_key = target.needs_auth_key || candidate.needs_auth_key;
          supports_airplay2 = airplay2;
          supports_legacy_l16 = legacy_l16;
          requires_encrypted_stream =
              target.requires_encrypted_stream || candidate.requires_encrypted_stream;
          supported_formats = add_formats target.supported_formats candidate.supported_formats;
          txt_records = emplace_each target.txt_records candidate.txt_records;
          format =
              if airplay2
              then codes "airplay2"
              else if legacy_l16
              then codes "airplay-legacy-l16"
              else if is_empty target.format
              then candidate.format
              else target.format;
        })
        candidate.aliases

  unfoldable pub append_or_merge_device : List OutputDevice → OutputDevice → List OutputDevice
  unfolding merge_device
  append_or_merge_device [] candidate = candidate ∷ []
  append_or_merge_device (device ∷ devices) candidate =
      if text_eq device.id candidate.id
      then merge_device device candidate ∷ devices
      else device ∷ append_or_merge_device devices candidate
