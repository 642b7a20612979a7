-- ===== src/AirPlay/Discovery/Service.antt =====
-- transports/airplay/airplay_discovery.cpp: from a service that was discovered to an output device.
use foobar_universal_multiro.AirPlay.Discovery.Response.{DiscoveredService}
use foobar_universal_multiro.AirPlay.Discovery.Packet.{c_string}
use foobar_universal_multiro.Core.Groups.Encoding.{hex_value, split, is_space}
use foobar_universal_multiro.AirPlay.Discovery.Names.{
  lower_ascii, trim_trailing_dot, find_char, normalize_hardware_id, infer_service_type,
  service_instance_prefix, service_instance_name,
}
use foobar_universal_multiro.Base.{
  Bool, List, Option, Text, [], any_of, codes, false, if◌then◌else◌, is_empty, keep_if, ltb, none,
  not, some, take, text_eq, ℕ, ◌%◌, ◌&&◌, ◌*◌, ◌++◌, ◌+◌, ◌-◌, ◌==◌, ◌^◌, ◌||◌, ◌∷◌,
}
use foobar_universal_multiro.Base.Map
use foobar_universal_multiro.Device.{airplay, OutputDevice, default_output}
use foobar_universal_multiro.Base.Int.{pos}

pub txt_value : List (Text × Text) → Text → Text
txt_value txt key = Map.find_or [] key txt

pub truthy_txt : List (Text × Text) → Text → Bool
unfolding txt_value lower_ascii
truthy_txt txt key =
    let value = lower_ascii (txt_value txt key) in
    text_eq value (codes "1") || text_eq value (codes "true") || text_eq value (codes "yes")

-- The value of a digit in a base, as `strtoul` reads it.
abbrev digit_value : ℕ → ℕ → Option ℕ
digit_value base c = elim (hex_value c) [
  | none ↦ none
  | some v ↦ if ltb v base then some v else none
]

-- All the characters as digits; `none` where one is no digit.
pub parse_digits : ℕ → ℕ → Text → Option ℕ
parse_digits base n [] = some n
parse_digits base n (c ∷ text) = elim (digit_value base c) [
  | none ↦ none
  | some v ↦ parse_digits base (n * base + v) text
]

-- The base that base 0 finds: `0x` and a digit, `0`, or none of these.
pub parse_unsigned : Text → Option ℕ
unfolding parse_digits
parse_unsigned [] = none
parse_unsigned (c ∷ []) = parse_digits 10 0 (c ∷ [])
parse_unsigned (c ∷ x ∷ []) =
    if c == b'0' then parse_digits 8 0 (x ∷ []) else parse_digits 10 0 (c ∷ x ∷ [])
parse_unsigned (c ∷ x ∷ d ∷ text) =
    if not (c == b'0')
    then parse_digits 10 0 (c ∷ x ∷ d ∷ text)
    else if x == b'x' || x == b'X'
    then parse_digits 16 0 (d ∷ text)
    else parse_digits 8 0 (x ∷ d ∷ text)

-- `ULONG_MAX` on Windows, the only system where discovery reads records.
abbrev ulong_max : ℕ
ulong_max = 2 ^ 32 - 1

-- `strtoul(text, &end, 0)` where it reads the whole text, which has no space. A value that is too large gives
-- `ULONG_MAX`; a minus sign negates in the unsigned type.
pub parse_ulong : Text → Option ℕ
unfolding parse_unsigned
parse_ulong [] = none
parse_ulong (c ∷ text) =
    let digits = if c == b'+' || c == b'-' then text else c ∷ text in
    elim (parse_unsigned digits) [
      | none ↦ none
      | some n ↦
          if ltb ulong_max n
          then some ulong_max
          else if c == b'-'
          then some ((2 ^ 32 - n) % 2 ^ 32)
          else some n
    ]

-- The body of the loop of `csv_number_contains`.
pub token_is : ℕ → Text → Bool
unfolding parse_ulong c_string is_space
token_is expected text =
    let token = keep_if (λ c. not (is_space c)) text in
    elim (parse_ulong (c_string token)) [ none ↦ false | some parsed ↦ parsed == expected ]

unfoldable pub csv_number_contains : Text → ℕ → Bool
unfolding token_is split any_of
csv_number_contains text expected = any_of (token_is expected) (split b',' text)

pub supports_unencrypted_audio : List (Text × Text) → Bool
unfolding csv_number_contains txt_value
supports_unencrypted_audio txt =
    let encryption_types = txt_value txt (codes "et") in
    is_empty encryption_types || csv_number_contains encryption_types 0

pub txt_number_missing_or_contains : List (Text × Text) → Text → ℕ → Bool
unfolding csv_number_contains txt_value
txt_number_missing_or_contains txt key expected =
    let value = txt_value txt key in is_empty value || csv_number_contains value expected

pub supports_mvp_l16_audio : List (Text × Text) → Bool
unfolding txt_number_missing_or_contains
supports_mvp_l16_audio txt =
    txt_number_missing_or_contains txt (codes "cn") 0
    && txt_number_missing_or_contains txt (codes "ss") 16
    && txt_number_missing_or_contains txt (codes "ch") 2
    && txt_number_missing_or_contains txt (codes "sr") 44100

unfoldable pub supports_airplay2_audio : List (Text × Text) → Bool
unfolding csv_number_contains txt_value
supports_airplay2_audio txt =
    let encryption_types = txt_value txt (codes "et") in
    csv_number_contains encryption_types 4
    || csv_number_contains encryption_types 5
    || not (is_empty (txt_value txt (codes "features")))
    || not (is_empty (txt_value txt (codes "ft")))
    || not (is_empty (txt_value txt (codes "vv")))
    || not (is_empty (txt_value txt (codes "protovers")))

unfoldable pub normalize_service : DiscoveredService → DiscoveredService
unfolding trim_trailing_dot infer_service_type service_instance_name
normalize_service service =
    let full_name = trim_trailing_dot service.full_name in
    let trimmed_type = trim_trailing_dot service.service_type in
    let service_type =
      if is_empty trimmed_type then infer_service_type full_name else trimmed_type in
    record service {
      full_name = full_name;
      service_type = service_type;
      target_host = trim_trailing_dot service.target_host;
      instance_name =
          if is_empty service.instance_name && not (is_empty service_type)
          then service_instance_name full_name service_type
          else service.instance_name;
    }

-- The hardware id before the `@` of an instance, where there is one.
abbrev id_before_at : Text → Text
id_before_at instance_name = elim (find_char b'@' instance_name) [
  | none ↦ []
  | some at ↦ if ltb 0 at then normalize_hardware_id (take at instance_name) else []
]

-- The first that is not empty.
abbrev or_else : Text → Text → Text
or_else text other = if is_empty text then other else text

pub device_id_from : DiscoveredService → Text
unfolding txt_value normalize_hardware_id service_instance_prefix lower_ascii
device_id_from service =
    let device_id = txt_value service.txt (codes "deviceid") in
    let hardware_id = if is_empty device_id then [] else normalize_hardware_id device_id in
    let instance_id =
      id_before_at (service_instance_prefix service.full_name service.service_type) in
    codes "airplay:"
    ++ lower_ascii (
        or_else (txt_value service.txt (codes "pk"))
          (or_else hardware_id (or_else instance_id service.full_name)))

-- `to_output_device` behind `normalize_service`.
pub device_of : DiscoveredService → OutputDevice
unfolding device_id_from truthy_txt supports_unencrypted_audio supports_mvp_l16_audio
    supports_airplay2_audio
device_of service =
    let has_password = truthy_txt service.txt (codes "pw") in
    let unencrypted_audio = supports_unencrypted_audio service.txt in
    let legacy_l16 = unencrypted_audio && supports_mvp_l16_audio service.txt in
    let airplay2 = supports_airplay2_audio service.txt in
    let encrypted = not unencrypted_audio || airplay2 in
    let auth =
      has_password
      || truthy_txt service.txt (codes "da")
      || truthy_txt service.txt (codes "requiresauth")
      || encrypted in
    let format =
      if airplay2
      then codes "airplay2"
      else if legacy_l16
      then codes "airplay-legacy-l16"
      else if auth
      then codes "airplay-auth-required"
      else codes "airplay-unsupported-format" in
    record default_output {
      id = device_id_from service;
      name = or_else service.instance_name service.full_name;
      type = airplay;
      has_password = has_password;
      supports_legacy_l16 = legacy_l16;
      supports_airplay2 = airplay2;
      requires_encrypted_stream = encrypted;
      requires_auth = auth;
      needs_auth_key = encrypted;
      volume = pos 50;
      format = format;
      supported_formats = format ∷ [];
      endpoint_host = or_else service.target_address service.target_host;
      endpoint_port = service.port;
      txt_records = service.txt;
    }

unfoldable pub to_output_device : DiscoveredService → OutputDevice
unfolding device_of normalize_service
to_output_device service = device_of (normalize_service service)
