-- ===== src/AirPlay/Discovery/Names.antt =====
-- transports/airplay/airplay_discovery.cpp: service names, identities and the text helpers.
use foobar_universal_multiro.Core.Groups.Encoding.{nth, is_space}
use foobar_universal_multiro.Base.{
  Bool, Option, Text, [], codes, drop, false, if◌then◌else◌, is_empty, keep_if, leb, length, ltb,
  map, none, not, some, take, text_eq, ℕ, ◌&&◌, ◌+◌, ◌-◌, ◌==◌, ◌||◌, ◌∷◌,
}

-- `std::tolower` in the C locale.
abbrev pub to_lower : ℕ → ℕ
to_lower c = if leb b'A' c && leb c b'Z' then c + 32 else c

unfoldable pub lower_ascii : Text → Text
lower_ascii value = map to_lower value

unfoldable pub trim_trailing_dot : Text → Text
trim_trailing_dot [] = []
trim_trailing_dot (c ∷ value) =
    let rest = trim_trailing_dot value in if is_empty rest && c == b'.' then [] else c ∷ rest

-- `kAirPlayService`
abbrev pub airplay_service : Text
airplay_service = codes "_airplay._tcp.local"

-- `kRaopService`
abbrev pub raop_service : Text
raop_service = codes "_raop._tcp.local"

-- `value.compare(value.size() - suffix.size(), suffix.size(), suffix) == 0`, for a suffix that is not longer.
abbrev pub has_suffix : Text → Text → Bool
has_suffix suffix value = text_eq (drop (length value - length suffix) value) suffix

-- `value.find(c)`
unfoldable pub find_char : ℕ → Text → Option ℕ
find_char c [] = none
find_char c (d ∷ value) =
    if d == c then some 0 else elim (find_char c value) [ none ↦ none | some i ↦ some (i + 1) ]

unfoldable pub ends_with_service : Text → Text → Bool
unfolding lower_ascii trim_trailing_dot
ends_with_service name service =
    let lowered_name = lower_ascii (trim_trailing_dot name) in
    let lowered_service = lower_ascii service in
    if leb (length lowered_name) (length lowered_service + 1)
    then false
    else has_suffix lowered_service lowered_name
      && (nth lowered_name (length lowered_name - length lowered_service - 1) == b'.')

unfoldable pub infer_service_type : Text → Text
unfolding ends_with_service
infer_service_type full_name =
    if ends_with_service full_name airplay_service
    then airplay_service
    else if ends_with_service full_name raop_service
    then raop_service
    else []

-- The test that both functions below make, on the normalized name.
abbrev names_service : Text → Text → Bool
names_service name service_type =
    ltb (length service_type + 1) (length name)
    && text_eq (drop (length name - length service_type) (lower_ascii name))
        (lower_ascii service_type)

-- What stands behind the `@`, if anything does.
abbrev after_at : Text → Text
after_at instance_name = elim (find_char b'@' instance_name) [
  | none ↦ instance_name
  | some at ↦
      if ltb (at + 1) (length instance_name) then drop (at + 1) instance_name else instance_name
]

unfoldable pub service_instance_name : Text → Text → Text
unfolding lower_ascii trim_trailing_dot find_char
service_instance_name full_name service_type =
    let name = trim_trailing_dot full_name in
    if names_service name service_type
    then after_at (take (length name - length service_type - 1) name)
    else name

unfoldable pub service_instance_prefix : Text → Text → Text
unfolding lower_ascii trim_trailing_dot
service_instance_prefix full_name service_type =
    let name = trim_trailing_dot full_name in
    if not (is_empty service_type) && names_service name service_type
    then take (length name - length service_type - 1) name
    else name

unfoldable pub normalize_hardware_id : Text → Text
unfolding lower_ascii is_space
normalize_hardware_id value =
    keep_if (λ c. not (c == b':' || c == b'-' || is_space c)) (lower_ascii value)
