-- ===== src/Tests/Discovery.antt =====
-- Discovery on concrete packets and records.
use foobar_universal_multiro.Core.Groups.Encoding.{split, hex_value, is_space}
use foobar_universal_multiro.Device.{default_output, airplay}
use foobar_universal_multiro.AirPlay.Discovery.Response.{DiscoveredService, new_service}
use foobar_universal_multiro.AirPlay.Discovery.Names.{
  service_instance_name, service_instance_prefix, trim_trailing_dot, ends_with_service,
  raop_service, normalize_hardware_id, airplay_service, find_char,
}
use foobar_universal_multiro.AirPlay.Discovery.Service.{csv_number_contains, to_output_device}
use foobar_universal_multiro.AirPlay.Discovery.Packet.{
  make_dns_query, read_name, parse_txt, append_dns_name, c_string,
}
use foobar_universal_multiro.Base.{
  Text, [], codes, false, is_empty, keep_if, refl, text_eq, text_lt, true, ◌++◌, ◌∷◌, ◌≡◌, any_of,
}
use foobar_universal_multiro.Base.Outcome.{ok, throw, invalid_argument}
use foobar_universal_multiro.Base.Map
use foobar_universal_multiro.Base.Int.{pos}

abbrev query : Text
query =
    0 ∷ 0 ∷ 0 ∷ 0 ∷ 0 ∷ 1 ∷ 0 ∷ 0 ∷ 0 ∷ 0 ∷ 0 ∷ 0 ∷ 1 ∷ b'a' ∷ 2 ∷ b'b' ∷ b'c' ∷ 0 ∷ 0 ∷ 12 ∷ 128
    ∷ 1 ∷ []

make_dns_query_test : make_dns_query (codes "a.bc.") 12 true ≡ ok query
unfolding make_dns_query append_dns_name trim_trailing_dot is_empty find_char
make_dns_query_test = refl

empty_label_test :
    make_dns_query (codes "a..bc") 12 true
    ≡ throw (record { kind = invalid_argument; what = codes "Invalid mDNS service name." })
unfolding make_dns_query append_dns_name trim_trailing_dot is_empty find_char
empty_label_test = refl

read_name_test :
    read_name query 12 ≡ record { found = true; out = codes "a.bc"; offset = 18; in_range = true }
unfolding read_name is_empty
read_name_test = refl

-- A pointer back to the second label, and one to itself.
pointer_test :
    read_name (query ++ 1 ∷ b'x' ∷ 192 ∷ 14 ∷ []) 22
    ≡ record { found = true; out = codes "x.bc"; offset = 26; in_range = true }
unfolding read_name is_empty
pointer_test = refl

loop_test : (read_name (query ++ 192 ∷ 22 ∷ []) 22).found ≡ false
unfolding read_name is_empty
loop_test = refl

parse_txt_test :
    parse_txt (4 ∷ b'A' ∷ b'=' ∷ b'b' ∷ b'c' ∷ 1 ∷ b'k' ∷ 9 ∷ b'z' ∷ []) 0 9
    ≡ (codes "a", codes "bc") ∷ (codes "k", []) ∷ []
unfolding parse_txt Map.assign text_eq text_lt is_empty find_char
parse_txt_test = refl

csv_test :
    (csv_number_contains (codes "0, 0x4,5") 4 ≡ true)
    × (csv_number_contains (codes "08") 8 ≡ false)
    × (csv_number_contains (codes "010,") 8 ≡ true)
    × (csv_number_contains (codes "") 0 ≡ false)
unfolding csv_number_contains any_of keep_if split hex_value c_string is_space
csv_test = (refl, refl, refl, refl)

names_test :
    (service_instance_name (codes "0A1B@Kitchen._raop._tcp.local.") raop_service ≡ codes "Kitchen")
    × (service_instance_prefix (codes "0A1B@Kitchen._RAOP._tcp.local") raop_service
        ≡ codes "0A1B@Kitchen")
    × (ends_with_service (codes "X._AirPlay._tcp.local") airplay_service ≡ true)
    × (ends_with_service (codes "_airplay._tcp.local") airplay_service ≡ false)
    × (normalize_hardware_id (codes "0A:1B-2c ") ≡ codes "0a1b2c")
unfolding service_instance_name service_instance_prefix ends_with_service normalize_hardware_id
    is_empty find_char text_eq keep_if
names_test = (refl, refl, refl, refl, refl)

abbrev raop : DiscoveredService
raop = record new_service {
  service_type = raop_service;
  full_name = codes "0A1B@Kitchen._raop._tcp.local.";
  target_host = codes "kitchen.local.";
  port = 7000;
  txt = (codes "et", codes "0,1") ∷ (codes "pw", codes "true") ∷ [];
}

to_output_device_test : to_output_device raop ≡ record default_output {
  id = codes "airplay:0a1b";
  name = codes "Kitchen";
  type = airplay;
  has_password = true;
  requires_auth = true;
  supports_legacy_l16 = true;
  volume = pos 50;
  format = codes "airplay-legacy-l16";
  supported_formats = codes "airplay-legacy-l16" ∷ [];
  endpoint_host = codes "kitchen.local";
  endpoint_port = 7000;
  txt_records = raop.txt;
}
unfolding to_output_device Map.find Map.find_or any_of split hex_value c_string is_space is_empty
    find_char text_eq keep_if
to_output_device_test = refl
