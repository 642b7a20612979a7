-- ===== src/AirPlay/Discovery/Response.antt =====
-- transports/airplay/airplay_discovery.cpp: what a response of mDNS adds to the services and the addresses that
-- are known. `ntop4` and `ntop6` are `inet_ntop` on the bytes of an address, empty where it fails.
use foobar_universal_multiro.AirPlay.Discovery.Identity.{emplace_each}
use foobar_universal_multiro.Base.Outcome.{M, modify, pure, when, ◌>>=◌, ◌>>◌, ok}
use foobar_universal_multiro.AirPlay.Discovery.Packet.{read_name, parse_txt, read_u16, read_u32}
use foobar_universal_multiro.AirPlay.Discovery.Names.{lower_ascii, service_instance_name}
use foobar_universal_multiro.Base.{
  Bool, List, Option, Text, [], drop, false, if◌then◌else◌, is_empty, leb, length, ltb, none, not,
  some, suc, take, true, zero, ℕ, ◌%◌, ◌&&◌, ◌+◌, ◌==◌, ◌^◌, ◌||◌,
}
use foobar_universal_multiro.Base.Map
use foobar_universal_multiro.Base.Throws.{lift}

pub record DiscoveredService : Type 0 where
  pub service_type : Text
  pub full_name : Text
  pub instance_name : Text
  pub target_host : Text
  pub target_address : Text
  pub port : ℕ
  pub txt : List (Text × Text)

-- `DiscoveredService{}`
abbrev pub new_service : DiscoveredService
new_service = record {
  service_type = [];
  full_name = [];
  instance_name = [];
  target_host = [];
  target_address = [];
  port = 0;
  txt = [];
}

-- The two maps that `parse_response` writes.
pub record Known : Type 0 where
  pub services : List (Text × DiscoveredService)
  pub host_addresses : List (Text × Text)

-- `services[key]` and the writes to it.
abbrev with_service : Text → (DiscoveredService → DiscoveredService) → Known → Known
with_service key f known = record known {
  services = Map.assign key (f (Map.find_or new_service key known.services)) known.services;
}

pub apply_host_address : List (Text × Text) → DiscoveredService → DiscoveredService
unfolding lower_ascii
apply_host_address host_addresses service =
    if is_empty service.target_host
    then service
    else elim (Map.find (lower_ascii service.target_host) host_addresses) [
      | none ↦ service
      | some address ↦ record service { target_address = address }
    ]

pub apply_host_addresses : Known → Known
unfolding apply_host_address
apply_host_addresses known = record known {
  services = Map.update_all (λ key. apply_host_address known.host_addresses) known.services;
}

-- The questions are passed over; `none` is the early return.
pub skip_questions : Text → ℕ → ℕ → Option ℕ
unfolding read_name
skip_questions packet zero offset = some offset
skip_questions packet (suc count) offset =
    let name = read_name packet offset in
    elim (not name.found || ltb (length packet) (name.offset + 4)) [
      | true ↦ none
      | false ↦ skip_questions packet count (name.offset + 4)
    ]

pub add_ptr : Text → Text → ℕ → Known → Known
unfolding read_name service_instance_name
add_ptr packet name rdata_offset known =
    let target = read_name packet rdata_offset in
    if target.found
    then with_service target.out
        (λ service. record service {
          full_name = target.out;
          service_type = name;
          instance_name = service_instance_name target.out name;
        })
        known
    else known

-- The target stands in the service even where it is cut short.
pub add_srv : Text → Text → Text → ℕ → ℕ → Known → Known
unfolding read_name
add_srv packet response_address name port rdata_offset known =
    with_service name
      (λ service. record service {
        full_name = name;
        port = port;
        target_host = (read_name packet (rdata_offset + 6)).out;
        target_address =
            if is_empty service.target_address then response_address else service.target_address;
      })
      known

pub add_txt : Text → Text → ℕ → ℕ → Known → Known
unfolding parse_txt emplace_each
add_txt packet name rdata_offset rdlength known =
    with_service name
      (λ service. record service {
        full_name = name;
        txt = emplace_each service.txt (parse_txt packet rdata_offset rdlength);
      })
      known

module _ (ntop4 ntop6 : Text → Text) where
  pub ipv4_address_from_rdata : Text → ℕ → ℕ → Text
  ipv4_address_from_rdata packet offset size =
      if not (size == 4) || ltb (length packet) (offset + size)
      then []
      else ntop4 (take 4 (drop offset packet))

  pub ipv6_address_from_rdata : Text → ℕ → ℕ → Text
  ipv6_address_from_rdata packet offset size =
      if not (size == 16) || ltb (length packet) (offset + size)
      then []
      else ntop6 (take 16 (drop offset packet))

  -- An A record replaces what is known of the host.
  pub add_a : Text → Text → ℕ → ℕ → Known → Known
  unfolding ipv4_address_from_rdata lower_ascii
  add_a packet name rdata_offset rdlength known =
      let address = ipv4_address_from_rdata packet rdata_offset rdlength in
      if is_empty address then known else record known {
        host_addresses = Map.assign (lower_ascii name) address known.host_addresses;
      }

  -- An AAAA record does not.
  pub add_aaaa : Text → Text → ℕ → ℕ → Known → Known
  unfolding ipv6_address_from_rdata lower_ascii
  add_aaaa packet name rdata_offset rdlength known =
      let address = ipv6_address_from_rdata packet rdata_offset rdlength in
      elim (Map.find (lower_ascii name) known.host_addresses) [
        | some _ ↦ known
        | none ↦ if is_empty address then known else record known {
          host_addresses = Map.assign (lower_ascii name) address known.host_addresses;
        }
      ]

  -- The branches of the loop on the type of a record.
  unfoldable pub add_record : Text → Text → Text → ℕ → ℕ → ℕ → M Known (Unit {0})
  unfolding add_ptr add_srv add_txt add_a add_aaaa
  add_record packet response_address name type rdata_offset rdlength known =
      if type == 12
      then (ok tt, add_ptr packet name rdata_offset known)
      else if type == 33
      then when (leb 6 rdlength)
          (do
            port ← lift (read_u16 packet (rdata_offset + 4))
            modify (add_srv packet response_address name port rdata_offset))
          known
      else if type == 16
      then (ok tt, add_txt packet name rdata_offset rdlength known)
      else if type == 1
      then (ok tt, add_a packet name rdata_offset rdlength known)
      else if type == 28
      then (ok tt, add_aaaa packet name rdata_offset rdlength known)
      else (ok tt, known)

  -- The loop over the records, which returns whether it came to its end.
  unfoldable pub parse_records : Text → Text → ℕ → ℕ → M Known Bool
  unfolding add_record read_name
  parse_records packet response_address zero offset = pure true
  parse_records packet response_address (suc count) offset =
      let name = read_name packet offset in
      elim (not name.found || ltb (length packet) (name.offset + 10)) [
        | true ↦ pure false
        | false ↦ do
          type ← lift (read_u16 packet name.offset)
          rr_class ← lift (read_u16 packet (name.offset + 2))
          lift (read_u32 packet (name.offset + 4))
          rdlength ← lift (read_u16 packet (name.offset + 8))
          let rdata_offset = name.offset + 10
          when (rr_class % 2 ^ 15 == 1 && leb (rdata_offset + rdlength) (length packet))
              (add_record packet response_address name.out type rdata_offset rdlength)
          parse_records packet response_address count (rdata_offset + rdlength)
      ]

  -- `parse_response` behind the header.
  unfoldable pub parse_sections : Text → Text → ℕ → ℕ → M Known (Unit {0})
  unfolding parse_records skip_questions apply_host_addresses
  parse_sections packet response_address qdcount rr_count =
      elim (skip_questions packet qdcount 12) [
        | none ↦ pure tt
        | some offset ↦ do
          finished ← parse_records packet response_address rr_count offset
          when finished (modify apply_host_addresses)
      ]

  unfoldable pub parse_response : Text → Text → M Known (Unit {0})
  unfolding parse_sections
  parse_response packet response_address = when (leb 12 (length packet)) (do
    qdcount ← lift (read_u16 packet 4)
    ancount ← lift (read_u16 packet 6)
    nscount ← lift (read_u16 packet 8)
    arcount ← lift (read_u16 packet 10)
    parse_sections packet response_address qdcount (ancount + nscount + arcount))
