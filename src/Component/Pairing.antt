-- ===== src/Component/Pairing.antt =====
-- multiroom_component_state.cpp: the credentials of paired receivers, which `FoobarAirPlayPairingStore` keeps in
-- `cfg_airplay_pairing_credentials`. Both methods hold the mutex of the store.
pub mod Lines
pub mod Saved
use foobar_universal_multiro.Base.Outcome.{M, ◌>>=◌, ◌>>◌, throw_if, invalid_argument, modify}
use foobar_universal_multiro.Core.Groups.Encoding.{split}
use foobar_universal_multiro.AirPlay.Discovery.Packet.{c_string}
use foobar_universal_multiro.Component.Fields.{bytes_from_hex, split_pipe_fields, hex_from_bytes}
use foobar_universal_multiro.AirPlay.Client.{AirPlayPairingCredentials}
use foobar_universal_multiro.Base.{
  Text, Bool, List, Option, [], codes, find_if, if◌then◌else◌, is_empty, length, none, not, some,
  text_eq, ◌&&◌, ◌++◌, ◌==◌, ◌∷◌,
}

-- `AirPlayPairingCredentials::valid` of airplay_rtsp.cpp
pub is_valid : AirPlayPairingCredentials → Bool
is_valid c =
    not (is_empty c.output_id)
    && not (is_empty c.client_id)
    && length c.controller_seed == 32
    && not (is_empty c.accessory_identifier)
    && length c.accessory_public_key == 32

abbrev when_valid : AirPlayPairingCredentials → Option AirPlayPairingCredentials
when_valid item = if is_valid item then some item else none

-- The body of the loop over the lines; `none` skips the line.
pub parse_fields : List Text → Option AirPlayPairingCredentials
unfolding is_valid bytes_from_hex
parse_fields
      (output_id ∷ client_id ∷ controller_seed ∷ accessory_identifier ∷ accessory_public_key ∷ []) =
    when_valid (record {
      output_id = output_id;
      client_id = client_id;
      controller_seed = bytes_from_hex controller_seed;
      accessory_identifier = bytes_from_hex accessory_identifier;
      accessory_public_key = bytes_from_hex accessory_public_key;
    })
parse_fields _ = none

abbrev pub push :
    Option AirPlayPairingCredentials
    → List AirPlayPairingCredentials
    → List AirPlayPairingCredentials
push none items = items
push (some item) items = item ∷ items

pub parse_lines : List Text → List AirPlayPairingCredentials
unfolding parse_fields split_pipe_fields
parse_lines [] = []
parse_lines (line ∷ lines) = push (parse_fields (split_pipe_fields line)) (parse_lines lines)

pub parse_pairing_credentials_text : Text → List AirPlayPairingCredentials
unfolding parse_lines
parse_pairing_credentials_text text = parse_lines (split b'\n' text)

-- One line, without its end.
pub format_line : AirPlayPairingCredentials → Text
format_line item =
    item.output_id
    ++ b'|'
      ∷ (item.client_id
          ++ b'|'
            ∷ (hex_from_bytes item.controller_seed
                ++ b'|'
                  ∷ (hex_from_bytes item.accessory_identifier
                      ++ b'|' ∷ hex_from_bytes item.accessory_public_key)))

pub format_pairing_credentials_text : List AirPlayPairingCredentials → Text
format_pairing_credentials_text [] = []
format_pairing_credentials_text (item ∷ items) =
    let rest = format_pairing_credentials_text items in
    if not (is_valid item) then rest else format_line item ++ b'\n' ∷ rest

-- The credentials that the setting holds.
pub parsed : Text → List AirPlayPairingCredentials
unfolding c_string parse_pairing_credentials_text
parsed cfg = parse_pairing_credentials_text (c_string cfg)

unfoldable pub load : Text → Text → Option AirPlayPairingCredentials
unfolding parsed
load output_id cfg = find_if (λ item. text_eq item.output_id output_id) (parsed cfg)

-- The loop that replaces the first item of the output, and the `push_back` if there was none.
pub put_item :
    AirPlayPairingCredentials → List AirPlayPairingCredentials → List AirPlayPairingCredentials
put_item credentials [] = credentials ∷ []
put_item credentials (item ∷ items) =
    if text_eq item.output_id credentials.output_id
    then credentials ∷ items
    else item ∷ put_item credentials items

-- The state is the setting.
unfoldable pub save : AirPlayPairingCredentials → M Text (Unit {0})
unfolding put_item parsed format_pairing_credentials_text
save credentials = do
  throw_if (not (is_valid credentials)) invalid_argument
      (codes "Cannot save incomplete AirPlay pairing credentials.")
  modify (λ cfg. c_string (format_pairing_credentials_text (put_item credentials (parsed cfg))))
