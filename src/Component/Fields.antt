-- ===== src/Component/Fields.antt =====
-- components/foo_out_multiroom_bridge/multiroom_component_state.cpp: the helpers that read and write the fields of a
-- stored line. `cfg_string` takes and gives a C string, which ends at the first NUL.
use foobar_universal_multiro.AirPlay.Discovery.Packet.{c_string}
use foobar_universal_multiro.Base.Decimal.{read_decimal, decimal}
use foobar_universal_multiro.Base.Int.{ℤ, sub_ℕ, pos, clamp_ℤ, negsuc}
use foobar_universal_multiro.Core.Groups.Encoding.{hex_encode, decode_pairs, split, trim_start}
use foobar_universal_multiro.Base.{
  Text, Bool, List, Option, [], false, if◌then◌else◌, is_empty, length, ltb, none, not, some, true,
  ℕ, ◌%◌, ◌+◌, ◌-◌, ◌==◌, ◌^◌, ◌∷◌,
}

-- Its `hex_value` is that of speaker_groups.cpp, character by character.
unfoldable pub hex_from_bytes : Text → Text
unfolding hex_encode
hex_from_bytes bytes = hex_encode bytes

-- An odd length or a character that is no digit gives the empty vector.
unfoldable pub bytes_from_hex : Text → Text
unfolding decode_pairs
bytes_from_hex text =
    if not (length text % 2 == 0)
    then []
    else elim (decode_pairs text) [ none ↦ [] | some result ↦ result ]

unfoldable pub split_pipe_fields : Text → List Text
unfolding split
split_pipe_fields line = split b'|' line

-- `LONG_MAX` and `-LONG_MIN` of Windows, where alone the component runs.
abbrev long_max : ℕ
long_max = 2 ^ 31 - 1

abbrev from_magnitude : Bool → ℕ → ℤ
from_magnitude negative n =
    if negative
    then sub_ℕ 0 (if ltb (long_max + 1) n then long_max + 1 else n)
    else pos (if ltb long_max n then long_max else n)

abbrev signed : Bool → Option ℕ → Option ℤ
signed negative none = none
signed negative (some n) = some (from_magnitude negative n)

-- `strtol(text, &end, 10)` where it reads up to the end of a text that starts with no space.
pub parse_long : Text → Option ℤ
unfolding read_decimal
parse_long [] = none
parse_long (c ∷ text) =
    if c == b'-'
    then signed true (read_decimal text)
    else if c == b'+'
    then signed false (read_decimal text)
    else signed false (read_decimal (c ∷ text))

-- `none` is the `false` of the source.
unfoldable pub parse_int_field : Text → Option ℤ
unfolding parse_long trim_start c_string
parse_int_field text = if is_empty text then none else parse_long (trim_start (c_string text))

-- `out << value` of an `int`.
unfoldable pub print_int : ℤ → Text
unfolding decimal
print_int (pos n) = decimal n
print_int (negsuc n) = b'-' ∷ decimal (n + 1)

-- `std::clamp(volume, 0, 100)`
abbrev pub clamp_percent : ℤ → ℤ
clamp_percent volume = clamp_ℤ volume (pos 0) (pos 100)
