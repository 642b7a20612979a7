-- ===== src/Core/Groups/Encoding.antt =====
-- The text helpers of speaker_groups.cpp: trimming, hexadecimal, splitting.
pub mod Trim
pub mod Hex
pub mod Split
use foobar_universal_multiro.Base.{
  Bool, List, Option, Text, [], codes, if◌then◌else◌, is_empty, leb, length, none, some, suc, zero,
  ℕ, ◌%◌, ◌&&◌, ◌*◌, ◌+◌, ◌-◌, ◌/◌, ◌==◌, ◌||◌, ◌∷◌,
}

-- `std::isspace` in the C locale.
unfoldable pub is_space : ℕ → Bool
is_space ch = ch == 32 || (leb 9 ch && leb ch 13)

-- From the first character that is no space.
unfoldable pub trim_start : Text → Text
unfolding is_space
trim_start [] = []
trim_start (ch ∷ text) = if is_space ch then trim_start text else ch ∷ text

-- Up to the last character that is no space, `find_if(rbegin, rend).base()`.
unfoldable pub trim_end : Text → Text
unfolding is_space
trim_end [] = []
trim_end (ch ∷ text) =
    let rest = trim_end text in if is_empty rest && is_space ch then [] else ch ∷ rest

unfoldable pub trim_ascii : Text → Text
unfolding trim_start trim_end
trim_ascii text = trim_end (trim_start text)

-- `kHex`
abbrev hex_digits : Text
hex_digits = codes "0123456789abcdef"

abbrev pub nth : Text → ℕ → ℕ
nth [] i = 0
nth (c ∷ s) zero = c
nth (c ∷ s) (suc i) = nth s i

unfoldable pub hex_encode : Text → Text
hex_encode [] = []
hex_encode (byte ∷ text) =
    nth hex_digits (byte / 16 % 16) ∷ nth hex_digits (byte % 16) ∷ hex_encode text

-- `none` is the -1 of the source.
unfoldable pub hex_value : ℕ → Option ℕ
hex_value ch =
    if leb b'0' ch && leb ch b'9'
    then some (ch - b'0')
    else if leb b'a' ch && leb ch b'f'
    then some (10 + ch - b'a')
    else if leb b'A' ch && leb ch b'F'
    then some (10 + ch - b'A')
    else none

-- The loop over the pairs. The bits of `high << 4` and `low` do not overlap.
unfoldable pub decode_pairs : Text → Option Text
unfolding hex_value
decode_pairs (h ∷ l ∷ text) = elim (hex_value h) [
  | none ↦ none
  | some high ↦ elim (hex_value l) [
    | none ↦ none
    | some low ↦ elim (decode_pairs text) [
      | none ↦ none
      | some rest ↦ some ((high * 16 + low) ∷ rest)
    ]
  ]
]
decode_pairs _ = some []

unfoldable pub hex_decode : Text → Option Text
unfolding decode_pairs
hex_decode text = if length text % 2 == 0 then decode_pairs text else none

abbrev pub onto_first : ℕ → List Text → List Text
onto_first ch [] = (ch ∷ []) ∷ []
onto_first ch (field ∷ fields) = (ch ∷ field) ∷ fields

-- What `std::getline` hands over, delimiter by delimiter. Nothing follows a last delimiter.
unfoldable pub split : ℕ → Text → List Text
split separator [] = []
split separator (ch ∷ text) =
    let rest = split separator text in if ch == separator then [] ∷ rest else onto_first ch rest
