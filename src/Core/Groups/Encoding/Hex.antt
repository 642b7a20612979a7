-- ===== src/Core/Groups/Encoding/Hex.antt =====
-- `hex_encode` and `hex_decode`.
use mathlib.Core.Option.{some-injective}
use foobar_universal_multiro.Base.{
  All, Bool, Option, Text, [], every_until, every_until_at, arith, false, leb, length, none, refl,
  some, true, ℕ, ◌%◌, ◌&&◌, ◌*◌, ◌+◌, ◌/◌, ◌<◌, ◌==◌, ◌||◌, ◌∷◌, ◌≡◌, ◌≢◌, Option-cases, inl, inr,
  subst,
}
use foobar_universal_multiro.Core.Groups.Encoding.{
  nth, hex_digits, hex_encode, hex_value, hex_decode, decode_pairs,
}

abbrev pub IsByte : ℕ → Type 0
IsByte b = b < 256

-- 0 to 9 and a to f.
abbrev is_hex_digit : ℕ → Bool
is_hex_digit c = (leb b'0' c && leb c b'9') || (leb b'a' c && leb c b'f')

abbrev pub IsHexDigit : ℕ → Type 0
IsHexDigit c = is_hex_digit c ≡ true

abbrev is_value : Option ℕ → ℕ → Bool
is_value none n = false
is_value (some m) n = m == n

-- The digit of a value below 16 is one, and has that value.
abbrev digit_is_right : ℕ → Bool
digit_is_right n = is_hex_digit (nth hex_digits n) && is_value (hex_value (nth hex_digits n)) n

digit_table : every_until digit_is_right 16 ≡ true
unfolding every_until hex_value
digit_table = refl

digit_facts :
    (n : ℕ) → n < 16 → IsHexDigit (nth hex_digits n) × (hex_value (nth hex_digits n) ≡ some n)
digit_facts n h = ground (arith, every_until_at digit_is_right 16 n h digit_table)

pub hex_encode-IsHexDigit : (text : Text) → All IsHexDigit (hex_encode text)
unfolding hex_encode
hex_encode-IsHexDigit [] = tt
hex_encode-IsHexDigit (b ∷ text) = (
  (digit_facts (b / 16 % 16) (omega arith)).0,
  ((digit_facts (b % 16) (omega arith)).0, hex_encode-IsHexDigit text),
)

pub hex_encode-ne-nil : (text : Text) → text ≢ [] → hex_encode text ≢ []
unfolding hex_encode
hex_encode-ne-nil [] h = absurd (h refl)
hex_encode-ne-nil (b ∷ text) h = λ e. cc

pub length-hex_encode : (text : Text) → length (hex_encode text) ≡ 2 * length text
unfolding hex_encode
length-hex_encode [] = refl
length-hex_encode (b ∷ text) = omega (arith, length-hex_encode text)

pub decode_pairs-hex_encode :
    (text : Text) → All IsByte text → decode_pairs (hex_encode text) ≡ some text
unfolding decode_pairs hex_encode
decode_pairs-hex_encode [] h = refl
decode_pairs-hex_encode (b ∷ text) h =
    let (_, high) = digit_facts (b / 16 % 16) (omega arith) in
    let (_, low) = digit_facts (b % 16) (omega arith) in
    let whole : b / 16 % 16 * 16 + b % 16 ≡ b = omega (arith, h.0) in
    ground (arith, high, low, whole, decode_pairs-hex_encode text h.1)

-- Decoding what was encoded gives the text back, whatever bytes it holds.
pub hex_decode-hex_encode :
    (text : Text) → All IsByte text → hex_decode (hex_encode text) ≡ some text
unfolding hex_decode
hex_decode-hex_encode text h =
    ground (arith, length-hex_encode text, decode_pairs-hex_encode text h)

hex_value-lt : (ch n : ℕ) → hex_value ch ≡ some n → n < 16
unfolding hex_value
hex_value-lt ch n h = ground arith

-- Every bind that gives a value had one.
pub decode_pairs-IsByte : (text out : Text) → decode_pairs text ≡ some out → All IsByte out
unfolding decode_pairs
decode_pairs-IsByte [] out h = subst (All IsByte) (some-injective [] out h) tt
decode_pairs-IsByte (h ∷ []) out e = subst (All IsByte) (some-injective [] out e) tt
decode_pairs-IsByte (h ∷ l ∷ text) out e = elim (Option-cases (hex_value h)) [
  | inl none_h ↦ absurd (ground (arith, none_h))
  | inr (high, eh) ↦ elim (Option-cases (hex_value l)) [
    | inl none_l ↦ absurd (ground (arith, eh, none_l))
    | inr (low, el) ↦ elim (Option-cases (decode_pairs text)) [
      | inl none_r ↦ absurd (ground (arith, eh, el, none_r))
      | inr (rest, er) ↦
          let whole : (high * 16 + low) ∷ rest ≡ out = ground (arith, eh, el, er) in
          subst (All IsByte) whole (
            omega (arith, hex_value-lt h high eh, hex_value-lt l low el),
            decode_pairs-IsByte text rest er,
          )
    ]
  ]
]

-- What was decoded is a text of bytes.
pub hex_decode-IsByte : (text out : Text) → hex_decode text ≡ some out → All IsByte out
unfolding hex_decode
hex_decode-IsByte text out h = decode_pairs-IsByte text out (ground arith)
