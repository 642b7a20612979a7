-- ===== src/Base/Decimal.antt =====
-- Numbers in decimal, as `operator<<` and `std::to_string` write them and `strtol` reads them.
use foobar_universal_multiro.Base.{
  Bool-cases, inl, inr, is_empty-cases, ◌⊎◌, ltb, leb, if◌then◌else◌, Text, is_empty, All,
}
use Prim.Native.Nat.{ℕ, zero, suc, ◌+◌, ◌-◌, ◌*◌, ◌/◌, ◌%◌, ◌<◌}
use mathlib.Core.Path.{◌≡◌}
use mathlib.Core.Bool.{Bool, true, ◌&&◌}
use mathlib.Core.List.{[], ◌∷◌}
use mathlib.Core.Option.{Option, none, some}
use mathlib.Core.Logic.{◌≢◌}
use native.Mathlib.Omega.{arith}

abbrev pub is_digit : ℕ → Bool
is_digit c = leb b'0' c && leb c b'9'

abbrev pub IsDigit : ℕ → Type 0
IsDigit c = is_digit c ≡ true

-- The digits in front of `later`. A number has no more digits than itself and one.
pub digits_onto : ℕ → ℕ → Text → Text
digits_onto zero n later = later
digits_onto (suc fuel) n later =
    let longer = digits_onto fuel (n / 10) ((b'0' + n % 10) ∷ later) in
    if ltb n 10 then (b'0' + n) ∷ later else longer

unfoldable pub decimal : ℕ → Text
unfolding digits_onto
decimal n = digits_onto (suc n) n []

-- All the characters as digits; `none` where one is no digit.
unfoldable pub read_digits : ℕ → Text → Option ℕ
read_digits n [] = some n
read_digits n (c ∷ text) = if is_digit c then read_digits (n * 10 + (c - b'0')) text else none

-- At least one digit, and nothing else.
unfoldable pub read_decimal : Text → Option ℕ
unfolding read_digits
read_decimal text = if is_empty text then none else read_digits 0 text

digits_onto-IsDigit :
    (fuel n : ℕ) (later : Text) → All IsDigit later → All IsDigit (digits_onto fuel n later)
unfolding digits_onto
digits_onto-IsDigit zero n later h = h
digits_onto-IsDigit (suc fuel) n later h =
    ground (arith, digits_onto-IsDigit fuel (n / 10) ((b'0' + n % 10) ∷ later))

pub decimal-IsDigit : (n : ℕ) → All IsDigit (decimal n)
unfolding decimal
decimal-IsDigit n = digits_onto-IsDigit (suc n) n [] tt

read_digits-digits_onto :
    (fuel n : ℕ) (later : Text)
    → n < fuel
    → read_digits 0 (digits_onto fuel n later) ≡ read_digits n later
unfolding digits_onto read_digits
read_digits-digits_onto zero n later h = absurd (omega arith)
read_digits-digits_onto (suc fuel) n later h =
    ground (arith, read_digits-digits_onto fuel (n / 10) ((b'0' + n % 10) ∷ later))

digits_onto-ne-nil :
    (fuel n : ℕ) (later : Text) → (0 < fuel) ⊎ (later ≢ []) → digits_onto fuel n later ≢ []
unfolding digits_onto
digits_onto-ne-nil zero n later (inl h) = absurd (omega arith)
digits_onto-ne-nil zero n later (inr h) = h
digits_onto-ne-nil (suc fuel) n later h = elim (Bool-cases (ltb n 10)) [
  | inl e ↦ rw e (λ p. cc)
  | inr e ↦ rw e (digits_onto-ne-nil fuel (n / 10) ((b'0' + n % 10) ∷ later) (inr (λ p. cc)))
]

pub decimal-ne-nil : (n : ℕ) → decimal n ≢ []
unfolding decimal
decimal-ne-nil n = digits_onto-ne-nil (suc n) n [] (inl (omega arith))

read_digits-decimal : (n : ℕ) → read_digits 0 (decimal n) ≡ some n
unfolding decimal read_digits
read_digits-decimal n = read_digits-digits_onto (suc n) n [] (omega arith)

-- What was written is read back.
pub read_decimal-decimal : (n : ℕ) → read_decimal (decimal n) ≡ some n
unfolding read_decimal
read_decimal-decimal n =
    ground (arith, is_empty-cases (decimal n), decimal-ne-nil n, read_digits-decimal n)
